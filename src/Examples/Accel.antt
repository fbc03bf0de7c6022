-- ===== src/Examples/Accel.antt =====
-- A device on the bus of client/wisp-base/wired/spi.c that answers as an accelerometer does.
use wisp_ert.Common.{
  ℕ, ◌≡◌, refl, Bool, true, false, ◌&&◌, not, ◌==◌, if◌then◌else◌, List, [], ◌∷◌, arith, done, take,
  replicate,
}
use wisp_ert.Common.Memory.{overwrite}
use wisp_ert.Base.Spi.{Spi, transaction}
use wisp_ert.Base.Spi.Transaction.{answers, after, at_byte, transaction_exact}
use wisp_ert.Base.Accel.{
  ThreeAxis, single_sample, single_sample_fifo, adxl_read_xyz_8bit, adxl_read_xyz_16bit_fifo,
}
use wisp_ert.Base.Accel.Sample.{Shows, commanded, middle, sample-answers}

-- the answers that are left, and those of the two commands
abbrev exchange : ℕ → List ℕ → ℕ × List ℕ
exchange byte (a ∷ d) = (a, d)
exchange byte [] =
    if byte == 11 then (0, 0 ∷ 17 ∷ 18 ∷ 19 ∷ []) else (0, 16 ∷ 1 ∷ 32 ∷ 65 ∷ 48 ∷ 129 ∷ [])

abbrev chip_select : Bool → List ℕ → List ℕ
chip_select level d = []

abbrev bus : Spi (List ℕ)
bus = record {
  port_in_use = false;
  new_data_received = false;
  cur_rx = 0;
  cur_tx = 0;
  bytes_to_send = 0;
  cs = true;
  device = [];
  gp_rx_buf = replicate 20 0;
}

abbrev zero_axes : ThreeAxis
zero_axes = record { x = 0; y = 0; z = 0 }

shows : Shows exchange [] (0 ∷ 0 ∷ 17 ∷ 18 ∷ 19 ∷ []) (0 ∷ 16 ∷ 1 ∷ 32 ∷ 65 ∷ 48 ∷ 129 ∷ [])
shows = record { by_register = refl; by_fifo = refl }

sample-answers_example :
    (single_sample exchange chip_select zero_axes bus
      ≡ done
          (record { x = 17; y = 18; z = 19 })
          (commanded exchange chip_select adxl_read_xyz_8bit bus))
    × (single_sample_fifo exchange chip_select zero_axes bus
        ≡ done
            (record { x = middle 16 1; y = middle 32 65; z = middle 48 129 })
            (commanded exchange chip_select adxl_read_xyz_16bit_fifo bus))
sample-answers_example =
    sample-answers exchange chip_select zero_axes bus 0 0 17 18 19 0 16 1 32 65 48 129 refl
      (omega arith) shows (omega arith)

transaction_exact_example :
    transaction exchange (11 ∷ 8 ∷ 0 ∷ []) 2 (5 ∷ 6 ∷ 7 ∷ [], record bus { port_in_use = true }) ≡ (
      if true && not (2 == 0)
      then done true (
        overwrite (5 ∷ 6 ∷ 7 ∷ []) (answers exchange (take 2 (11 ∷ 8 ∷ 0 ∷ [])) []),
        at_byte exchange
            (record bus { port_in_use = true })
            2
            0
            (after exchange (take 2 (11 ∷ 8 ∷ 0 ∷ [])) []),
      )
      else done false (5 ∷ 6 ∷ 7 ∷ [], record bus { port_in_use = true }))
transaction_exact_example =
    transaction_exact exchange (11 ∷ 8 ∷ 0 ∷ []) (5 ∷ 6 ∷ 7 ∷ []) 2
      (record bus { port_in_use = true }) (omega arith) (omega arith) (omega arith)
