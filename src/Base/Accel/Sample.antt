-- ===== src/Base/Accel/Sample.antt =====
-- What client/wisp-base/Sensors/accel.c does on the bus, and the samples that it reads.
use wisp_ert.Common.{
  ℕ, zero, suc, ◌+◌, ◌*◌, ◌/◌, ◌%◌, ◌<◌, ◌≤◌, ◌≡◌, refl, ap, ◌∙◌, Bool, true, false, List, [], ◌∷◌,
  arith, length, take, done, some, get_elem?, and_then, AllBytes,
}
use wisp_ert.Common.Memory.{overwrite}
use wisp_ert.Base.Spi.{Spi, acquire_port, release_port, transaction}
use wisp_ert.Base.Spi.Transaction.{answers, after, at_byte, transaction_exact}
use wisp_ert.Base.Accel.{
  ThreeAxis, wait_port, set_cs, transact, command_bus, rx_byte, single_sample, single_sample_fifo,
  adxl_read_xyz_8bit, adxl_read_xyz_16bit_fifo, fifo_axis,
}

-- the three axes of a FIFO answer, as the middle eight bits of each 16-bit entry
abbrev pub middle : (low high : ℕ) → ℕ
middle low high = (low + high * 256) / 16 % 256

get_elem?-overwrite :
    (mem ys : List ℕ) (i v : ℕ)
    → length ys ≤ length mem
    → get_elem? ys i ≡ some v
    → get_elem? (overwrite mem ys) i ≡ some v
get_elem?-overwrite mem [] i v h e = cc
get_elem?-overwrite [] (y ∷ ys) i v h e = absurd (omega arith)
get_elem?-overwrite (x ∷ mem) (y ∷ ys) zero v h e = e
get_elem?-overwrite (x ∷ mem) (y ∷ ys) (suc i) v h e =
    get_elem?-overwrite mem ys i v (omega arith) e

module _ {D : Type 0} (exchange : ℕ → D → ℕ × D) (chip_select : Bool → D → D) where
  -- the state after a command: the device has been selected, has answered, and is deselected
  abbrev pub commanded : List ℕ → Spi D → Spi D
  commanded command s = record s {
    port_in_use = false;
    new_data_received = false;
    cur_rx = length command;
    cur_tx = length command;
    bytes_to_send = 0;
    cs = true;
    device = chip_select true (after exchange command (chip_select false s.device));
    gp_rx_buf = overwrite s.gp_rx_buf (answers exchange command (chip_select false s.device));
  }

  take-all : {A : Type 0} (xs : List A) → take (length xs) xs ≡ xs
  take-all [] = refl
  take-all (x ∷ xs) = ap (◌∷◌ x) (take-all xs)

  selected : Spi D → Spi D
  selected s = record s { port_in_use = true; cs = false; device = chip_select false s.device }

  transact-selected :
      (s : Spi D) (byte : ℕ) (rest : List ℕ)
      → length (byte ∷ rest) ≤ length s.gp_rx_buf
      → length (byte ∷ rest) < 65536
      → transaction exchange (byte ∷ rest) (length (byte ∷ rest)) (s.gp_rx_buf, selected s)
        ≡ done true (
          overwrite s.gp_rx_buf (answers exchange (byte ∷ rest) (chip_select false s.device)),
          at_byte exchange
              (selected s)
              (length (byte ∷ rest))
              0
              (after exchange (byte ∷ rest) (chip_select false s.device)),
        )
  unfolding selected
  transact-selected s byte rest room small = ground (
    arith,
    take-all rest,
    transaction_exact exchange (byte ∷ rest) s.gp_rx_buf (length (byte ∷ rest)) (selected s)
        (omega arith) room small,
  )

  command_bus-free :
      (s : Spi D) (byte : ℕ) (rest : List ℕ)
      → s.port_in_use ≡ false
      → length (byte ∷ rest) ≤ length s.gp_rx_buf
      → length (byte ∷ rest) < 65536
      → command_bus exchange chip_select (byte ∷ rest) s ≡ done tt (commanded (byte ∷ rest) s)
  unfolding command_bus wait_port acquire_port set_cs transact release_port selected
  command_bus-free s byte rest free room small =
      ground (arith, free, transact-selected s byte rest room small)

  rx_byte-answer :
      (command : List ℕ) (s : Spi D) (i v : ℕ) (answer : List ℕ)
      → answers exchange command (chip_select false s.device) ≡ answer
      → length answer ≤ length s.gp_rx_buf
      → get_elem? answer i ≡ some v
      → rx_byte exchange chip_select i (commanded command s) ≡ done v (commanded command s)
  unfolding rx_byte
  rx_byte-answer command s i v answer told room e =
      rw (told, get_elem?-overwrite s.gp_rx_buf answer i v room e)

  single_sample-commanded :
      (result : ThreeAxis) (s : Spi D) (a0 a1 vx vy vz : ℕ)
      → s.port_in_use ≡ false
      → 20 ≤ length s.gp_rx_buf
      → answers exchange adxl_read_xyz_8bit (chip_select false s.device)
        ≡ a0 ∷ a1 ∷ vx ∷ vy ∷ vz ∷ []
      → single_sample exchange chip_select result s
        ≡ done (record { x = vx; y = vy; z = vz }) (commanded adxl_read_xyz_8bit s)
  unfolding single_sample
  single_sample-commanded result s a0 a1 vx vy vz free room told = rw (
    command_bus-free s 11 (8 ∷ 0 ∷ 0 ∷ 0 ∷ []) free (omega arith) (omega arith),
    and_then,
    rx_byte-answer adxl_read_xyz_8bit s 2 vx _ told (omega arith) refl,
    rx_byte-answer adxl_read_xyz_8bit s 3 vy _ told (omega arith) refl,
    rx_byte-answer adxl_read_xyz_8bit s 4 vz _ told (omega arith) refl,
  )

  single_sample_fifo-commanded :
      (result : ThreeAxis) (s : Spi D) (a0 xl xh yl yh zl zh : ℕ)
      → s.port_in_use ≡ false
      → 20 ≤ length s.gp_rx_buf
      → answers exchange adxl_read_xyz_16bit_fifo (chip_select false s.device)
        ≡ a0 ∷ xl ∷ xh ∷ yl ∷ yh ∷ zl ∷ zh ∷ []
      → single_sample_fifo exchange chip_select result s
        ≡ done
            (record { x = fifo_axis xh xl; y = fifo_axis yh yl; z = fifo_axis zh zl })
            (commanded adxl_read_xyz_16bit_fifo s)
  unfolding single_sample_fifo
  single_sample_fifo-commanded result s a0 xl xh yl yh zl zh free room told = rw (
    command_bus-free s 13 (0 ∷ 0 ∷ 0 ∷ 0 ∷ 0 ∷ 0 ∷ []) free (omega arith) (omega arith),
    and_then,
    rx_byte-answer adxl_read_xyz_16bit_fifo s 1 xl _ told (omega arith) refl,
    rx_byte-answer adxl_read_xyz_16bit_fifo s 2 xh _ told (omega arith) refl,
    rx_byte-answer adxl_read_xyz_16bit_fifo s 3 yl _ told (omega arith) refl,
    rx_byte-answer adxl_read_xyz_16bit_fifo s 4 yh _ told (omega arith) refl,
    rx_byte-answer adxl_read_xyz_16bit_fifo s 5 zl _ told (omega arith) refl,
    rx_byte-answer adxl_read_xyz_16bit_fifo s 6 zh _ told (omega arith) refl,
  )

middle-axis : (low high : ℕ) → low < 256 → fifo_axis high low ≡ middle low high
middle-axis low high h = omega arith

axes-middle :
    (xl xh yl yh zl zh : ℕ)
    → AllBytes (xl ∷ xh ∷ yl ∷ yh ∷ zl ∷ zh ∷ [])
    → ◌≡◌ {A = ThreeAxis}
        (record { x = fifo_axis xh xl; y = fifo_axis yh yl; z = fifo_axis zh zl })
        (record { x = middle xl xh; y = middle yl yh; z = middle zl zh })
axes-middle xl xh yl yh zl zh (a, (b, (c, (d, (e, _))))) =
    rw (middle-axis xl xh a, middle-axis yl yh c, middle-axis zl zh e)

-- A device that shows a sample both ways: what it answers, once selected, to a read of the
-- registers and to a read of the FIFO.
pub record Shows {D : Type 0} (exchange : ℕ → D → ℕ × D) (d : D) (registers fifo : List ℕ)
    : Type 0 where
  pub by_register : answers exchange adxl_read_xyz_8bit d ≡ registers
  pub by_fifo : answers exchange adxl_read_xyz_16bit_fifo d ≡ fifo

-- With the port free and the receive buffer in place, a sample read by register gives the last three
-- of the device's five answers, and one read from the FIFO the middle eight bits of each 16-bit
-- entry; either way the device is deselected after exactly that command, and the port is free.
pub sample-answers :
    {D : Type 0} (exchange : ℕ → D → ℕ × D) (chip_select : Bool → D → D) (result : ThreeAxis)
    (s : Spi D) (a0 a1 vx vy vz f0 xl xh yl yh zl zh : ℕ)
    → s.port_in_use ≡ false
    → 20 ≤ length s.gp_rx_buf
    → Shows exchange
        (chip_select false s.device)
        (a0 ∷ a1 ∷ vx ∷ vy ∷ vz ∷ [])
        (f0 ∷ xl ∷ xh ∷ yl ∷ yh ∷ zl ∷ zh ∷ [])
    → AllBytes (xl ∷ xh ∷ yl ∷ yh ∷ zl ∷ zh ∷ [])
    → (single_sample exchange chip_select result s
        ≡ done
            (record { x = vx; y = vy; z = vz })
            (commanded exchange chip_select adxl_read_xyz_8bit s))
      × (single_sample_fifo exchange chip_select result s
          ≡ done
              (record { x = middle xl xh; y = middle yl yh; z = middle zl zh })
              (commanded exchange chip_select adxl_read_xyz_16bit_fifo s))
sample-answers exchange chip_select result s a0 a1 vx vy vz f0 xl xh yl yh zl zh free room shows
      bytes =
    (
      single_sample-commanded exchange chip_select result s a0 a1 vx vy vz free room
          shows.by_register,
      single_sample_fifo-commanded exchange chip_select result s f0 xl xh yl yh zl zh free room
            shows.by_fifo
          ∙ ap (λ r. done r (commanded exchange chip_select adxl_read_xyz_16bit_fifo s))
              (axes-middle xl xh yl yh zl zh bytes),
    )
