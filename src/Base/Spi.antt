-- ===== src/Base/Spi.antt =====
-- The bus of client/wisp-base/wired/spi.c. The device at the other end is not a part of the
-- program: it is a parameter that answers each byte with one.
pub mod Transaction
use wisp_ert.Common.{
  ℕ, zero, suc, ◌+◌, ◌==◌, Bool, true, false, Option, none, some, List, [], ◌∷◌, get_elem?, add16,
  sub16, Outcome, done, fail, fault, out_of_fuel, M, pure,
}
use wisp_ert.Common.Memory.{store}

-- `spiSM`, the chip select pin of the device, the device, and `gpRxBuf`
pub record Spi (D : Type 0) : Type 0 where
  pub port_in_use : Bool
  pub new_data_received : Bool
  pub cur_rx : ℕ
  pub cur_tx : ℕ
  pub bytes_to_send : ℕ
  pub cs : Bool
  pub device : D
  pub gp_rx_buf : List ℕ

module _ {D : Type 0} where
  -- "State variable initialization" of `SPI_initialize`
  unfoldable pub initialize : M (Spi D) Bool
  initialize s = done true (record s {
    port_in_use = false;
    new_data_received = false;
    cur_rx = 0;
    cur_tx = 0;
    bytes_to_send = 0;
  })

  -- `SPI_acquirePort` and `SPI_releasePort`; SUCCESS is `true`.
  unfoldable pub acquire_port : M (Spi D) Bool
  acquire_port s = elim s.port_in_use [
    | true ↦ done false s
    | false ↦ done true (record s { port_in_use = true })
  ]

  unfoldable pub release_port : M (Spi D) Bool
  release_port s = elim s.port_in_use [
    | true ↦ done true (record s { port_in_use = false })
    | false ↦ done false s
  ]

module _ {D : Type 0} (exchange : ℕ → D → ℕ × D) where
  -- one round of the loop: a byte out of the transmit buffer, and its answer into the receive
  -- buffer; a byte has come when the device has answered
  unfoldable pub shift : (tx : List ℕ) → M (List ℕ × Spi D) (Unit {0})
  shift tx (rx, s) = elim (get_elem? tx s.cur_tx) [
    | none ↦ fault
    | some byte ↦ elim (store rx s.cur_rx ((exchange byte s.device).0 ∷ [])) [
      | none ↦ fault
      | some rx' ↦ done tt (
        rx',
        record s {
          new_data_received = false;
          device = (exchange byte s.device).1;
          cur_tx = add16 s.cur_tx 1;
          cur_rx = add16 s.cur_rx 1;
          bytes_to_send = sub16 s.bytes_to_send 1;
        },
      )
    ]
  ]

  -- `do ... while (spiSM.uiBytesToSend)`, on fuel
  unfoldable pub shift_all : ℕ → (tx : List ℕ) → M (List ℕ × Spi D) (Unit {0})
  unfolding shift
  shift_all zero tx s = out_of_fuel
  shift_all (suc fuel) tx s = elim (shift tx s) [
    | done _ s' ↦ elim (s'.1.bytes_to_send == 0) [
      | true ↦ done tt s'
      | false ↦ shift_all fuel tx s'
    ]
    | fail e s' ↦ fail e s'
    | fault ↦ fault
    | out_of_fuel ↦ out_of_fuel
  ]

  -- `SPI_transaction`. The fuel is the number of bytes.
  unfoldable pub transaction : (tx : List ℕ) (size : ℕ) → M (List ℕ × Spi D) Bool
  unfolding shift_all
  transaction tx size (rx, s) = elim s.port_in_use [
    | false ↦ done false (rx, s)
    | true ↦ elim (size == 0) [
      | true ↦ done false (rx, s)
      | false ↦
          elim (shift_all size tx (
            rx,
            record s { new_data_received = false; cur_rx = 0; cur_tx = 0; bytes_to_send = size },
          )) [
            | done _ s' ↦ done true s'
            | fail e s' ↦ fail e s'
            | fault ↦ fault
            | out_of_fuel ↦ out_of_fuel
          ]
    ]
  ]
