-- ===== src/Base/Uart.antt =====
-- The serial port of client/wisp-base/wired/uart.c. Interrupts and readings of the flags come from
-- the hardware: a call that waits takes them from a list, and starves where the list ends.
pub mod Send
pub mod Polled
pub mod Receive
pub mod Agree
pub mod Empty
pub mod Baud
use wisp_ert.Common.{
  ℕ, zero, suc, ◌+◌, ◌-◌, ◌==◌, Bool, true, false, ◌||◌, not, Option, none, some, List, [], ◌∷◌,
  ◌++◌, get_elem?, if◌then◌else◌, sub16, done, fault, out_of_fuel, M, ◌>>=◌, ◌>>◌, pure, get,
  modify, starve,
}
use wisp_ert.Common.Memory.{store}

-- `UART_SM`, and what it works on: the interrupt enables, the second LED, the memory that the
-- pointers point into, and the bytes that have been written to the transmit register
pub record Uart : Type 0 where
  pub is_tx_busy : Bool
  pub tx_ptr : ℕ
  pub tx_bytes_remaining : ℕ
  pub is_rx_busy : Bool
  pub rx_ptr : ℕ
  pub rx_bytes_remaining : ℕ
  pub rx_term_char : ℕ
  pub tx_ie : Bool
  pub rx_ie : Bool
  pub led2 : Bool
  pub mem : List ℕ
  pub wire : List ℕ

-- the interrupt vectors; a received byte comes with its own
pub data Interrupt : Type 0 where
  usci_none : Interrupt
  rx_ifg : ℕ → Interrupt
  tx_ifg : Interrupt
  stt_ifg : Interrupt
  tx_cpt_ifg : Interrupt

-- "Initialize module state" of `UART_initCustom`
unfoldable pub init_state : Uart → Uart
init_state u = record u {
  is_tx_busy = false;
  tx_bytes_remaining = 0;
  is_rx_busy = false;
  rx_bytes_remaining = 0;
  rx_term_char = 0;
}

-- `UCA0TXBUF = *(UART_SM.txPtr++)`
unfoldable pub load_tx : M Uart (Unit {0})
load_tx u = elim (get_elem? u.mem u.tx_ptr) [
  | none ↦ fault
  | some byte ↦ done tt (record u { tx_ptr = suc u.tx_ptr; wire = u.wire ++ (byte ∷ []) })
]

-- `*(UART_SM.rxPtr++) = rec`
unfoldable pub store_rx : ℕ → M Uart (Unit {0})
store_rx rec u = elim (store u.mem u.rx_ptr (rec ∷ [])) [
  | none ↦ fault
  | some mem ↦ done tt (record u { rx_ptr = suc u.rx_ptr; mem = mem })
]

-- `UART_SM.txBytesRemaining--` and `UART_SM.rxBytesRemaining--`
abbrev pub tx_count_down : Uart → Uart
tx_count_down u = record u { tx_bytes_remaining = sub16 u.tx_bytes_remaining 1 }

abbrev pub rx_count_down : Uart → Uart
rx_count_down u = record u { rx_bytes_remaining = sub16 u.rx_bytes_remaining 1 }

-- the case USCI_UART_UCRXIFG of `USCI_A0_ISR`, for the byte in the receive register
unfoldable pub isr_rx : ℕ → M Uart (Unit {0})
unfolding store_rx
isr_rx byte = do
  u ← get
  modify rx_count_down
  rec ←
      if u.rx_bytes_remaining == 0
      then pure (255 - u.rx_term_char)
      else (store_rx byte >>= λ _. pure byte)
  modify (λ u.
      if (u.rx_bytes_remaining == 0) || (rec == u.rx_term_char)
      then record u { rx_ie = false; is_rx_busy = false }
      else u)

-- the case USCI_UART_UCTXIFG
unfoldable pub isr_tx : M Uart (Unit {0})
unfolding load_tx
isr_tx = do
  u ← get
  modify tx_count_down
  (if u.tx_bytes_remaining == 0
      then modify (λ u. record u { tx_ie = false; is_tx_busy = false })
      else load_tx)

-- `USCI_A0_ISR`
unfoldable pub isr : Interrupt → M Uart (Unit {0})
unfolding isr_rx isr_tx
isr i =
    modify (λ u. record u { led2 = not u.led2 })
    >> elim i [ rx_ifg byte ↦ isr_rx byte | tx_ifg ↦ isr_tx | _ ↦ pure tt ]

-- `while (busy) ;` as interrupts come in: the result is those that come later
unfoldable pub wait_while : (Uart → Bool) → List Interrupt → M Uart (List Interrupt)
unfolding isr
wait_while busy [] u = elim (busy u) [ true ↦ out_of_fuel | false ↦ done [] u ]
wait_while busy (i ∷ later) u = elim (busy u) [
  | true ↦ (isr i >>= λ _. wait_while busy later) u
  | false ↦ done (i ∷ later) u
]

-- `UART_asyncSend` and `UART_send`
unfoldable pub async_send : (tx_buf size : ℕ) → List Interrupt → M Uart (List Interrupt)
unfolding wait_while load_tx
async_send tx_buf size interrupts = do
  later ← wait_while (λ u. u.is_tx_busy) interrupts
  modify (λ u. record u {
    is_tx_busy = true;
    tx_ptr = tx_buf;
    tx_bytes_remaining = sub16 size 1;
    tx_ie = true;
  })
  load_tx
  pure later

unfoldable pub send : (tx_buf size : ℕ) → List Interrupt → M Uart (List Interrupt)
unfolding async_send wait_while
send tx_buf size interrupts = async_send tx_buf size interrupts >>= wait_while (λ u. u.is_tx_busy)

-- `UART_asyncReceive` and `UART_receive`
unfoldable pub async_receive :
    (rx_buf size terminate : ℕ) → List Interrupt → M Uart (List Interrupt)
unfolding wait_while
async_receive rx_buf size terminate interrupts = do
  later ← wait_while (λ u. u.is_rx_busy) interrupts
  modify (λ u. record u {
    is_rx_busy = true;
    rx_ptr = rx_buf;
    rx_bytes_remaining = size;
    rx_term_char = terminate;
    rx_ie = true;
  })
  pure later

unfoldable pub receive : (rx_buf size terminate : ℕ) → List Interrupt → M Uart (List Interrupt)
unfolding async_receive wait_while
receive rx_buf size terminate interrupts =
    async_receive rx_buf size terminate interrupts >>= wait_while (λ u. u.is_rx_busy)
