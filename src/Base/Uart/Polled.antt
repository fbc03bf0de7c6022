-- ===== src/Base/Uart/Polled.antt =====
-- `UART_critSend` and `UART_critReceive` of client/wisp-base/wired/uart.c, which read the flags in
-- place of interrupts: the readings are a list, and a byte that has come is a part of its reading.
use wisp_ert.Common.{
  ℕ, zero, suc, ◌==◌, true, false, Bool, Option, none, some, List, [], ◌∷◌, M, ◌>>=◌, ◌>>◌, pure,
  get, modify, starve,
}
use wisp_ert.Base.Uart.{
  Uart, Interrupt, wait_while, load_tx, store_rx, tx_count_down, rx_count_down,
}

-- `while (!(UCA0IFG & UCTXIFG)) ;`
unfoldable pub tx_complete : List Bool → M Uart (List Bool)
tx_complete [] = starve
tx_complete (true ∷ polls) = pure polls
tx_complete (false ∷ polls) = tx_complete polls

-- `while (UART_SM.txBytesRemaining--)`, on fuel
unfoldable pub send_polled : ℕ → List Bool → M Uart (List Bool)
unfolding load_tx tx_complete
send_polled zero polls = starve
send_polled (suc fuel) polls = do
  u ← get
  modify tx_count_down
  elim (u.tx_bytes_remaining == 0) [
    | true ↦ pure polls
    | false ↦ load_tx >> tx_complete polls >>= send_polled fuel
  ]

-- `UART_critSend`. The fuel is the number of bytes and one more.
unfoldable pub crit_send :
    (tx_buf size : ℕ) → List Interrupt → List Bool → M Uart (List Interrupt × List Bool)
unfolding wait_while send_polled
crit_send tx_buf size interrupts polls = do
  later ← wait_while (λ u. u.is_tx_busy) interrupts
  modify (λ u. record u { is_tx_busy = true; tx_ptr = tx_buf; tx_bytes_remaining = size })
  polls' ← send_polled (suc size) polls
  modify (λ u. record u { is_tx_busy = false })
  pure (later, polls')

-- `while (!(UCA0IFG & UCRXIFG)) ;` and the byte that has come
unfoldable pub rx_complete : List (Option ℕ) → M Uart (ℕ × List (Option ℕ))
rx_complete [] = starve
rx_complete (some byte ∷ polls) = pure (byte, polls)
rx_complete (none ∷ polls) = rx_complete polls

-- `while (UART_SM.rxBytesRemaining--)`, on fuel
unfoldable pub receive_polled : ℕ → List (Option ℕ) → M Uart (List (Option ℕ))
unfolding store_rx rx_complete
receive_polled zero polls = starve
receive_polled (suc fuel) polls = do
  u ← get
  modify rx_count_down
  elim (u.rx_bytes_remaining == 0) [
    | true ↦ pure polls
    | false ↦ do
      got ← rx_complete polls
      store_rx (got.0)
      elim (got.0 == u.rx_term_char) [ true ↦ pure (got.1) | false ↦ receive_polled fuel (got.1) ]
  ]

-- `UART_critReceive`. The fuel is the number of bytes and one more.
unfoldable pub crit_receive :
    (rx_buf size terminate : ℕ)
    → List Interrupt
    → List (Option ℕ)
    → M Uart (List Interrupt × List (Option ℕ))
unfolding wait_while receive_polled
crit_receive rx_buf size terminate interrupts polls = do
  later ← wait_while (λ u. u.is_rx_busy) interrupts
  modify (λ u. record u {
    is_rx_busy = true;
    rx_ptr = rx_buf;
    rx_bytes_remaining = size;
    rx_term_char = terminate;
  })
  polls' ← receive_polled (suc size) polls
  modify (λ u. record u { is_rx_busy = false })
  pure (later, polls')
