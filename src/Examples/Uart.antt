-- ===== src/Examples/Uart.antt =====
-- Small transfers over the serial port of client/wisp-base/wired/uart.c.
use wisp_ert.Common.{
  ℕ, ◌≡◌, refl, false, Option, none, some, List, [], ◌∷◌, arith, take, drop, done,
}
use wisp_ert.Common.Memory.{splice}
use wisp_ert.Base.Uart.{Uart, Interrupt, rx_ifg, tx_ifg, stt_ifg, send, receive, init_state}
use wisp_ert.Base.Uart.Polled.{crit_receive}
use wisp_ert.Base.Uart.Send.{Sent, send-Sent}
use wisp_ert.Base.Uart.Receive.{upto, arriving}
use wisp_ert.Base.Uart.Agree.{heard, crit_receive-receive}
use wisp_ert.Base.Uart.Empty.{receive-empty}

abbrev port : Uart
port = record {
  is_tx_busy = false;
  tx_ptr = 0;
  tx_bytes_remaining = 0;
  is_rx_busy = false;
  rx_ptr = 0;
  rx_bytes_remaining = 0;
  rx_term_char = 0;
  tx_ie = false;
  rx_ie = false;
  led2 = false;
  mem = 7 ∷ 8 ∷ 9 ∷ 0 ∷ 0 ∷ [];
  wire = [];
}

port-init : init_state port ≡ port
unfolding init_state
port-init = refl

abbrev free_thrice : List Interrupt
free_thrice = tx_ifg ∷ stt_ifg ∷ tx_ifg ∷ tx_ifg ∷ []

send-Sent_example :
    (u' : Uart) × (later : List Interrupt) × (send 1 2 free_thrice port ≡ done later u')
    × Sent port (take 2 (drop 1 port.mem)) u'
send-Sent_example = send-Sent port 1 1 free_thrice refl (omega arith) (omega arith) tt (omega arith)

abbrev readings : List (Option ℕ)
readings = none ∷ some 5 ∷ none ∷ none ∷ some 13 ∷ some 6 ∷ []

crit_receive-receive_example :
    (polled : Uart) × (by_isr : Uart) × (later : List Interrupt) × (rest : List (Option ℕ))
    × (crit_receive 2 3 13 [] readings port ≡ done ([], rest) polled)
    × (receive 2 3 13 (arriving (heard readings)) port ≡ done later by_isr)
    × (polled.mem ≡ by_isr.mem)
    × (by_isr.mem ≡ splice port.mem 2 (upto 13 3 (heard readings)))
    × (polled.is_rx_busy ≡ false)
    × (by_isr.is_rx_busy ≡ false)
crit_receive-receive_example =
    crit_receive-receive port 2 2 13 readings refl (omega arith) (omega arith) (omega arith)

receive-empty_example :
    (u' : Uart) × (receive 4 0 13 (rx_ifg 5 ∷ rx_ifg 13 ∷ []) port ≡ done [] u')
    × (u'.mem ≡ splice port.mem 4 (13 ∷ []))
receive-empty_example = receive-empty port 4 5 13 refl (omega arith) (omega arith)
