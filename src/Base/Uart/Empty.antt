-- ===== src/Base/Uart/Empty.antt =====
-- What client/wisp-base/wired/uart.c does for a buffer of no bytes.
use wisp_ert.Common.{ℕ, suc, ◌<◌, ◌≡◌, refl, false, not, [], ◌∷◌, arith, length, done}
use wisp_ert.Common.Memory.{splice, store-some}
use wisp_ert.Base.Uart.{Uart, rx_ifg, store_rx, isr, isr_rx, wait_while, async_receive, receive}

-- `UART_receive` of no bytes does not return at once: it drops the first byte that arrives and
-- goes on to store, so that a terminator that arrives next is written behind the buffer's end.
pub receive-empty :
    (u : Uart) (rx_buf byte terminate : ℕ)
    → u.is_rx_busy ≡ false
    → rx_buf < length u.mem
    → terminate < 256
    → (u' : Uart) × (receive rx_buf 0 terminate (rx_ifg byte ∷ rx_ifg terminate ∷ []) u
        ≡ done [] u')
      × (u'.mem ≡ splice u.mem rx_buf (terminate ∷ []))
unfolding receive async_receive wait_while isr isr_rx store_rx
receive-empty u rx_buf byte terminate idle room small = (
  record u {
    is_rx_busy = false;
    rx_ptr = suc rx_buf;
    rx_bytes_remaining = 65534;
    rx_term_char = terminate;
    rx_ie = false;
    led2 = not (not u.led2);
    mem = splice u.mem rx_buf (terminate ∷ []);
  },
  ground (arith, idle, store-some u.mem rx_buf (terminate ∷ [])),
  refl,
)
