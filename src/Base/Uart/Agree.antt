-- ===== src/Base/Uart/Agree.antt =====
-- `UART_critReceive` of client/wisp-base/wired/uart.c stores what `UART_receive` stores.
use wisp_ert.Common.{
  ℕ, zero, suc, ◌+◌, ◌<◌, ◌≤◌, ◌≡◌, refl, inl, inr, true, false, Option, none, some, List, [], ◌∷◌,
  arith, length, ◌==◌, done, u16_mod, and_then, Bool-cases, ◌∙◌, sym, ap, ◌>>◌, pure, modify,
}
use wisp_ert.Common.Memory.{splice, store-some, splice-splice, splice-nil, length-splice}
use wisp_ert.Base.Uart.{Uart, Interrupt, rx_count_down, store_rx, receive}
use wisp_ert.Base.Uart.Polled.{rx_complete, receive_polled, crit_receive}
use wisp_ert.Base.Uart.Receive.{upto, arriving, wait-idle, receive-Received}

-- the bytes that come with the readings of the flag
abbrev pub heard : List (Option ℕ) → List ℕ
heard [] = []
heard (none ∷ polls) = heard polls
heard (some byte ∷ polls) = byte ∷ heard polls

-- the place and number of the bytes that may still come
abbrev Polling : Uart → ℕ → ℕ → Type 0
Polling u terminate n =
    (n < u16_mod)
    × (u.rx_bytes_remaining ≡ n)
    × (u.rx_term_char ≡ terminate)
    × (u.rx_ptr + n ≤ length u.mem)

abbrev stored : Uart → ℕ → Uart
stored u byte = record (rx_count_down u) {
  rx_ptr = suc u.rx_ptr;
  mem = splice u.mem u.rx_ptr (byte ∷ []);
}

-- the state in which the loop begins
abbrev begun : Uart → (rx_buf n terminate : ℕ) → Uart
begun u rx_buf n terminate = record u {
  is_rx_busy = true;
  rx_ptr = rx_buf;
  rx_bytes_remaining = suc n;
  rx_term_char = terminate;
}

-- what the loop stores from a state on
Receives : ℕ → List (Option ℕ) → Uart → List ℕ → Type 0
Receives fuel polls u bytes =
    (u' : Uart) × (rest : List (Option ℕ)) × (receive_polled fuel polls u ≡ done rest u')
    × (u'.mem ≡ splice u.mem u.rx_ptr bytes)

rx_complete-heard :
    (polls : List (Option ℕ)) (u : Uart)
    → 0 < length (heard polls)
    → (byte : ℕ) × (rest : List (Option ℕ)) × (rx_complete polls u ≡ done (byte, rest) u)
      × (heard polls ≡ byte ∷ heard rest)
unfolding rx_complete
rx_complete-heard [] u h = absurd (omega arith)
rx_complete-heard (none ∷ polls) u h = rx_complete-heard polls u h
rx_complete-heard (some byte ∷ polls) u h = (byte, polls, refl, refl)

polled-end :
    (fuel terminate : ℕ) (polls : List (Option ℕ)) (u : Uart)
    → Polling u terminate 0
    → Receives (suc fuel) polls u []
unfolding Receives receive_polled
polled-end fuel terminate polls u p =
    (rx_count_down u, polls, ground (arith, p.1), sym (splice-nil u.mem u.rx_ptr))

-- a round that stores a byte, and is the last one or not
round-last :
    (fuel terminate n byte : ℕ) (polls rest : List (Option ℕ)) (u : Uart)
    → Polling u terminate (suc n)
    → rx_complete polls (rx_count_down u) ≡ done (byte, rest) (rx_count_down u)
    → (byte == terminate) ≡ true
    → receive_polled (suc fuel) polls u ≡ done rest (stored u byte)
unfolding receive_polled store_rx
round-last fuel terminate n byte polls rest u p e ends =
    ground (arith, p.1, e, ends, store-some u.mem u.rx_ptr (byte ∷ []))

round-next :
    (fuel terminate n byte : ℕ) (polls rest : List (Option ℕ)) (u : Uart)
    → Polling u terminate (suc n)
    → rx_complete polls (rx_count_down u) ≡ done (byte, rest) (rx_count_down u)
    → (byte == terminate) ≡ false
    → receive_polled (suc fuel) polls u ≡ receive_polled fuel rest (stored u byte)
unfolding receive_polled store_rx
round-next fuel terminate n byte polls rest u p e goes_on =
    ground (arith, p.1, e, goes_on, store-some u.mem u.rx_ptr (byte ∷ []))

next_byte :
    (fuel terminate n byte : ℕ) (bytes : List ℕ) (polls rest : List (Option ℕ)) (u : Uart)
    → Polling u terminate (suc n)
    → rx_complete polls (rx_count_down u) ≡ done (byte, rest) (rx_count_down u)
    → (byte == terminate) ≡ false
    → Receives fuel rest (stored u byte) bytes
    → Receives (suc fuel) polls u (byte ∷ bytes)
unfolding Receives
next_byte fuel terminate n byte bytes polls rest u p e goes_on (u', later, f, m) = (
  u',
  later,
  round-next fuel terminate n byte polls rest u p e goes_on ∙ f,
  m ∙ splice-splice u.mem u.rx_ptr (byte ∷ []) bytes (suc u.rx_ptr) (omega arith),
)

Polling-next :
    (u : Uart) (terminate n byte : ℕ)
    → Polling u terminate (suc n)
    → Polling (stored u byte) terminate n
Polling-next u terminate n byte p =
    (omega arith, omega arith, p.2, omega (arith, length-splice u.mem u.rx_ptr (byte ∷ [])))

-- The loop stores what `upto` takes of the bytes that come.
polled-Receives :
    (n terminate : ℕ) (polls : List (Option ℕ)) (u : Uart)
    → Polling u terminate n
    → n ≤ length (heard polls)
    → Receives (suc n) polls u (upto terminate n (heard polls))
unfolding Receives
polled-Receives zero terminate polls u p h = polled-end 0 terminate polls u p
polled-Receives (suc n) terminate polls u p h =
    let (byte, rest, e, came) = rx_complete-heard polls (rx_count_down u) (omega arith) in
    elim (Bool-cases (byte == terminate)) [
      | inl ends ↦
          rw (came, ends)
            (stored u byte, rest, round-last (suc n) terminate n byte polls rest u p e ends, refl)
      | inr goes_on ↦
          rw (came, goes_on)
            (next_byte (suc n) terminate n byte _ polls rest u p e goes_on (
              polled-Receives n terminate rest (stored u byte) (Polling-next u terminate n byte p)
                (omega (arith, ap length came))))
    ]

crit_receive-run :
    (u p : Uart) (rx_buf n terminate : ℕ) (polls rest : List (Option ℕ))
    → u.is_rx_busy ≡ false
    → receive_polled (suc (suc n)) polls (begun u rx_buf n terminate) ≡ done rest p
    → crit_receive rx_buf (suc n) terminate [] polls u
      ≡ done ([], rest) (record p { is_rx_busy = false })
unfolding crit_receive
crit_receive-run u p rx_buf n terminate polls rest idle e = rw (wait-idle [] u idle) (
    ap
      (λ o.
        and_then o (λ polls'. modify (λ u. record u { is_rx_busy = false }) >> pure ([], polls')))
      e)

-- `UART_critReceive` of one byte or more, of which enough come with its readings of the flag, and
-- `UART_receive` of the same bytes by interrupts, both end, and leave the same memory: the bytes up
-- to the terminator, and not more than the size, are stored. Both leave the receiver idle.
pub crit_receive-receive :
    (u : Uart) (rx_buf n terminate : ℕ) (polls : List (Option ℕ))
    → u.is_rx_busy ≡ false
    → suc n < u16_mod
    → rx_buf + suc n ≤ length u.mem
    → n < length (heard polls)
    → (polled : Uart) × (by_isr : Uart) × (later : List Interrupt) × (rest : List (Option ℕ))
      × (crit_receive rx_buf (suc n) terminate [] polls u ≡ done ([], rest) polled)
      × (receive rx_buf (suc n) terminate (arriving (heard polls)) u ≡ done later by_isr)
      × (polled.mem ≡ by_isr.mem)
      × (by_isr.mem ≡ splice u.mem rx_buf (upto terminate (suc n) (heard polls)))
      × (polled.is_rx_busy ≡ false)
      × (by_isr.is_rx_busy ≡ false)
unfolding Receives
crit_receive-receive u rx_buf n terminate polls idle small fits h =
    let (by_isr, later, f, (m', idle', masked, w)) =
      receive-Received u rx_buf n terminate (heard polls) idle small fits h in
    let (p, rest, e, m) =
      polled-Receives (suc n) terminate polls (begun u rx_buf n terminate) (small, refl, refl, fits)
        h in
    (
      record p { is_rx_busy = false },
      by_isr,
      later,
      rest,
      crit_receive-run u p rx_buf n terminate polls rest idle e,
      f,
      m ∙ sym m',
      m',
      refl,
      idle',
    )
