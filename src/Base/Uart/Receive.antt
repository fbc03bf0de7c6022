-- ===== src/Base/Uart/Receive.antt =====
-- What the reception of client/wisp-base/wired/uart.c stores.
use wisp_ert.Common.{
  ℕ, zero, suc, ◌+◌, ◌<◌, ◌≤◌, ◌≡◌, refl, inl, inr, true, false, not, List, [], ◌∷◌, arith, length,
  ◌==◌, done, u16_mod, Bool-cases, ◌∙◌,
}
use wisp_ert.Common.Memory.{splice, store-some, splice-splice, length-splice}
use wisp_ert.Base.Uart.{
  Uart, Interrupt, rx_ifg, rx_count_down, store_rx, isr, isr_rx, wait_while, async_receive, receive,
}

-- the bytes up to the terminator, and not more than a number
abbrev pub upto : (terminate size : ℕ) → List ℕ → List ℕ
upto terminate zero bytes = []
upto terminate (suc n) [] = []
upto terminate (suc n) (b ∷ bytes) =
    b ∷ elim (b == terminate) [ true ↦ [] | false ↦ upto terminate n bytes ]

-- each byte with its interrupt
abbrev pub arriving : List ℕ → List Interrupt
arriving [] = []
arriving (b ∷ bytes) = rx_ifg b ∷ arriving bytes

-- the bytes are in memory, and the receiver is idle
abbrev pub Received : Uart → (rx_buf : ℕ) → List ℕ → Uart → Type 0
Received u rx_buf bytes u' =
    (u'.mem ≡ splice u.mem rx_buf bytes)
    × (u'.is_rx_busy ≡ false)
    × (u'.rx_ie ≡ false)
    × (u'.wire ≡ u.wire)

-- the place and number of the bytes that may still come
abbrev Receiving : Uart → ℕ → ℕ → Type 0
Receiving u terminate n =
    (u.is_rx_busy ≡ true)
    × (suc n < u16_mod)
    × (u.rx_bytes_remaining ≡ suc n)
    × (u.rx_term_char ≡ terminate)
    × (u.rx_ptr + suc n ≤ length u.mem)

-- a byte has been stored
abbrev stored : Uart → ℕ → Uart
stored u byte = record (rx_count_down u) {
  led2 = not u.led2;
  rx_ptr = suc u.rx_ptr;
  mem = splice u.mem u.rx_ptr (byte ∷ []);
}

abbrev stopped : Uart → Uart
stopped u = record u { rx_ie = false; is_rx_busy = false }

isr-stored :
    (u : Uart) (terminate n byte : ℕ)
    → Receiving u terminate (suc n)
    → (byte == terminate) ≡ false
    → isr (rx_ifg byte) u ≡ done tt (stored u byte)
unfolding isr isr_rx store_rx
isr-stored u terminate n byte r ne = ground (arith, r.3, ne, store-some u.mem u.rx_ptr (byte ∷ []))

isr-terminated :
    (u : Uart) (terminate n byte : ℕ)
    → Receiving u terminate n
    → (byte == terminate) ≡ true
    → isr (rx_ifg byte) u ≡ done tt (stopped (stored u byte))
unfolding isr isr_rx store_rx
isr-terminated u terminate n byte r e =
    ground (arith, r.3, e, store-some u.mem u.rx_ptr (byte ∷ []))

isr-full :
    (u : Uart) (terminate byte : ℕ)
    → Receiving u terminate 0
    → isr (rx_ifg byte) u ≡ done tt (stopped (stored u byte))
unfolding isr isr_rx store_rx
isr-full u terminate byte r = ground (arith, r.3, store-some u.mem u.rx_ptr (byte ∷ []))

wait_on :
    (i : Interrupt) (is : List Interrupt) (u u1 : Uart)
    → u.is_rx_busy ≡ true
    → isr i u ≡ done tt u1
    → wait_while (λ u. u.is_rx_busy) (i ∷ is) u ≡ wait_while (λ u. u.is_rx_busy) is u1
unfolding wait_while
wait_on i is u u1 busy e = ground (arith, busy, e)

pub wait-idle :
    (is : List Interrupt) (u : Uart)
    → u.is_rx_busy ≡ false
    → wait_while (λ u. u.is_rx_busy) is u ≡ done is u
unfolding wait_while
wait-idle [] u e = ground (arith, e)
wait-idle (i ∷ is) u e = ground (arith, e)

-- what is stored from a state on, on the way to the end of the wait
Receives : List Interrupt → Uart → List ℕ → Type 0
Receives is u bytes =
    (u' : Uart) × (later : List Interrupt) × (wait_while (λ u. u.is_rx_busy) is u ≡ done later u')
    × Received u u.rx_ptr bytes u'

last_byte :
    (is : List Interrupt) (u : Uart) (byte : ℕ)
    → u.is_rx_busy ≡ true
    → isr (rx_ifg byte) u ≡ done tt (stopped (stored u byte))
    → Receives (rx_ifg byte ∷ is) u (byte ∷ [])
unfolding Receives
last_byte is u byte busy e = (
  stopped (stored u byte),
  is,
  wait_on (rx_ifg byte) is u _ busy e ∙ wait-idle is (stopped (stored u byte)) refl,
  (refl, refl, refl, refl),
)

next_byte :
    (is : List Interrupt) (u : Uart) (byte : ℕ) (bytes : List ℕ)
    → u.is_rx_busy ≡ true
    → isr (rx_ifg byte) u ≡ done tt (stored u byte)
    → Receives is (stored u byte) bytes
    → Receives (rx_ifg byte ∷ is) u (byte ∷ bytes)
unfolding Receives
next_byte is u byte bytes busy e (u', later, f, (m, idle, masked, w)) = (
  u',
  later,
  wait_on (rx_ifg byte) is u (stored u byte) busy e ∙ f,
  (
    m ∙ splice-splice u.mem u.rx_ptr (byte ∷ []) bytes (suc u.rx_ptr) (omega arith),
    idle,
    masked,
    w,
  ),
)

Receiving-next :
    (u : Uart) (terminate n byte : ℕ)
    → Receiving u terminate (suc n)
    → Receiving (stored u byte) terminate n
Receiving-next u terminate n byte r =
    (r.0, omega arith, omega arith, r.3, omega (arith, length-splice u.mem u.rx_ptr (byte ∷ [])))

wait-Receives :
    (bytes : List ℕ) (u : Uart) (terminate n : ℕ)
    → Receiving u terminate n
    → n < length bytes
    → Receives (arriving bytes) u (upto terminate (suc n) bytes)
wait-Receives [] u terminate n r h = absurd (omega arith)
wait-Receives (b ∷ bytes) u terminate zero r h = elim (Bool-cases (b == terminate)) [
  | inl ends ↦ rw ends (last_byte (arriving bytes) u b r.0 (isr-full u terminate b r))
  | inr goes_on ↦ rw goes_on (last_byte (arriving bytes) u b r.0 (isr-full u terminate b r))
]
wait-Receives (b ∷ bytes) u terminate (suc n) r h = elim (Bool-cases (b == terminate)) [
  | inl ends ↦
      rw ends (last_byte (arriving bytes) u b r.0 (isr-terminated u terminate (suc n) b r ends))
  | inr goes_on ↦ rw goes_on (
      next_byte (arriving bytes) u b (upto terminate (suc n) bytes) r.0
        (isr-stored u terminate n b r goes_on)
        (wait-Receives bytes (stored u b) terminate n (Receiving-next u terminate n b r)
          (omega arith)))
]

-- `UART_receive` of one byte or more, of which enough arrive: it ends, and has stored the bytes up
-- to the terminator, and not more than its size; the receiver is idle with its interrupt off.
pub receive-Received :
    (u : Uart) (rx_buf n terminate : ℕ) (bytes : List ℕ)
    → u.is_rx_busy ≡ false
    → suc n < u16_mod
    → rx_buf + suc n ≤ length u.mem
    → n < length bytes
    → (u' : Uart) × (later : List Interrupt) × (receive rx_buf (suc n) terminate (arriving bytes) u
        ≡ done later u')
      × Received u rx_buf (upto terminate (suc n) bytes) u'
unfolding receive async_receive Receives
receive-Received u rx_buf n terminate bytes idle small fits h =
    rw (wait-idle (arriving bytes) u idle)
      (wait-Receives bytes _ terminate n (refl, small, refl, refl, fits) h)
