-- ===== src/Base/Uart/Send.antt =====
-- What the transmission of client/wisp-base/wired/uart.c puts on the wire.
use wisp_ert.Common.{
  ℕ, zero, suc, ◌+◌, ◌<◌, ◌≤◌, ◌≡◌, refl, true, false, not, some, List, [], ◌∷◌, ◌++◌, arith,
  length, get_elem?, take, drop, done, u16_mod, sub16, append_assoc, append-nil, get_elem?-some,
  ◌∙◌, sym, ap, take-drop-suc,
}
use wisp_ert.Base.Uart.{
  Uart, Interrupt, usci_none, rx_ifg, tx_ifg, stt_ifg, tx_cpt_ifg, tx_count_down, load_tx, isr,
  isr_tx, wait_while, async_send, send,
}

-- no byte is received
abbrev pub NoRx : List Interrupt → Type 0
NoRx [] = Unit
NoRx (rx_ifg _ ∷ _) = ⊥
NoRx (_ ∷ is) = NoRx is

-- how often the transmit register becomes free
abbrev pub tx_count : List Interrupt → ℕ
tx_count [] = 0
tx_count (tx_ifg ∷ is) = suc (tx_count is)
tx_count (_ ∷ is) = tx_count is

-- all of the bytes are on the wire, and the memory is as it was
abbrev pub Sent : Uart → List ℕ → Uart → Type 0
Sent u bytes u' =
    (u'.wire ≡ u.wire ++ bytes) × (u'.is_tx_busy ≡ false) × (u'.tx_ie ≡ false) × (u'.mem ≡ u.mem)

-- the place and number of the bytes that are still to be loaded
abbrev Sending : Uart → ℕ → Type 0
Sending u n =
    (u.is_tx_busy ≡ true)
    × (n < u16_mod)
    × (u.tx_bytes_remaining ≡ n)
    × (u.tx_ptr + n ≤ length u.mem)

abbrev toggled : Uart → Uart
toggled u = record u { led2 = not u.led2 }

-- an interrupt taken while the sender waits
wait_on :
    (i : Interrupt) (is : List Interrupt) (u u1 : Uart)
    → u.is_tx_busy ≡ true
    → isr i u ≡ done tt u1
    → wait_while (λ u. u.is_tx_busy) (i ∷ is) u ≡ wait_while (λ u. u.is_tx_busy) is u1
unfolding wait_while
wait_on i is u u1 busy e = ground (arith, busy, e)

isr-last :
    (u : Uart)
    → u.tx_bytes_remaining ≡ 0
    → isr tx_ifg u
      ≡ done tt (record (tx_count_down (toggled u)) { tx_ie = false; is_tx_busy = false })
unfolding isr isr_tx
isr-last u e = ground (arith, e)

loaded : Uart → ℕ → Uart
loaded u byte = record (tx_count_down (toggled u)) {
  tx_ptr = suc u.tx_ptr;
  wire = u.wire ++ (byte ∷ []);
}

isr-next :
    (u : Uart) (n byte : ℕ)
    → u.tx_bytes_remaining ≡ suc n
    → get_elem? u.mem u.tx_ptr ≡ some byte
    → isr tx_ifg u ≡ done tt (loaded u byte)
unfolding isr isr_tx load_tx loaded
isr-next u n byte e f = ground (arith, e, f)

wait-idle :
    (is : List Interrupt) (u : Uart)
    → u.is_tx_busy ≡ false
    → wait_while (λ u. u.is_tx_busy) is u ≡ done is u
unfolding wait_while
wait-idle [] u e = ground (arith, e)
wait-idle (i ∷ is) u e = ground (arith, e)

-- what is sent from a state on, on the way to the end of the wait
Sends : List Interrupt → Uart → Uart → ℕ → Type 0
Sends is u u1 n =
    (u' : Uart) × (later : List Interrupt) × (wait_while (λ u. u.is_tx_busy) is u1 ≡ done later u')
    × Sent u (take n (drop u.tx_ptr u.mem)) u'

after :
    (i : Interrupt) (is : List Interrupt) (u u1 : Uart) (n : ℕ)
    → u.is_tx_busy ≡ true
    → isr i u ≡ done tt u1
    → Sends is u u1 n
    → Sends (i ∷ is) u u n
unfolding Sends
after i is u u1 n busy e (u', later, f, s) = (u', later, wait_on i is u u1 busy e ∙ f, s)

Sending-next : (u : Uart) (n byte : ℕ) → Sending u (suc n) → Sending (loaded u byte) n
unfolding loaded
Sending-next u n byte s = ground arith

wire-next :
    (u : Uart) (at n byte : ℕ) (wire : List ℕ)
    → get_elem? u.mem at ≡ some byte
    → wire ≡ (u.wire ++ (byte ∷ [])) ++ take n (drop (suc at) u.mem)
    → wire ≡ u.wire ++ take (suc n) (drop at u.mem)
wire-next u at n byte wire there w =
    w
    ∙ append_assoc u.wire (byte ∷ []) (take n (drop (suc at) u.mem))
    ∙ ap (◌++◌ u.wire) (sym (take-drop-suc u.mem at n byte there))

wait-next :
    (is : List Interrupt) (u : Uart) (n byte : ℕ)
    → Sending u (suc n)
    → get_elem? u.mem u.tx_ptr ≡ some byte
    → Sends is (loaded u byte) (loaded u byte) n
    → Sends (tx_ifg ∷ is) u u (suc n)
unfolding Sends loaded
wait-next is u n byte s there (u', later, e, (w, idle, masked, kept)) =
    after tx_ifg is u (loaded u byte) (suc n) s.0 (isr-next u n byte s.2 there)
      (u', later, e, (wire-next u u.tx_ptr n byte u'.wire there w, idle, masked, kept))

wait-Sends :
    (is : List Interrupt) (u : Uart) (n : ℕ)
    → Sending u n
    → NoRx is
    → n < tx_count is
    → Sends is u u n
unfolding Sends isr loaded
wait-Sends [] u n s quiet h = absurd (omega arith)
wait-Sends (usci_none ∷ is) u n s quiet h =
    after usci_none is u (toggled u) n s.0 refl (wait-Sends is (toggled u) n s quiet h)
wait-Sends (tx_ifg ∷ is) u zero s quiet h =
    after tx_ifg is u _ 0 s.0 (isr-last u s.2)
      (_, is, wait-idle is _ refl, (sym (append-nil u.wire), refl, refl, refl))
wait-Sends (tx_ifg ∷ is) u (suc n) s quiet h =
    let (byte, there) = get_elem?-some u.mem u.tx_ptr (omega arith) in
    wait-next is u n byte s there
      (wait-Sends is (loaded u byte) n (Sending-next u n byte s) quiet (omega arith))
wait-Sends (rx_ifg _ ∷ is) u n s quiet h = absurd quiet
wait-Sends (stt_ifg ∷ is) u n s quiet h =
    after stt_ifg is u (toggled u) n s.0 refl (wait-Sends is (toggled u) n s quiet h)
wait-Sends (tx_cpt_ifg ∷ is) u n s quiet h =
    after tx_cpt_ifg is u (toggled u) n s.0 refl (wait-Sends is (toggled u) n s quiet h)

-- the state in which the first byte has been loaded
started : Uart → (tx_buf n byte : ℕ) → Uart
started u tx_buf n byte = record u {
  is_tx_busy = true;
  tx_ptr = suc tx_buf;
  tx_bytes_remaining = sub16 (suc n) 1;
  tx_ie = true;
  wire = u.wire ++ (byte ∷ []);
}

send-started :
    (u : Uart) (tx_buf n byte : ℕ) (interrupts : List Interrupt)
    → u.is_tx_busy ≡ false
    → get_elem? u.mem tx_buf ≡ some byte
    → send tx_buf (suc n) interrupts u
      ≡ wait_while (λ u. u.is_tx_busy) interrupts (started u tx_buf n byte)
unfolding send async_send load_tx started
send-started u tx_buf n byte interrupts idle there =
    ground (arith, wait-idle interrupts u idle, there)

first-Sent :
    (is : List Interrupt) (u : Uart) (tx_buf n byte : ℕ)
    → get_elem? u.mem tx_buf ≡ some byte
    → Sends is (started u tx_buf n byte) (started u tx_buf n byte) n
    → u.is_tx_busy ≡ false
    → (u' : Uart) × (later : List Interrupt) × (send tx_buf (suc n) is u ≡ done later u')
      × Sent u (take (suc n) (drop tx_buf u.mem)) u'
unfolding Sends started
first-Sent is u tx_buf n byte there (u', later, e, (w, idle', masked, kept)) idle = (
  u',
  later,
  send-started u tx_buf n byte is idle there ∙ e,
  (wire-next u tx_buf n byte u'.wire there w, idle', masked, kept),
)

-- `UART_send` of one byte or more, while no byte is received and the transmit register becomes
-- free for each of them: it ends, the bytes have gone over the wire in their order, the sender is
-- idle with its interrupt off, and the memory is as it was.
pub send-Sent :
    (u : Uart) (tx_buf n : ℕ) (interrupts : List Interrupt)
    → u.is_tx_busy ≡ false
    → suc n < u16_mod
    → tx_buf + suc n ≤ length u.mem
    → NoRx interrupts
    → n < tx_count interrupts
    → (u' : Uart) × (later : List Interrupt) × (send tx_buf (suc n) interrupts u ≡ done later u')
      × Sent u (take (suc n) (drop tx_buf u.mem)) u'
unfolding started
send-Sent u tx_buf n interrupts idle small fits quiet h =
    let (byte, there) = get_elem?-some u.mem tx_buf (omega arith) in
    first-Sent interrupts u tx_buf n byte there
      (wait-Sends interrupts (started u tx_buf n byte) n
        (refl, omega arith, omega arith, omega arith) quiet h)
      idle
