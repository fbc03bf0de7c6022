-- ===== src/Wtp/Link.antt =====
-- The two controls of client/wtp/wtp/transmission.c at the ends of a link: the fragments that a
-- transmit control cuts, as packets for a receive control.
pub mod Exchange
use mathlib.Core.Path.{subst}
use mathlib.Core.List.{flatten}
use wisp_ert.Common.{
  ℕ, zero, suc, ◌+◌, ◌-◌, ◌*◌, ◌≤◌, ◌<◌, ◌≡◌, ◌∙◌, ap, refl, sym, false, List, [], ◌∷◌, ◌++◌, arith,
  length, length-append, take, drop, add16, u8_mod, u16_mod, bytes16, Outcome, done, M, ◌>>=◌, pure,
  ◌==◌, if◌then◌else◌,
}
use wisp_ert.Wio.Buf.{Buf}
use wisp_ert.Wio.Buf.Bounds.{IsValid}
use wisp_ert.Wio.Buf.Unread.{unread}
use wisp_ert.Wtp.Tx.{Fragment, TxCtrl}
use wisp_ert.Wtp.Tx.Tiles.{Tiles, Sound, carried}
use wisp_ert.Wtp.Rx
use wisp_ert.Wtp.Rx.{MsgInfo, RxCtrl}
use wisp_ert.Wtp.Rx.Packet.{handle_packet}
use wisp_ert.Wtp.Rx.Waiting.{waiting}
use wisp_ert.Wtp.Rx.Sequence.{Fit, records, continue_all, receive_all, Received, spent}
use wisp_ert.Wtp.Rx.Stream.{receive_all-Received}

-- the packets of fragments that are delivered in order; the numbers of messages that they complete
-- are added up
abbrev pub deliver_all : (header : ℕ) (bytes : List ℕ) → List Fragment → M RxCtrl ℕ
deliver_all header bytes [] = pure 0
deliver_all header bytes (f ∷ fs) =
    handle_packet header f.seq_num (take f.size (drop f.data_at bytes)) f.msg_size >>= λ n.
    deliver_all header bytes fs >>= λ k. pure (n + k)

-- what each packet carries
abbrev pub payloads : (bytes : List ℕ) → List Fragment → List (List ℕ)
payloads bytes [] = []
payloads bytes (f ∷ fs) = take f.size (drop f.data_at bytes) ∷ payloads bytes fs

pub flatten-payloads :
    (bytes : List ℕ) (fs : List Fragment) → flatten (payloads bytes fs) ≡ carried bytes fs
unfolding flatten
flatten-payloads bytes [] = refl
flatten-payloads bytes (f ∷ fs) =
    ap (λ xs. take f.size (drop f.data_at bytes) ++ xs) (flatten-payloads bytes fs)

pub payloads-Fit :
    (bytes : List ℕ) (begin size at avail window : ℕ) (fs : List Fragment)
    → avail < u8_mod
    → avail ≤ window
    → Tiles begin size at fs
    → Sound bytes avail fs
    → Fit window (payloads bytes fs)
payloads-Fit bytes begin size at avail window [] short wide t s = tt
payloads-Fit bytes begin size at avail window (f ∷ fs) short wide t s = (
  omega (arith, s.0, t.0),
  omega (arith, s.0, s.1),
  omega (arith, s.0, s.1),
  payloads-Fit bytes begin size (at + f.size) avail window fs short wide t.3 s.2,
)

-- as many headers as fragments, and their bytes
records-payloads :
    (header : ℕ) (bytes : List ℕ) (fs : List Fragment)
    → records header (payloads bytes fs) ≡ length fs * header + length (carried bytes fs)
records-payloads header bytes [] = omega arith
records-payloads header bytes (f ∷ fs) = omega (
  arith,
  records-payloads header bytes fs,
  length-append (take f.size (drop f.data_at bytes)) (carried bytes fs),
)

bind-same :
    (header q q' z z' : ℕ) (p : List ℕ) (k k' : M RxCtrl ℕ)
    → q ≡ q'
    → z ≡ z'
    → k ≡ k'
    → (handle_packet header q p z >>= λ n. k >>= λ m. pure (n + m))
      ≡ (handle_packet header q' p z' >>= λ n. k' >>= λ m. pure (n + m))
bind-same header q q' z z' p k k' e f g =
    ap (λ q. handle_packet header q p z >>= λ n. k >>= λ m. pure (n + m)) e
    ∙ ap (λ z. handle_packet header q' p z >>= λ n. k >>= λ m. pure (n + m)) f
    ∙ ap (λ k. handle_packet header q' p z' >>= λ n. k >>= λ m. pure (n + m)) g

-- Fragments behind the first are packets that continue the message.
deliver_all-continue :
    (header : ℕ) (bytes : List ℕ) (begin size at avail seq_num : ℕ) (fs : List Fragment)
    → 0 < at
    → seq_num ≡ add16 begin at
    → Tiles begin size at fs
    → Sound bytes avail fs
    → deliver_all header bytes fs ≡ continue_all header seq_num (payloads bytes fs)
deliver_all-continue header bytes begin size at avail seq_num [] later e t s = refl
deliver_all-continue header bytes begin size at avail seq_num (f ∷ fs) later e t s =
    let p : List ℕ = take f.size (drop f.data_at bytes) in
    let no_size : f.msg_size ≡ 0 = ground (arith, t.2) in
    bind-same header f.seq_num seq_num f.msg_size 0 p (deliver_all header bytes fs) _ (t.1 ∙ sym e)
      no_size
      (deliver_all-continue header bytes begin size (at + f.size) avail (add16 seq_num (length p))
        fs (omega arith) (omega (arith, s.0)) t.3 s.2)

-- The fragments of a whole message are the packet that begins it and those that continue it.
deliver_all-receive :
    (header : ℕ) (bytes : List ℕ) (begin size avail : ℕ) (f : Fragment) (fs : List Fragment)
    → begin < u16_mod
    → Tiles begin size 0 (f ∷ fs)
    → Sound bytes avail (f ∷ fs)
    → deliver_all header bytes (f ∷ fs)
      ≡ receive_all header begin size (take f.size (drop f.data_at bytes)) (payloads bytes fs)
deliver_all-receive header bytes begin size avail f fs small t s =
    let p : List ℕ = take f.size (drop f.data_at bytes) in
    bind-same header f.seq_num begin f.msg_size size p (deliver_all header bytes fs) _
      (omega (arith, t.1)) t.2
      (deliver_all-continue header bytes begin size (0 + f.size) avail (add16 begin (length p)) fs
        (omega (arith, t.0)) (omega (arith, s.0)) t.3 s.2)

-- Fragments that cover a message, delivered in order to a control that waits for the message, are
-- received as that message.
pub deliver_all-Received :
    (header begin avail window : ℕ) (bytes payload : List ℕ) (gs : List Fragment) (b frags : Buf)
    (nodes : List (ℕ × Rx.Fragment)) (item : MsgInfo) (items : List MsgInfo) (m : ℕ)
    → begin < u16_mod
    → 0 < length payload
    → length payload < u16_mod
    → avail < u8_mod
    → avail ≤ window
    → Tiles begin (length payload) 0 gs
    → Sound bytes avail gs
    → carried bytes gs ≡ payload
    → item.in_use ≡ false
    → IsValid b × (b.pos_a ≤ b.pos_b)
    → b.pos_b - b.pos_a + 2 + length payload ≤ b.size
    → IsValid frags × (frags.pos_a ≡ frags.pos_b)
    → frags.pos_b + (length gs * header + length payload) < frags.size
    → Received
        (deliver_all header bytes gs (waiting begin window b frags nodes item items m))
        window
        (add16 begin (length payload))
        (spent begin (length payload) m)
        items
        m
        (unread b ++ (bytes16 (length payload) ++ payload))
unfolding flatten
deliver_all-Received header begin avail window bytes payload [] b frags nodes item items m small
      some_byte below short wide t s e spare (v, order) room w space =
    absurd (omega arith)
deliver_all-Received header begin avail window bytes payload (f ∷ fs) b frags nodes item items m
      small some_byte below short wide t s e spare (v, order) room w space =
    let p : List ℕ = take f.size (drop f.data_at bytes) in
    let ps : List (List ℕ) = payloads bytes fs in
    let same : p ++ flatten ps ≡ payload = flatten-payloads bytes (f ∷ fs) ∙ e in
    let long : length (p ++ flatten ps) ≡ length payload = ap length same in
    let rs : records header (p ∷ ps) ≡ length (f ∷ fs) * header + length payload =
      records-payloads header bytes (f ∷ fs) ∙ ap (λ xs. length (f ∷ fs) * header + length xs) e in
    let all =
      receive_all-Received window header begin b frags nodes item items m p ps small spare
        (payloads-Fit bytes begin (length payload) 0 avail window (f ∷ fs) short wide t s)
        (omega (arith, long)) (v, order) (omega (arith, long)) w (omega (arith, rs)) in
    let wait : RxCtrl = waiting begin window b frags nodes item items m in
    subst
      (λ (o : Outcome RxCtrl ℕ).
        Received o window (add16 begin (length payload)) (spent begin (length payload) m) items m
          (unread b ++ (bytes16 (length payload) ++ payload)))
      (ap (λ k. k wait)
        (sym (deliver_all-receive header bytes begin (length payload) avail f fs small t s)))
      (subst
        (λ (x : List ℕ).
          Received (receive_all header begin (length x) p ps wait) window (add16 begin (length x))
            (spent begin (length x) m) items m (unread b ++ (bytes16 (length x) ++ x)))
        same all)
