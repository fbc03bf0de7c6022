-- ===== src/Wtp/Link/Exchange.antt =====
-- One message over the link of the two controls of client/wtp/wtp/transmission.c, from
-- `wtp_tx_add_msg` to the acknowledgement.
use mathlib.Core.Path.{subst}
use native.Mathlib.Nat.{mul-le-mul_right}
use wisp_ert.Common.{
  ℕ, ◌+◌, ◌-◌, ◌*◌, ◌≤◌, ◌<◌, ◌≡◌, ◌∙◌, ap, sym, false, List, ◌++◌, arith, length, drop, add16,
  bytes16, done, ◌>>=◌,
}
use wisp_ert.Wio.Buf.{Buf}
use wisp_ert.Wio.Buf.Bounds.{IsValid}
use wisp_ert.Wio.Buf.Unread.{unread}
use wisp_ert.Wio.Queue.Refine.{Holds}
use wisp_ert.Wtp.Tx.{Fragment, ReadInfo, TxCtrl, add_msg}
use wisp_ert.Wtp.Tx.Tiles.{make_fragments, carried, Tiles, Sound}
use wisp_ert.Wtp.Tx.Ack.{handle_ack}
use wisp_ert.Wtp.Tx.Cycle.{Idle, HasRoom, Settled, add_msg-Idle, added-WholeCut, acknowledged}
use wisp_ert.Wtp.Rx
use wisp_ert.Wtp.Rx.{MsgInfo, RxCtrl}
use wisp_ert.Wtp.Rx.Waiting.{waiting}
use wisp_ert.Wtp.Rx.Sequence.{Received, spent}
use wisp_ert.Wtp.Link.{deliver_all, deliver_all-Received}

-- A transmit control has nothing to send, and its fragments queue is empty with both indices at its first
-- slot. A message of at least a byte is given to it that fits its buffer, its window and its queues, and
-- whose sequence numbers do not wrap; the READ size has room behind the header, and at most `n` calls cut
-- the message into fragments, where `n` fragments of the least size that the READ size allows are
-- enough for it. The packets of these fragments, in order, go to a receive control that waits for the
-- message's number, whose window is no smaller than the READ size and which has a spare item and memory
-- for the message and for the fragments' records. It receives one message, whose length and bytes stand
-- behind what was unread; and the acknowledgement of the number that it waits for next reports one
-- message as sent, and leaves nothing in flight and the message's memory free.
pub add_msg-exchanged :
    (n : ℕ) (s : TxCtrl) (payload : List ℕ) (info : ReadInfo) (infos : List ReadInfo) (avail : ℕ)
    (header window : ℕ) (b frags : Buf) (nodes : List (ℕ × Rx.Fragment)) (item : MsgInfo)
    (items : List MsgInfo) (m : ℕ)
    → Idle s
    → HasRoom n s payload info infos avail
    → avail ≤ window
    → item.in_use ≡ false
    → IsValid b × (b.pos_a ≤ b.pos_b)
    → b.pos_b - b.pos_a + 2 + length payload ≤ b.size
    → IsValid frags × (frags.pos_a ≡ frags.pos_b)
    → frags.pos_b + (n * header + length payload) < frags.size
    → (calls : ℕ) × (sent after : TxCtrl) × (gs : List Fragment) × (calls ≤ n)
      × ((add_msg payload >>= λ _. make_fragments calls avail) s ≡ done tt sent)
      × Holds sent.fragments_queue gs
      × Received
          (deliver_all header sent.msg_buf.bytes gs
            (waiting s.msg_begin_seq window b frags nodes item items m))
          window
          (s.msg_begin_seq + length payload)
          (spent s.msg_begin_seq (length payload) m)
          items
          m
          (unread b ++ (bytes16 (length payload) ++ payload))
      × (handle_ack (s.msg_begin_seq + length payload) sent ≡ done 1 after)
      × Settled s (length payload) after
add_msg-exchanged n s payload info infos avail header window b frags nodes item items m i r wide
      spare valid room empty space =
    let w = added-WholeCut n s payload info infos avail i r in
    let (after, acks, settled) =
      acknowledged n s payload info avail i r.some_byte r.buffer r.numbers r.count_small w in
    let buf = ap (λ t. t.msg_buf.bytes) w.same in
    let held = subst (λ xs. Sound xs avail w.new) (sym buf) w.sound in
    let whole : carried w.after.msg_buf.bytes w.new ≡ payload =
      ap (λ xs. carried xs w.new) buf ∙ w.bytes ∙ ap (λ k. drop k payload) i.uncut in
    let tiles = subst (λ k. Tiles s.msg_begin_seq (length payload) k w.new) i.uncut w.tiles in
    let no_wrap : add16 s.msg_begin_seq (length payload) ≡ s.msg_begin_seq + length payload =
      omega (arith, r.numbers) in
    let few : length w.new * header ≤ n * header =
      mul-le-mul_right header (omega (arith, w.one_each, w.few)) in
    let got =
      deliver_all-Received header s.msg_begin_seq avail window w.after.msg_buf.bytes payload w.new b
        frags nodes item items m (omega (arith, r.numbers)) r.some_byte (omega (arith, r.numbers))
        r.avail_small wide tiles held whole spare valid room empty (omega (arith, space, few)) in
    (
      w.calls,
      w.after,
      after,
      w.new,
      w.few,
      rw (add_msg-Idle n s payload info infos avail i r) w.made,
      w.queued,
      rw no_wrap at got,
      acks,
      settled,
    )
