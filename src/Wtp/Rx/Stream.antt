-- ===== src/Wtp/Rx/Stream.antt =====
-- A message in several packets, received in order by the receive control of
-- client/wtp/wtp/transmission.c.
use mathlib.Core.Path.{subst}
use mathlib.Core.List.{flatten}
use wisp_ert.Common.{
  ℕ, ◌+◌, ◌-◌, ◌≤◌, ◌<◌, ◌≡◌, ◌∙◌, ap, refl, sym, ==_refl, false, List, ◌∷◌, ◌++◌, append_assoc,
  arith, length, length-append, add16, u16_mod, bytes16,
}
use wisp_ert.Wio.Buf.{Buf}
use wisp_ert.Wio.Buf.Bounds.{IsValid}
use wisp_ert.Wio.Buf.Transfer.{written, written-IsValid}
use wisp_ert.Wio.Buf.Unread.{unread, unread-written}
use wisp_ert.Wtp.Rx.{Fragment, MsgInfo}
use wisp_ert.Wtp.Rx.Compact.{unread-compact}
use wisp_ert.Wtp.Rx.Continue.{Ready, handle_packet-waiting}
use wisp_ert.Wtp.Rx.Waiting.{waiting}
use wisp_ert.Wtp.Rx.Partial.{headed}
use wisp_ert.Wtp.Rx.Sequence.{receive_all, Fit, records, Received, spent, continued, rest-Received}

-- A control that waits, with a spare item in its store and no fragment in its fragments buffer,
-- takes a message that comes in any number of packets, in order, none of them empty or larger than
-- the window or than 255 bytes, if the message and its length fit behind the unread bytes and the
-- records of all its fragments fit in front of the end of their buffer. Every packet is accepted,
-- one message is reported in all, the unread bytes are then the former ones, the message's length and
-- the bytes of the packets in order, and the control waits again, for the number behind the message.
pub receive_all-Received :
    (window header seq_num : ℕ) (b frags : Buf) (nodes : List (ℕ × Fragment)) (item : MsgInfo)
    (items : List MsgInfo) (m : ℕ) (p : List ℕ) (ps : List (List ℕ))
    → seq_num < u16_mod
    → item.in_use ≡ false
    → Fit window (p ∷ ps)
    → length (p ++ flatten ps) < u16_mod
    → IsValid b × (b.pos_a ≤ b.pos_b)
    → b.pos_b - b.pos_a + 2 + length (p ++ flatten ps) ≤ b.size
    → IsValid frags × (frags.pos_a ≡ frags.pos_b)
    → frags.pos_b + records header (p ∷ ps) < frags.size
    → Received
        (receive_all header seq_num
          (length (p ++ flatten ps))
          p
          ps
          (waiting seq_num window b frags nodes item items m))
        window
        (add16 seq_num (length (p ++ flatten ps)))
        (spent seq_num (length (p ++ flatten ps)) m)
        items
        m
        (unread b ++ (bytes16 (length (p ++ flatten ps)) ++ (p ++ flatten ps)))
receive_all-Received window header seq_num b frags nodes item items m p ps small spare
      (some_p, short_p, in_p, fits_ps) below (v, order) room (w, empty) space =
    let total : ℕ = length (p ++ flatten ps) in
    let len = length-append p (flatten ps) in
    let (msgs, moved, v', size', pos_a', pos_b', same) = unread-compact b v order in
    let h : Buf = written msgs (bytes16 total) in
    let head : headed seq_num window msgs frags nodes seq_num total items m ≡ h =
      rw (==_refl seq_num) refl in
    let vh : IsValid h = written-IsValid (bytes16 total) v' (omega arith) in
    let r : Ready window header seq_num total items m seq_num b msgs frags nodes p = record {
      below = small;
      some_byte = some_p;
      short = short_p;
      within = in_p;
      moved = moved;
      valid = v';
      head_room = λ e. omega arith;
      head_valid = subst IsValid (sym head) vh;
      room = subst (λ (h : Buf). h.pos_b + length p ≤ msgs.size) (sym head) (omega arith);
      frags_valid = w;
      frags_empty = empty;
      frags_room = omega arith;
    } in
    let rest =
      rest-Received window header seq_num total items m ps seq_num 0 msgs frags h nodes p
        (omega arith) some_p below (omega arith) fits_ps (sym head) (vh, omega arith) (omega arith)
        w space small in
    record {
      msgs = rest.msgs;
      frags = rest.frags;
      nodes = rest.nodes;
      result =
          ap (continued header seq_num p ps) (
            handle_packet-waiting window header seq_num total items m b msgs frags nodes p item r
              spare (omega arith))
          ∙ rest.result;
      stands =
          rest.stands
          ∙ ap (λ xs. xs ++ (p ++ flatten ps))
              (unread-written (bytes16 total) v' (omega arith) (omega arith)
                ∙ ap (λ xs. xs ++ bytes16 total) same)
          ∙ append_assoc (unread b) (bytes16 total) (p ++ flatten ps);
      valid = rest.valid;
      ordered = rest.ordered;
      frags_valid = rest.frags_valid;
      frags_empty = rest.frags_empty;
    }
