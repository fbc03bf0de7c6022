-- ===== src/Wtp/Rx/InOrder.antt =====
-- A message in one packet, received in order by the receive control of
-- client/wtp/wtp/transmission.c.
use wisp_ert.Common.{
  ℕ, ◌+◌, ◌-◌, ◌≤◌, ◌<◌, ◌≡◌, ap, ◌∙◌, false, List, ◌++◌, arith, length, u8_mod, u16_mod, bytes16,
  done,
}
use wisp_ert.Wio.Buf.{Buf}
use wisp_ert.Wio.Buf.Bounds.{IsValid}
use wisp_ert.Wio.Buf.Transfer.{written, written-IsValid}
use wisp_ert.Wio.Buf.Unread.{unread, unread-written}
use wisp_ert.Wtp.Rx.Compact.{unread-compact}
use wisp_ert.Wtp.Rx.{Fragment, MsgInfo}
use wisp_ert.Wtp.Rx.Packet.{handle_packet}
use wisp_ert.Wtp.Rx.Waiting.{
  waiting, delivered, declare_msg-waiting, insert_fragment-declared, deliver-placed,
}

-- A control that waits, with a spare item in its store and no fragment in its fragments buffer,
-- takes a message that comes whole in one packet, in order and within the window, if the message
-- and its length fit behind the unread bytes and the fragment fits in front of the end of its
-- buffer. It reports one message; the unread bytes are then the former ones, the length and the
-- message; and the control waits again, for the sequence number behind the message.
pub handle_packet-InOrder :
    (seq_num window : ℕ) (msgs frags : Buf) (nodes : List (ℕ × Fragment)) (item : MsgInfo)
    (items : List MsgInfo) (m header : ℕ) (payload : List ℕ)
    → seq_num < u16_mod
    → item.in_use ≡ false
    → (0 < length payload) × (length payload < u8_mod) × (length payload ≤ window)
    → IsValid msgs × (msgs.pos_a ≤ msgs.pos_b)
    → msgs.pos_b - msgs.pos_a + 2 + length payload ≤ msgs.size
    → IsValid frags × (frags.pos_a ≡ frags.pos_b)
    → frags.pos_b + header + length payload < frags.size
    → (b : Buf) × (handle_packet header seq_num payload
          (length payload)
          (waiting seq_num window msgs frags nodes item items m)
        ≡ done 1 (delivered seq_num window b frags nodes item items m header payload))
      × (unread (delivered seq_num window b frags nodes item items m header payload).msg_data_buf
          ≡ unread msgs ++ bytes16 (length payload) ++ payload)
unfolding handle_packet
handle_packet-InOrder seq_num window msgs frags nodes item items m header payload below spare
      (some_byte, short, within) (v, order) space (w, empty) room =
    let (b, moved, v', size, pos_a, pos_b, same) = unread-compact msgs v order in
    let head : IsValid (written b (bytes16 (length payload))) =
      written-IsValid (bytes16 (length payload)) v' (omega arith) in
    (
      b,
      ground (
        arith,
        declare_msg-waiting seq_num window msgs frags nodes item items m (length payload) spare,
        insert_fragment-declared seq_num window msgs frags nodes item items m header payload w short
            room,
        deliver-placed seq_num window b frags nodes item items m header payload some_byte w empty
            room msgs moved v' (omega arith),
      ),
      unread-written payload head (omega arith) (omega arith)
          ∙ ap (λ xs. xs ++ payload)
              (unread-written (bytes16 (length payload)) v' (omega arith) (omega arith))
          ∙ ap (λ xs. (xs ++ bytes16 (length payload)) ++ payload) same,
    )
