-- ===== src/Wtp/Endpoint/Blockwrite/Message.antt =====
-- What `wtp_handle_blockwrite` of client/wtp/wtp/endpoint.c does with a block of one message packet.
use mathlib.Core.List.{flatten}
use wisp_ert.Common.{
  ℕ, suc, Bool, true, false, Option, none, ◌/◌, ◌%◌, ◌∙◌, ◌+◌, ◌≤◌, ◌<◌, ◌≡◌, refl, some, List, [],
  ◌∷◌, ◌++◌, arith, length, length-append, bytes16, add16, word16, word16-bytes16, u16_mod, done,
}
use wisp_ert.Common.Memory.{slice}
use wisp_ert.Wio.Buf
use wisp_ert.Wio.Buf.{Buf}
use wisp_ert.Wio.Buf.Bounds.{IsValid}
use wisp_ert.Wio.Buf.Transfer.{written}
use wisp_ert.Wtp.Packet.{pkt_ack}
use wisp_ert.Wtp.Rx.{RxCtrl}
use wisp_ert.Wtp.Rx.Packet.{handle_packet}
use wisp_ert.Wtp.Tx.Frame.{emit, frame, emit-frame}
use wisp_ert.Wtp.Endpoint.{Wtp, Env, on_tx}
use wisp_ert.Wtp.Endpoint.Handlers.{handle_msg_packet, receive_packet, notify_received}
use wisp_ert.Wtp.Endpoint.Blockwrite.{
  pkt_handler, handle_blockwrite, read_packets, dispatch, read_type,
}
use wisp_ert.Wtp.Endpoint.Blockwrite.Blocks.{
  handle_blockwrite-done, read_packets-step, read_packets-end,
}
use wisp_ert.Wtp.Endpoint.Blockwrite.Bytes.{
  block, block_buf, read-at, read_type-at, payload-at, checksum-at,
}

-- The header of a message packet on the wire: for a packet that begins a message, 4, the message's size,
-- the sequence number and the number of the packet's own bytes; for one that continues a message, 5
-- and no size. Words stand with their low byte first.
abbrev pub header : (begins : Option ℕ) (seq_num payload_size : ℕ) → List ℕ
header (some size) seq_num payload_size =
    4 ∷ size % 256 ∷ size / 256 % 256 ∷ seq_num % 256 ∷ seq_num / 256 % 256 ∷ payload_size ∷ []
header none seq_num payload_size = 5 ∷ seq_num % 256 ∷ seq_num / 256 % 256 ∷ payload_size ∷ []

-- the packet, without its checksum
abbrev pub message_packet : (begins : Option ℕ) (seq_num : ℕ) (payload : List ℕ) → List ℕ
message_packet begins seq_num payload = header begins seq_num (length payload) ++ payload

-- the size of the message that the packet begins, or 0
abbrev pub new_size : Option ℕ → ℕ
new_size (some size) = size
new_size none = 0

-- the packet's type and the flag that its handler gets
abbrev type_of : Option ℕ → ℕ
type_of (some size) = 4
type_of none = 5

abbrev is_begin : Option ℕ → Bool
is_begin (some size) = true
is_begin none = false

module _ (env : Env) (s s1 s2 : Wtp) (rx : RxCtrl) (n seq_num : ℕ) (payload rest : List ℕ)
    (below : seq_num < u16_mod)
    (handed : notify_received env n (record s { pkt_begin = 0; rx_ctrl = rx }) ≡ done tt s1)
    (acked : on_tx (emit pkt_ack (bytes16 s1.rx_ctrl.seq_num ∷ [])) s1 ≡ done tt s2) where
  -- The handler gives the receive control the packet's fields, then hands out the messages that are
  -- complete, and acknowledges.
  handle_msg_packet-over :
      (k : Option ℕ) (m : ℕ) (e : m ≡ length (header k seq_num (length payload)) + length payload)
      (short : m + 1 < 256)
      → new_size k < u16_mod
      → handle_packet env.rx_header seq_num payload (new_size k) s.rx_ctrl ≡ done n rx
      → handle_msg_packet env (is_begin k) (record {
        self = record s { pkt_begin = 0 };
        buf = block_buf (header k seq_num (length payload)) payload rest m e short 1;
      })
        ≡ done tt (record {
          self = s2;
          buf = block_buf (header k seq_num (length payload)) payload rest m e short (suc m);
        })
  unfolding handle_msg_packet slice Buf.init
  handle_msg_packet-over (some size) m e short small received =
      let hd : List ℕ = header (some size) seq_num (length payload) in
      let moved : add16 6 (length payload) ≡ m = omega (arith, e) in
      let size_at : word16 (bytes16 size) ≡ size = word16-bytes16 size small in
      let seq_at : word16 (bytes16 seq_num) ≡ seq_num = word16-bytes16 seq_num below in
      rw (
        read-at hd payload rest m e short 1 2 (omega arith),
        read-at hd payload rest m e short 3 2 (omega arith),
        read-at hd payload rest m e short 5 1 (omega arith),
        moved,
        checksum-at hd payload rest m e short s,
        payload-at hd payload rest m e short,
        receive_packet,
        size_at,
        seq_at,
        received,
        handed,
        acked,
      )
  handle_msg_packet-over none m e short small received =
      let hd : List ℕ = header none seq_num (length payload) in
      let moved : add16 4 (length payload) ≡ m = omega (arith, e) in
      let seq_at : word16 (bytes16 seq_num) ≡ seq_num = word16-bytes16 seq_num below in
      rw (
        read-at hd payload rest m e short 1 2 (omega arith),
        read-at hd payload rest m e short 3 1 (omega arith),
        moved,
        checksum-at hd payload rest m e short s,
        payload-at hd payload rest m e short,
        receive_packet,
        seq_at,
        received,
        handed,
        acked,
      )

  read_packets-over :
      (k : Option ℕ) (m : ℕ) (e : m ≡ length (header k seq_num (length payload)) + length payload)
      (short : m + 1 < 256)
      → new_size k < u16_mod
      → handle_packet env.rx_header seq_num payload (new_size k) s.rx_ctrl ≡ done n rx
      → read_packets env (suc (suc m)) (record {
        self = s;
        buf = Buf.init (block (message_packet k seq_num payload) rest) (suc m);
      })
        ≡ done tt (record {
          self = record s2 { pkt_begin = suc m };
          buf = block_buf (header k seq_num (length payload)) payload rest m e short (suc m);
        })
  unfolding read_type dispatch pkt_handler Buf.init
  read_packets-over (some size) m e short small received =
      let hd : List ℕ = header (some size) seq_num (length payload) in
      read_packets-step env (suc m) 4 _ _ _
        (rw (read_type, read-at hd payload rest m e short 0 1 (omega arith)) refl) refl
        (handle_msg_packet-over (some size) m e short small received)
      ∙ read_packets-end env m _ _
          (read_type-at hd payload rest m e short (record s2 { pkt_begin = suc m }))
  read_packets-over none m e short small received =
      let hd : List ℕ = header none seq_num (length payload) in
      read_packets-step env (suc m) 5 _ _ _
        (rw (read_type, read-at hd payload rest m e short 0 1 (omega arith)) refl) refl
        (handle_msg_packet-over none m e short small received)
      ∙ read_packets-end env m _ _
          (read_type-at hd payload rest m e short (record s2 { pkt_begin = suc m }))

-- the endpoint after the acknowledgement has been built
abbrev pub answered : Wtp → Wtp
answered s = record s {
  tx_ctrl = record (s.tx_ctrl) {
    pkt_buf = written s.tx_ctrl.pkt_buf (frame pkt_ack (bytes16 s.rx_ctrl.seq_num ∷ []));
    pkt_begin = s.tx_ctrl.pkt_buf.pos_b + 1;
    pkt_size = s.tx_ctrl.pkt_buf.pos_b;
  };
}

-- A block that holds one message packet and its checksum, either a WTP_PKT_BEGIN_MSG (4) with the size
-- of the message that it begins, which may be larger than what the packet carries, or a
-- WTP_PKT_CONT_MSG (5): the receive control gets the packet's sequence number and its bytes, and the
-- size that the packet names, or 0. If it takes them and the messages that it reports can be handed to
-- their callbacks, and if a frame of four bytes then fits the packet buffer, the block succeeds, and a
-- WTP_PKT_ACK with the receive control's sequence number is built.
pub handle_blockwrite-message :
    (env : Env) (s s1 : Wtp) (rx : RxCtrl) (n seq_num : ℕ) (begins : Option ℕ)
    (payload rest : List ℕ)
    → length (message_packet begins seq_num payload) + 1 < 256
    → seq_num < u16_mod
    → new_size begins < u16_mod
    → s.write_mem
      ≡ suc (length (message_packet begins seq_num payload))
        ∷ block (message_packet begins seq_num payload) rest
    → handle_packet env.rx_header seq_num payload (new_size begins) s.rx_ctrl ≡ done n rx
    → notify_received env n (record s { pkt_begin = 0; rx_ctrl = rx }) ≡ done tt s1
    → IsValid s1.tx_ctrl.pkt_buf
    → s1.tx_ctrl.pkt_buf.pos_b + 4 ≤ s1.tx_ctrl.pkt_buf.size
    → handle_blockwrite env s
      ≡ done tt (record (answered s1) {
        pkt_begin = suc (length (message_packet begins seq_num payload));
      })
unfolding flatten
handle_blockwrite-message env s s1 rx n seq_num begins payload rest short below small e received
      handed v room =
    let packet : List ℕ = message_packet begins seq_num payload in
    let ack : emit pkt_ack (bytes16 s1.rx_ctrl.seq_num ∷ []) s1.tx_ctrl
        ≡ done tt (answered s1).tx_ctrl =
      emit-frame s1.tx_ctrl v pkt_ack (bytes16 s1.rx_ctrl.seq_num ∷ []) (omega arith)
        (omega arith) in
    handle_blockwrite-done env s (suc (length packet)) (block packet rest) _ e (
      read_packets-over env s s1 (answered s1) rx n seq_num payload rest below handed (rw ack refl)
        begins (length packet) (length-append (header begins seq_num (length payload)) payload)
        short small received)
