-- ===== src/Wtp/Tx/Add.antt =====
-- `wtp_tx_add_msg` of client/wtp/wtp/transmission.c where there is room for the message.
use wisp_ert.Common.{
  ℕ, ◌+◌, ◌≤◌, ◌<◌, ◌≡◌, ap, some, List, ◌++◌, arith, length, bytes16, u16_mod, done,
}
use wisp_ert.Common.Memory.{splice, store-some, splice-splice, length-splice}
use wisp_ert.Wio.Buf
use wisp_ert.Wio.Buf.{Buf}
use wisp_ert.Wio.Buf.Bounds.{IsValid}
use wisp_ert.Wio.Buf.Transfer.{write-fits, written, written-IsValid}
use wisp_ert.Wio.Queue
use wisp_ert.Wio.Queue.{Queue}
use wisp_ert.Wio.Queue.Refine.{Holds, pushed, push-Holds}
use wisp_ert.Wtp.Tx.{ReadInfo, TxCtrl, read_info_of, poke, add_msg}

-- the control with a message and its READ information behind what it holds
abbrev pub added : TxCtrl → List ℕ → ReadInfo → TxCtrl
added s payload info = record s {
  msg_buf = written s.msg_buf (bytes16 (length payload) ++ payload);
  read_info_queue = pushed s.read_info_queue info;
}

-- room for a block behind a length
alloc-room :
    {b : Buf} (n : ℕ)
    → b.size < u16_mod
    → b.pos_b + n < b.size
    → Buf.alloc n b ≡ done (b.pos_b) (record b { pos_b = b.pos_b + n })
unfolding Buf.alloc
alloc-room n v h = ground arith

-- A message that ends before the end of a valid message buffer is written there behind its length,
-- if there is room for its READ information.
pub add_msg-added :
    (s : TxCtrl) (payload : List ℕ) (info : ReadInfo) (infos : List ReadInfo)
    → IsValid s.msg_buf
    → s.msg_buf.pos_b + 2 + length payload < s.msg_buf.size
    → read_info_of s.read_size (length payload) ≡ some info
    → Holds s.read_info_queue infos
    → length infos < s.read_info_queue.capacity
    → add_msg payload s
      ≡ done (Queue.begin_index (pushed s.read_info_queue info)) (added s payload info)
unfolding add_msg
add_msg-added s payload info infos v room e h space =
    let (pushes, _) = push-Holds info h space in
    let w : IsValid (written s.msg_buf (bytes16 (length payload))) =
      written-IsValid (bytes16 (length payload)) v (omega arith) in
    let inside : s.msg_buf.pos_b + 2 + length payload
        ≤ length (splice s.msg_buf.bytes s.msg_buf.pos_b (bytes16 (length payload))) =
      omega (
        arith,
        length-splice s.msg_buf.bytes s.msg_buf.pos_b (bytes16 (length payload)),
        v.size_in,
      ) in
    let behind : s.msg_buf.pos_b + 2 + length payload
        ≡ s.msg_buf.pos_b + length (bytes16 (length payload) ++ payload) =
      omega arith in
    rw
      (
        write-fits (bytes16 (length payload)) v (omega arith),
        alloc-room {b = written s.msg_buf (bytes16 (length payload))} (length payload) v.small room,
        poke,
        store-some _ (s.msg_buf.pos_b + 2) payload inside,
        splice-splice s.msg_buf.bytes s.msg_buf.pos_b (bytes16 (length payload)) payload
            (s.msg_buf.pos_b + 2) (omega arith),
        e,
        pushes,
      )
      (ap
        (λ p. done (Queue.begin_index (pushed s.read_info_queue info)) (record s {
          msg_buf = record (s.msg_buf) {
            bytes = splice s.msg_buf.bytes s.msg_buf.pos_b (bytes16 (length payload) ++ payload);
            pos_b = p;
          };
          read_info_queue = pushed s.read_info_queue info;
        }))
        behind)
