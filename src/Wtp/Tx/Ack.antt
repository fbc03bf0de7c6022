-- ===== src/Wtp/Tx/Ack.antt =====
-- `wtp_tx_handle_ack` of client/wtp/wtp/transmission.c.
pub mod Scan
pub mod Release
pub mod Border
use wisp_ert.Common.{
  ℕ, zero, suc, ◌+◌, ◌-◌, Option, none, some, ltb, leb, ◌==◌, if◌then◌else◌, add16, to_u8, add8,
  word16, Outcome, done, fail, fault, M, ◌>>=◌, ◌>>◌, pure, get, modify, present,
}
use wisp_ert.Wio.Status.{invalid}
use wisp_ert.Wio.Buf
use wisp_ert.Wio.Queue
use wisp_ert.Wio.Queue.{Queue}
use wisp_ert.Wtp.Tx.{Fragment, TxCtrl, on_msg_buf, on_fragments, on_msg_ends}

-- what the first loop finds
pub data Walk : Type 0 where
  -- `return WIO_OK`: nothing to acknowledge, or a number that is not at a fragment's border
  ignored : Walk
  -- the number of fragments to remove
  acked : ℕ → Walk
  -- a slot outside of the queue's memory
  strayed : Walk

-- `fragment->_seq_num+fragment->_size`
abbrev pub fragment_end : Fragment → ℕ
fragment_end f = add16 f.seq_num f.size

-- The first loop, with the rounds left. The index goes round at the queue's size.
unfoldable pub walk : ℕ → Queue Fragment → (seq_num queue_index n_fragments : ℕ) → Walk
walk zero q seq_num i n = acked n
walk (suc rounds) q seq_num i n = elim (Queue.at q i) [
  | none ↦ strayed
  | some f ↦
      let rest = walk rounds q seq_num (if add8 i 1 == q.size then 0 else add8 i 1) (add8 n 1) in
      if ltb seq_num (fragment_end f)
      then ignored
      else if fragment_end f == seq_num
      then acked (add8 n 1)
      else rest
]

-- The part of the second loop where a whole message has been sent: its memory is released.
unfoldable pub release_msg : M TxCtrl (Unit {0})
release_msg = do
  on_msg_ends Queue.discard
  size ← on_msg_buf (Buf.read 2)
  on_msg_buf (Buf.free (word16 size))

-- One round of the second loop: how many messages it completes.
unfoldable pub remove_fragment : M TxCtrl ℕ
unfolding release_msg
remove_fragment = do
  f ← on_fragments Queue.pop
  s ← get
  if s.msg_ends_queue.size == 0 then pure 0 else do
    msg_end ← present (Queue.at s.msg_ends_queue s.msg_ends_queue.end)
    if leb msg_end (fragment_end f) then release_msg >> pure 1 else pure 0

-- The second loop, with the rounds left and `n_sent_msgs`.
unfoldable pub remove_fragments : ℕ → ℕ → M TxCtrl ℕ
remove_fragments zero n_sent = pure n_sent
remove_fragments (suc rounds) n_sent =
    remove_fragment >>= λ n. remove_fragments rounds (add8 n_sent n)

-- `wtp_tx_handle_ack`: the number of messages sent goes out, 0 where `*_n_msgs` is not written.
unfoldable pub handle_ack : ℕ → M TxCtrl ℕ
unfolding walk remove_fragments
handle_ack seq_num s =
    if ltb (add16 s.msg_begin_seq s.msg_fragmented) seq_num
    then fail invalid s
    else elim (walk s.fragments_queue.size s.fragments_queue seq_num (to_u8 s.fragments_queue.end)
        0) [
          | ignored ↦ done 0 s
          | strayed ↦ fault
          | acked n ↦
              (remove_fragments n 0 >>= λ n_sent.
              modify (λ s. record s { seq_num = seq_num }) >> pure n_sent)
                s
        ]
