-- ===== src/Wtp/Tx.antt =====
-- The transmit control of client/wtp/wtp/transmission.c and transmission.h.
pub mod Ack
pub mod Frame
pub mod Window
pub mod Cut
pub mod Tiles
pub mod Message
pub mod Add
pub mod Cycle
use wisp_ert.Common.{
  ℕ, zero, suc, ◌+◌, ◌-◌, ◌*◌, ◌/◌, ◌%◌, Option, none, some, List, [], ◌∷◌, ltb, leb, ◌==◌, Bool,
  false, if◌then◌else◌, length, add16, sub16, to_u8, bytes16, word16, Outcome, done, fail, fault, M,
  ◌>>=◌, ◌>>◌, pure, get, modify, on, local, present, faulting,
}
use wisp_ert.Common.Memory.{store}
use wisp_ert.Wio.Status.{invalid}
use wisp_ert.Wio.Buf
use wisp_ert.Wio.Buf.{Buf}
use wisp_ert.Wio.Queue
use wisp_ert.Wio.Queue.{Queue}

-- `wtp_tx_read_info_t`
pub record ReadInfo : Type 0 where
  pub size : ℕ
  pub n_reads : ℕ

-- `wtp_tx_fragment_t`; the pointer `_data` is an index of the message buffer's memory.
pub record Fragment : Type 0 where
  pub seq_num : ℕ
  pub msg_size : ℕ
  pub data_at : ℕ
  pub size : ℕ
  pub need_send : Bool

-- `wtp_tx_ctrl_t`; the pointer `_pkt_size` is an index of the packet buffer's memory.
pub record TxCtrl : Type 0 where
  pub seq_num : ℕ
  pub window_size : ℕ
  pub timeout : ℕ
  pub read_size : ℕ
  pub pkt_buf : Buf
  pub msg_buf : Buf
  pub pkt_begin : ℕ
  pub pkt_size : ℕ
  pub msg_begin_seq : ℕ
  pub msg_begin_pos : ℕ
  pub msg_fragmented : ℕ
  pub fragments_queue : Queue Fragment
  pub read_info_queue : Queue ReadInfo
  pub msg_ends_queue : Queue ℕ

-- What `malloc` gives at each call of `wtp_tx_init`, and the sizes that the compiler gives types.
pub record TxMemory : Type 0 where
  pub pkt_bytes : ℕ → Option (List ℕ)
  pub msg_bytes : ℕ → Option (List ℕ)
  pub fragments : ℕ → Option (List Fragment)
  pub read_infos : ℕ → Option (List ReadInfo)
  pub msg_ends : ℕ → Option (List ℕ)
  pub sizeof_fragment : ℕ
  pub sizeof_read_info : ℕ

-- `wtp_tx_init`. A status other than WIO_OK leaves no control behind.
unfoldable pub tx_init :
    TxMemory
    → (window_size timeout read_size pkt_buf_size msg_buf_size n_fragments n_msgs : ℕ)
    → M (Unit {0}) TxCtrl
tx_init m window_size timeout read_size pkt_buf_size msg_buf_size n_fragments n_msgs = do
  pkt_buf ← Buf.alloc_init m.pkt_bytes pkt_buf_size
  msg_buf ← Buf.alloc_init m.msg_bytes msg_buf_size
  fragments_queue ← Queue.init m.fragments m.sizeof_fragment n_fragments
  read_info_queue ← Queue.init m.read_infos m.sizeof_read_info n_msgs
  msg_ends_queue ← Queue.init m.msg_ends 2 n_msgs
  pure (record {
    seq_num = 0;
    window_size = window_size;
    timeout = timeout;
    read_size = to_u8 read_size;
    pkt_buf = pkt_buf;
    msg_buf = msg_buf;
    pkt_begin = 0;
    pkt_size = 0;
    msg_begin_seq = 0;
    msg_begin_pos = 0;
    msg_fragmented = 0;
    fragments_queue = fragments_queue;
    read_info_queue = read_info_queue;
    msg_ends_queue = msg_ends_queue;
  })

module _ {ℓ} {A : Type ℓ} where
  abbrev pub on_pkt_buf : M Buf A → M TxCtrl A
  on_pkt_buf = on (λ s. s.pkt_buf) (λ s b. record s { pkt_buf = b })

  abbrev pub on_msg_buf : M Buf A → M TxCtrl A
  on_msg_buf = on (λ s. s.msg_buf) (λ s b. record s { msg_buf = b })

  abbrev pub on_fragments : M (Queue Fragment) A → M TxCtrl A
  on_fragments = on (λ s. s.fragments_queue) (λ s q. record s { fragments_queue = q })

  abbrev pub on_read_infos : M (Queue ReadInfo) A → M TxCtrl A
  on_read_infos = on (λ s. s.read_info_queue) (λ s q. record s { read_info_queue = q })

  abbrev pub on_msg_ends : M (Queue ℕ) A → M TxCtrl A
  on_msg_ends = on (λ s. s.msg_ends_queue) (λ s q. record s { msg_ends_queue = q })

-- `wtp_tx_begin_packet`
unfoldable pub begin_packet : ℕ → M TxCtrl (Unit {0})
begin_packet pkt_type = do
  p ← on_pkt_buf (Buf.alloc 1)
  modify (λ s. record s { pkt_size = p; pkt_begin = s.pkt_buf.pos_b })
  on_pkt_buf (Buf.write (pkt_type ∷ []))

-- a copy into a buffer's memory, past its cursors
unfoldable pub poke : ℕ → List ℕ → M Buf (Unit {0})
poke at ys b = elim (store b.bytes at ys) [
  | none ↦ fault
  | some mem ↦ done tt (record b { bytes = mem })
]

-- `wtp_tx_end_packet`
unfoldable pub end_packet : M TxCtrl (Unit {0})
unfolding poke
end_packet = do
  s ← get
  on_pkt_buf (poke s.pkt_size (to_u8 (sub16 s.pkt_buf.pos_b s.pkt_begin) ∷ []))

-- the READ OpSpec information of `wtp_tx_add_msg` for a message of `size` bytes; a division by
-- zero where the READ size is the header's
unfoldable pub read_info_of : (read_size size : ℕ) → Option ReadInfo
read_info_of read_size size =
    let payload_size = sub16 read_size 6 in
    let n_reads = to_u8 (add16 (size / payload_size) 1) in
    if payload_size == 0
    then none
    else some (record {
      size = if n_reads == 1 then to_u8 (add16 size 6) else read_size;
      n_reads = n_reads;
    })

-- `wtp_tx_add_msg`: the index of the new READ information goes out.
unfoldable pub add_msg : List ℕ → M TxCtrl ℕ
unfolding read_info_of poke
add_msg bytes = do
  on_msg_buf (Buf.write (bytes16 (length bytes)))
  p ← on_msg_buf (Buf.alloc (length bytes))
  on_msg_buf (poke p bytes)
  s ← get
  info ← present (read_info_of s.read_size (length bytes))
  on_read_infos (Queue.push info)
  s ← get
  pure (Queue.begin_index s.read_info_queue)

-- WIO_MIN3
unfoldable pub min3 : ℕ → ℕ → ℕ → ℕ
min3 x y z = let m = if ltb x y then x else y in if ltb m z then m else z

-- `fragment_data_size` of `wtp_tx_make_fragment`
unfoldable pub fragment_data_size : TxCtrl → (avail_size msg_size : ℕ) → ℕ
unfolding min3
fragment_data_size s avail_size msg_size =
    let seq_num = add16 s.msg_begin_seq s.msg_fragmented in
    let max_avail = sub16 avail_size (if s.msg_fragmented == 0 then 6 else 4) in
    let max_msg = sub16 msg_size s.msg_fragmented in
    let max_window = sub16 (add16 s.seq_num s.window_size) seq_num in
    min3 max_avail max_msg max_window

-- `wtp_tx_make_fragment` from "Data fragments queue" on: the new fragment of `n` bytes
unfoldable pub queue_fragment : (n msg_size pos_a : ℕ) → M TxCtrl (Option ℕ)
queue_fragment n msg_size pos_a = do
  s ← get
  let fragmented = s.msg_fragmented
  modify (λ s. record s { msg_fragmented = add16 s.msg_fragmented n })
  on_fragments (
      Queue.push (record {
        seq_num = add16 s.msg_begin_seq fragmented;
        msg_size = if fragmented == 0 then msg_size else 0;
        data_at = pos_a + fragmented;
        size = to_u8 n;
        need_send = false;
      }))
  s ← get
  pure (some (Queue.begin_index s.fragments_queue))

-- `wtp_tx_make_fragment` from the message end on, with the local message buffer's read cursor
unfoldable pub cut_fragment : (avail_size msg_size pos_a : ℕ) → M TxCtrl (Option ℕ)
unfolding fragment_data_size queue_fragment
cut_fragment avail_size msg_size pos_a = do
  s ← get
  if s.msg_fragmented == 0
      then on_msg_ends (Queue.push (add16 s.msg_begin_seq msg_size))
      else pure tt
  s ← get
  let n = fragment_data_size s avail_size msg_size
  if n == 0 then pure none else queue_fragment n msg_size pos_a

-- `wtp_tx_make_fragment`, "Load next message data into fragment"
unfoldable pub next_message : (avail_size msg_size : ℕ) → Buf → M TxCtrl (Option ℕ)
unfolding cut_fragment
next_message avail_size msg_size msg_buf = do
  modify (λ s. record s { msg_begin_seq = add16 s.msg_begin_seq msg_size; msg_fragmented = 0 })
  (_, msg_buf) ← local (Buf.free msg_size) msg_buf
  modify (λ s. record s { msg_begin_pos = msg_buf.pos_a })
  if msg_buf.pos_a == msg_buf.pos_b then pure none else do
    (next_size, msg_buf) ← local (Buf.read 2) msg_buf
    cut_fragment avail_size (word16 next_size) msg_buf.pos_a

-- `wtp_tx_make_fragment`: the index of the new fragment goes out, if there is one.
unfoldable pub make_fragment : ℕ → M TxCtrl (Option ℕ)
unfolding next_message
make_fragment avail_size = do
  s ← get
  let msg_buf = record (s.msg_buf) { pos_a = s.msg_begin_pos }
  if msg_buf.pos_a == msg_buf.pos_b then pure none else do
    (size, msg_buf) ← local (Buf.read 2) msg_buf
    if leb (word16 size) s.msg_fragmented
        then next_message avail_size (word16 size) msg_buf
        else cut_fragment avail_size (word16 size) msg_buf.pos_a
