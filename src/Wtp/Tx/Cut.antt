-- ===== src/Wtp/Tx/Cut.antt =====
-- The fragments that `wtp_tx_make_fragment` of client/wtp/wtp/transmission.c cuts from a message.
use wisp_ert.Common.{
  ℕ, ◌+◌, ◌≤◌, ◌<◌, ◌≡◌, ◌≢◌, ◌∙◌, ap, refl, false, some, List, [], ◌∷◌, ◌++◌, arith, length, take,
  drop, bytes16, word16-bytes16, add16, to_u8, u8_mod, u16_mod, done, ◌==◌, if◌then◌else◌,
  Bool-cases, inl, inr, leb-false, local, zero, suc, sym, append_assoc, take-append-drop,
  drop-append_of_drop, length-take, length-drop,
}
use wisp_ert.Wio.Buf
use wisp_ert.Wio.Buf.{Buf}
use wisp_ert.Wio.Buf.Bounds.{IsValid, read_exact}
use wisp_ert.Wio.Queue
use wisp_ert.Wio.Queue.{Queue}
use wisp_ert.Wio.Queue.Refine.{Holds, pushed, push-Holds}
use wisp_ert.Wtp.Tx.Window.{
  in_flight, header_size, fragment_data_size-bounds, fragment_data_size-pos,
}
use wisp_ert.Wtp.Tx.{
  Fragment, TxCtrl, fragment_data_size, queue_fragment, cut_fragment, make_fragment,
}

-- the fragment of `n` bytes that comes next, its message's bytes standing at `pos`
abbrev pub next_fragment : TxCtrl → (size n pos : ℕ) → Fragment
next_fragment s size n pos = record {
  seq_num = add16 s.msg_begin_seq s.msg_fragmented;
  msg_size = if s.msg_fragmented == 0 then size else 0;
  data_at = pos + s.msg_fragmented;
  size = n;
  need_send = false;
}

-- the control after it has been cut
abbrev pub cut : TxCtrl → (size n pos : ℕ) → TxCtrl
cut s size n pos = record s {
  msg_fragmented = s.msg_fragmented + n;
  fragments_queue = pushed s.fragments_queue (next_fragment s size n pos);
  msg_ends_queue =
      if s.msg_fragmented == 0
      then pushed s.msg_ends_queue (add16 s.msg_begin_seq size)
      else s.msg_ends_queue;
}

queue_fragment-cut :
    (s : TxCtrl) (size n pos : ℕ) (fs : List Fragment)
    → n < u8_mod
    → s.msg_fragmented + n < u16_mod
    → Holds s.fragments_queue fs
    → length fs < s.fragments_queue.capacity
    → queue_fragment n size pos s
      ≡ done
          (some (Queue.begin_index (pushed s.fragments_queue (next_fragment s size n pos))))
          (record s {
            msg_fragmented = s.msg_fragmented + n;
            fragments_queue = pushed s.fragments_queue (next_fragment s size n pos);
          })
unfolding queue_fragment
queue_fragment-cut s size n pos fs short below h room =
    let (e, _) = push-Holds (next_fragment s size n pos) h room in
    let n' : to_u8 n ≡ n = omega arith in
    let f' : add16 s.msg_fragmented n ≡ s.msg_fragmented + n = omega arith in rw (n', f', e)

cut_fragment-cut :
    (s : TxCtrl) (avail size n pos : ℕ) (fs : List Fragment) (ends : List ℕ)
    → fragment_data_size s avail size ≡ n
    → 0 < n
    → n < u8_mod
    → s.msg_fragmented + n < u16_mod
    → Holds s.fragments_queue fs
    → length fs < s.fragments_queue.capacity
    → Holds s.msg_ends_queue ends
    → (s.msg_fragmented ≡ 0 → length ends < s.msg_ends_queue.capacity)
    → cut_fragment avail size pos s
      ≡ done (some (Queue.begin_index (cut s size n pos).fragments_queue)) (cut s size n pos)
unfolding cut_fragment fragment_data_size
cut_fragment-cut s avail size n pos fs ends e some_byte short below h room g space =
    elim (Bool-cases (s.msg_fragmented == 0)) [
      | inl first ↦
          let (ended, _) = push-Holds (add16 s.msg_begin_seq size) g (space (ground arith)) in
          let t : TxCtrl = record s {
            msg_ends_queue = pushed s.msg_ends_queue (add16 s.msg_begin_seq size);
          } in
          let e' : fragment_data_size t avail size ≡ n = e in
          rw (first, ended, e', more, queue_fragment-cut t size n pos fs short below h room, first)
      | inr later ↦
          rw (later, e, more, queue_fragment-cut s size n pos fs short below h room, later)
    ]
  where
    more : (n == 0) ≡ false
    more = ground arith

take-append_of_le : (n : ℕ) (xs ys : List ℕ) → n ≤ length xs → take n (xs ++ ys) ≡ take n xs
take-append_of_le zero xs ys h = refl
take-append_of_le (suc n) [] ys h = absurd (omega arith)
take-append_of_le (suc n) (x ∷ xs) ys h = ap (◌∷◌ x) (take-append_of_le n xs ys (omega arith))

-- In memory where a message stands behind its length, the bytes from an offset on are its bytes.
bytes-at :
    (bytes payload rest : List ℕ) (size pos f n : ℕ)
    → drop pos bytes ≡ bytes16 size ++ (payload ++ rest)
    → f + n ≤ length payload
    → take n (drop (pos + 2 + f) bytes) ≡ take n (drop f payload)
bytes-at bytes payload rest size pos f n e h =
    let e2 : drop (pos + 2) bytes ≡ payload ++ rest =
      drop-append_of_drop (bytes16 size) bytes pos (pos + 2) e refl in
    let split : payload ++ rest ≡ take f payload ++ (drop f payload ++ rest) =
      ap (λ xs. xs ++ rest) (sym (take-append-drop f payload))
      ∙ append_assoc (take f payload) (drop f payload) rest in
    let e3 : drop (pos + 2 + f) bytes ≡ drop f payload ++ rest =
      drop-append_of_drop (take f payload) bytes (pos + 2) (pos + 2 + f) (e2 ∙ split)
        (omega (arith, length-take f payload)) in
    ap (take n) e3
    ∙ take-append_of_le n (drop f payload) rest (omega (arith, length-drop f payload))

-- While a message that has not been cut whole stands in the message buffer behind its length, the
-- READ size has room behind the header, the window is not full, the fragments queue has room, and
-- the queue of message ends has room if it is the message's first fragment:
-- `wtp_tx_make_fragment` succeeds, and queues one fragment of the size that READ size, message and
-- window allow, with the next sequence number, the message's size if it is the first and 0 if not;
-- the message's end is queued with the first; and the fragment's bytes are the message's next.
pub make_fragment-cut :
    (s : TxCtrl) (avail size : ℕ) (payload rest : List ℕ) (fs : List Fragment) (ends : List ℕ)
    → IsValid s.msg_buf
    → s.msg_begin_pos + 2 ≤ s.msg_buf.size
    → s.msg_begin_pos ≢ s.msg_buf.pos_b
    → drop s.msg_begin_pos s.msg_buf.bytes ≡ bytes16 size ++ (payload ++ rest)
    → length payload ≡ size
    → size < u16_mod
    → s.msg_fragmented < size
    → avail < u8_mod
    → header_size s < avail
    → s.seq_num < u16_mod
    → s.window_size < u16_mod
    → in_flight s < s.window_size
    → Holds s.fragments_queue fs
    → length fs < s.fragments_queue.capacity
    → Holds s.msg_ends_queue ends
    → (s.msg_fragmented ≡ 0 → length ends < s.msg_ends_queue.capacity)
    → (make_fragment avail s
        ≡ done
            (some (
              Queue.begin_index
                (cut s size
                  (fragment_data_size s avail size)
                  (s.msg_begin_pos + 2)).fragments_queue))
            (cut s size (fragment_data_size s avail size) (s.msg_begin_pos + 2)))
      × (take (fragment_data_size s avail size) (
            drop
              (next_fragment s size (fragment_data_size s avail size) (s.msg_begin_pos + 2)).data_at
              s.msg_buf.bytes)
          ≡ take (fragment_data_size s avail size) (drop s.msg_fragmented payload))
unfolding make_fragment
make_fragment-cut s avail size payload rest fs ends v in_size more stands whole small some_left
      short header seq window flight h room g space =
    let (fits, within, _) =
      fragment_data_size-bounds s avail size short (omega arith) (omega arith) small seq window
        (omega arith) in
    let pos = fragment_data_size-pos s avail size short small seq window header some_left flight in
    let b : Buf = record (s.msg_buf) { pos_a = s.msg_begin_pos } in
    let w : IsValid b = record {
      pos_a_in = omega arith;
      pos_b_in = v.pos_b_in;
      size_in = v.size_in;
      small = v.small;
    } in
    let size_at : take 2 (drop s.msg_begin_pos s.msg_buf.bytes) ≡ bytes16 size =
      ap (take 2) stands in
    let left : (s.msg_begin_pos == s.msg_buf.pos_b) ≡ false = ground arith in
    let read_size : Buf.read 2 b ≡ done (bytes16 size) (record b { pos_a = s.msg_begin_pos + 2 }) =
      ground (arith, read_exact w 2 (omega (arith, v.small)), size_at) in
    (
      rw
          (
            left,
            local,
            read_size,
            word16-bytes16 size small,
            leb-false size s.msg_fragmented some_left,
          )
          (cut_fragment-cut s avail size (fragment_data_size s avail size) (s.msg_begin_pos + 2) fs
            ends refl pos (omega arith) (omega arith) h room g space),
      bytes-at s.msg_buf.bytes payload rest size s.msg_begin_pos s.msg_fragmented
          (fragment_data_size s avail size) stands (omega arith),
    )
