-- ===== src/Wtp/Tx/Cycle.antt =====
-- A message from `wtp_tx_add_msg` over `wtp_tx_make_fragment` to the acknowledgement that
-- `wtp_tx_handle_ack` of client/wtp/wtp/transmission.c gets for it.
use mathlib.Core.Path.{subst}
use wisp_ert.Common.{
  ℕ, ◌+◌, ◌-◌, ◌*◌, ◌≤◌, ◌<◌, ◌≡◌, ◌∙◌, ap, refl, sym, true, some, List, [], ◌∷◌, ◌++◌, arith,
  length, append-nil, drop, bytes16, add16, u8_mod, u16_mod, done, M, ◌>>=◌, ◌==◌,
}
use wisp_ert.Common.Memory.{drop-splice_self}
use wisp_ert.Wio.Buf.{Buf}
use wisp_ert.Wio.Buf.Bounds.{IsValid}
use wisp_ert.Wio.Buf.Transfer.{written-IsValid}
use wisp_ert.Wio.Queue.{begin_index}
use wisp_ert.Wio.Queue.Refine.{Holds, pushed, pop-Holds}
use wisp_ert.Wtp.Tx.{Fragment, ReadInfo, TxCtrl, read_info_of, add_msg}
use wisp_ert.Wtp.Tx.Window.{in_flight}
use wisp_ert.Wtp.Tx.Tiles.{Tiles, WholeCut, new_end, make_fragments}
use wisp_ert.Wtp.Tx.Message.{make_fragments-WholeCut}
use wisp_ert.Wtp.Tx.Add.{added, add_msg-added}
use wisp_ert.Wtp.Tx.Ack.{handle_ack}
use wisp_ert.Wtp.Tx.Ack.Release.{Chain}
use wisp_ert.Wtp.Tx.Ack.Border.{handle_ack-whole}

Tiles-le : (begin size at : ℕ) (fs : List Fragment) → Tiles begin size at fs → at ≤ size
Tiles-le begin size at [] t = omega arith
Tiles-le begin size at (f ∷ fs) t = omega (arith, Tiles-le begin size (at + f.size) fs t.3)

Tiles-Chain :
    (begin size at a e : ℕ) (fs : List Fragment)
    → a ≡ begin + at
    → e ≡ begin + size
    → begin + size < u16_mod
    → Tiles begin size at fs
    → Chain a fs e
Tiles-Chain begin size at a e [] p q small t = omega arith
Tiles-Chain begin size at a e (f ∷ fs) p q small t =
    let le = Tiles-le begin size (at + f.size) fs t.3 in
    (
      t.0,
      omega (arith, t.1, le),
      Tiles-Chain begin size (at + f.size) (a + f.size) e fs (omega arith) q small t.3,
    )

-- what the program, the reader's READs and the peer do with one message: it is added, cut into
-- fragments by a number of calls, and acknowledged at its end
abbrev pub cycle : (payload : List ℕ) (calls avail_size seq_num : ℕ) → M TxCtrl ℕ
cycle payload calls avail_size seq_num =
    add_msg payload >>= λ _. make_fragments calls avail_size >>= λ _. handle_ack seq_num

-- A control with nothing to send: no message, fragment or message end is there, the next number is
-- that of the message's begin, and the fragments queue begins at its first slot.
pub record Idle (s : TxCtrl) : Type 0 where
  pub valid : IsValid s.msg_buf
  pub empty : s.msg_buf.pos_a ≡ s.msg_buf.pos_b
  pub begin : s.msg_begin_pos ≡ s.msg_buf.pos_b
  pub uncut : s.msg_fragmented ≡ 0
  pub next_seq : s.seq_num ≡ s.msg_begin_seq
  pub no_fragments : Holds s.fragments_queue []
  pub at_front : s.fragments_queue.end ≡ 0
  pub no_ends : Holds s.msg_ends_queue []

-- What is left when a message of `size` bytes has been acknowledged: nothing waits to be sent, the
-- message's memory is free, the next number is the one behind it, and nothing is in flight.
pub record Settled (s : TxCtrl) (size : ℕ) (t : TxCtrl) : Type 0 where
  pub no_fragments : Holds t.fragments_queue []
  pub no_ends : Holds t.msg_ends_queue []
  pub valid : IsValid t.msg_buf
  pub empty : t.msg_buf.pos_a ≡ t.msg_buf.pos_b
  pub next_seq : t.seq_num ≡ s.msg_begin_seq + size
  pub none_in_flight : in_flight t ≡ 0

-- what the acknowledgement of the whole message does once the message has been cut
pub acknowledged :
    (n : ℕ) (s : TxCtrl) (payload : List ℕ) (info : ReadInfo) (avail : ℕ)
    → Idle s
    → 0 < length payload
    → s.msg_buf.pos_b + 2 + length payload < s.msg_buf.size
    → s.msg_begin_seq + length payload < u16_mod
    → n < u8_mod
    → (w : WholeCut (added s payload info) avail (length payload) n payload [] [])
    → (t : TxCtrl) × (handle_ack (s.msg_begin_seq + length payload) w.after ≡ done 1 t)
      × Settled s (length payload) t
acknowledged n s payload info avail i some_byte room below n_small w =
    let size : ℕ = length payload in
    let e : ℕ = s.msg_begin_seq + size in
    let v' : IsValid (added s payload info).msg_buf =
      written-IsValid (bytes16 size ++ payload) i.valid (omega arith) in
    let stands =
      drop-splice_self s.msg_buf.bytes s.msg_buf.pos_b (bytes16 size ++ payload)
        (omega (arith, i.valid.size_in)) in
    let buf = ap (λ t. t.msg_buf) w.same in
    let begin = ap (λ t. t.msg_begin_seq) w.same in
    let cut = ap (λ t. t.msg_fragmented) w.same in
    let valid : IsValid w.after.msg_buf = subst IsValid (sym buf) v' in
    let first : (s.msg_fragmented == 0) ≡ true = ground (arith, i.uncut) in
    let no_wrap : add16 s.msg_begin_seq size ≡ e = omega arith in
    let last : new_end (added s payload info) size ≡ e ∷ [] = rw (first, no_wrap) refl in
    let ended : Holds w.after.msg_ends_queue (e ∷ []) =
      subst (Holds w.after.msg_ends_queue) last w.ended in
    let rest : List ℕ =
      drop (length (bytes16 size ++ payload)) (drop s.msg_buf.pos_b s.msg_buf.bytes) in
    let pos_a = ap (λ b. b.pos_a) buf in
    let b_size = ap (λ b. b.size) buf in
    let pos_b = ap (λ b. b.pos_b) buf in
    let (q, none_left, acks) =
      handle_ack-whole s.msg_begin_seq e size w.new [] [] w.after (payload ++ rest)
        (rw (append-nil) w.queued) (w.same_end ∙ i.at_front)
        (omega (arith, w.queued.count, w.one_each, w.few))
        (Tiles-Chain s.msg_begin_seq size s.msg_fragmented s.msg_begin_seq e w.new
          (omega (arith, i.uncut)) refl below w.tiles)
        (omega arith) valid ended (omega arith) (omega (arith, pos_a, b_size, i.empty))
        (subst (λ (b : Buf). drop b.pos_a b.bytes ≡ bytes16 size ++ (payload ++ rest)) (sym buf)
          (ap (λ p. drop p (added s payload info).msg_buf.bytes) i.empty ∙ stands))
        (omega (arith, begin, cut)) (omega (arith, begin, cut)) in
    (
      _,
      acks,
      record {
        no_fragments = none_left;
        no_ends = (pop-Holds ended).2;
        valid = record {
          pos_a_in = omega (arith, pos_a, b_size, i.empty);
          pos_b_in = valid.pos_b_in;
          size_in = valid.size_in;
          small = valid.small;
        };
        empty = omega (arith, pos_a, pos_b, i.empty);
        next_seq = refl;
        none_in_flight = omega (arith, begin, cut);
      },
    )

-- A message of at least a byte fits: the message buffer behind what it holds, the queue of READ
-- information, the window, the sequence numbers in front of their wrap, the fragments queue if the
-- message is cut into `n` fragments of the least size that the READ size allows, and the queue of
-- message ends.
pub record HasRoom (n : ℕ) (s : TxCtrl) (payload : List ℕ) (info : ReadInfo) (infos : List ReadInfo)
    (avail : ℕ) : Type 0 where
  pub some_byte : 0 < length payload
  pub buffer : s.msg_buf.pos_b + 2 + length payload < s.msg_buf.size
  pub read_info : read_info_of s.read_size (length payload) ≡ some info
  pub read_infos : Holds s.read_info_queue infos
  pub read_info_slot : length infos < s.read_info_queue.capacity
  pub window : length payload ≤ s.window_size
  pub window_small : s.window_size < u16_mod
  pub numbers : s.msg_begin_seq + length payload < u16_mod
  pub avail_small : avail < u8_mod
  pub header_fits : 6 < avail
  pub enough : length payload ≤ n * (avail - 6)
  pub slots : n ≤ s.fragments_queue.capacity
  pub count_small : n < u8_mod
  pub end_slot : 0 < s.msg_ends_queue.capacity

module _ (n : ℕ) (s : TxCtrl) (payload : List ℕ) (info : ReadInfo) (infos : List ReadInfo)
    (avail : ℕ) (i : Idle s) (r : HasRoom n s payload info infos avail) where
  pub add_msg-Idle :
      add_msg payload s ≡ done (begin_index (pushed s.read_info_queue info)) (added s payload info)
  add_msg-Idle =
      add_msg-added s payload info infos i.valid r.buffer r.read_info r.read_infos r.read_info_slot

  pub added-WholeCut : WholeCut (added s payload info) avail (length payload) n payload [] []
  added-WholeCut =
      let size : ℕ = length payload in
      let v' : IsValid (added s payload info).msg_buf =
        written-IsValid (bytes16 size ++ payload) i.valid (omega (arith, r.buffer)) in
      let stands =
        drop-splice_self s.msg_buf.bytes s.msg_buf.pos_b (bytes16 size ++ payload)
          (omega (arith, i.valid.size_in, r.buffer)) in
      make_fragments-WholeCut n (added s payload info) avail size payload
        (drop (length (bytes16 size ++ payload)) (drop s.msg_buf.pos_b s.msg_buf.bytes)) [] [] v'
        (omega (arith, i.begin, r.buffer)) (λ e. omega (arith, e, i.begin, r.some_byte))
        (ap (λ p. drop p (added s payload info).msg_buf.bytes) i.begin ∙ stands) refl
        (omega (arith, i.valid.small, r.buffer)) (omega (arith, i.uncut)) r.avail_small
        r.header_fits r.some_byte (omega (arith, i.next_seq, r.numbers)) r.window_small
        (omega (arith, i.next_seq, i.uncut, r.window, r.numbers)) (omega (arith, i.uncut, r.enough))
        i.no_fragments (omega (arith, r.slots)) i.no_ends (λ _. r.end_slot)

  -- A message that fits, given to a control with nothing to send, is cut by at most `n` calls, and the
  -- acknowledgement of its last byte reports one message as sent. All calls succeed, no fragment and
  -- no message end is left, the message's memory is free again, the next number is the one behind the
  -- message, and nothing is in flight.
  pub cycle-Idle :
      (calls : ℕ) × (t : TxCtrl) × (calls ≤ n)
      × (cycle payload calls avail (s.msg_begin_seq + length payload) s ≡ done 1 t)
      × Settled s (length payload) t
  cycle-Idle =
      let w = added-WholeCut in
      let (t, acks, settled) =
        acknowledged n s payload info avail i r.some_byte r.buffer r.numbers r.count_small w in
      (w.calls, t, w.few, rw (add_msg-Idle, w.made) acks, settled)
