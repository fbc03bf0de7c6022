-- ===== src/Wtp/Tx/Message.antt =====
-- A whole message of the transmit control of client/wtp/wtp/transmission.c, cut by calls of
-- `wtp_tx_make_fragment` one after the other.
use wisp_ert.Common.{
  ℕ, zero, suc, ◌+◌, ◌-◌, ◌*◌, ◌≤◌, ◌<◌, ◌≡◌, ◌≢◌, ◌∙◌, ap, refl, false, List, [], ◌∷◌, ◌++◌, arith,
  length, take, drop, bytes16, add16, u8_mod, u16_mod, done, ◌==◌, Bool-cases, inl, inr, sym, ap₂,
  append_assoc, append-nil, take-append-drop, length-take, length-drop, length-append, some,
}
use mathlib.Core.Path.{subst}
use wisp_ert.Wio.Buf.Bounds.{IsValid}
use wisp_ert.Wio.Queue
use wisp_ert.Wio.Queue.{Queue}
use wisp_ert.Wio.Queue.Refine.{Holds, push-Holds}
use wisp_ert.Wtp.Tx.{Fragment, TxCtrl, fragment_data_size, make_fragment}
use wisp_ert.Wtp.Tx.Window.{
  in_flight, header_size, fragment_data_size-open, fragment_data_size-bounds, rest-bounds,
}
use wisp_ert.Wtp.Tx.Cut.{next_fragment, cut, make_fragment-cut}
use wisp_ert.Wtp.Tx.Tiles.{make_fragments, new_end, WholeCut}

drop-drop : (m n k : ℕ) (xs : List ℕ) → k ≡ m + n → drop n (drop m xs) ≡ drop k xs
drop-drop zero n k xs e = let e' : n ≡ k = omega arith in ap (λ i. drop i xs) e'
drop-drop (suc m) zero zero [] e = refl
drop-drop (suc m) zero (suc k) [] e = refl
drop-drop (suc m) (suc n) zero [] e = refl
drop-drop (suc m) (suc n) (suc k) [] e = refl
drop-drop (suc m) n zero (x ∷ xs) e = absurd (omega arith)
drop-drop (suc m) n (suc k) (x ∷ xs) e = drop-drop m n k xs (omega arith)

drop-all : (n : ℕ) (xs : List ℕ) → n ≡ length xs → drop n xs ≡ []
drop-all zero [] e = refl
drop-all (suc n) [] e = refl
drop-all zero (x ∷ xs) e = absurd (omega arith)
drop-all (suc n) (x ∷ xs) e = drop-all n xs (omega arith)

in_flight-cut :
    (s : TxCtrl) (size k pos : ℕ)
    → s.seq_num < u16_mod
    → s.window_size < u16_mod
    → s.msg_fragmented + k ≤ size
    → in_flight s + (size - s.msg_fragmented) ≤ s.window_size
    → in_flight (cut s size k pos) + (size - (s.msg_fragmented + k)) ≤ s.window_size
in_flight-cut s size k pos seq window fits flight = omega arith

cut-ends :
    (s : TxCtrl) (size k pos : ℕ) (ends : List ℕ)
    → Holds s.msg_ends_queue ends
    → (s.msg_fragmented ≡ 0 → length ends < s.msg_ends_queue.capacity)
    → Holds (cut s size k pos).msg_ends_queue (ends ++ new_end s size)
cut-ends s size k pos ends g space = elim (Bool-cases (s.msg_fragmented == 0)) [
  | inl e ↦ rw (e) (push-Holds (add16 s.msg_begin_seq size) g (space (ground arith))).1
  | inr e ↦ rw (e, append-nil) g
]

-- nothing is left to cut
WholeCut-none :
    (s : TxCtrl) (avail size n : ℕ) (payload : List ℕ) (fs : List Fragment) (ends : List ℕ)
    → s.msg_fragmented ≡ size
    → 0 < size
    → length payload ≡ size
    → Holds s.fragments_queue fs
    → Holds s.msg_ends_queue ends
    → WholeCut s avail size n payload fs ends
WholeCut-none s avail size n payload fs ends e pos whole h g =
    let later : (s.msg_fragmented == 0) ≡ false = ground arith in
    record {
      calls = 0;
      after = s;
      new = [];
      few = omega arith;
      made = refl;
      same = ap (λ f. record s { msg_fragmented = f }) e;
      same_end = refl;
      one_each = refl;
      queued = rw (append-nil) h;
      ended = rw (later, append-nil) g;
      tiles = e;
      sound = tt;
      bytes = sym (drop-all s.msg_fragmented payload (omega arith));
    }

-- one fragment, and then what the calls behind it cut
WholeCut-more :
    (s : TxCtrl) (avail size n k pos : ℕ) (payload : List ℕ) (fs : List Fragment) (ends : List ℕ)
    → 0 < k
    → make_fragment avail s
      ≡ done (some (Queue.begin_index (cut s size k pos).fragments_queue)) (cut s size k pos)
    → take k (drop (next_fragment s size k pos).data_at s.msg_buf.bytes)
      ≡ take k (drop s.msg_fragmented payload)
    → length (take k (drop (next_fragment s size k pos).data_at s.msg_buf.bytes)) ≡ k
    → k ≤ avail
    → WholeCut
        (cut s size k pos)
        avail
        size
        n
        payload
        (fs ++ next_fragment s size k pos ∷ [])
        (ends ++ new_end s size)
    → WholeCut s avail size (suc n) payload fs ends
WholeCut-more s avail size n k pos payload fs ends pos_k e at there fits w =
    let later : (s.msg_fragmented + k == 0) ≡ false = ground arith in
    let nothing : new_end (cut s size k pos) size ≡ [] = rw later refl in
    let left : drop (s.msg_fragmented + k) payload ≡ drop k (drop s.msg_fragmented payload) =
      sym (drop-drop s.msg_fragmented k (s.msg_fragmented + k) payload refl) in
    let ends_same : (ends ++ new_end s size) ++ new_end (cut s size k pos) size
        ≡ ends ++ new_end s size =
      ap (λ xs. (ends ++ new_end s size) ++ xs) nothing ∙ append-nil (ends ++ new_end s size) in
    record {
      calls = suc w.calls;
      after = w.after;
      new = next_fragment s size k pos ∷ w.new;
      few = omega (arith, w.few);
      made = rw (make_fragments, e) w.made;
      same = w.same;
      same_end = w.same_end;
      one_each = omega (arith, w.one_each);
      queued = rw (← append_assoc fs (next_fragment s size k pos ∷ []) w.new) w.queued;
      ended = subst (Holds w.after.msg_ends_queue) ends_same w.ended;
      tiles = (pos_k, refl, refl, w.tiles);
      sound = (there, fits, w.sound);
      bytes = ap₂ (◌++◌) at (w.bytes ∙ left) ∙ take-append-drop k (drop s.msg_fragmented payload);
    }

-- While the whole rest of a message that stands in the message buffer behind its length fits the
-- window, the READ size has room behind the header, and the queues have room, at most `n` calls of
-- `wtp_tx_make_fragment` cut it, where `n` fragments of the least size that the READ size allows
-- are enough for it: every call succeeds and queues one more fragment, the fragments are numbered
-- one behind the other up to the message's end, none is empty, the message's size stands in the
-- first of the message alone and its end is queued with it, the bytes that they point at are the
-- message's bytes in order, and nothing else of the control changes.
pub make_fragments-WholeCut :
    (n : ℕ) (s : TxCtrl) (avail size : ℕ) (payload rest : List ℕ) (fs : List Fragment)
    (ends : List ℕ)
    → IsValid s.msg_buf
    → s.msg_begin_pos + 2 ≤ s.msg_buf.size
    → s.msg_begin_pos ≢ s.msg_buf.pos_b
    → drop s.msg_begin_pos s.msg_buf.bytes ≡ bytes16 size ++ (payload ++ rest)
    → length payload ≡ size
    → size < u16_mod
    → s.msg_fragmented ≤ size
    → avail < u8_mod
    → 6 < avail
    → 0 < size
    → s.seq_num < u16_mod
    → s.window_size < u16_mod
    → in_flight s + (size - s.msg_fragmented) ≤ s.window_size
    → size - s.msg_fragmented ≤ n * (avail - 6)
    → Holds s.fragments_queue fs
    → length fs + n ≤ s.fragments_queue.capacity
    → Holds s.msg_ends_queue ends
    → (s.msg_fragmented ≡ 0 → length ends < s.msg_ends_queue.capacity)
    → WholeCut s avail size n payload fs ends
make_fragments-WholeCut zero s avail size payload rest fs ends v in_size more stands whole small
      within short pos_avail pos seq window flight enough h room g space =
    WholeCut-none s avail size zero payload fs ends (omega arith) pos whole h g
make_fragments-WholeCut (suc n) s avail size payload rest fs ends v in_size more stands whole small
      within short pos_avail pos seq window flight enough h room g space =
    elim (Bool-cases (s.msg_fragmented == size)) [
      | inl e ↦ WholeCut-none s avail size (suc n) payload fs ends (ground arith) pos whole h g
      | inr e ↦
          let left : s.msg_fragmented < size = ground arith in
          let k : ℕ = fragment_data_size s avail size in
          let behind : header_size s < avail = ground arith in
          let exact =
            fragment_data_size-open s avail size short behind within small seq window flight in
          let (made, at) =
            make_fragment-cut s avail size payload rest fs ends v in_size more stands whole small
              left short behind seq window (omega arith) h (omega arith) g space in
          let (kpos, fits, less) =
            rest-bounds s.msg_fragmented size (header_size s) avail n k (ground arith) pos_avail
              left exact enough in
          let (fits_avail, _, _) =
            fragment_data_size-bounds s avail size short (omega arith) (omega arith) small seq
              window (omega arith) in
          let there : length (take k (drop s.msg_fragmented payload)) ≡ k = omega (
            arith,
            length-take k (drop s.msg_fragmented payload),
            length-drop s.msg_fragmented payload,
          ) in
          WholeCut-more s avail size n k (s.msg_begin_pos + 2) payload fs ends kpos made at
            (ap length at ∙ there) (omega (arith, fits_avail))
            (make_fragments-WholeCut n (cut s size k (s.msg_begin_pos + 2)) avail size payload rest
              (fs ++ next_fragment s size k (s.msg_begin_pos + 2) ∷ []) (ends ++ new_end s size) v
              in_size more stands whole small fits short pos_avail pos seq window
              (in_flight-cut s size k (s.msg_begin_pos + 2) seq window fits flight) less
              (push-Holds (next_fragment s size k (s.msg_begin_pos + 2)) h (omega arith)).1
              (omega (arith, length-append fs (next_fragment s size k (s.msg_begin_pos + 2) ∷ [])))
              (cut-ends s size k (s.msg_begin_pos + 2) ends g space)
              (λ e. absurd (omega (arith, e, kpos))))
    ]
