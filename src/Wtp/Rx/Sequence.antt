-- ===== src/Wtp/Rx/Sequence.antt =====
-- The packets of one message behind each other, at the receive control of
-- client/wtp/wtp/transmission.c.
use mathlib.Core.Path.{subst}
use mathlib.Core.List.{flatten}
use wisp_ert.Common.{
  ℕ, suc, ◌+◌, ◌≤◌, ◌<◌, ◌≡◌, ◌≢◌, ◌∙◌, ap, refl, sym, true, false, List, [], ◌∷◌, ◌++◌,
  append_assoc, append-nil, arith, length, length-append, add16, u8_mod, u16_mod, Outcome, done, M,
  ◌>>=◌, pure, ◌==◌, if◌then◌else◌, and_then,
}
use wisp_ert.Wio.Buf.{Buf}
use wisp_ert.Wio.Buf.Bounds.{IsValid}
use wisp_ert.Wio.Buf.Transfer.{written, written-IsValid}
use wisp_ert.Wio.Buf.Unread.{unread, unread-written}
use wisp_ert.Wtp.Rx.{Fragment, MsgInfo, RxCtrl}
use wisp_ert.Wtp.Rx.Compact.{unread-compact}
use wisp_ert.Wtp.Rx.Packet.{handle_packet}
use wisp_ert.Wtp.Rx.Continue.{Ready, handle_packet-partial}
use wisp_ert.Wtp.Rx.Waiting.{waiting}
use wisp_ert.Wtp.Rx.Partial.{partial, headed, ends, taken, emptied, nodes_with}

-- the packets that continue a message, one after the other; the numbers of messages that they
-- complete are added up
abbrev pub continue_all : (header seq_num : ℕ) → List (List ℕ) → M RxCtrl ℕ
continue_all header seq_num [] = pure 0
continue_all header seq_num (p ∷ ps) = handle_packet header seq_num p 0 >>= λ n.
    continue_all header (add16 seq_num (length p)) ps >>= λ k. pure (n + k)

-- a message of `total` bytes: the packet that begins it, and those that continue it
abbrev pub receive_all : (header seq_num total : ℕ) → (first : List ℕ) → List (List ℕ) → M RxCtrl ℕ
receive_all header seq_num total p ps = handle_packet header seq_num p total >>= λ n.
    continue_all header (add16 seq_num (length p)) ps >>= λ k. pure (n + k)

-- no packet is empty or longer than a `uint8_t` says or than the window
abbrev pub Fit : (window : ℕ) → List (List ℕ) → Type 0
Fit window [] = Unit
Fit window (p ∷ ps) = (0 < length p) × (length p < u8_mod) × (length p ≤ window) × Fit window ps

-- the memory of the fragments' records
abbrev pub records : (header : ℕ) → List (List ℕ) → ℕ
records header [] = 0
records header (p ∷ ps) = header + length p + records header ps

-- A call that has received one message: the control waits for `seq_num`, and `bytes` stand unread.
pub record Received (o : Outcome RxCtrl ℕ) (window seq_num : ℕ) (item : MsgInfo)
    (items : List MsgInfo) (m : ℕ) (bytes : List ℕ) : Type 0 where
  pub msgs : Buf
  pub frags : Buf
  pub nodes : List (ℕ × Fragment)
  pub result : o ≡ done 1 (waiting seq_num window msgs frags nodes item items m)
  pub stands : unread msgs ≡ bytes
  pub valid : IsValid msgs
  pub ordered : msgs.pos_a ≤ msgs.pos_b
  pub frags_valid : IsValid frags
  pub frags_empty : frags.pos_a ≡ frags.pos_b

-- the message's item in the store, once it has been received
abbrev pub spent : (begin total m : ℕ) → MsgInfo
spent begin total m = record { in_use = false; begin = begin; size = total; next = suc m }

-- what is done with the packets behind one that has been handled
abbrev pub continued :
    (header seq_num : ℕ) → List ℕ → List (List ℕ) → Outcome RxCtrl ℕ → Outcome RxCtrl ℕ
continued header seq_num p ps o =
    and_then o (λ n. continue_all header (add16 seq_num (length p)) ps >>= λ k. pure (n + k))

continued-cons :
    (header seq_num : ℕ) (p q : List ℕ) (ps : List (List ℕ)) (o o' : Outcome RxCtrl ℕ)
    (s t : RxCtrl)
    → o ≡ done 0 s
    → handle_packet header (add16 seq_num (length p)) q 0 s ≡ o'
    → continued header (add16 seq_num (length p)) q ps o' ≡ done 1 t
    → continued header seq_num p (q ∷ ps) o ≡ done 1 t
continued-cons header seq_num p q ps o o' s t first next rest =
    ap (continued header seq_num p (q ∷ ps)) first
    ∙ ap (λ o. and_then (continued header (add16 seq_num (length p)) q ps o) (λ k. pure (0 + k)))
        next
    ∙ ap (λ o. and_then o (λ k. pure (0 + k))) rest

module _ (window header : ℕ) (begin total : ℕ) (items : List MsgInfo) (m : ℕ) where
  last-Received :
      (seq_num got : ℕ) (msgs frags h : Buf) (nodes : List (ℕ × Fragment)) (p : List ℕ)
      → seq_num ≡ add16 begin got
      → got + length p ≡ total
      → h ≡ headed seq_num window msgs frags nodes begin total items m
      → IsValid h × (h.pos_a ≤ h.pos_b)
      → h.pos_b + length p ≤ h.size
      → IsValid frags
      → frags.pos_b + header + length p < frags.size
      → Received
          (continued header seq_num p [] (
            done
              (if ends seq_num window msgs frags nodes begin total items m p then 1 else 0)
              (taken seq_num window msgs frags nodes begin total items m header p)))
          window
          (add16 begin total)
          (spent begin total m)
          items
          m
          (unread h ++ p)
  last-Received seq_num got msgs frags h nodes p at all eh (v, order) room w space =
      let e : add16 seq_num (length p) ≡ add16 begin total = omega arith in
      let over : ends seq_num window msgs frags nodes begin total items m p ≡ true = ground arith in
      record {
        msgs = written h p;
        frags = emptied seq_num window msgs frags nodes begin total items m header p;
        nodes = nodes_with seq_num window msgs frags nodes begin total items m header p true;
        result = rw (over, eh, e) refl;
        stands = unread-written p v order room;
        valid = written-IsValid p v room;
        ordered = omega arith;
        frags_valid = record {
          pos_a_in = omega arith;
          pos_b_in = omega arith;
          size_in = w.size_in;
          small = w.small;
        };
        frags_empty = refl;
      }

  pub rest-Received :
      (ps : List (List ℕ)) (seq_num got : ℕ) (msgs frags h : Buf) (nodes : List (ℕ × Fragment))
      (p : List ℕ)
      → seq_num ≡ add16 begin got
      → 0 < length p
      → total < u16_mod
      → got + length (p ++ flatten ps) ≡ total
      → Fit window ps
      → h ≡ headed seq_num window msgs frags nodes begin total items m
      → IsValid h × (h.pos_a ≤ h.pos_b)
      → h.pos_b + length (p ++ flatten ps) ≤ h.size
      → IsValid frags
      → frags.pos_b + records header (p ∷ ps) < frags.size
      → begin < u16_mod
      → Received
          (continued header seq_num p ps (
            done
              (if ends seq_num window msgs frags nodes begin total items m p then 1 else 0)
              (taken seq_num window msgs frags nodes begin total items m header p)))
          window
          (add16 begin total)
          (spent begin total m)
          items
          m
          (unread h ++ (p ++ flatten ps))
  unfolding flatten
  rest-Received [] seq_num got msgs frags h nodes p at some_byte below all fit eh (v, order) room w
        space start =
      rw (append-nil p) (
        last-Received seq_num got msgs frags h nodes p at (omega (arith, length-append p [])) eh
          (v, order) (omega (arith, length-append p [])) w (omega arith))
  rest-Received (q ∷ ps) seq_num got msgs frags h nodes p at some_byte below all
        (some_q, short_q, in_q, fits_ps) eh (v, order) room w space start =
      let seq : ℕ = add16 seq_num (length p) in
      let b : Buf = written h p in
      let f : Buf = emptied seq_num window msgs frags nodes begin total items m header p in
      let ns : List (ℕ × Fragment) =
        nodes_with seq_num window msgs frags nodes begin total items m header p true in
      let len = length-append p (q ++ flatten ps) in
      let len_q = length-append q (flatten ps) in
      let v' : IsValid b = written-IsValid p v (omega arith) in
      let (msgs', moved, v'', size', pos_a', pos_b', same) = unread-compact b v' (omega arith) in
      let inner : seq ≢ begin = λ e. omega (arith, e) in
      let apart : add16 seq_num (length p) ≢ add16 begin total = λ e. omega (arith, e) in
      let go_on : ends seq_num window msgs frags nodes begin total items m p ≡ false =
        ground (arith, apart) in
      let start_ne : (seq == begin) ≡ false = ground (arith, inner) in
      let no_head : headed seq window msgs' f ns begin total items m ≡ msgs' = rw start_ne refl in
      let w' : IsValid f = record {
        pos_a_in = omega arith;
        pos_b_in = omega arith;
        size_in = w.size_in;
        small = w.small;
      } in
      let r : Ready window header begin total items m seq b msgs' f ns q = record {
        below = omega arith;
        some_byte = some_q;
        short = short_q;
        within = in_q;
        moved = moved;
        valid = v'';
        head_room = λ e. absurd (inner e);
        head_valid = subst IsValid (sym no_head) v'';
        room = subst (λ (h : Buf). h.pos_b + length q ≤ msgs'.size) (sym no_head) (omega arith);
        frags_valid = w';
        frags_empty = refl;
        frags_room = omega arith;
      } in
      let one = handle_packet-partial window header begin total items m seq b msgs' f ns q r in
      let ih =
        rest-Received ps seq (got + length p) msgs' f msgs' ns q (omega arith) some_q below
          (omega arith) fits_ps (sym no_head) (v'', omega arith) (omega arith) w' (omega arith)
          start in
      let handled : Outcome RxCtrl ℕ =
        done (if ends seq_num window msgs frags nodes begin total items m p then 1 else 0)
          (taken seq_num window msgs frags nodes begin total items m header p) in
      let first : handled ≡ done 0 (partial seq window b f ns begin total items m) =
        rw (go_on, eh) refl in
      record {
        msgs = ih.msgs;
        frags = ih.frags;
        nodes = ih.nodes;
        result =
            continued-cons header seq_num p q ps _ _ (partial seq window b f ns begin total items m)
              _ first one ih.result;
        stands =
            ih.stands
            ∙ ap (λ xs. xs ++ (q ++ flatten ps)) (same ∙ unread-written p v order (omega arith))
            ∙ append_assoc (unread h) p (q ++ flatten ps);
        valid = ih.valid;
        ordered = ih.ordered;
        frags_valid = ih.frags_valid;
        frags_empty = ih.frags_empty;
      }
