-- ===== src/Wtp/Tx/Ack/Release.antt =====
-- What `wtp_tx_handle_ack` of client/wtp/wtp/transmission.c removes and releases.
use wisp_ert.Common.{
  ◌⊎◌, inl, inr, ℕ, zero, suc, ◌+◌, ◌≤◌, ◌<◌, ◌≡◌, ◌∙◌, ap, refl, false, some, List, [], ◌∷◌, ◌++◌,
  arith, length, drop, get_elem?, bytes16, add8, add16, u8_mod, u16_mod, done, ◌==◌, ltb, ltb-false,
  leb-false, leb-true, sub16, word16-bytes16, take,
}
use wisp_ert.Wio.Buf
use wisp_ert.Wio.Buf.Bounds.{IsValid, read_exact}
use wisp_ert.Wio.Queue
use wisp_ert.Wio.Queue.{Queue}
use wisp_ert.Wio.Queue.Refine.{Stored, Holds, popped, pop-Holds}
use wisp_ert.Wtp.Tx.{Fragment, TxCtrl}
use wisp_ert.Wtp.Tx.Ack.{
  ignored, acked, fragment_end, release_msg, remove_fragment, remove_fragments,
}
use wisp_ert.Wtp.Tx.Ack.Scan.{scan}

-- The fragments carry the numbers from one to another, each from where the one before ends.
abbrev pub Chain : ℕ → List Fragment → ℕ → Type 0
Chain a [] b = a ≡ b
Chain a (f ∷ fs) b = (0 < f.size) × (fragment_end f ≡ a + f.size) × Chain (a + f.size) fs b

==_ne : (a b : ℕ) → (a ≡ b → ⊥) → (a == b) ≡ false
==_ne a b h = ground arith

pub Chain-le : (a b : ℕ) (fs : List Fragment) → Chain a fs b → a ≤ b
Chain-le a b [] c = omega arith
Chain-le a b (f ∷ fs) c = omega (arith, Chain-le (a + f.size) b fs c.2)

scan-at :
    (b n : ℕ) (f : Fragment) (fs : List Fragment)
    → fragment_end f ≡ b
    → scan b (f ∷ fs) n ≡ acked (add8 n 1)
scan-at b n f fs e = ground arith

scan-on :
    (b n : ℕ) (f : Fragment) (fs : List Fragment)
    → fragment_end f < b
    → scan b (f ∷ fs) n ≡ scan b fs (add8 n 1)
scan-on b n f fs l =
    rw (scan, ltb-false b (fragment_end f) (omega arith), ==_ne (fragment_end f) b (omega arith))
      refl

-- The first loop stops behind the fragments that end at the number.
pub scan-Chain :
    (a b n : ℕ) (gs hs : List Fragment)
    → a < b
    → n + length gs < u8_mod
    → Chain a gs b
    → scan b (gs ++ hs) n ≡ acked (n + length gs)
scan-Chain a b n [] hs l small c = absurd (omega arith)
scan-Chain a b n (f ∷ []) hs l small c = scan-at b n f hs (omega arith) ∙ ap acked (omega arith)
scan-Chain a b n (f ∷ g ∷ gs) hs l small c =
    let le = Chain-le (a + f.size + g.size) b gs c.2.2 in
    let n' : add8 n 1 ≡ n + 1 = omega arith in
    scan-on b n f (g ∷ gs ++ hs) (omega (arith, le))
    ∙ ap (scan b (g ∷ gs ++ hs)) n'
    ∙ scan-Chain (a + f.size) b (n + 1) (g ∷ gs) hs (omega (arith, le)) (omega arith) c.2
    ∙ ap acked (omega arith)

-- It stops at once at a fragment that ends behind the number, and goes through those that end before it.
pub scan-inside :
    (a c b n : ℕ) (gs hs : List Fragment) (f : Fragment)
    → Chain a gs c
    → (gs ≡ []) ⊎ (c < b)
    → b < fragment_end f
    → scan b (gs ++ f ∷ hs) n ≡ ignored
scan-inside a c b n [] hs f ch before l = ground arith
scan-inside a c b n (g ∷ gs) hs f ch (inl e) l = cc
scan-inside a c b n (g ∷ gs) hs f ch (inr before) l =
    let le = Chain-le (a + g.size) c gs ch.2 in
    scan-on b n g (gs ++ f ∷ hs) (omega (arith, le))
    ∙ scan-inside (a + g.size) c b (add8 n 1) gs hs f ch.2 (inr before) l

drop-get_elem? :
    (xs : List Fragment) (i : ℕ) (f : Fragment)
    → get_elem? xs i ≡ some f
    → drop i xs ≡ f ∷ drop (suc i) xs
drop-get_elem? [] i f e = cc
drop-get_elem? (x ∷ xs) zero f e = cc
drop-get_elem? (x ∷ xs) (suc i) f e = drop-get_elem? xs i f e

-- Items that do not go round the capacity stand in the slots one behind the other.
pub drop-Stored :
    (slots : List Fragment) (capacity i k : ℕ) (fs : List Fragment)
    → capacity < u16_mod
    → k ≡ i + length fs
    → k ≤ capacity
    → Stored slots capacity i fs
    → drop i slots ≡ fs ++ drop k slots
drop-Stored slots capacity i k [] small e fits st =
    let e' : i ≡ k = omega arith in ap (λ j. drop j slots) e'
drop-Stored slots capacity i k (f ∷ []) small e fits st =
    let e' : suc i ≡ k = omega arith in
    drop-get_elem? slots i f st.0 ∙ ap (λ j. f ∷ drop j slots) e'
drop-Stored slots capacity i k (f ∷ g ∷ fs) small e fits st =
    let next : Queue.next capacity i ≡ suc i = ground arith in
    drop-get_elem? slots i f st.0
    ∙ ap (◌∷◌ f) (
        drop-Stored slots capacity (suc i) k (g ∷ fs) small (omega arith) fits (rw (← next) (st.1)))

-- A fragment that ends before the next message end leaves the queue, and that is all.
remove_fragment-part :
    (f : Fragment) (fs : List Fragment) (e : ℕ) (es : List ℕ) (s : TxCtrl)
    → Holds s.fragments_queue (f ∷ fs)
    → Holds s.msg_ends_queue (e ∷ es)
    → fragment_end f < e
    → remove_fragment s ≡ done 0 (record s { fragments_queue = popped s.fragments_queue })
unfolding remove_fragment
remove_fragment-part f fs e es s h g l =
    let (pops, _, _) = pop-Holds h in
    let queued : (s.msg_ends_queue.size == 0) ≡ false = ground (arith, g.count) in
    rw (pops, queued, Queue.at, g.stored.0, leb-false e (fragment_end f) l) refl

-- While the next message end is behind the fragments, they leave the queue, and that is all.
pub remove_fragments-part :
    (a b e : ℕ) (gs hs : List Fragment) (es : List ℕ) (s : TxCtrl)
    → Chain a gs b
    → b < e
    → Holds s.fragments_queue (gs ++ hs)
    → Holds s.msg_ends_queue (e ∷ es)
    → (q : Queue Fragment) × Holds q hs
      × (remove_fragments (length gs) 0 s ≡ done 0 (record s { fragments_queue = q }))
unfolding remove_fragments
remove_fragments-part a b e [] hs es s c l h g = (s.fragments_queue, h, refl)
remove_fragments-part a b e (f ∷ gs) hs es s c l h g =
    let (_, _, h') = pop-Holds h in
    let le = Chain-le (a + f.size) b gs c.2 in
    let one = remove_fragment-part f (gs ++ hs) e es s h g (omega (arith, le)) in
    let (q, h'', rest) =
      remove_fragments-part (a + f.size) b e gs hs es
        (record s { fragments_queue = popped s.fragments_queue }) c.2 l h' g in
    (q, h'', rw (one) rest)

-- the control after the oldest message of `size` bytes has been released
abbrev pub released : TxCtrl → (size : ℕ) → TxCtrl
released s size = record s {
  msg_ends_queue = popped s.msg_ends_queue;
  msg_buf = record (s.msg_buf) { pos_a = s.msg_buf.pos_a + 2 + size };
}

-- A message within the buffer is released with its length.
release_msg-released :
    (size e : ℕ) (es : List ℕ) (s : TxCtrl) (rest : List ℕ)
    → IsValid s.msg_buf
    → Holds s.msg_ends_queue (e ∷ es)
    → size < u16_mod
    → s.msg_buf.pos_a + 2 + size ≤ s.msg_buf.size
    → drop s.msg_buf.pos_a s.msg_buf.bytes ≡ bytes16 size ++ rest
    → release_msg s ≡ done tt (released s size)
unfolding release_msg Buf.free
release_msg-released size e es s rest v g small fits stands =
    let (_, drops, _) = pop-Holds g in
    let size_at : take 2 (drop s.msg_buf.pos_a s.msg_buf.bytes) ≡ bytes16 size =
      ap (take 2) stands in
    let reads : Buf.read 2 s.msg_buf
        ≡ done (bytes16 size) (record (s.msg_buf) { pos_a = s.msg_buf.pos_a + 2 }) =
      ground (arith, read_exact v 2 (omega (arith, v.small)), size_at) in
    let room : ltb (sub16 s.msg_buf.size (s.msg_buf.pos_a + 2)) size ≡ false =
      ground (arith, v.small) in
    let at : add16 (s.msg_buf.pos_a + 2) size ≡ s.msg_buf.pos_a + 2 + size =
      omega (arith, v.small) in
    rw (drops, reads, word16-bytes16 size small, room, at) refl

-- The fragment that ends where the oldest message ends releases that message.
remove_fragment-whole :
    (f : Fragment) (fs : List Fragment) (size e : ℕ) (es : List ℕ) (s : TxCtrl) (rest : List ℕ)
    → Holds s.fragments_queue (f ∷ fs)
    → IsValid s.msg_buf
    → Holds s.msg_ends_queue (e ∷ es)
    → size < u16_mod
    → s.msg_buf.pos_a + 2 + size ≤ s.msg_buf.size
    → drop s.msg_buf.pos_a s.msg_buf.bytes ≡ bytes16 size ++ rest
    → fragment_end f ≡ e
    → remove_fragment s
      ≡ done 1 (released (record s { fragments_queue = popped s.fragments_queue }) size)
unfolding remove_fragment
remove_fragment-whole f fs size e es s rest h v g small fits stands l =
    let (pops, _, _) = pop-Holds h in
    let queued : (s.msg_ends_queue.size == 0) ≡ false = ground (arith, g.count) in
    rw
      (
        pops,
        queued,
        Queue.at,
        g.stored.0,
        leb-true e (fragment_end f) (omega arith),
        release_msg-released size e es (record s { fragments_queue = popped s.fragments_queue })
            rest v g small fits stands,
      )
      refl

-- The fragments of the oldest message, to its end, leave the queue, and the message is released.
pub remove_fragments-whole :
    (a e size : ℕ) (gs hs : List Fragment) (es : List ℕ) (s : TxCtrl) (rest : List ℕ)
    → Chain a gs e
    → a < e
    → Holds s.fragments_queue (gs ++ hs)
    → IsValid s.msg_buf
    → Holds s.msg_ends_queue (e ∷ es)
    → size < u16_mod
    → s.msg_buf.pos_a + 2 + size ≤ s.msg_buf.size
    → drop s.msg_buf.pos_a s.msg_buf.bytes ≡ bytes16 size ++ rest
    → (q : Queue Fragment) × Holds q hs
      × (remove_fragments (length gs) 0 s
          ≡ done 1 (released (record s { fragments_queue = q }) size))
unfolding remove_fragments
remove_fragments-whole a e size [] hs es s rest c l h v g small fits stands = absurd (omega arith)
remove_fragments-whole a e size (f ∷ []) hs es s rest c l h v g small fits stands =
    let (_, _, h') = pop-Holds h in
    let one = remove_fragment-whole f hs size e es s rest h v g small fits stands (omega arith) in
    (popped s.fragments_queue, h', rw one refl)
remove_fragments-whole a e size (f ∷ f' ∷ gs) hs es s rest c l h v g small fits stands =
    let (_, _, h') = pop-Holds h in
    let le = Chain-le (a + f.size + f'.size) e gs c.2.2 in
    let one = remove_fragment-part f (f' ∷ gs ++ hs) e es s h g (omega (arith, le)) in
    let (q, h'', all) =
      remove_fragments-whole (a + f.size) e size (f' ∷ gs) hs es
        (record s { fragments_queue = popped s.fragments_queue }) rest c.2 (omega (arith, le)) h' v
        g small fits stands in
    (q, h'', rw one all)
