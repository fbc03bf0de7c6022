-- ===== src/Wtp/Tx/Ack/Scan.antt =====
-- Which fragments the first loop of `wtp_tx_handle_ack` of client/wtp/wtp/transmission.c finds
-- acknowledged.
use wisp_ert.Common.{
  ℕ, zero, suc, ◌+◌, ◌<◌, ◌≡◌, refl, sym, ap, ◌∙◌, List, [], ◌∷◌, ◌++◌, length, drop, drop-cons,
  get_elem?, arith, ltb, ◌==◌, if◌then◌else◌, add8, u8_mod, some, Option-cases, inl, inr,
}
use wisp_ert.Wio.Queue
use wisp_ert.Wio.Queue.{Queue}
use wisp_ert.Wtp.Tx.{Fragment}
use wisp_ert.Wtp.Tx.Ack.{Walk, ignored, acked, walk, fragment_end}

-- The fragments in the order in which they were queued, up to the one that ends where the number
-- says; ignored if the number is inside of a fragment.
abbrev pub scan : ℕ → List Fragment → ℕ → Walk
scan seq_num [] n = acked n
scan seq_num (f ∷ fs) n =
    if ltb seq_num (fragment_end f)
    then ignored
    else if fragment_end f == seq_num
    then acked (add8 n 1)
    else scan seq_num fs (add8 n 1)

walk-step :
    (rounds : ℕ) (q : Queue Fragment) (seq_num i n : ℕ) (f : Fragment)
    → get_elem? q.slots i ≡ some f
    → walk (suc rounds) q seq_num i n ≡ (
        if ltb seq_num (fragment_end f)
        then ignored
        else if fragment_end f == seq_num
        then acked (add8 n 1)
        else walk rounds q seq_num (if add8 i 1 == q.size then 0 else add8 i 1) (add8 n 1))
unfolding walk
walk-step rounds q seq_num i n f e = rw (walk, Queue.at, e)

-- While the fragments stand in the slots from some index on, without going round, and end where
-- the queue's size says, the loop goes through them in order.
pub walk-scan :
    (q : Queue Fragment) (fs rest : List Fragment) (rounds seq_num i n : ℕ)
    → drop i q.slots ≡ fs ++ rest
    → rounds ≡ length fs
    → i + rounds ≡ q.size
    → q.size < u8_mod
    → walk rounds q seq_num i n ≡ scan seq_num fs n
unfolding walk
walk-scan q [] rest zero seq_num i n e count size below = refl
walk-scan q [] rest (suc rounds) seq_num i n e count size below = absurd (omega arith)
walk-scan q (f ∷ fs) rest zero seq_num i n e count size below = absurd (omega arith)
walk-scan q (f ∷ []) rest (suc zero) seq_num i n e count size below =
    let (at, _) = drop-cons q.slots i e in walk-step zero q seq_num i n f at
walk-scan q (f ∷ []) rest (suc (suc rounds)) seq_num i n e count size below = absurd (omega arith)
walk-scan q (f ∷ g ∷ fs) rest (suc rounds) seq_num i n e count size below =
    let (at, e') = drop-cons q.slots i e in
    let next : (if add8 i 1 == q.size then 0 else add8 i 1) ≡ suc i = ground arith in
    walk-step rounds q seq_num i n f at
    ∙ ap
        (λ w.
          if ltb seq_num (fragment_end f)
          then ignored
          else if fragment_end f == seq_num
          then acked (add8 n 1)
          else w)
        (ap (λ j. walk rounds q seq_num j (add8 n 1)) next
          ∙ walk-scan q (g ∷ fs) rest rounds seq_num (suc i) (add8 n 1) e' (omega arith)
              (omega arith) below)

-- The loop reads no slot at or above the queue's size: memory that agrees below it gives the same
-- result, wherever the queue's items stand.
pub walk-agrees :
    (rounds : ℕ) (q : Queue Fragment) (slots : List Fragment) (seq_num i n : ℕ)
    → ((j : ℕ) → j < q.size → get_elem? q.slots j ≡ get_elem? slots j)
    → i < q.size
    → walk rounds q seq_num i n ≡ walk rounds (record q { slots = slots }) seq_num i n
unfolding walk
walk-agrees zero q slots seq_num i n same h = refl
walk-agrees (suc rounds) q slots seq_num i n same h =
    let next : ℕ = if add8 i 1 == q.size then 0 else add8 i 1 in
    let within : next < q.size = ground arith in
    elim (Option-cases (get_elem? slots i)) [
      | inl e ↦ rw (walk, walk, Queue.at, same i h, e)
      | inr (f, e) ↦
          walk-step rounds q seq_num i n f (same i h ∙ e)
          ∙ ap
              (λ w.
                if ltb seq_num (fragment_end f)
                then ignored
                else if fragment_end f == seq_num
                then acked (add8 n 1)
                else w)
              (walk-agrees rounds q slots seq_num next (add8 n 1) same within)
          ∙ sym (walk-step rounds (record q { slots = slots }) seq_num i n f e)
    ]
