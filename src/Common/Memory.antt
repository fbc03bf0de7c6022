-- ===== src/Common/Memory.antt =====
-- Byte memory as a list: `memcpy` out of a range and into one, and what a copy leaves alone.
use Prim.Native.Nat.{ℕ, zero, suc, ◌+◌, ◌≤◌, ◌<◌}
use mathlib.Core.Path.{◌≡◌, refl, ap}
use mathlib.Core.List.{List, [], ◌∷◌, ◌++◌}
use mathlib.Core.Option.{Option, none, some}
use native.Mathlib.Omega.{arith}
use wisp_ert.Common.Tests.{leb, leb-true, leb-false, if◌then◌else◌}
use wisp_ert.Common.Lists.{length, take, drop}

module _ {ℓ} {A : Type ℓ} where
  -- the cells from the front on, overwritten one by one
  abbrev pub overwrite : List A → List A → List A
  overwrite [] ys = []
  overwrite (x ∷ mem) [] = x ∷ mem
  overwrite (x ∷ mem) (y ∷ ys) = y ∷ overwrite mem ys

  -- the cells from index `at` on, overwritten
  abbrev pub splice : List A → ℕ → List A → List A
  splice mem zero ys = overwrite mem ys
  splice [] (suc at) ys = []
  splice (x ∷ mem) (suc at) ys = x ∷ splice mem at ys

  -- A copy of `n` cells out of memory, and one into it; `none` if any of them is not there.
  unfoldable pub slice : List A → ℕ → ℕ → Option (List A)
  slice mem at n = if leb (at + n) (length mem) then some (take n (drop at mem)) else none

  unfoldable pub store : List A → ℕ → List A → Option (List A)
  store mem at ys = if leb (at + length ys) (length mem) then some (splice mem at ys) else none

module _ {ℓ} {A : Type ℓ} where
  pub slice-some :
      (mem : List A) (at n : ℕ) → at + n ≤ length mem → slice mem at n ≡ some (take n (drop at mem))
  unfolding slice
  slice-some mem at n h = rw (leb-true (at + n) (length mem) h)

  pub slice-none : (mem : List A) (at n : ℕ) → length mem < at + n → slice mem at n ≡ none
  unfolding slice
  slice-none mem at n h = rw (leb-false (at + n) (length mem) h)

  pub store-some :
      (mem : List A) (at : ℕ) (ys : List A)
      → at + length ys ≤ length mem
      → store mem at ys ≡ some (splice mem at ys)
  unfolding store
  store-some mem at ys h = rw (leb-true (at + length ys) (length mem) h)

  pub store-none :
      (mem : List A) (at : ℕ) (ys : List A) → length mem < at + length ys → store mem at ys ≡ none
  unfolding store
  store-none mem at ys h = rw (leb-false (at + length ys) (length mem) h)

  length-overwrite : (mem ys : List A) → length (overwrite mem ys) ≡ length mem
  length-overwrite [] ys = refl
  length-overwrite (x ∷ mem) [] = refl
  length-overwrite (x ∷ mem) (y ∷ ys) = ap suc (length-overwrite mem ys)

  pub length-splice : (mem : List A) (at : ℕ) (ys : List A) → length (splice mem at ys) ≡ length mem
  length-splice mem zero ys = length-overwrite mem ys
  length-splice [] (suc at) ys = refl
  length-splice (x ∷ mem) (suc at) ys = ap suc (length-splice mem at ys)

  take-overwrite :
      (mem ys : List A) → length ys ≤ length mem → take (length ys) (overwrite mem ys) ≡ ys
  take-overwrite mem [] h = refl
  take-overwrite [] (y ∷ ys) h = absurd (omega arith)
  take-overwrite (x ∷ mem) (y ∷ ys) h = ap (◌∷◌ y) (take-overwrite mem ys (omega arith))

  -- What was copied in is there.
  pub take-splice :
      (mem : List A) (at : ℕ) (ys : List A)
      → at + length ys ≤ length mem
      → take (length ys) (drop at (splice mem at ys)) ≡ ys
  take-splice mem zero ys h = take-overwrite mem ys (omega arith)
  take-splice [] (suc at) ys h = absurd (omega arith)
  take-splice (x ∷ mem) (suc at) ys h = take-splice mem at ys (omega arith)

  drop-overwrite :
      (mem ys : List A) (b : ℕ) → length ys ≤ b → drop b (overwrite mem ys) ≡ drop b mem
  drop-overwrite [] ys b h = refl
  drop-overwrite (x ∷ mem) [] b h = refl
  drop-overwrite (x ∷ mem) (y ∷ ys) zero h = absurd (omega arith)
  drop-overwrite (x ∷ mem) (y ∷ ys) (suc b) h = drop-overwrite mem ys b (omega arith)

  -- Behind the range nothing changes.
  pub drop-splice :
      (mem : List A) (at : ℕ) (ys : List A) (b : ℕ)
      → at + length ys ≤ b
      → drop b (splice mem at ys) ≡ drop b mem
  drop-splice mem zero ys b h = drop-overwrite mem ys b (omega arith)
  drop-splice [] (suc at) ys b h = refl
  drop-splice (x ∷ mem) (suc at) ys zero h = absurd (omega arith)
  drop-splice (x ∷ mem) (suc at) ys (suc b) h = drop-splice mem at ys b (omega arith)

  -- Nor does anything in front of it.
  pub take-drop-splice :
      (mem : List A) (at : ℕ) (ys : List A) (b n : ℕ)
      → b + n ≤ at
      → take n (drop b (splice mem at ys)) ≡ take n (drop b mem)
  take-drop-splice mem at ys b zero h = refl
  take-drop-splice mem zero ys b (suc n) h = absurd (omega arith)
  take-drop-splice [] (suc at) ys b (suc n) h = refl
  take-drop-splice (x ∷ mem) (suc at) ys zero (suc n) h =
      ap (◌∷◌ x) (take-drop-splice mem at ys 0 n (omega arith))
  take-drop-splice (x ∷ mem) (suc at) ys (suc b) (suc n) h =
      take-drop-splice mem at ys b (suc n) (omega arith)

  overwrite-splice :
      (mem xs ys : List A) → splice (overwrite mem xs) (length xs) ys ≡ overwrite mem (xs ++ ys)
  overwrite-splice [] [] ys = refl
  overwrite-splice [] (x ∷ xs) ys = refl
  overwrite-splice (m ∷ mem) [] ys = refl
  overwrite-splice (m ∷ mem) (x ∷ xs) ys = ap (◌∷◌ x) (overwrite-splice mem xs ys)

  -- Two copies in a row are one of both.
  pub splice-splice :
      (mem : List A) (at : ℕ) (xs ys : List A) (k : ℕ)
      → at + length xs ≡ k
      → splice (splice mem at xs) k ys ≡ splice mem at (xs ++ ys)
  splice-splice mem zero xs ys k e =
      let e' : k ≡ length xs = omega arith in rw e' (overwrite-splice mem xs ys)
  splice-splice [] (suc at) xs ys zero e = absurd (omega arith)
  splice-splice [] (suc at) xs ys (suc k) e = refl
  splice-splice (m ∷ mem) (suc at) xs ys zero e = absurd (omega arith)
  splice-splice (m ∷ mem) (suc at) xs ys (suc k) e =
      ap (◌∷◌ m) (splice-splice mem at xs ys k (omega arith))

  pub overwrite-nil : (mem : List A) → overwrite mem [] ≡ mem
  overwrite-nil [] = refl
  overwrite-nil (x ∷ mem) = refl

  -- One cell filled in later, in front of a copy.
  pub splice-splice_back :
      (mem : List A) (at : ℕ) (x : A) (ys : List A) (k : ℕ)
      → k ≡ at + 1
      → splice (splice mem k ys) at (x ∷ []) ≡ splice mem at (x ∷ ys)
  splice-splice_back mem zero x ys zero e = absurd (omega arith)
  splice-splice_back [] zero x ys (suc k) e = refl
  splice-splice_back (m ∷ mem) zero x ys (suc k) e =
      let e' : k ≡ 0 = omega arith in rw e' (ap (◌∷◌ x) (overwrite-nil (overwrite mem ys)))
  splice-splice_back mem (suc at) x ys zero e = absurd (omega arith)
  splice-splice_back [] (suc at) x ys (suc k) e = refl
  splice-splice_back (m ∷ mem) (suc at) x ys (suc k) e =
      ap (◌∷◌ m) (splice-splice_back mem at x ys k (omega arith))

  pub splice-nil : (mem : List A) (at : ℕ) → splice mem at [] ≡ mem
  splice-nil mem zero = overwrite-nil mem
  splice-nil [] (suc at) = refl
  splice-nil (x ∷ mem) (suc at) = ap (◌∷◌ x) (splice-nil mem at)

  drop-overwrite_self :
      (mem ys : List A) → length ys ≤ length mem → overwrite mem ys ≡ ys ++ drop (length ys) mem
  drop-overwrite_self mem [] h = overwrite-nil mem
  drop-overwrite_self [] (y ∷ ys) h = absurd (omega arith)
  drop-overwrite_self (x ∷ mem) (y ∷ ys) h = ap (◌∷◌ y) (drop-overwrite_self mem ys (omega arith))

  -- From the start of a copy on stand what was copied and what stood behind it.
  pub drop-splice_self :
      (mem : List A) (at : ℕ) (ys : List A)
      → at + length ys ≤ length mem
      → drop at (splice mem at ys) ≡ ys ++ drop (length ys) (drop at mem)
  drop-splice_self mem zero ys h = drop-overwrite_self mem ys (omega arith)
  drop-splice_self [] (suc at) [] h = refl
  drop-splice_self [] (suc at) (y ∷ ys) h = absurd (omega arith)
  drop-splice_self (x ∷ mem) (suc at) ys h = drop-splice_self mem at ys (omega arith)

  -- What stands from an index on, and is followed by a copy, is there with the copy behind it.
  pub take-splice_behind :
      (mem : List A) (at k b n : ℕ) (ys : List A)
      → k ≡ b + n
      → at ≡ n + length ys
      → k + length ys ≤ length mem
      → take at (drop b (splice mem k ys)) ≡ take n (drop b mem) ++ ys
  take-splice_behind mem at zero zero zero ys e f h =
      rw (let g : at ≡ length ys = omega arith in g) (take-splice mem 0 ys (omega arith))
  take-splice_behind mem at zero zero (suc n) ys e f h = absurd (omega arith)
  take-splice_behind mem at zero (suc b) n ys e f h = absurd (omega arith)
  take-splice_behind [] at (suc k) b n ys e f h = absurd (omega arith)
  take-splice_behind (x ∷ mem) at (suc k) zero zero ys e f h = absurd (omega arith)
  take-splice_behind (x ∷ mem) zero (suc k) zero (suc n) ys e f h = absurd (omega arith)
  take-splice_behind (x ∷ mem) (suc at) (suc k) zero (suc n) ys e f h =
      ap (◌∷◌ x) (take-splice_behind mem at k 0 n ys (omega arith) (omega arith) (omega arith))
  take-splice_behind (x ∷ mem) at (suc k) (suc b) n ys e f h =
      take-splice_behind mem at k b n ys (omega arith) f (omega arith)
