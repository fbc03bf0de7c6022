-- ===== src/Base/Rand/Table.antt =====
-- The loop of `genRN16Vals` in client/run-once/main.c.
use wisp_ert.Common.{
  ℕ, zero, suc, ◌+◌, ◌*◌, ◌≤◌, ◌<◌, ◌≡◌, ◌∙◌, ap, refl, arith, add8, add16, ltb-true, ltb-false,
  leb, if◌then◌else◌, Bool-cases, inl, inr, Outcome, done, fail, fault, out_of_fuel,
}
use wisp_ert.Base.Fram.{Memory, put_int}
use wisp_ert.Base.Rand.{fill_rn16, gen_rn16_vals}
use wisp_ert.Base.Rand.Bits.{bits_from, adc_rand16-bits_from}

module _ (adc12mem0 : ℕ → ℕ) (rn16_vals : ℕ) where
  -- `n` words from the index `i` on, each with the bits of the next fifteen readings
  abbrev pub table_from : (n i at : ℕ) → Memory → Memory
  table_from zero i at mem = mem
  table_from (suc n) i at mem =
      table_from n (i + 1) (at + 15)
        (put_int mem (add16 rn16_vals (2 * i)) (bits_from adc12mem0 15 0 at))

  -- what a round does with the number that it has drawn
  abbrev store_next : (fuel i len : ℕ) → Memory → Outcome ℕ ℕ → Outcome (Memory × ℕ) (Unit {0})
  store_next fuel i len mem (done r at') =
      fill_rn16 adc12mem0 rn16_vals fuel (add8 i 1) len
        (put_int mem (add16 rn16_vals (2 * i)) r, at')
  store_next fuel i len mem (fail e at') = fail e (mem, at')
  store_next fuel i len mem fault = fault
  store_next fuel i len mem out_of_fuel = out_of_fuel

  fill_rn16-step :
      (fuel i len at : ℕ) (mem : Memory)
      → i < len
      → fill_rn16 adc12mem0 rn16_vals (suc fuel) i len (mem, at)
        ≡ fill_rn16 adc12mem0 rn16_vals fuel
            (add8 i 1)
            len
            (put_int mem (add16 rn16_vals (2 * i)) (bits_from adc12mem0 15 0 at), at + 15)
  unfolding fill_rn16
  fill_rn16-step fuel i len at mem h =
      rw (fill_rn16, ltb-true i len h)
        (ap (store_next fuel i len mem) (adc_rand16-bits_from adc12mem0 at).0)

  fill_rn16-short :
      (fuel n i len at : ℕ) (mem : Memory)
      → i + n ≡ len
      → len < 256
      → n < fuel
      → fill_rn16 adc12mem0 rn16_vals fuel i len (mem, at)
        ≡ done tt (table_from n i at mem, at + 15 * n)
  unfolding fill_rn16
  fill_rn16-short zero n i len at mem e short enough = absurd (omega arith)
  fill_rn16-short (suc fuel) zero i len at mem e short enough =
      rw (fill_rn16, ltb-false i len (omega arith)) (ap (λ k. done tt (mem, k)) (omega arith))
  fill_rn16-short (suc fuel) (suc n) i len at mem e short enough =
      let next : add8 i 1 ≡ i + 1 = omega arith in
      fill_rn16-step fuel i len at mem (omega arith)
      ∙ rw next (
          fill_rn16-short fuel n (i + 1) len (at + 15)
            (put_int mem (add16 rn16_vals (2 * i)) (bits_from adc12mem0 15 0 at)) (omega arith)
            short (omega arith)
          ∙ ap (λ k. done tt (table_from (suc n) i at mem, k)) (omega arith))

  fill_rn16-long :
      (fuel i len at : ℕ) (mem : Memory)
      → i < 256
      → 256 ≤ len
      → fill_rn16 adc12mem0 rn16_vals fuel i len (mem, at) ≡ out_of_fuel
  unfolding fill_rn16
  fill_rn16-long zero i len at mem h long = refl
  fill_rn16-long (suc fuel) i len at mem h long =
      fill_rn16-step fuel i len at mem (omega arith)
      ∙ (fill_rn16-long fuel (add8 i 1) len (at + 15)
          (put_int mem (add16 rn16_vals (2 * i)) (bits_from adc12mem0 15 0 at)) (omega arith) long)

  -- With more fuel than words, `genRN16Vals` ends and has stored a word of fifteen readings at each
  -- index if there are at most 255; for a longer table no fuel is enough, since the index is a byte
  -- and never reaches the length.
  pub gen_rn16_vals-table_from :
      (fuel len at : ℕ) (mem : Memory)
      → len < fuel
      → gen_rn16_vals adc12mem0 rn16_vals fuel len (mem, at)
        ≡ (if leb len 255 then done tt (table_from len 0 at mem, at + 15 * len) else out_of_fuel)
  unfolding gen_rn16_vals
  gen_rn16_vals-table_from fuel len at mem enough = elim (Bool-cases (leb len 255)) [
    | inl e ↦ rw e (fill_rn16-short fuel len 0 len at mem (omega arith) (ground arith) enough)
    | inr e ↦ rw e (fill_rn16-long fuel 0 len at mem (omega arith) (ground arith))
  ]
