-- ===== src/Base/Rand/Bits.antt =====
-- The numbers that `RAND_adcRand16` of client/wisp-base/rand/rand.c gives.
use wisp_ert.Common.{ℕ, zero, suc, ◌+◌, ◌*◌, ◌%◌, ◌≤◌, ◌<◌, ◌≡◌, ◌∙◌, ap, arith, done}
use wisp_ert.Base.Rand.{rand_bits, adc_rand16}

-- `n` ones behind `v`
abbrev ones : (n v : ℕ) → ℕ
ones zero v = v
ones (suc n) v = ones n (2 * v + 1)

ones_mono : (n v w : ℕ) → v ≤ w → ones n v ≤ ones n w
ones_mono zero v w h = h
ones_mono (suc n) v w h = ones_mono n (2 * v + 1) (2 * w + 1) (omega arith)

ones_le : (n v : ℕ) → v ≤ ones n v
ones_le zero v = omega arith
ones_le (suc n) v = omega (arith, ones_le n (2 * v + 1))

module _ (adc12mem0 : ℕ → ℕ) where
  -- the number with the lowest bits of `n` readings behind `v`, the first of them in the highest place
  abbrev pub bits_from : (n : ℕ) → (v at : ℕ) → ℕ
  bits_from zero v at = v
  bits_from (suc n) v at = bits_from n (2 * v + adc12mem0 at % 2) (at + 1)

  bits_from-le : (n v at : ℕ) → bits_from n v at ≤ ones n v
  bits_from-le zero v at = omega arith
  bits_from-le (suc n) v at = omega (
    arith,
    bits_from-le n (2 * v + adc12mem0 at % 2) (at + 1),
    ones_mono n (2 * v + adc12mem0 at % 2) (2 * v + 1) (omega arith),
  )

  rand_bits-bits_from :
      (n v at : ℕ)
      → ones n v < 65536
      → rand_bits adc12mem0 n v at ≡ done (bits_from n v at) (at + n)
  unfolding rand_bits
  rand_bits-bits_from zero v at h = ap (done v) (omega arith)
  rand_bits-bits_from (suc n) v at h =
      let short : v * 2 % 65536 + adc12mem0 at % 2 ≡ 2 * v + adc12mem0 at % 2 =
        omega (arith, ones_le n (2 * v + 1)) in
      ap (λ w. rand_bits adc12mem0 n w (at + 1)) short
      ∙ rand_bits-bits_from n (2 * v + adc12mem0 at % 2) (at + 1)
          (omega (arith, ones_mono n (2 * v + adc12mem0 at % 2) (2 * v + 1) (omega arith)))
      ∙ ap (done (bits_from (suc n) v at)) (omega arith)

  -- `RAND_adcRand16` gives the lowest bits of fifteen readings in order, and a number below 2^15: the
  -- highest bit of the word is 0 whatever the readings are.
  pub adc_rand16-bits_from :
      (at : ℕ)
      → (adc_rand16 adc12mem0 at ≡ done (bits_from 15 0 at) (at + 15)) × (bits_from 15 0 at < 32768)
  unfolding adc_rand16
  adc_rand16-bits_from at =
      (rand_bits-bits_from 15 0 at (omega arith), omega (arith, bits_from-le 15 0 at))
