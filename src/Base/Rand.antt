-- ===== src/Base/Rand.antt =====
-- Random numbers: client/wisp-base/rand/rand.c, and client/run-once/main.c, which stores a table of them.
-- What the converter gives at each reading of ADC12MEM0 is a parameter: the conversions and their
-- registers are not a part of the model.
pub mod Bits
pub mod Table
use wisp_ert.Common.{
  ℕ, zero, suc, ◌+◌, ◌*◌, ◌%◌, true, false, ltb, add8, add16, done, fail, fault, out_of_fuel, M,
  ◌>>=◌, ◌>>◌, pure, modify,
}
use wisp_ert.Base.Fram.{Memory, put_int, read_int, write_int_array}

-- NUM_RN16_2_STORE, INFO_WISP_TAGID and INFO_WISP_RAND_TBL
abbrev pub num_rn16_2_store : ℕ
num_rn16_2_store = 32

abbrev pub info_wisp_tagid : ℕ
info_wisp_tagid = 6144

abbrev pub info_wisp_rand_tbl : ℕ
info_wisp_rand_tbl = info_wisp_tagid + 2

module _ (adc12mem0 : ℕ → ℕ) where
  -- The loop of `RAND_adcRand16`, with the rounds left: `(returnVal<<1) | (ADC12MEM0 & BIT0)`, where
  -- the shifted word's lowest bit is 0, so that the disjunction is a sum. The state is the number of
  -- the next reading.
  unfoldable pub rand_bits : (rounds : ℕ) → (return_val : ℕ) → M ℕ ℕ
  rand_bits zero return_val at = done return_val at
  rand_bits (suc rounds) return_val at =
      rand_bits rounds (return_val * 2 % 65536 + adc12mem0 at % 2) (at + 1)

  -- `RAND_adcRand16`
  unfoldable pub adc_rand16 : M ℕ ℕ
  unfolding rand_bits
  adc_rand16 = rand_bits 15 0

  -- The loop of `genRN16Vals`, on fuel: `i` is a `uint8_t`, and `len` an `int` that is not negative. The
  -- state is the memory and the number of the next reading, and `rn16_vals` is an address.
  unfoldable pub fill_rn16 : (rn16_vals : ℕ) → (fuel i len : ℕ) → M (Memory × ℕ) (Unit {0})
  unfolding adc_rand16
  fill_rn16 rn16_vals zero i len s = out_of_fuel
  fill_rn16 rn16_vals (suc fuel) i len (mem, at) = elim (ltb i len) [
    | false ↦ done tt (mem, at)
    | true ↦ elim (adc_rand16 at) [
      | done r at' ↦
          fill_rn16 rn16_vals fuel (add8 i 1) len (put_int mem (add16 rn16_vals (2 * i)) r, at')
      | fail e at' ↦ fail e (mem, at')
      | fault ↦ fault
      | out_of_fuel ↦ out_of_fuel
    ]
  ]

  -- `genRN16Vals`
  unfoldable pub gen_rn16_vals : (rn16_vals : ℕ) → (fuel len : ℕ) → M (Memory × ℕ) (Unit {0})
  unfolding fill_rn16
  gen_rn16_vals rn16_vals fuel len = fill_rn16 rn16_vals fuel 0 len

  -- `main` of run-once; the table is on the stack, at `rn16_vals`. The fuel is one more than its length.
  unfoldable pub run_once : (rn16_vals : ℕ) → M (Memory × ℕ) (Unit {0})
  unfolding gen_rn16_vals
  run_once rn16_vals =
      gen_rn16_vals rn16_vals (suc num_rn16_2_store) num_rn16_2_store
      >> modify (λ s. (put_int s.0 info_wisp_tagid (read_int s.0 rn16_vals), s.1))
      >> modify (λ s. (write_int_array s.0 info_wisp_rand_tbl num_rn16_2_store rn16_vals, s.1))
