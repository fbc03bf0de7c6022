-- ===== src/Base/Adc/Temperature.antt =====
-- What the temperatures of client/wisp-base/Sensors/adc.c are.
use wisp_ert.Common.{
  ℕ, zero, suc, ◌∙◌, ◌+◌, ◌-◌, ◌*◌, ◌/◌, ◌%◌, ◌<◌, ◌≤◌, ◌≡◌, Option, none, some, arith, sub16, ◌==◌,
  if◌then◌else◌,
}
use wisp_ert.Base.Adc.{Adc}
use wisp_ert.Base.Adc.Convert.{u32_mod, raw_correction, adc_ref30, adc_ref85, raw_to_temperature}

abbrev scaled : (c ref30 ref85 : ℕ) → Option ℕ
scaled c ref30 ref85 =
    if sub16 ref85 ref30 == 0
    then none
    else some (
        ((c + u32_mod - ref30) % u32_mod * 1000 % u32_mod * (55000 / sub16 ref85 ref30) % u32_mod
          + 30000)
        % u32_mod
        % 65536)

scaled-count :
    (c ref30 ref85 k : ℕ)
    → ref30 < ref85
    → ref85 < 65536
    → c ≡ ref30 + k
    → k ≤ 1
    → scaled c ref30 ref85 ≡ some ((k * (1000 * (55000 / (ref85 - ref30))) + 30000) % 65536)
scaled-count c ref30 ref85 zero l small e h =
    let z : (c + u32_mod - ref30) % u32_mod ≡ 0 = omega arith in
    let d : sub16 ref85 ref30 ≡ ref85 - ref30 = omega arith in rw (z, d) (ground arith)
scaled-count c ref30 ref85 (suc zero) l small e h =
    let z : (c + u32_mod - ref30) % u32_mod ≡ 1 = omega arith in
    let d : sub16 ref85 ref30 ≡ ref85 - ref30 = omega arith in rw (z, d) (ground arith)
scaled-count c ref30 ref85 (suc (suc k)) l small e h = absurd (omega arith)

-- `ADC_rawToTemperature` gives 30 degrees, in thousandths, for a reading that corrects to the
-- calibration word of 30 degrees; one that corrects to one more adds a thousand times the slope in
-- thousandths of a degree that the two calibration words make, cut to 16 bits.
pub raw_to_temperature-at_30 :
    (tlv : ℕ → ℕ) (raw next : ℕ) (s : Adc)
    → adc_ref85 tlv s.reference < 65536
    → adc_ref30 tlv s.reference < adc_ref85 tlv s.reference
    → raw_correction tlv raw ≡ adc_ref30 tlv s.reference
    → raw_correction tlv next ≡ adc_ref30 tlv s.reference + 1
    → (raw_to_temperature tlv raw s ≡ some 30000)
      × (raw_to_temperature tlv next s
          ≡ some (
              (1000 * (55000 / (adc_ref85 tlv s.reference - adc_ref30 tlv s.reference)) + 30000)
              % 65536))
unfolding raw_to_temperature
raw_to_temperature-at_30 tlv raw next s small l e30 e31 = (
  scaled-count (raw_correction tlv raw) (adc_ref30 tlv s.reference) (adc_ref85 tlv s.reference) 0 l
        small (omega arith) (omega arith)
      ∙ ground arith,
  scaled-count (raw_correction tlv next) (adc_ref30 tlv s.reference) (adc_ref85 tlv s.reference) 1 l
        small e31 (omega arith)
      ∙ ground arith,
)
