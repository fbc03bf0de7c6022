-- ===== src/Base/Adc/Convert.antt =====
-- The conversions of readings by client/wisp-base/Sensors/adc.c. The calibration words are those of
-- the device's table, by address. Sums and products of 32 bits wrap.
use wisp_ert.Common.{
  ℕ, ◌+◌, ◌-◌, ◌*◌, ◌/◌, ◌%◌, ◌^◌, ◌==◌, Option, none, some, if◌then◌else◌, sub16,
}
use wisp_ert.Base.Adc.{
  Reference, reference_1_2v, reference_2_0v, reference_2_5v, Precision, precision_8bit,
  precision_10bit, precision_12bit, Adc,
}

abbrev pub u32_mod : ℕ
u32_mod = 4294967296

-- `v_plus` in millivolts, and `factor`
abbrev pub v_plus : Reference → ℕ
v_plus reference_1_2v = 1200
v_plus reference_2_0v = 2000
v_plus reference_2_5v = 2500

abbrev pub factor : Precision → ℕ
factor precision_8bit = 8
factor precision_10bit = 10
factor precision_12bit = 12

module _ (tlv : ℕ → ℕ) where
  -- `ADC_rawCorrection`
  unfoldable pub raw_correction : (raw : ℕ) → ℕ
  raw_correction raw = (raw * tlv 6678 % u32_mod / 32768 + tlv 6680) % 65536

  -- `ADC_rawToVoltage`
  unfoldable pub raw_to_voltage : (raw : ℕ) → Adc → ℕ
  unfolding raw_correction
  raw_to_voltage raw s =
      let v = v_plus s.reference in
      let steps = 2 ^ factor s.precision in
      let lsb = v / steps in
      (raw_correction raw * v % u32_mod / steps + u32_mod - lsb / 2) % u32_mod % 65536

  -- `adc_ref30` and `adc_ref85`
  abbrev pub adc_ref30 : Reference → ℕ
  adc_ref30 reference_1_2v = tlv 6682
  adc_ref30 reference_2_0v = tlv 6686
  adc_ref30 reference_2_5v = tlv 6690

  abbrev pub adc_ref85 : Reference → ℕ
  adc_ref85 reference_1_2v = tlv 6684
  adc_ref85 reference_2_0v = tlv 6688
  adc_ref85 reference_2_5v = tlv 6692

  -- `ADC_rawToTemperature`, as the 16-bit word that stands for the result; `none` where it divides
  -- by zero
  unfoldable pub raw_to_temperature : (raw : ℕ) → Adc → Option ℕ
  unfolding raw_correction
  raw_to_temperature raw s =
      let ref30 = adc_ref30 s.reference in
      let ref85 = adc_ref85 s.reference in
      let span = sub16 ref85 ref30 in
      if span == 0
      then none
      else some (
          (((raw_correction raw + u32_mod - ref30)
              % u32_mod
              * 1000
              % u32_mod
              * (55000 / span)
              % u32_mod)
            + 30000)
          % u32_mod
          % 65536)
