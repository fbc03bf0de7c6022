-- ===== src/Base/Adc/Voltage.antt =====
-- What the voltages of client/wisp-base/Sensors/adc.c are.
use wisp_ert.Common.{ℕ, ◌+◌, ◌-◌, ◌*◌, ◌/◌, ◌%◌, ◌^◌, ◌<◌, ◌≡◌, if◌then◌else◌, arith, leb}
use wisp_ert.Base.Adc.{
  Reference, reference_1_2v, reference_2_0v, reference_2_5v, Precision, precision_8bit,
  precision_10bit, precision_12bit, Adc,
}
use wisp_ert.Base.Adc.Convert.{u32_mod, raw_correction, v_plus, factor, raw_to_voltage}

-- the reference voltage in millivolts, and the number of steps of full scale
abbrev pub millivolts : Reference → ℕ
millivolts reference_1_2v = 1200
millivolts reference_2_0v = 2000
millivolts reference_2_5v = 2500

abbrev pub steps : Precision → ℕ
steps precision_8bit = 256
steps precision_10bit = 1024
steps precision_12bit = 4096

-- the part of the reference voltage that a reading is of full scale
abbrev pub part : Reference → Precision → ℕ → ℕ
part r p reading = reading * millivolts r / steps p

-- Half a step in millivolts, of which only the whole ones of the step, and then of its half, count: 9.8
-- millivolts give 4, and one step of 10 bits at 2.5 V gives 1.
abbrev pub half_step : Reference → Precision → ℕ
half_step reference_1_2v precision_8bit = 2
half_step reference_2_0v precision_8bit = 3
half_step reference_2_5v precision_8bit = 4
half_step reference_2_5v precision_10bit = 1
half_step reference_1_2v precision_10bit = 0
half_step reference_2_0v precision_10bit = 0
half_step _ precision_12bit = 0

voltage_cases :
    (r : Reference) (p : Precision) (c : ℕ)
    → c < steps p
    → (c * v_plus r % u32_mod / 2 ^ factor p + u32_mod - v_plus r / 2 ^ factor p / 2)
        % u32_mod
        % 65536
      ≡ (if leb (half_step r p) (part r p c)
          then part r p c - half_step r p
          else 65536 + part r p c - half_step r p)
voltage_cases reference_1_2v precision_8bit c h = ground arith
voltage_cases reference_1_2v precision_10bit c h = ground arith
voltage_cases reference_1_2v precision_12bit c h = ground arith
voltage_cases reference_2_0v precision_8bit c h = ground arith
voltage_cases reference_2_0v precision_10bit c h = ground arith
voltage_cases reference_2_0v precision_12bit c h = ground arith
voltage_cases reference_2_5v precision_8bit c h = ground arith
voltage_cases reference_2_5v precision_10bit c h = ground arith
voltage_cases reference_2_5v precision_12bit c h = ground arith

-- For a corrected reading below full scale, which is 256, 1024 or 4096 steps, `ADC_rawToVoltage` gives
-- the part of the reference voltage that the reading is of full scale, in whole millivolts, less a
-- fixed number: with 8 bits 2, 3 and 4 at 1.2 V, 2.0 V and 2.5 V; with 10 bits 1 at 2.5 V; and none
-- otherwise. Where the part is below that number, the result has wrapped to the top of 16 bits.
pub raw_to_voltage_exact :
    (tlv : ℕ → ℕ) (raw : ℕ) (s : Adc)
    → raw_correction tlv raw < steps s.precision
    → raw_to_voltage tlv raw s ≡ (
        if leb
          (half_step s.reference s.precision)
          (part s.reference s.precision (raw_correction tlv raw))
        then part s.reference s.precision (raw_correction tlv raw)
          - half_step s.reference s.precision
        else 65536
          + part s.reference s.precision (raw_correction tlv raw)
          - half_step s.reference s.precision)
unfolding raw_to_voltage
raw_to_voltage_exact tlv raw s h = voltage_cases s.reference s.precision (raw_correction tlv raw) h
