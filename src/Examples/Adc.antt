-- ===== src/Examples/Adc.antt =====
-- Conversions of client/wisp-base/Sensors/adc.c with a small table of calibration words.
use wisp_ert.Common.{
  ℕ, ◌+◌, ◌-◌, ◌*◌, ◌/◌, ◌%◌, ◌≡◌, refl, false, none, some, arith, if◌then◌else◌, leb, ◌==◌,
}
use wisp_ert.Base.Adc.{Adc, reference_2_0v, precision_8bit}
use wisp_ert.Base.Adc.Convert.{raw_correction, raw_to_voltage, raw_to_temperature}
use wisp_ert.Base.Adc.Voltage.{part, half_step, raw_to_voltage_exact}
use wisp_ert.Base.Adc.Temperature.{raw_to_temperature-at_30}

-- a gain of 1, no offset, and 275 counts between the calibration temperatures
abbrev table : ℕ → ℕ
table at = if at == 6678 then 32768 else if at == 6680 then 0 else if at == 6686 then 500 else 775

abbrev converter : Adc
converter = record {
  last_value = 0;
  reference = reference_2_0v;
  precision = precision_8bit;
  channel = 9;
  read_callback = none;
  on = false;
  enc = false;
  sc = false;
  sht = 0;
  shp = false;
  ssel = 0;
  conseq = 0;
  busy = false;
  res_bits = 0;
  tcmap = false;
  vrsel = 0;
  inch = 0;
  mem0 = 0;
  ie0 = false;
  gie = false;
  ref_gen_busy = false;
  ref_tcoff = false;
  ref_vsel = 0;
}

raw_to_voltage_exact_example : raw_to_voltage table 100 converter ≡ (
    if leb
      (half_step reference_2_0v precision_8bit)
      (part reference_2_0v precision_8bit (raw_correction table 100))
    then part reference_2_0v precision_8bit (raw_correction table 100)
      - half_step reference_2_0v precision_8bit
    else 65536
      + part reference_2_0v precision_8bit (raw_correction table 100)
      - half_step reference_2_0v precision_8bit)
unfolding raw_correction
raw_to_voltage_exact_example = raw_to_voltage_exact table 100 converter (omega arith)

raw_to_temperature-at_30_example :
    (raw_to_temperature table 500 converter ≡ some 30000)
    × (raw_to_temperature table 501 converter
        ≡ some ((1000 * (55000 / (775 - 500)) + 30000) % 65536))
unfolding raw_correction
raw_to_temperature-at_30_example =
    raw_to_temperature-at_30 table 500 501 converter (omega arith) (omega arith) refl refl
