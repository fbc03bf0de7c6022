-- ===== src/Base/Adc.antt =====
-- The analogue converter of client/wisp-base/Sensors/adc.c. The registers are records of the fields
-- that the code sets; constants of the processor's header, the calibration words, and what the
-- hardware does during a wait are parameters.
pub mod Convert
pub mod Voltage
pub mod Temperature
use wisp_ert.Common.{
  ℕ, ◌+◌, ◌-◌, ◌*◌, ◌/◌, ◌%◌, ◌^◌, ◌==◌, Bool, true, false, not, Option, none, some, if◌then◌else◌,
  sub16, done, fault, fail, out_of_fuel, M, ◌>>=◌, ◌>>◌, pure, get, modify, Outcome,
}
use Prim.Native.Nat.{bit_or}

-- `ADC_referenceSelect` and `ADC_precisionSelect`
pub data Reference : Type 0 where
  reference_1_2v : Reference
  reference_2_0v : Reference
  reference_2_5v : Reference

pub data Precision : Type 0 where
  precision_8bit : Precision
  precision_10bit : Precision
  precision_12bit : Precision

-- `ADC_input_temperature`; the other inputs are the header's ADC12INCH_0 to ADC12INCH_31.
abbrev pub input_temperature : ℕ
input_temperature = 0

-- constants of the processor's header
pub record Header : Type 0 where
  pub refvsel : Reference → ℕ
  pub res : Precision → ℕ
  pub sht0_4 : ℕ
  pub ssel1 : ℕ
  pub conseq_0 : ℕ
  pub vrsel_1 : ℕ
  pub inch_30 : ℕ

-- `ADC_SM`, and the registers
pub record Adc : Type 0 where
  pub last_value : ℕ
  pub reference : Reference
  pub precision : Precision
  pub channel : ℕ
  pub read_callback : Option ℕ
  -- ADC12CTL0 to ADC12CTL3
  pub on : Bool
  pub enc : Bool
  pub sc : Bool
  pub sht : ℕ
  pub shp : Bool
  pub ssel : ℕ
  pub conseq : ℕ
  pub busy : Bool
  pub res_bits : ℕ
  pub tcmap : Bool
  -- ADC12MCTL0, ADC12MEM0, ADC12IER0 and the status register
  pub vrsel : ℕ
  pub inch : ℕ
  pub mem0 : ℕ
  pub ie0 : Bool
  pub gie : Bool
  -- REFCTL0
  pub ref_gen_busy : Bool
  pub ref_tcoff : Bool
  pub ref_vsel : ℕ

-- `ADC_enable`, `ADC_enableConversion`, `ADC_disableConversion` and `ADC_disable`
unfoldable pub enable : Adc → Adc
enable s = record s { on = true }

unfoldable pub enable_conversion : Adc → Adc
unfolding enable
enable_conversion s = record (enable s) { enc = true }

unfoldable pub disable_conversion : Adc → Adc
disable_conversion s = record s { enc = false }

unfoldable pub disable : Adc → Adc
unfolding disable_conversion
disable s = record (disable_conversion s) { on = false }

-- `ADC_enableInterrupts` and `ADC_disableInterrupts`
unfoldable pub enable_interrupts : Adc → Adc
enable_interrupts s = record s { ie0 = true; gie = true }

unfoldable pub disable_interrupts : Adc → Adc
disable_interrupts s = record s { ie0 = false }

-- `ADC_isBusy` and `ADC_isReady`
unfoldable pub is_busy : Adc → Bool
is_busy s = s.busy

unfoldable pub is_ready : Adc → Bool
unfolding is_busy
is_ready s = not (is_busy s)

module _ (h : Header) where
  -- `ADC_setReference`
  unfoldable pub set_reference : Reference → Adc → Adc
  set_reference r s = if s.ref_gen_busy then s else record s {
    reference = r;
    ref_vsel = h.refvsel r;
    ref_tcoff = true;
    vrsel = bit_or s.vrsel h.vrsel_1;
  }

  -- `ADC_setPrecision`
  unfoldable pub set_precision : Precision → Adc → Adc
  set_precision p s = record s { precision = p; res_bits = bit_or s.res_bits (h.res p) }

  -- `ADC_setInputChannel`
  unfoldable pub set_input_channel : ℕ → Adc → Adc
  set_input_channel c s =
      let selected : Adc =
        if c == input_temperature
        then record s { channel = c; tcmap = true; ref_tcoff = false; inch = h.inch_30 }
        else record s { channel = c; tcmap = false; ref_tcoff = true; inch = c } in
      record selected { conseq = bit_or selected.conseq h.conseq_0 }

  -- `ADC_setSampleHold`
  unfoldable pub set_sample_hold : Adc → Adc
  set_sample_hold s = record s { sht = h.sht0_4; shp = true; ssel = bit_or s.ssel h.ssel1 }

  -- the registers in their reset conditions, by `ADC_initCustom`
  unfoldable pub reset_registers : Adc → Adc
  reset_registers s = record s {
    on = false;
    enc = false;
    sc = false;
    sht = 0;
    shp = false;
    ssel = 0;
    conseq = 0;
    res_bits = 0;
    vrsel = 0;
    inch = 0;
    ie0 = false;
  }

  -- `ADC_initCustom`
  unfoldable pub init_custom : Reference → Precision → (channel : ℕ) → Adc → Adc
  unfolding reset_registers set_reference enable set_sample_hold set_precision enable_interrupts
      set_input_channel enable_conversion
  init_custom r p c s = enable_conversion (
      set_input_channel c (
        enable_interrupts
          (set_precision p (set_sample_hold (enable (set_reference r (reset_registers s)))))))

-- `ADC_asyncRead`
unfoldable pub async_read : Option ℕ → Adc → Adc
unfolding enable_interrupts
async_read callback s = record (enable_interrupts s) { read_callback = callback; sc = true }

module _ (invoke : (cb value : ℕ) → M Adc (Unit {0})) where
  -- `INT_ADC12` for the vector ADC12IV_ADC12IFG0; for other vectors it does nothing.
  unfoldable pub int_adc12 : M Adc (Unit {0})
  int_adc12 s = elim s.read_callback [
    | none ↦ done tt (record s { last_value = s.mem0 })
    | some cb ↦ invoke cb s.mem0 (record s { last_value = s.mem0 })
  ]

module _ (until_ready : M Adc (Unit {0})) where
  -- `ADC_read` and `ADC_critRead`
  unfoldable pub read : M Adc ℕ
  unfolding async_read
  read = do modify (async_read none); until_ready; s ← get; pure s.last_value

  unfoldable pub crit_read : M Adc ℕ
  unfolding disable_interrupts
  crit_read = do
    modify (λ s. record (disable_interrupts s) { sc = true; enc = true })
    until_ready
    modify (λ s. record s { last_value = s.mem0 })
    s ← get
    pure s.last_value
