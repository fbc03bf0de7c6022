-- ===== src/Base/Tick.antt =====
-- The hardware timer behind the timers of wio: `wio_timer_subsys_init` of
-- client/wisp-base/wio/timer.c and the interrupt of client/wisp-base/Timing/timer.c. Constants of the
-- processor's header are parameters.
use Prim.Native.Nat.{bit_or}
use wisp_ert.Common.{ℕ, Bool, true, done, M, ◌>>◌, modify, on}
use wisp_ert.Wio.Timer.{Timers, timer_callback}

-- constants of the processor's header
pub record Header : Type 0 where
  pub ccie : ℕ
  pub tassel_1 : ℕ
  pub mc_1 : ℕ
  pub taclr : ℕ

-- TA2CCTL0, TA2CCR0, TA2CTL, the interrupt enable of the status register, and the timers
pub record Tick : Type 0 where
  pub ta2cctl0 : ℕ
  pub ta2ccr0 : ℕ
  pub ta2ctl : ℕ
  pub gie : Bool
  pub timers : Timers

-- LP_LSDLY_20MS
abbrev pub lp_lsdly_20ms : ℕ
lp_lsdly_20ms = 655

module _ (h : Header) where
  -- "ACLK(=REFO), up mode, clear TAR"
  abbrev pub up_mode : ℕ
  up_mode = bit_or (bit_or h.tassel_1 h.mc_1) h.taclr

  -- `wio_timer_subsys_init`
  unfoldable pub timer_subsys_init : M Tick (Unit {0})
  timer_subsys_init s =
      done tt
        (record s { ta2cctl0 = h.ccie; ta2ccr0 = lp_lsdly_20ms; ta2ctl = up_mode; gie = true })

  -- `INT_Timer2A0`, with what the callbacks of the timers do
  unfoldable pub int_timer2_a0 : (invoke : (cb cb_data status : ℕ) → M Timers ℕ) → M Tick (Unit {0})
  int_timer2_a0 invoke =
      on (λ s. s.timers) (λ s t. record s { timers = t }) (timer_callback invoke)
      >> modify (λ s. record s { ta2cctl0 = 0; ta2ctl = 0 })
      >> modify (λ s. record s { ta2cctl0 = h.ccie; ta2ctl = up_mode })
