-- ===== src/Examples/Timers.antt =====
-- Two timers of client/wisp-base/wio/timer.c.
use wisp_ert.Common.{ℕ, ◌≡◌, refl, true, false, none, some, [], ◌∷◌, arith, done, fault, M}
use wisp_ert.Wio.Timer.{Timer, Timers, set_timeout, wait4_timeout}
use wisp_ert.Wio.Timer.Faults.{set_timeout-fault}
use wisp_ert.Wio.Timer.Expiry.{Over, wait4_timeout-Over}

abbrev idle_timer : Timer
idle_timer = record { flag = false; cb_data = 0; cb = none; time = 0; prev = none; next = none }

abbrev busy_timer : Timer
busy_timer = record idle_timer { flag = true; time = 9 }

-- no timer waits
abbrev quiet : Timers
quiet = record {
  cells = idle_timer ∷ idle_timer ∷ [];
  timer_begin = none;
  timer_end = none;
  current_time = 4;
}

-- the first timer waits
abbrev waiting : Timers
waiting = record {
  cells = busy_timer ∷ idle_timer ∷ [];
  timer_begin = some 0;
  timer_end = some 0;
  current_time = 4;
}

abbrev no_callbacks : (cb cb_data status : ℕ) → M Timers ℕ
no_callbacks cb cb_data status s = done 0 s

wait4_timeout-Over_example :
    (s' : Timers) × (wait4_timeout no_callbacks 9 1 3 quiet ≡ done tt s') × Over 1 3 quiet s'
wait4_timeout-Over_example =
    wait4_timeout-Over no_callbacks quiet 1 2 9 refl refl refl refl (omega arith) (omega arith)
      (omega arith)

set_timeout-fault_example : set_timeout 1 3 0 none waiting ≡ fault
set_timeout-fault_example =
    set_timeout-fault waiting 1 0 3 0 none refl refl refl (omega arith) (omega arith) refl refl
