-- ===== src/Wio/Timer/Expiry.antt =====
-- A timer of timer.c that is set alone goes off at its time: `wio_wait4_timeout` ends.
use wisp_ert.Common.{
  ℕ, zero, suc, ◌<◌, ◌≡◌, refl, ◌≢◌, true, false, none, some, List, [], ◌∷◌, arith, length,
  get_elem?, get_elem?-set_self, lt_of_get_elem?, set, u16_mod, done, M,
}
use wisp_ert.Wio.Timer.{
  Timer, Timers, add32, timer_at, set_timeout, activate, timer_callback, spin, wait4_timeout,
}

-- The timer `p` is the only one that waits, and has no callback.
record Armed (p due : ℕ) (s : Timers) (t : Timer) : Type 0 where
  first : s.timer_begin ≡ some p
  there : get_elem? s.cells p ≡ some t
  in_use : t.flag ≡ true
  alone : t.next ≡ none
  silent : t.cb ≡ none
  at : t.time ≡ due

-- the timer after it has been set on an empty list
abbrev armed : Timers → ℕ → Timer → Timer
armed s time t = record {
  flag = true;
  cb_data = 0;
  cb = none;
  time = add32 s.current_time time;
  prev = none;
  next = none;
}

set-set : (ts : List Timer) (p : ℕ) (t u : Timer) → set (set ts p t) p u ≡ set ts p u
set-set [] p t u = refl
set-set (x ∷ ts) zero t u = refl
set-set (x ∷ ts) (suc p) t u = λ i. x ∷ set-set ts p t u i

-- the timers after `p` has been set on an empty list
abbrev start : Timers → (p time : ℕ) → Timer → Timers
start s p time t = record s {
  cells = set s.cells p (armed s time t);
  timer_begin = some p;
  timer_end = some p;
}

module _ (s : Timers) (p time : ℕ) {t : Timer} (b : s.timer_begin ≡ none) (e : s.timer_end ≡ none)
    (there : get_elem? s.cells p ≡ some t) (idle : t.flag ≡ false) where
  set_timeout-alone : set_timeout p time 0 none s ≡ done tt (start s p time t)
  unfolding set_timeout
  set_timeout-alone = ground (
    arith,
    get_elem?-set_self s.cells p
        (record t { flag = true; time = add32 s.current_time time; cb = none; cb_data = 0 })
        (lt_of_get_elem? s.cells p t there),
    set-set s.cells p
        (record t { flag = true; time = add32 s.current_time time; cb = none; cb_data = 0 })
        (armed s time t),
  )

activate-nil :
    (invoke : (cb cb_data status : ℕ) → M Timers ℕ) (n : ℕ) (s : Timers)
    → 0 < n
    → s.timer_begin ≡ none
    → activate invoke n s ≡ done tt s
unfolding activate
activate-nil invoke zero s h e = absurd (omega arith)
activate-nil invoke (suc n) s h e = ground arith

module _ (invoke : (cb cb_data status : ℕ) → M Timers ℕ) {p due : ℕ} {s : Timers} {t : Timer}
    (a : Armed p due s t) where
  abbrev later : Timers
  later = record s { current_time = add32 s.current_time 1 }

  abbrev gone_off : Timers
  gone_off = record s {
    cells = set s.cells p (record t { flag = false });
    timer_begin = none;
    timer_end = none;
    current_time = add32 s.current_time 1;
  }

  tick-waits : add32 s.current_time 1 ≢ due → timer_callback invoke s ≡ done tt later
  unfolding timer_callback
  tick-waits h = ground arith

  tick-fires : add32 s.current_time 1 ≡ due → timer_callback invoke s ≡ done tt gone_off
  unfolding timer_callback
  tick-fires h = ground (
    arith,
    activate-nil invoke (length s.cells) (record gone_off { timer_begin = t.next }),
    lt_of_get_elem? s.cells p t,
  )

-- what has happened when the wait for `p` is over, `n` ticks later
pub record Over (p n : ℕ) (s s' : Timers) : Type 0 where
  pub elapsed : s'.current_time ≡ add32 s.current_time n
  pub no_first : s'.timer_begin ≡ none
  pub no_last : s'.timer_end ≡ none
  pub idle : (t : Timer) × (get_elem? s'.cells p ≡ some t) × (t.flag ≡ false)

module _ (invoke : (cb cb_data status : ℕ) → M Timers ℕ) (p due : ℕ) where
  spin-ends :
      (fuel : ℕ) {s : Timers} {t : Timer}
      → 0 < fuel
      → get_elem? s.cells p ≡ some t
      → t.flag ≡ false
      → spin invoke fuel p s ≡ done tt s
  unfolding spin
  spin-ends zero h e f = absurd (omega arith)
  spin-ends (suc fuel) h e f = ground arith

  spin-Over :
      (fuel n : ℕ) (s : Timers) {t : Timer}
      → Armed p due s t
      → due ≡ add32 s.current_time (suc n)
      → s.current_time < 4294967296
      → n < u16_mod
      → suc n < fuel
      → (s' : Timers) × (spin invoke fuel p s ≡ done tt s') × Over p (suc n) s s'
  unfolding spin
  spin-Over zero n s a e c k f = absurd (omega arith)
  spin-Over (suc fuel) zero s {t} a e c k f =
      let now : add32 s.current_time 1 ≡ due = omega arith in
      let there : get_elem? (set s.cells p (record t { flag = false })) p
          ≡ some (record t { flag = false }) =
        get_elem?-set_self s.cells p _ (lt_of_get_elem? s.cells p t a.there) in
      (
        gone_off invoke a,
        rw (a.there, timer_at, a.in_use, tick-fires invoke a now)
            (spin-ends fuel (omega arith) there refl),
        record {
          elapsed = refl;
          no_first = refl;
          no_last = refl;
          idle = (record t { flag = false }, there, refl);
        },
      )
  spin-Over (suc fuel) (suc n) s {t} a e c k f =
      let not_yet : add32 s.current_time 1 ≢ due = omega arith in
      let a' : Armed p due (later invoke a) t = record {
        first = a.first;
        there = a.there;
        in_use = a.in_use;
        alone = a.alone;
        silent = a.silent;
        at = a.at;
      } in
      let (s', r, o) =
        spin-Over fuel n (later invoke a) {t = t} a' (omega arith) (omega arith) (omega arith)
          (omega arith) in
      (
        s',
        rw (a.there, timer_at, a.in_use, tick-waits invoke a not_yet) r,
        record {
          elapsed = omega (arith, o.elapsed);
          no_first = o.no_first;
          no_last = o.no_last;
          idle = o.idle;
        },
      )

-- `wio_wait4_timeout` of a time other than 0, on an idle timer while no timer waits, ends: after
-- exactly that many ticks the timer is not in use and no timer waits.
pub wait4_timeout-Over :
    (invoke : (cb cb_data status : ℕ) → M Timers ℕ) (s : Timers) (p n fuel : ℕ) {t : Timer}
    → s.timer_begin ≡ none
    → s.timer_end ≡ none
    → get_elem? s.cells p ≡ some t
    → t.flag ≡ false
    → s.current_time < 4294967296
    → suc n < u16_mod
    → suc n < fuel
    → (s' : Timers) × (wait4_timeout invoke fuel p (suc n) s ≡ done tt s') × Over p (suc n) s s'
unfolding wait4_timeout
wait4_timeout-Over invoke s p n fuel {t} b e there idle c k f =
    let there' : get_elem? (start s p (suc n) t).cells p ≡ some (armed s (suc n) t) =
      get_elem?-set_self s.cells p _ (lt_of_get_elem? s.cells p t there) in
    let a : Armed p (add32 s.current_time (suc n)) (start s p (suc n) t) (armed s (suc n) t) =
      record {
        first = refl;
        there = there';
        in_use = refl;
        alone = refl;
        silent = refl;
        at = refl;
      } in
    let (s', r, o) =
      spin-Over invoke p (add32 s.current_time (suc n)) fuel n (start s p (suc n) t) a refl c
        (omega arith) f in
    (
      s',
      rw (set_timeout-alone s p (suc n) b e there idle) r,
      record { elapsed = o.elapsed; no_first = o.no_first; no_last = o.no_last; idle = o.idle },
    )
