-- ===== src/Wio/Timer.antt =====
-- client/wisp-base/wio/timer.c and timer.h: timers in a doubly linked list, and the tick.
pub mod Expiry
pub mod Faults
use wisp_ert.Common.{
  ℕ, zero, suc, ◌+◌, ◌%◌, ◌^◌, Bool, true, false, Option, none, some, List, ltb, ◌==◌,
  if◌then◌else◌, length, get_elem?, set, Outcome, done, fail, fault, out_of_fuel, M, ◌>>=◌, ◌>>◌,
  pure, get, modify, starve,
}
use wisp_ert.Wio.Status.{wio_ok, already}

-- `wio_timer_t`. A pointer to one is its index among the timers of the program, `none` is NULL.
pub record Timer : Type 0 where
  pub flag : Bool
  pub cb_data : ℕ
  pub cb : Option ℕ
  pub time : ℕ
  pub prev : Option ℕ
  pub next : Option ℕ

-- the timers of the program, and the static variables of timer.c
pub record Timers : Type 0 where
  pub cells : List Timer
  pub timer_begin : Option ℕ
  pub timer_end : Option ℕ
  pub current_time : ℕ

-- `uint32_t` addition
abbrev pub add32 : ℕ → ℕ → ℕ
add32 a b = (a + b) % 4294967296

-- `*p`, and writes to its fields
unfoldable pub timer_at : ℕ → M Timers Timer
timer_at p s = elim (get_elem? s.cells p) [ none ↦ fault | some t ↦ done t s ]

unfoldable pub assign : ℕ → (Timer → Timer) → M Timers (Unit {0})
assign p f s = elim (get_elem? s.cells p) [
  | none ↦ fault
  | some t ↦ done tt (record s { cells = set s.cells p (f t) })
]

-- a write through a pointer that may be NULL
unfoldable pub assign_through : Option ℕ → (Timer → Timer) → M Timers (Unit {0})
unfolding assign
assign_through none f s = fault
assign_through (some p) f s = assign p f s

-- `wio_timer_init`
unfoldable pub timer_init : ℕ → M Timers (Unit {0})
unfolding assign
timer_init p =
    assign p
      (λ t. record { flag = false; cb_data = 0; cb = none; time = 0; prev = none; next = none })

-- "Find place to insert", on fuel
unfoldable pub find_place : ℕ → Option ℕ → M Timers (Option ℕ)
unfolding timer_at
find_place zero next_timer = starve
find_place (suc fuel) none = pure none
find_place (suc fuel) (some n) = do
  s ← get
  t ← timer_at n
  elim (ltb t.time s.current_time) [ true ↦ find_place fuel t.next | false ↦ pure (some n) ]

-- "Insert timer to linked list": in front of `next_timer`, or at the end
unfoldable pub insert_timer : ℕ → Option ℕ → M Timers (Unit {0})
unfolding timer_at assign assign_through
insert_timer p (some n) = do
  t ← timer_at n
  assign p (λ u. record u { prev = t.prev; next = some n })
  assign_through t.prev (λ u. record u { next = some p })
  assign n (λ u. record u { prev = some p })
insert_timer p none = do
  s ← get
  assign p (λ u. record u { prev = s.timer_end; next = none })
  elim s.timer_end [
    | none ↦ modify (λ s. record s { timer_begin = some p })
    | some e ↦ assign e (λ u. record u { next = some p })
  ]
  modify (λ s. record s { timer_end = some p })

-- `wio_set_timeout`. The fuel is the number of timers and one more.
unfoldable pub set_timeout : (p time cb_data : ℕ) → Option ℕ → M Timers (Unit {0})
unfolding find_place insert_timer
set_timeout p time cb_data cb = do
  s ← get
  t ← timer_at p
  if t.flag then fail already else do
    assign p (λ u. record u {
      flag = true;
      time = add32 s.current_time time;
      cb = cb;
      cb_data = cb_data;
    })
    next_timer ← find_place (suc (length s.cells)) s.timer_begin
    insert_timer p next_timer

-- "Remove timer from linked list": the neighbours, or the ends of the list
unfoldable pub unlink_prev : Timer → M Timers (Unit {0})
unfolding assign
unlink_prev t = elim t.prev [
  | some q ↦ assign q (λ u. record u { next = t.next })
  | none ↦ modify (λ s. record s { timer_begin = t.next })
]

unfoldable pub unlink_next : Timer → M Timers (Unit {0})
unfolding assign
unlink_next t = elim t.next [
  | some n ↦ assign n (λ u. record u { prev = t.prev })
  | none ↦ modify (λ s. record s { timer_end = t.prev })
]

-- `wio_clear_timeout`
unfoldable pub clear_timeout : ℕ → M Timers (Unit {0})
unfolding timer_at unlink_prev unlink_next
clear_timeout p = do t ← timer_at p; if t.flag then unlink_prev t >> unlink_next t else pure tt

-- What the callbacks do, from their closure data and status.
module _ (invoke : (cb cb_data status : ℕ) → M Timers ℕ) where
  -- `if (timer->cb) timer->cb(timer->cb_data, WIO_OK, NULL);`
  unfoldable pub call_back : Timer → M Timers (Unit {0})
  call_back t = elim t.cb [
    | none ↦ pure tt
    | some cb ↦ λ s. elim (invoke cb t.cb_data wio_ok s) [
      | done _ s' ↦ done tt s'
      | fail _ s' ↦ done tt s'
      | fault ↦ fault
      | out_of_fuel ↦ out_of_fuel
    ]
  ]

  -- one round of "Activate timers", for the timer at the begin of the list
  unfoldable pub fire : ℕ → Timer → M Timers (Unit {0})
  unfolding assign call_back
  fire p t = do
    modify (λ s. record s { timer_begin = t.next })
    elim t.next [ none ↦ modify (λ s. record s { timer_end = none }) | some _ ↦ pure tt ]
    assign p (λ u. record u { flag = false })
    call_back t

  -- "Activate timers", on fuel
  unfoldable pub activate : ℕ → M Timers (Unit {0})
  unfolding fire timer_at
  activate zero s = out_of_fuel
  activate (suc fuel) s = elim s.timer_begin [
    | none ↦ done tt s
    | some p ↦
        (timer_at p >>= λ t. elim (t.time == s.current_time) [
          | true ↦ fire p t >>= λ _. activate fuel
          | false ↦ pure tt
        ])
          s
  ]

  -- `wio_timer_callback`. The fuel is the number of timers and one more.
  unfoldable pub timer_callback : M Timers (Unit {0})
  unfolding activate
  timer_callback = do
    modify (λ s. record s { current_time = add32 s.current_time 1 })
    s ← get
    activate (suc (length s.cells))

  -- `while (timer->flag);` with a tick at every round, on fuel
  unfoldable pub spin : ℕ → ℕ → M Timers (Unit {0})
  unfolding timer_callback timer_at
  spin zero p = starve
  spin (suc fuel) p = do
    t ← timer_at p
    elim t.flag [ false ↦ pure tt | true ↦ timer_callback >>= λ _. spin fuel p ]

  -- `wio_wait4_timeout`, on fuel
  unfoldable pub wait4_timeout : ℕ → (p time : ℕ) → M Timers (Unit {0})
  unfolding spin set_timeout
  wait4_timeout fuel p time = set_timeout p time 0 none >> spin fuel p
