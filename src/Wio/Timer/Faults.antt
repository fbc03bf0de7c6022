-- ===== src/Wio/Timer/Faults.antt =====
-- Where timer.c goes wrong: a second timer, and a timer that has been cleared.
use wisp_ert.Common.{
  ℕ, suc, ◌≤◌, ◌≡◌, refl, ◌≢◌, Bool, true, false, zero, List, [], ◌∷◌, Option, none, some, arith,
  get_elem?, get_elem?-set_self, get_elem?-set_ne, lt_of_get_elem?, set, done, fail, fault,
  and_then-eq-done, ◌∙◌, Option-cases, inl, inr, ◌>>◌,
}
use wisp_ert.Wio.Status.{already}
use wisp_ert.Wio.Timer.{
  Timer, Timers, add32, timer_at, assign, set_timeout, unlink_prev, unlink_next, clear_timeout,
}

-- With a timer waiting whose time has not passed and which has none before it, as the first timer
-- of the list is, `wio_set_timeout` of another timer that is not in use writes through NULL.
pub set_timeout-fault :
    (s : Timers) (p h time cb_data : ℕ) (cb : Option ℕ) {t u : Timer}
    → s.timer_begin ≡ some h
    → get_elem? s.cells h ≡ some u
    → u.prev ≡ none
    → s.current_time ≤ u.time
    → p ≢ h
    → get_elem? s.cells p ≡ some t
    → t.flag ≡ false
    → set_timeout p time cb_data cb s ≡ fault
unfolding set_timeout
set_timeout-fault s p h time cb_data cb {t} {u} b eh first late ne ep idle = ground (
  arith,
  get_elem?-set_ne s.cells p h
      (record t { flag = true; time = add32 s.current_time time; cb = cb; cb_data = cb_data }) ne,
  get_elem?-set_self s.cells p
      (record t { flag = true; time = add32 s.current_time time; cb = cb; cb_data = cb_data })
      (lt_of_get_elem? s.cells p t ep),
)

-- whether the timer at an index is there and marked as in use
abbrev pub used : List Timer → ℕ → Bool
used [] p = false
used (t ∷ ts) zero = t.flag
used (t ∷ ts) (suc p) = used ts p

used-set :
    (ts : List Timer) (q p : ℕ) {u : Timer} (v : Timer)
    → get_elem? ts q ≡ some u
    → v.flag ≡ u.flag
    → used (set ts q v) p ≡ used ts p
used-set [] q p v e same = cc
used-set (t ∷ ts) zero zero v e same = ground arith
used-set (t ∷ ts) zero (suc p) v e same = refl
used-set (t ∷ ts) (suc q) zero v e same = refl
used-set (t ∷ ts) (suc q) (suc p) v e same = used-set ts q p v e same

used_of_get_elem? :
    (ts : List Timer) (p : ℕ) {t : Timer} → get_elem? ts p ≡ some t → used ts p ≡ t.flag
used_of_get_elem? [] p e = cc
used_of_get_elem? (t ∷ ts) zero e = ground arith
used_of_get_elem? (t ∷ ts) (suc p) e = used_of_get_elem? ts p e

get_elem?_of_used :
    (ts : List Timer) (p : ℕ)
    → used ts p ≡ true
    → (t : Timer) × (get_elem? ts p ≡ some t) × (t.flag ≡ true)
get_elem?_of_used [] p e = cc
get_elem?_of_used (t ∷ ts) zero e = (t, refl, e)
get_elem?_of_used (t ∷ ts) (suc p) e = get_elem?_of_used ts p e

-- A write to a timer that leaves its mark alone leaves every mark alone.
used-assign :
    (q : ℕ) (f : Timer → Timer) (s s' : Timers) (p : ℕ)
    → ((u : Timer) → (f u).flag ≡ u.flag)
    → assign q f s ≡ done tt s'
    → used s'.cells p ≡ used s.cells p
unfolding assign
used-assign q f s s' p keep e = elim (Option-cases (get_elem? s.cells q)) [
  | inl absent ↦ ground arith
  | inr (u, eq) ↦ ground (arith, used-set s.cells q p (f u) eq (keep u))
]

used-unlink_prev :
    (t : Timer) (s s' : Timers) (p : ℕ)
    → unlink_prev t s ≡ done tt s'
    → used s'.cells p ≡ used s.cells p
unfolding unlink_prev
used-unlink_prev t s s' p e = elim (Option-cases t.prev) [
  | inl first ↦ ground arith
  | inr (q, eq) ↦
      used-assign q (λ u. record u { next = t.next }) s s' p (λ u. refl) (rw (eq, unlink_prev) at e)
]

used-unlink_next :
    (t : Timer) (s s' : Timers) (p : ℕ)
    → unlink_next t s ≡ done tt s'
    → used s'.cells p ≡ used s.cells p
unfolding unlink_next
used-unlink_next t s s' p e = elim (Option-cases t.next) [
  | inl last ↦ ground arith
  | inr (q, eq) ↦
      used-assign q (λ u. record u { prev = t.prev }) s s' p (λ u. refl) (rw (eq, unlink_next) at e)
]

-- `wio_clear_timeout` leaves a timer that was in use marked as in use: the timer cannot be set again.
pub set_timeout-clear_timeout :
    (s s' : Timers) (p time cb_data : ℕ) (cb : Option ℕ)
    → used s.cells p ≡ true
    → clear_timeout p s ≡ done tt s'
    → set_timeout p time cb_data cb s' ≡ fail already s'
unfolding set_timeout clear_timeout timer_at
set_timeout-clear_timeout s s' p time cb_data cb u e =
    let (t, ep, flag) = get_elem?_of_used s.cells p u in
    let unlinked : (unlink_prev t >> unlink_next t) s ≡ done tt s' =
      rw (ep, clear_timeout, timer_at, flag) at e in
    let (_, m, e1, e2) = and_then-eq-done (unlink_prev t s) (λ _. unlink_next t) unlinked in
    let kept : used s'.cells p ≡ true =
      used-unlink_next t m s' p e2 ∙ used-unlink_prev t s m p e1 ∙ u in
    let (t', ep', flag') = get_elem?_of_used s'.cells p kept in rw (ep', timer_at, flag')
