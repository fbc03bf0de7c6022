-- ===== src/Wtp/Endpoint/Events/Table.antt =====
-- The events of client/wtp/wtp/endpoint.c as a table of callbacks.
use wisp_ert.Common.{
  ℕ, ◌<◌, ◌≡◌, ◌≢◌, none, some, List, arith, get_elem?, get_elem?-set_self, get_elem?-set_ne, set,
  leb-false, true, false, ap, ◌∙◌, ◌==◌, if◌then◌else◌, Bool-cases, inl, inr, lt_of_get_elem?, M,
  ◌>>=◌, ◌>>◌, pure,
}
use wisp_ert.Wio.Status.{return_status}
use wisp_ert.Wtp.Packet.{event_max}
use wisp_ert.Wtp.Endpoint.{Callback, CallbackResult, Wtp, Env}
use wisp_ert.Wtp.Endpoint.Events.{on_event, trigger_event}

-- the endpoint with a callback for an event
abbrev pub listening : ℕ → ℕ → Callback → Wtp → Wtp
listening event cb_data cb s = record s {
  event_cb = set s.event_cb event cb;
  event_cb_data = set s.event_cb_data event cb_data;
}

-- a callback with its closure data, or nothing
abbrev pub run : Env → Callback → ℕ → ℕ → CallbackResult → M Wtp (Unit {0})
run env none cb_data status result = pure tt
run env (some f) cb_data status result = env.invoke f cb_data status result >>= return_status

trigger_event-run :
    (env : Env) (s : Wtp) (event d status : ℕ) (g : Callback) (result : CallbackResult)
    → get_elem? s.event_cb event ≡ some g
    → get_elem? s.event_cb_data event ≡ some d
    → trigger_event env event status result s ≡ run env g d status result s
unfolding trigger_event
trigger_event-run env s event d status none result e f = rw (e, f)
trigger_event-run env s event d status (some g) result e f = rw (e, f)

set-same :
    {A : Type 0} (xs : List A) (event other : ℕ) {old : A} (new : A)
    → (other == event) ≡ true
    → get_elem? xs other ≡ some old
    → get_elem? (set xs event new) other ≡ some new
set-same xs event other {old} new same e =
    let p : other ≡ event = ground arith in
    ap (get_elem? (set xs event new)) p
    ∙ get_elem?-set_self xs event new (omega (arith, lt_of_get_elem? xs other old e, p))

set-other :
    {A : Type 0} (xs : List A) (event other : ℕ) {old : A} (new : A)
    → (other == event) ≡ false
    → get_elem? xs other ≡ some old
    → get_elem? (set xs event new) other ≡ some old
set-other xs event other new not_same e =
    let ne : event ≢ other = ground arith in get_elem?-set_ne xs event other new ne ∙ e

-- After a callback and its closure data have been set for an event in range, that event runs the
-- callback with that data, and every other event what stands in the table for it, both on the
-- endpoint with the new callback.
pub trigger_event-on_event :
    (env : Env) (s : Wtp) (event other cb_data status d : ℕ) (cb g : Callback)
    (result : CallbackResult)
    → event < event_max
    → get_elem? s.event_cb other ≡ some g
    → get_elem? s.event_cb_data other ≡ some d
    → (on_event event cb_data cb >> trigger_event env other status result) s
      ≡ (if other == event then run env cb cb_data status result else run env g d status result)
          (listening event cb_data cb s)
unfolding on_event
trigger_event-on_event env s event other cb_data status d cb g result h e f =
    elim (Bool-cases (other == event)) [
      | inl same ↦
          rw (leb-false event_max event h, same)
            (trigger_event-run env (listening event cb_data cb s) other cb_data status cb result
              (set-same s.event_cb event other cb same e)
              (set-same s.event_cb_data event other cb_data same f))
      | inr not_same ↦
          rw (leb-false event_max event h, not_same)
            (trigger_event-run env (listening event cb_data cb s) other d status g result
              (set-other s.event_cb event other cb not_same e)
              (set-other s.event_cb_data event other cb_data not_same f))
    ]
