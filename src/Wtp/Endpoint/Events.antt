-- ===== src/Wtp/Endpoint/Events.antt =====
-- `wtp_on_event` and `wtp_trigger_event` of client/wtp/wtp/endpoint.c.
pub mod Table
use wisp_ert.Common.{
  ℕ, none, some, leb, if◌then◌else◌, get_elem?, set, done, fail, M, ◌>>=◌, pure, get, present,
}
use wisp_ert.Wio.Status.{invalid, return_status}
use wisp_ert.Wtp.Packet.{event_max}
use wisp_ert.Wtp.Endpoint.{Callback, CallbackResult, Wtp, Env}

-- `wtp_on_event`
unfoldable pub on_event : (event cb_data : ℕ) → Callback → M Wtp (Unit {0})
on_event event cb_data cb s =
    if leb event_max event
    then fail invalid s
    else done tt (record s {
      event_cb = set s.event_cb event cb;
      event_cb_data = set s.event_cb_data event cb_data;
    })

-- `wtp_trigger_event`: the callback's status is the status returned.
unfoldable pub trigger_event : Env → (event status : ℕ) → CallbackResult → M Wtp (Unit {0})
trigger_event env event status result = do
  s ← get
  cb ← present (get_elem? s.event_cb event)
  cb_data ← present (get_elem? s.event_cb_data event)
  elim cb [ none ↦ pure tt | some f ↦ env.invoke f cb_data status result >>= return_status ]
