-- ===== src/Ert/Runtime/Open.antt =====
-- A round of the RFID loop of client/wisp-ert/runtime/runtime.c in which the reader opens the link.
use wisp_ert.Common.{
  ℕ, ◌+◌, ◌%◌, ◌≤◌, ◌<◌, ◌≡◌, true, false, some, List, arith, add8, get_elem?, length, ◌==◌,
  if◌then◌else◌, Outcome, done, fail, fault, out_of_fuel, M, and_then, ◌>>=◌, refl, Bool-cases, inl,
  inr,
}
use wisp_ert.Wio.Status.{wio_ok, return_status}
use wisp_ert.Wio.Buf.Bounds.{IsValid}
use wisp_ert.Wio.Queue.Refine.{Holds}
use wisp_ert.Wtp.Packet.{event_open}
use wisp_ert.Wtp.Endpoint.{Callback, Wtp, Env, null, ignore_status}
use wisp_ert.Wtp.Endpoint.Blockwrite.{handle_blockwrite}
use wisp_ert.Ert.Epc.{epc_round}
use wisp_ert.Ert.Runtime.Connect.{
  open_block, status_of, connected, given, event_ended, block_ended, handle_blockwrite-ended,
  trigger_event-connected,
}
use wisp_ert.Ert.Runtime.{
  Runtime, ert_on_connect, before_rfid, after_read, after_blockwrite, rfid_round,
}

-- the runtime when the firmware starts, in a round without an EPC update
abbrev pub counted : Runtime → Runtime
counted s = record s { epc_update_counter = add8 s.epc_update_counter 1 }

before_rfid-counted :
    (env : Env) (do_rfid : M Runtime (Unit {0})) (s : Runtime)
    → (add8 s.epc_update_counter 1 % 16 == 1) ≡ false
    → before_rfid env do_rfid s ≡ done tt (counted s)
unfolding before_rfid epc_round
before_rfid-counted env do_rfid s e = ground (arith, e)

after_read-skip :
    (env : Env) (do_rfid : M Runtime (Unit {0})) (s : Runtime)
    → s.read_flag ≡ false
    → after_read env do_rfid s ≡ done tt s
unfolding after_read
after_read-skip env do_rfid s f = ground (arith, f)

-- the runtime after the reader has written such a block
abbrev pub opening_block : List ℕ → Runtime → Runtime
opening_block rest s = record (counted s) {
  wtp_ep = record (s.wtp_ep) { write_mem = open_block rest };
  blockwrite_flag = true;
}

-- the runtime at the end of the round: the u-RPC library has returned a status and left an endpoint
abbrev pub ended : Runtime → (status : ℕ) → Wtp → Runtime
ended s status w = record s {
  wtp_ep = if status == 0 then record w { pkt_begin = 2 } else w;
  blockwrite_flag = false;
  epc_update_counter = (s.epc_update_counter + 1) % 256;
}

-- the end of the round, by what the u-RPC library does
abbrev pub after_call : Runtime → Outcome Wtp ℕ → Outcome Runtime (Unit {0})
after_call s (done status w) = done tt (ended s status w)
after_call s (fail status w) = done tt (ended s status w)
after_call s fault = fault
after_call s out_of_fuel = out_of_fuel

-- the end of the round, by what the open event's callback does
block_ended-after_call :
    (s : Runtime) (rest : List ℕ) (r : Outcome Wtp ℕ) (env : Env) (do_rfid : M Runtime (Unit {0}))
    → handle_blockwrite env (given rest s.wtp_ep) ≡ block_ended (event_ended r)
    → after_blockwrite env do_rfid (opening_block rest s) ≡ after_call s r
unfolding after_blockwrite
block_ended-after_call s rest (done e w) env do_rfid h = elim (Bool-cases (e == 0)) [
  | inl z ↦ rw (ignore_status, h, z) refl
  | inr n ↦ rw (ignore_status, h, n) refl
]
block_ended-after_call s rest (fail e w) env do_rfid h = elim (Bool-cases (e == 0)) [
  | inl z ↦ rw (ignore_status, h, z) refl
  | inr n ↦ rw (ignore_status, h, n) refl
]
block_ended-after_call s rest fault env do_rfid h = rw (ignore_status, h) refl
block_ended-after_call s rest out_of_fuel env do_rfid h = rw (ignore_status, h) refl

-- A round in which no EPC update is due, no Read is pending, and in which the firmware writes a block
-- with a WTP_PKT_OPEN packet and calls the BlockWrite callback. The open event's callback is that of the
-- runtime, which calls the u-RPC library; a frame of four bytes fits the packet buffer, and both queues
-- of receive callbacks have room. Then the library is called on the endpoint on which the downlink is
-- open, the acknowledgement with the transmit control's number is framed in the packet buffer, and the
-- runtime's receive callback is queued; and if that call returns, whatever its status, the round
-- returns with the endpoint that it leaves, the counter one on in 8 bits, and the BlockWrite flag clear.
pub rfid_round-open :
    (env : Env) (do_rfid : M Runtime (Unit {0})) (urpc_call : M Wtp ℕ) (s : Runtime) (rest : List ℕ)
    (on_connect cb_data on_recv : ℕ) (cbs : List Callback) (datas : List ℕ)
    → (add8 s.epc_update_counter 1 % 16 == 1) ≡ false
    → s.read_flag ≡ false
    → do_rfid (counted s) ≡ done tt (opening_block rest s)
    → IsValid s.wtp_ep.tx_ctrl.pkt_buf
    → s.wtp_ep.tx_ctrl.pkt_buf.pos_b + 4 ≤ s.wtp_ep.tx_ctrl.pkt_buf.size
    → get_elem? s.wtp_ep.event_cb event_open ≡ some (some on_connect)
    → get_elem? s.wtp_ep.event_cb_data event_open ≡ some cb_data
    → env.invoke on_connect cb_data wio_ok null
      ≡ status_of (ert_on_connect on_recv (urpc_call >>= return_status))
    → Holds s.wtp_ep.recv_cb_queue cbs × (length cbs < s.wtp_ep.recv_cb_queue.capacity)
    → Holds s.wtp_ep.recv_cb_data_queue datas
      × (length datas < s.wtp_ep.recv_cb_data_queue.capacity)
    → rfid_round env do_rfid s ≡ after_call s (urpc_call (connected rest on_recv s.wtp_ep))
unfolding rfid_round
rfid_round-open env do_rfid urpc_call s rest on_connect cb_data on_recv cbs datas idle no_read run v
      room cb data_ link h h' =
    let w : Wtp = s.wtp_ep in
    let r : Outcome Wtp ℕ = urpc_call (connected rest on_recv w) in
    let event =
      trigger_event-connected env w rest on_connect cb_data on_recv urpc_call cbs datas r cb data_
        link h h' refl in
    rw
      (
        before_rfid-counted env do_rfid s idle,
        and_then,
        run,
        after_read-skip env do_rfid (opening_block rest s) no_read,
      )
      (block_ended-after_call s rest r env do_rfid
        (handle_blockwrite-ended env w rest (event_ended r) v room event))
