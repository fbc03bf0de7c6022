-- ===== src/Ert/Runtime/Connect.antt =====
-- What `ert_on_connect` of client/wisp-ert/runtime/runtime.c does when the block that the reader writes
-- opens the link: it calls the u-RPC library on the endpoint as it then is.
use mathlib.Core.List.{flatten}
use wisp_ert.Common.{
  ℕ, ◌+◌, ◌/◌, ◌%◌, ◌≤◌, ◌<◌, ◌≡◌, some, List, [], ◌∷◌, arith, bytes16, get_elem?, length, ◌==◌,
  Outcome, done, fail, fault, out_of_fuel, M, and_then, ◌>>=◌, refl, Bool-cases, inl, inr,
}
use wisp_ert.Wio.Status.{wio_ok, return_status}
use wisp_ert.Wio.Buf
use wisp_ert.Wio.Buf.Bounds.{IsValid}
use wisp_ert.Wio.Buf.Transfer.{written}
use wisp_ert.Wio.Queue.Refine.{Holds, pushed, push-Holds}
use wisp_ert.Wtp.Packet.{pkt_ack, event_open, opened}
use wisp_ert.Wtp.Tx.Frame.{emit, emit-frame}
use wisp_ert.Wtp.Endpoint.{Callback, Wtp, Env, null}
use wisp_ert.Wtp.Endpoint.Checksum.{verify_checksum, xor_checksum, xor_loop}
use wisp_ert.Wtp.Endpoint.Events.{trigger_event}
use wisp_ert.Wtp.Endpoint.Handlers.{handle_open}
use wisp_ert.Wtp.Endpoint.Uplink.{recv}
use wisp_ert.Wtp.Endpoint.Blockwrite.{
  handle_blockwrite, read_packets, dispatch, pkt_handler, read_type,
}
use wisp_ert.Wtp.Endpoint.Blockwrite.Blocks.{acknowledged, handle_blockwrite-open}
use wisp_ert.Ert.Runtime.{ert_on_connect}

-- a block with a WTP_PKT_OPEN packet and its checksum, behind its size
abbrev pub open_block : List ℕ → List ℕ
open_block rest = 2 ∷ 1 ∷ 1 ∷ rest

-- what a callback returns: its status, also where one of its calls has failed
abbrev pub status_of : M Wtp (Unit {0}) → M Wtp ℕ
status_of m w = elim (m w) [
  | done _ w' ↦ done wio_ok w'
  | fail e w' ↦ done e w'
  | fault ↦ fault
  | out_of_fuel ↦ out_of_fuel
]

-- The endpoint on which the u-RPC library is called: the downlink is open, an acknowledgement frame of
-- four bytes is behind what waits in the packet buffer, and a receive callback is queued.
abbrev pub connected : List ℕ → (on_recv : ℕ) → Wtp → Wtp
connected rest on_recv w = record w {
  write_mem = open_block rest;
  pkt_begin = 0;
  downlink_state = opened;
  tx_ctrl = record (w.tx_ctrl) {
    pkt_buf =
        written w.tx_ctrl.pkt_buf
          (3 ∷ 3 ∷ w.tx_ctrl.seq_num % 256 ∷ w.tx_ctrl.seq_num / 256 % 256 ∷ []);
    pkt_begin = w.tx_ctrl.pkt_buf.pos_b + 1;
    pkt_size = w.tx_ctrl.pkt_buf.pos_b;
  };
  recv_cb_queue = pushed w.recv_cb_queue (some on_recv);
  recv_cb_data_queue = pushed w.recv_cb_data_queue 0;
}

-- a block whose open event ends so
abbrev pub block_ended : Outcome Wtp (Unit {0}) → Outcome Wtp (Unit {0})
block_ended (done _ w) = done tt (record w { pkt_begin = 2 })
block_ended (fail e w) = fail e w
block_ended fault = fault
block_ended out_of_fuel = out_of_fuel

-- the endpoint with such a block
abbrev pub given : List ℕ → Wtp → Wtp
given rest w = record w { write_mem = open_block rest }

emit-acknowledged :
    (w : Wtp)
    → IsValid w.tx_ctrl.pkt_buf
    → w.tx_ctrl.pkt_buf.pos_b + 4 ≤ w.tx_ctrl.pkt_buf.size
    → emit pkt_ack (bytes16 w.tx_ctrl.seq_num ∷ []) w.tx_ctrl ≡ done tt (acknowledged w).tx_ctrl
unfolding flatten
emit-acknowledged w v room =
    emit-frame w.tx_ctrl v pkt_ack (bytes16 w.tx_ctrl.seq_num ∷ []) (omega arith) (omega arith)

ert_on_connect-connected :
    (w : Wtp) (rest : List ℕ) (on_recv : ℕ) (k : M Wtp (Unit {0})) (cbs : List Callback)
    (datas : List ℕ)
    → Holds w.recv_cb_queue cbs × (length cbs < w.recv_cb_queue.capacity)
    → Holds w.recv_cb_data_queue datas × (length datas < w.recv_cb_data_queue.capacity)
    → ert_on_connect on_recv k (acknowledged (given rest w)) ≡ k (connected rest on_recv w)
unfolding ert_on_connect recv flatten
ert_on_connect-connected w rest on_recv k cbs datas (h, room) (h', room') =
    rw ((push-Holds {A = Callback} (some on_recv) h room).0, (push-Holds 0 h' room').0) refl

-- the open event, by what the u-RPC library does
abbrev pub event_ended : Outcome Wtp ℕ → Outcome Wtp (Unit {0})
event_ended (done e w) = return_status e w
event_ended (fail e w) = return_status e w
event_ended fault = fault
event_ended out_of_fuel = out_of_fuel

status_of-return_status :
    (r : Outcome Wtp ℕ) (w : Wtp)
    → (status_of (λ _. and_then r return_status) >>= return_status) w ≡ event_ended r
status_of-return_status (done e w') w = elim (Bool-cases (e == 0)) [
  | inl z ↦ rw z refl
  | inr n ↦ rw (n, n) refl
]
status_of-return_status (fail e w') w = refl
status_of-return_status fault w = refl
status_of-return_status out_of_fuel w = refl

module _ (env : Env) where
  pub handle_blockwrite-ended :
      (w : Wtp) (rest : List ℕ) (r : Outcome Wtp (Unit {0}))
      → IsValid w.tx_ctrl.pkt_buf
      → w.tx_ctrl.pkt_buf.pos_b + 4 ≤ w.tx_ctrl.pkt_buf.size
      → trigger_event env event_open wio_ok null (acknowledged (given rest w)) ≡ r
      → handle_blockwrite env (given rest w) ≡ block_ended r
  unfolding handle_blockwrite read_packets dispatch pkt_handler handle_open verify_checksum
      xor_checksum xor_loop read_type Buf.read Buf.init Buf.load_byte
  handle_blockwrite-ended w rest (done u w') v room t =
      handle_blockwrite-open env (given rest w) w' rest refl v room t
  handle_blockwrite-ended w rest (fail c w') v room t =
      rw (handle_blockwrite, emit-acknowledged w v room, t) refl
  handle_blockwrite-ended w rest fault v room t =
      rw (handle_blockwrite, emit-acknowledged w v room, t) refl
  handle_blockwrite-ended w rest out_of_fuel v room t =
      rw (handle_blockwrite, emit-acknowledged w v room, t) refl

  -- the open event, once its callback and its closure data are known
  pub trigger_event-connected :
      (w : Wtp) (rest : List ℕ) (on_connect cb_data on_recv : ℕ) (urpc_call : M Wtp ℕ)
      (cbs : List Callback) (datas : List ℕ) (r : Outcome Wtp ℕ)
      → get_elem? w.event_cb event_open ≡ some (some on_connect)
      → get_elem? w.event_cb_data event_open ≡ some cb_data
      → env.invoke on_connect cb_data wio_ok null
        ≡ status_of (ert_on_connect on_recv (urpc_call >>= return_status))
      → Holds w.recv_cb_queue cbs × (length cbs < w.recv_cb_queue.capacity)
      → Holds w.recv_cb_data_queue datas × (length datas < w.recv_cb_data_queue.capacity)
      → urpc_call (connected rest on_recv w) ≡ r
      → trigger_event env event_open wio_ok null (acknowledged (given rest w)) ≡ event_ended r
  unfolding trigger_event
  trigger_event-connected w rest on_connect cb_data on_recv urpc_call cbs datas r a b link h h' u =
      rw
        (
          trigger_event,
          a,
          b,
          link,
          status_of,
          and_then,
          ert_on_connect-connected w rest on_recv (urpc_call >>= return_status) cbs datas h h',
          u,
        )
        (status_of-return_status r w)
