-- ===== src/Wtp/Endpoint/Uplink.antt =====
-- What the program calls: `wtp_connect`, `wtp_close`, `wtp_send` and `wtp_recv` of
-- client/wtp/wtp/endpoint.c.
use wisp_ert.Common.{ℕ, List, [], ◌∷◌, if◌then◌else◌, fail, M, ◌>>=◌, ◌>>◌, pure, get, present}
use wisp_ert.Wio.Status.{already}
use wisp_ert.Wio.Queue
use wisp_ert.Wtp.Packet.{pkt_open, pkt_req_uplink, opening, opened}
use wisp_ert.Wtp.Tx.{add_msg}
use wisp_ert.Wtp.Tx.Frame.{emit}
use wisp_ert.Wtp.Endpoint.{
  Callback, Wtp, on_tx, on_send_cb, on_send_cb_data, on_recv_cb, on_recv_cb_data,
}
use wisp_ert.Wtp.Endpoint.Load.{load_read_mem}

-- `wtp_connect`
unfoldable pub connect : M Wtp (Unit {0})
connect s = elim s.uplink_state [
  | opened ↦ fail already s
  | _ ↦ on_tx (emit pkt_open []) (record s { uplink_state = opening })
]

-- `wtp_close`, which does nothing yet
unfoldable pub close : M Wtp (Unit {0})
close = pure tt

-- `wtp_send`
unfoldable pub send : List ℕ → (cb_data : ℕ) → Callback → M Wtp (Unit {0})
send bytes cb_data cb = do
  on_send_cb (Queue.push cb)
  on_send_cb_data (Queue.push cb_data)
  i ← on_tx (add_msg bytes)
  s ← get
  info ← present (Queue.at s.tx_ctrl.read_info_queue i)
  on_tx (emit pkt_req_uplink ((info.n_reads ∷ []) ∷ (info.size ∷ []) ∷ []))
  s ← get
  if s.read_mem_loaded then pure tt else load_read_mem

-- `wtp_recv`
unfoldable pub recv : (cb_data : ℕ) → Callback → M Wtp (Unit {0})
recv cb_data cb = on_recv_cb (Queue.push cb) >> on_recv_cb_data (Queue.push cb_data)
