-- ===== src/Wtp/Endpoint.antt =====
-- The WTP endpoint of client/wtp/wtp/endpoint.c and endpoint.h: its state, and what it calls.
pub mod Events
pub mod Load
pub mod Uplink
pub mod Checksum
pub mod Handlers
pub mod Blockwrite
use wisp_ert.Common.{
  ℕ, ◌*◌, ◌/◌, Bool, false, Option, none, some, List, [], ◌∷◌, to_u8, Outcome, done, fail, fault,
  out_of_fuel, M, ◌>>=◌, pure, on,
}
use wisp_ert.Wio.Buf
use wisp_ert.Wio.Buf.{Buf}
use wisp_ert.Wio.Queue
use wisp_ert.Wio.Queue.{Queue}
use wisp_ert.Wtp.Packet.{LinkState, closed}
use wisp_ert.Wtp.Tx.{TxCtrl, TxMemory, tx_init}
use wisp_ert.Wtp.Rx.{RxCtrl, RxMemory, rx_init}

-- `wio_callback_t`, a pointer to code: `none` is NULL.
abbrev pub Callback : Type 0
Callback = Option ℕ

-- `wtp_t`. A `void*` of closure data is a number that the endpoint only passes on.
pub record Wtp : Type 0 where
  pub downlink_state : LinkState
  pub uplink_state : LinkState
  pub epc_buf : Buf
  pub read_mem : List ℕ
  pub write_mem : List ℕ
  pub read_mem_loaded : Bool
  pub pkt_begin : ℕ
  pub tx_ctrl : TxCtrl
  pub rx_ctrl : RxCtrl
  pub send_cb_queue : Queue Callback
  pub send_cb_data_queue : Queue ℕ
  pub recv_cb_queue : Queue Callback
  pub recv_cb_data_queue : Queue ℕ
  pub event_cb : List Callback
  pub event_cb_data : List ℕ

-- the `result` of a callback: NULL, or a message in the receive control's message data buffer
pub data CallbackResult : Type 0 where
  null : CallbackResult
  message : (at size : ℕ) → CallbackResult

-- What the endpoint is linked with. `invoke` is the program's callbacks: they may call the endpoint
-- again, and return a status. `rx_header` is `sizeof(wtp_rx_fragment_t)`.
pub record Env : Type 0 where
  pub invoke : (cb cb_data status : ℕ) → CallbackResult → M Wtp ℕ
  pub rx_header : ℕ

-- a call whose status is not looked at
abbrev pub ignore_status {ℓ κ} : {S : Type ℓ} {A : Type κ} → M S A → M S (Unit {0})
ignore_status m s = elim (m s) [
  | done _ s' ↦ done tt s'
  | fail _ s' ↦ done tt s'
  | fault ↦ fault
  | out_of_fuel ↦ out_of_fuel
]

module _ {ℓ} {A : Type ℓ} where
  abbrev pub on_tx : M TxCtrl A → M Wtp A
  on_tx = on (λ s. s.tx_ctrl) (λ s t. record s { tx_ctrl = t })

  abbrev pub on_rx : M RxCtrl A → M Wtp A
  on_rx = on (λ s. s.rx_ctrl) (λ s t. record s { rx_ctrl = t })

  abbrev pub on_send_cb : M (Queue Callback) A → M Wtp A
  on_send_cb = on (λ s. s.send_cb_queue) (λ s q. record s { send_cb_queue = q })

  abbrev pub on_send_cb_data : M (Queue ℕ) A → M Wtp A
  on_send_cb_data = on (λ s. s.send_cb_data_queue) (λ s q. record s { send_cb_data_queue = q })

  abbrev pub on_recv_cb : M (Queue Callback) A → M Wtp A
  on_recv_cb = on (λ s. s.recv_cb_queue) (λ s q. record s { recv_cb_queue = q })

  abbrev pub on_recv_cb_data : M (Queue ℕ) A → M Wtp A
  on_recv_cb_data = on (λ s. s.recv_cb_data_queue) (λ s q. record s { recv_cb_data_queue = q })

-- What `malloc` gives at each call of `wtp_init`, and the sizes that the compiler gives types.
pub record EndpointMemory : Type 0 where
  pub tx : TxMemory
  pub rx : RxMemory
  pub send_cbs : ℕ → Option (List Callback)
  pub send_cb_data : ℕ → Option (List ℕ)
  pub recv_cbs : ℕ → Option (List Callback)
  pub recv_cb_data : ℕ → Option (List ℕ)
  pub sizeof_callback : ℕ
  pub sizeof_pointer : ℕ
  -- what stands in `_event_cb_data`, which is not initialised
  pub event_cb_data : List ℕ

-- `wtp_init`. A status other than WIO_OK leaves no endpoint behind.
unfoldable pub wtp_init :
    EndpointMemory
    → (epc_mem : List ℕ) (epc_buf_size : ℕ) (read_mem write_mem : List ℕ)
      (window_size timeout tx_buf_size rx_buf_size n_send n_recv : ℕ)
    → M (Unit {0}) Wtp
wtp_init m epc_mem epc_buf_size read_mem write_mem window_size timeout tx_buf_size rx_buf_size
      n_send n_recv =
    do
      let tx_mem_unit = tx_buf_size / 4
      let rx_mem_unit = rx_buf_size / 2
      tx_ctrl ←
          tx_init m.tx window_size timeout 24 tx_mem_unit (tx_mem_unit * 3) (to_u8 (n_send * 3))
            n_send
      rx_ctrl ← rx_init m.rx window_size rx_mem_unit rx_mem_unit n_recv
      send_cb_queue ← Queue.init m.send_cbs m.sizeof_callback n_send
      send_cb_data_queue ← Queue.init m.send_cb_data m.sizeof_pointer n_send
      recv_cb_queue ← Queue.init m.recv_cbs m.sizeof_callback n_recv
      recv_cb_data_queue ← Queue.init m.recv_cb_data m.sizeof_pointer n_recv
      pure (record {
        downlink_state = closed;
        uplink_state = closed;
        epc_buf = Buf.init epc_mem epc_buf_size;
        read_mem = read_mem;
        write_mem = write_mem;
        read_mem_loaded = false;
        pkt_begin = 0;
        tx_ctrl = tx_ctrl;
        rx_ctrl = rx_ctrl;
        send_cb_queue = send_cb_queue;
        send_cb_data_queue = send_cb_data_queue;
        recv_cb_queue = recv_cb_queue;
        recv_cb_data_queue = recv_cb_data_queue;
        event_cb = none ∷ none ∷ none ∷ [];
        event_cb_data = m.event_cb_data;
      })
