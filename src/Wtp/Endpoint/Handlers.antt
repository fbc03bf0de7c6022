-- ===== src/Wtp/Endpoint/Handlers.antt =====
-- The packet handlers of client/wtp/wtp/endpoint.c.
use wisp_ert.Common.{
  ℕ, zero, suc, Bool, none, some, List, [], ◌∷◌, ltb, ◌==◌, if◌then◌else◌, add16, bytes16, word16,
  done, fail, fault, out_of_fuel, M, ◌>>=◌, ◌>>◌, pure, get, modify, present,
}
use wisp_ert.Common.Memory.{slice}
use wisp_ert.Wio.Status.{wio_ok}
use wisp_ert.Wio.Buf
use wisp_ert.Wio.Queue
use wisp_ert.Wio.Queue.{Queue}
use wisp_ert.Wtp.Packet.{pkt_ack, event_open, param_read_size, closed, opening, opened, closing}
use wisp_ert.Wtp.Tx.Ack
use wisp_ert.Wtp.Tx.Frame.{emit}
use wisp_ert.Wtp.Rx.{on_msg_data}
use wisp_ert.Wtp.Rx.Packet.{handle_packet}
use wisp_ert.Wtp.Endpoint.{
  Callback, CallbackResult, null, message, Wtp, Env, ignore_status, on_tx, on_rx, on_send_cb,
  on_send_cb_data, on_recv_cb, on_recv_cb_data,
}
use wisp_ert.Wtp.Endpoint.Events.{trigger_event}
use wisp_ert.Wtp.Endpoint.Checksum.{Recv, on_self, on_buf, byte_of, verify_checksum}

-- A pair of queues gives its oldest callback and closure data, or NULL twice if it is empty.
unfoldable pub pop_callback : (Wtp → ℕ) → M Wtp Callback → M Wtp ℕ → M Wtp (Callback × ℕ)
pop_callback size pop_cb pop_data s =
    if ltb 0 (size s)
    then (pop_cb >>= λ cb. pop_data >>= λ cb_data. pure (cb, cb_data)) s
    else done (none, 0) s

-- `wtp_handle_set_param`
unfoldable pub handle_set_param : M Recv (Unit {0})
handle_set_param = do
  param_code ← on_buf (Buf.read 1)
  if byte_of param_code == param_read_size
      then (do
        read_size ← on_buf (Buf.read 1)
        verify_checksum
        on_self (on_tx (modify (λ t. record t { read_size = byte_of read_size }))))
      else pure tt

module _ (env : Env) where
  -- `if (cb) cb(cb_data, WIO_OK, result);`
  unfoldable pub call_back : Callback × ℕ → CallbackResult → M Wtp (Unit {0})
  call_back (none, cb_data) result = pure tt
  call_back (some cb, cb_data) result = ignore_status (env.invoke cb cb_data wio_ok result)

  -- `wtp_handle_open`
  unfoldable pub handle_open : M Recv (Unit {0})
  handle_open = do
    verify_checksum
    on_self (λ s.
        (modify (λ s. record s { downlink_state = opened })
            >> on_tx (emit pkt_ack (bytes16 s.tx_ctrl.seq_num ∷ []))
            >> trigger_event env event_open wio_ok null)
          s)

  -- the loop of `wtp_handle_ack` over the messages that have been sent, with the rounds left
  unfoldable pub notify_sent : ℕ → M Wtp (Unit {0})
  unfolding pop_callback call_back
  notify_sent zero = pure tt
  notify_sent (suc rounds) = do
    cb ← pop_callback (λ s. s.send_cb_queue.size) (on_send_cb Queue.pop) (on_send_cb_data Queue.pop)
    call_back cb null
    notify_sent rounds

  -- `wtp_handle_ack`
  unfoldable pub handle_ack : M Recv (Unit {0})
  unfolding notify_sent
  handle_ack = do
    seq_num ← on_buf (Buf.read 2)
    verify_checksum
    on_self (λ s. elim s.uplink_state [
      | opening ↦ done tt (record s { uplink_state = opened })
      | closing ↦ done tt (record s { uplink_state = closed })
      | _ ↦ (on_tx (Ack.handle_ack (word16 seq_num)) >>= notify_sent) s
    ])

  -- the loop of `wtp_handle_msg_packet` over the messages received, with the rounds left
  unfoldable pub notify_received : ℕ → M Wtp (Unit {0})
  unfolding pop_callback call_back
  notify_received zero = pure tt
  notify_received (suc rounds) = do
    cb ← pop_callback (λ s. s.recv_cb_queue.size) (on_recv_cb Queue.pop) (on_recv_cb_data Queue.pop)
    size ← on_rx (on_msg_data (Buf.read 2))
    s ← get
    let at = s.rx_ctrl.msg_data_buf.pos_a
    on_rx (on_msg_data (modify (λ b. record b { pos_a = add16 b.pos_a (word16 size) })))
    call_back cb (message at (word16 size))
    notify_received rounds

  -- The receive control handles the packet; where it refuses, `n_msgs` stays 0.
  unfoldable pub receive_packet : (seq_num : ℕ) → List ℕ → (new_msg_size : ℕ) → M Wtp ℕ
  receive_packet seq_num payload new_msg_size s =
      elim (on_rx (handle_packet env.rx_header seq_num payload new_msg_size) s) [
        | done n_msgs s' ↦ done n_msgs s'
        | fail _ s' ↦ done 0 s'
        | fault ↦ fault
        | out_of_fuel ↦ out_of_fuel
      ]

  -- `wtp_handle_msg_packet`
  unfoldable pub handle_msg_packet : (begin_msg : Bool) → M Recv (Unit {0})
  unfolding receive_packet notify_received
  handle_msg_packet begin_msg = do
    new_msg_size ← (if begin_msg then on_buf (Buf.read 2) else pure (0 ∷ 0 ∷ []))
    seq_num ← on_buf (Buf.read 2)
    payload_size ← on_buf (Buf.read 1)
    r ← get
    let at = r.buf.pos_a
    on_buf (modify (λ b. record b { pos_a = add16 b.pos_a (byte_of payload_size) }))
    verify_checksum
    payload ← present (slice r.buf.bytes at (byte_of payload_size))
    on_self (do
      n_msgs ← receive_packet (word16 seq_num) payload (word16 new_msg_size)
      notify_received n_msgs
      s ← get
      on_tx (emit pkt_ack (bytes16 s.rx_ctrl.seq_num ∷ [])))
