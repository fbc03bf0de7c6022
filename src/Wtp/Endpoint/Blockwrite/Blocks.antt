-- ===== src/Wtp/Endpoint/Blockwrite/Blocks.antt =====
-- What `wtp_handle_blockwrite` of client/wtp/wtp/endpoint.c does with blocks of one packet.
use mathlib.Core.List.{flatten}
use wisp_ert.Common.{
  ℕ, suc, false, ◌==◌, ◌∙◌, ◌+◌, ◌≤◌, ◌≡◌, refl, List, [], ◌∷◌, arith, ==_refl, bit_xor, bytes16,
  done,
}
use wisp_ert.Wio.Status.{wio_ok}
use wisp_ert.Wio.Buf
use wisp_ert.Wio.Buf.{Buf}
use wisp_ert.Wio.Buf.Bounds.{IsValid}
use wisp_ert.Wio.Buf.Transfer.{written}
use wisp_ert.Wtp.Packet.{
  pkt_end, pkt_open, pkt_ack, pkt_set_param, param_read_size, event_open, opened,
}
use wisp_ert.Wtp.Tx.Frame.{emit, frame, emit-frame}
use wisp_ert.Wtp.Endpoint.{Wtp, Env, null}
use wisp_ert.Wtp.Endpoint.Events.{trigger_event}
use wisp_ert.Wtp.Endpoint.Checksum.{Recv, verify_checksum, xor_checksum, xor_loop}
use wisp_ert.Wtp.Endpoint.Checksum.Exact.{xor_all}
use wisp_ert.Wtp.Endpoint.Handlers.{handle_set_param, handle_open}
use wisp_ert.Wtp.Endpoint.Blockwrite.{
  pkt_handler, handle_blockwrite, read_packets, dispatch, read_type,
}

pub handle_blockwrite-done :
    (env : Env) (s : Wtp) (size : ℕ) (mem : List ℕ) (r : Recv)
    → s.write_mem ≡ size ∷ mem
    → read_packets env (suc size) (record { self = s; buf = Buf.init mem size }) ≡ done tt r
    → handle_blockwrite env s ≡ done tt r.self
unfolding handle_blockwrite
handle_blockwrite-done env s size mem r e run = ground (arith, e, run)

-- the rounds of the loop: a packet that its handler takes, and the end
pub read_packets-step :
    (env : Env) (fuel t : ℕ) (r r1 r2 : Recv)
    → read_type (record r { self = record (r.self) { pkt_begin = r.buf.pos_a } }) ≡ done t r1
    → (t == pkt_end) ≡ false
    → dispatch env t r1 ≡ done tt r2
    → read_packets env (suc fuel) r ≡ read_packets env fuel r2
unfolding read_packets
read_packets-step env fuel t r r1 r2 e ne d = ground (arith, e, ne, d)

pub read_packets-end :
    (env : Env) (fuel : ℕ) (r r1 : Recv)
    → read_type (record r { self = record (r.self) { pkt_begin = r.buf.pos_a } }) ≡ done pkt_end r1
    → read_packets env (suc fuel) r ≡ done tt r1
unfolding read_packets
read_packets-end env fuel r r1 e = ground (arith, e)

-- A block that holds one WTP_PKT_SET_PARAM packet for the READ size, with its checksum, sets the
-- READ size of the transmit control; nothing else changes but the place of the last packet.
pub handle_blockwrite-set_param :
    (env : Env) (s : Wtp) (n : ℕ) (rest : List ℕ)
    → s.write_mem
      ≡ 4
        ∷ pkt_set_param
        ∷ param_read_size
        ∷ n
        ∷ xor_all 0 (pkt_set_param ∷ param_read_size ∷ n ∷ [])
        ∷ rest
    → handle_blockwrite env s
      ≡ done tt (record s { pkt_begin = 4; tx_ctrl = record (s.tx_ctrl) { read_size = n } })
unfolding dispatch pkt_handler handle_set_param verify_checksum xor_checksum xor_loop read_type
    Buf.read Buf.init Buf.load_byte
handle_blockwrite-set_param env s n rest e =
    handle_blockwrite-done env s 4 mem
      (record {
        self = record s { pkt_begin = 4; tx_ctrl = record (s.tx_ctrl) { read_size = n } };
        buf = record b { pos_a = 4 };
      })
      e
      (read_packets-step env 4 pkt_set_param (record { self = s; buf = b })
          (record { self = record s { pkt_begin = 0 }; buf = record b { pos_a = 1 } })
          (record {
            self = record s { pkt_begin = 0; tx_ctrl = record (s.tx_ctrl) { read_size = n } };
            buf = record b { pos_a = 4 };
          })
          refl refl (rw (==_refl (bit_xor 6 n)))
        ∙ read_packets-end env 3 _ _ refl)
  where
    mem : List ℕ
    mem =
        pkt_set_param
        ∷ param_read_size
        ∷ n
        ∷ xor_all 0 (pkt_set_param ∷ param_read_size ∷ n ∷ [])
        ∷ rest

    b : Buf
    b = Buf.init mem 4

-- the endpoint as it stands when the open event is triggered
abbrev pub acknowledged : Wtp → Wtp
acknowledged s = record s {
  pkt_begin = 0;
  downlink_state = opened;
  tx_ctrl = record (s.tx_ctrl) {
    pkt_buf = written s.tx_ctrl.pkt_buf (frame pkt_ack (bytes16 s.tx_ctrl.seq_num ∷ []));
    pkt_begin = s.tx_ctrl.pkt_buf.pos_b + 1;
    pkt_size = s.tx_ctrl.pkt_buf.pos_b;
  };
}

-- A block that holds one WTP_PKT_OPEN packet with its checksum, while a frame of four bytes fits the
-- packet buffer: the downlink is opened, a WTP_PKT_ACK with the transmit control's sequence number is
-- built, and then the callback of the open event is called; if that succeeds, so does the block, and
-- the endpoint is as the callback left it.
pub handle_blockwrite-open :
    (env : Env) (s s' : Wtp) (rest : List ℕ)
    → s.write_mem ≡ 2 ∷ pkt_open ∷ xor_all 0 (pkt_open ∷ []) ∷ rest
    → IsValid s.tx_ctrl.pkt_buf
    → s.tx_ctrl.pkt_buf.pos_b + 4 ≤ s.tx_ctrl.pkt_buf.size
    → trigger_event env event_open wio_ok null (acknowledged s) ≡ done tt s'
    → handle_blockwrite env s ≡ done tt (record s' { pkt_begin = 2 })
unfolding dispatch pkt_handler handle_open verify_checksum xor_checksum xor_loop read_type Buf.read
    Buf.init Buf.load_byte flatten
handle_blockwrite-open env s s' rest e v room t =
    handle_blockwrite-done env s 2 mem
      (record { self = record s' { pkt_begin = 2 }; buf = record b { pos_a = 2 } }) e
      (read_packets-step env 2 pkt_open (record { self = s; buf = b })
          (record { self = record s { pkt_begin = 0 }; buf = record b { pos_a = 1 } })
          (record { self = s'; buf = record b { pos_a = 2 } }) refl refl (rw (ack, t))
        ∙ read_packets-end env 1 _ _ refl)
  where
    mem : List ℕ
    mem = pkt_open ∷ xor_all 0 (pkt_open ∷ []) ∷ rest

    b : Buf
    b = Buf.init mem 2

    ack : emit pkt_ack (bytes16 s.tx_ctrl.seq_num ∷ []) s.tx_ctrl ≡ done tt (acknowledged s).tx_ctrl
    ack =
        emit-frame s.tx_ctrl v pkt_ack (bytes16 s.tx_ctrl.seq_num ∷ []) (omega arith) (omega arith)
