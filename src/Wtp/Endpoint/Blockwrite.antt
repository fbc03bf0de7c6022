-- ===== src/Wtp/Endpoint/Blockwrite.antt =====
-- `wtp_handle_blockwrite` of client/wtp/wtp/endpoint.c, and the table of the packet handlers.
pub mod Blocks
pub mod Bytes
pub mod Message
pub mod Advance
pub mod Ends
use wisp_ert.Common.{
  ℕ, zero, suc, true, false, Option, none, some, [], ◌∷◌, leb, ◌==◌, if◌then◌else◌, done, fail,
  fault, out_of_fuel, M, ◌>>=◌, ◌>>◌, pure, modify, starve,
}
use wisp_ert.Wio.Status.{out_of_range}
use wisp_ert.Wio.Buf
use wisp_ert.Wio.Buf.{Buf}
use wisp_ert.Wtp.Packet.{
  unsupport_op, pkt_end, pkt_open, pkt_ack, pkt_begin_msg, pkt_cont_msg, pkt_set_param, pkt_max,
}
use wisp_ert.Wtp.Endpoint.{Wtp, Env}
use wisp_ert.Wtp.Endpoint.Checksum.{Recv, on_buf, byte_of}
use wisp_ert.Wtp.Endpoint.Handlers.{handle_open, handle_ack, handle_msg_packet, handle_set_param}

-- "Read packet type": the buffer's end reads as WTP_PKT_END.
unfoldable pub read_type : M Recv ℕ
read_type r = elim (on_buf (Buf.read 1) r) [
  | done byte r' ↦ done (byte_of byte) r'
  | fail e r' ↦ if e == out_of_range then done pkt_end r' else fail e r'
  | fault ↦ fault
  | out_of_fuel ↦ out_of_fuel
]

module _ (env : Env) where
  -- `wtp_pkt_handlers`; `none` is NULL
  unfoldable pub pkt_handler : ℕ → Option (M Recv (Unit {0}))
  pkt_handler t =
      if t == pkt_open
      then some (handle_open env)
      else if t == pkt_ack
      then some (handle_ack env)
      else if t == pkt_begin_msg
      then some (handle_msg_packet env true)
      else if t == pkt_cont_msg
      then some (handle_msg_packet env false)
      else if t == pkt_set_param
      then some handle_set_param
      else none

  -- one packet of the given type
  unfoldable pub dispatch : ℕ → M Recv (Unit {0})
  unfolding pkt_handler
  dispatch t =
      if leb pkt_max t
      then fail unsupport_op
      else elim (pkt_handler t) [ none ↦ fail unsupport_op | some handler ↦ handler ]

  -- the `while (true)`, on fuel
  unfoldable pub read_packets : ℕ → M Recv (Unit {0})
  unfolding read_type dispatch
  read_packets zero = starve
  read_packets (suc fuel) = do
    modify (λ r. record r { self = record (r.self) { pkt_begin = r.buf.pos_a } })
    t ← read_type
    elim (t == pkt_end) [ true ↦ pure tt | false ↦ dispatch t >>= λ _. read_packets fuel ]

  -- `wtp_handle_blockwrite`. The fuel is the size of the block and one more.
  unfoldable pub handle_blockwrite : M Wtp (Unit {0})
  unfolding read_packets
  handle_blockwrite s = elim s.write_mem [
    | [] ↦ fault
    | size ∷ mem ↦ elim (read_packets (suc size) (record { self = s; buf = Buf.init mem size })) [
      | done _ r ↦ done tt r.self
      | fail e r ↦ fail e r.self
      | fault ↦ fault
      | out_of_fuel ↦ out_of_fuel
    ]
  ]
