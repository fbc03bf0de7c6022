-- ===== src/Wtp/Packet.antt =====
-- The constants of client/wtp/wtp/defs.h.
use wisp_ert.Common.{ℕ}

abbrev pub unsupport_op : ℕ
unsupport_op = 0x10

abbrev pub pkt_end : ℕ
pkt_end = 0

abbrev pub pkt_open : ℕ
pkt_open = 1

abbrev pub pkt_close : ℕ
pkt_close = 2

abbrev pub pkt_ack : ℕ
pkt_ack = 3

abbrev pub pkt_begin_msg : ℕ
pkt_begin_msg = 4

abbrev pub pkt_cont_msg : ℕ
pkt_cont_msg = 5

abbrev pub pkt_req_uplink : ℕ
pkt_req_uplink = 6

abbrev pub pkt_set_param : ℕ
pkt_set_param = 7

abbrev pub pkt_max : ℕ
pkt_max = 8

abbrev pub event_open : ℕ
event_open = 0

abbrev pub event_max : ℕ
event_max = 3

abbrev pub param_window_size : ℕ
param_window_size = 0

abbrev pub param_read_size : ℕ
param_read_size = 1

-- `wtp_link_state_t`: WTP_STATE_CLOSED, OPENING, OPENED and CLOSING
pub data LinkState : Type 0 where
  closed opening opened closing : LinkState
