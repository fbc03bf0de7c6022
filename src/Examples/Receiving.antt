-- ===== src/Examples/Receiving.antt =====
-- A small receive control of client/wtp/wtp/transmission.c, and the checksum of a packet.
use mathlib.Core.Logic.{◌↔◌}
use wisp_ert.Common.{
  ℕ, ◌+◌, ◌-◌, ◌≤◌, ◌<◌, ◌≡◌, refl, List, [], ◌∷◌, arith, leb, if◌then◌else◌, false, none, true,
  done, fail, sub16, take, drop, ◌==◌,
}
use wisp_ert.Wio.Status.{invalid, out_of_range}
use wisp_ert.Wio.Buf.{Buf}
use wisp_ert.Wio.Buf.Bounds.{IsValid}
use wisp_ert.Wio.Buf.Unread.{unread}
use wisp_ert.Wio.Queue.{Queue}
use wisp_ert.Wtp.Packet.{closed}
use wisp_ert.Wtp.Rx.{MsgInfo, RxCtrl}
use wisp_ert.Wtp.Rx.Assemble.{compact}
use wisp_ert.Wtp.Rx.Packet.{in_window}
use wisp_ert.Wtp.Rx.Compact.{unread-compact, in_window_iff}
use wisp_ert.Wtp.Rx.Waiting.{waiting}
use wisp_ert.Wtp.Endpoint.{Wtp, Env}
use wisp_ert.Wtp.Endpoint.Events.{trigger_event}
use wisp_ert.Wtp.Endpoint.Blockwrite.{handle_blockwrite}
use wisp_ert.Wtp.Endpoint.Blockwrite.Blocks.{
  acknowledged, handle_blockwrite-set_param, handle_blockwrite-open,
}
use wisp_ert.Wtp.Endpoint.Checksum.{verify_checksum, byte_of}
use wisp_ert.Wtp.Endpoint.Checksum.Exact.{xor_all, verify_checksum_exact}
use wisp_ert.Examples.Sending.{some_buf, some_buf-IsValid, some_tx}

-- four bytes written, two of them read
abbrev pub part_read : Buf
part_read = record {
  bytes = 9 ∷ 8 ∷ 7 ∷ 6 ∷ 0 ∷ 0 ∷ 0 ∷ 0 ∷ 0 ∷ 0 ∷ [];
  size = 10;
  pos_a = 2;
  pos_b = 4;
}

part_read-IsValid : IsValid part_read
part_read-IsValid = record {
  pos_a_in = omega arith;
  pos_b_in = omega arith;
  size_in = omega arith;
  small = omega arith;
}

unread-compact_example :
    (b' : Buf) × (compact part_read ≡ done tt b')
    × IsValid b'
    × (b'.size ≡ part_read.size)
    × (b'.pos_a ≡ 0)
    × (b'.pos_b ≡ part_read.pos_b - part_read.pos_a)
    × (unread b' ≡ unread part_read)
unread-compact_example = unread-compact part_read part_read-IsValid (omega arith)

abbrev pub spare : MsgInfo
spare = record { begin = 0; size = 0; in_use = false; next = 0 }

abbrev pub some_rx : RxCtrl
some_rx = waiting 65534 16 part_read some_buf [] spare [] 0

in_window_iff_example :
    (in_window some_rx 2 10 ≡ true)
    ↔ ((◌<◌ 0 10) × (sub16 2 some_rx.seq_num + 10 ≤ some_rx.window_size))
in_window_iff_example = in_window_iff some_rx 2 10 (omega arith) (omega arith)

abbrev some_bytes : List ℕ
some_bytes = 2 ∷ 7 ∷ 1 ∷ 4 ∷ []

abbrev no_items {ℓ} : {A : Type ℓ} → Queue A
no_items = record { size = 0; capacity = 0; item_size = 1; slots = []; begin = 0; end = 0 }

-- an endpoint whose packet begins at index 0
abbrev pub some_wtp : Wtp
some_wtp = record {
  downlink_state = closed;
  uplink_state = closed;
  epc_buf = some_buf;
  read_mem = [];
  write_mem = [];
  read_mem_loaded = false;
  pkt_begin = 0;
  tx_ctrl = some_tx;
  rx_ctrl = some_rx;
  send_cb_queue = no_items;
  send_cb_data_queue = no_items;
  recv_cb_queue = no_items;
  recv_cb_data_queue = no_items;
  event_cb = [];
  event_cb_data = [];
}

-- the type and two bytes of a packet have been read; its checksum follows
abbrev checked : Buf
checked = record { bytes = some_bytes; size = 4; pos_a = 3; pos_b = 0 }

checked-IsValid : IsValid checked
checked-IsValid = record {
  pos_a_in = omega arith;
  pos_b_in = omega arith;
  size_in = omega arith;
  small = omega arith;
}

verify_checksum_exact_example : verify_checksum (record { self = some_wtp; buf = checked }) ≡ (
    if leb (checked.pos_a + 1) checked.size
    then (if xor_all 0
            (take (checked.pos_a - some_wtp.pkt_begin) (drop some_wtp.pkt_begin checked.bytes))
          == byte_of (take 1 (drop checked.pos_a checked.bytes))
        then done tt
            (record { self = some_wtp; buf = record checked { pos_a = checked.pos_a + 1 } })
        else fail invalid
            (record { self = some_wtp; buf = record checked { pos_a = checked.pos_a + 1 } }))
    else fail out_of_range (record { self = some_wtp; buf = checked }))
verify_checksum_exact_example =
    verify_checksum_exact some_wtp checked checked-IsValid (omega arith) (omega arith) (omega arith)

-- a program without callbacks
abbrev pub no_program : Env
no_program = record { invoke = λ cb cb_data status result s. done 0 s; rx_header = 5 }

abbrev set_param_block : List ℕ
set_param_block = 4 ∷ 7 ∷ 1 ∷ 16 ∷ 22 ∷ []

handle_blockwrite-set_param_example :
    handle_blockwrite no_program (record some_wtp { write_mem = set_param_block })
    ≡ done tt (record some_wtp {
      write_mem = set_param_block;
      pkt_begin = 4;
      tx_ctrl = record some_tx { read_size = 16 };
    })
handle_blockwrite-set_param_example =
    handle_blockwrite-set_param no_program (record some_wtp { write_mem = set_param_block }) 16 []
      refl

-- an endpoint that has been sent a WTP_PKT_OPEN, and has no callback for the event
abbrev pub called : Wtp
called = record some_wtp {
  write_mem = 2 ∷ 1 ∷ 1 ∷ [];
  event_cb = none ∷ none ∷ none ∷ [];
  event_cb_data = 0 ∷ 0 ∷ 0 ∷ [];
}

handle_blockwrite-open_example :
    handle_blockwrite no_program called ≡ done tt (record (acknowledged called) { pkt_begin = 2 })
unfolding trigger_event
handle_blockwrite-open_example =
    handle_blockwrite-open no_program called (acknowledged called) [] refl some_buf-IsValid
      (omega arith) refl
