-- ===== src/Examples/Messages.antt =====
-- A message of three bytes in a block that the reader writes, handled by the endpoint of
-- client/wtp/wtp/endpoint.c.
use wisp_ert.Common.{ℕ, ◌≡◌, ◌⊎◌, refl, true, false, none, some, List, [], ◌∷◌, arith, done}
use wisp_ert.Common.Memory.{slice, store}
use wisp_ert.Wio.Buf
use wisp_ert.Wtp.Rx.{RxCtrl}
use wisp_ert.Wtp.Rx.Info.{declare_msg, find_info, find_spare, link_info, overlaps_next}
use wisp_ert.Wtp.Rx.Fragments.{
  insert_fragment, find_fragment, overlaps_fragment, build, link_fragment, assign, deref, set_node,
  node_at, untouched,
}
use wisp_ert.Wtp.Rx.Assemble.{compact, assemble, release, check_begin, check_end, append_fragment}
use wisp_ert.Wtp.Rx.Packet.{handle_packet, in_window, deliver}
use wisp_ert.Wtp.Endpoint.{Wtp}
use wisp_ert.Wtp.Endpoint.Handlers.{notify_received, pop_callback, call_back}
use wisp_ert.Wtp.Endpoint.Blockwrite.{handle_blockwrite}
use wisp_ert.Wtp.Endpoint.Blockwrite.Bytes.{block}
use wisp_ert.Wtp.Endpoint.Blockwrite.Message.{message_packet, answered, handle_blockwrite-message}
use wisp_ert.Wtp.Endpoint.Blockwrite.Ends.{Ends, Stuck, handle_blockwrite-Ends}
use wisp_ert.Examples.Sending.{some_buf, some_buf-IsValid}
use wisp_ert.Examples.Receiving.{some_rx, some_wtp, no_program, part_read}

abbrev three : List ℕ
three = 1 ∷ 2 ∷ 3 ∷ []

-- all message data has been read
abbrev all_read : RxCtrl
all_read = record some_rx { msg_data_buf = record part_read { pos_a = 4 } }

abbrev before : Wtp
before = record some_wtp {
  write_mem = 10 ∷ block (message_packet (some 3) 65534 three) [];
  rx_ctrl = all_read;
}

-- the receive control after the packet
abbrev taken : RxCtrl
taken = record all_read {
  seq_num = 1;
  msg_data_buf = record part_read {
    bytes = 3 ∷ 0 ∷ 1 ∷ 2 ∷ 3 ∷ 0 ∷ 0 ∷ 0 ∷ 0 ∷ 0 ∷ [];
    pos_a = 0;
    pos_b = 5;
  };
  fragments_buf = record some_buf { pos_a = 8; pos_b = 8 };
  nodes =
      (0, record { seq_num = 65534; payload = three; size = 3; assembled = true; next = none })
      ∷ [];
  msg_info_store = record { begin = 65534; size = 3; in_use = false; next = 1 } ∷ [];
}

taken_lem : handle_packet 5 65534 three 3 all_read ≡ done 1 taken
unfolding handle_packet in_window deliver declare_msg find_info find_spare link_info overlaps_next
    insert_fragment find_fragment overlaps_fragment build link_fragment assign deref set_node
    node_at untouched compact assemble release check_begin check_end append_fragment slice store
    Buf.alloc Buf.free Buf.write Buf.write_from Buf.load_word
taken_lem = refl

-- the endpoint after the message has been handed out
abbrev handed : Wtp
handed = record before {
  pkt_begin = 0;
  rx_ctrl = record taken { msg_data_buf = record (taken.msg_data_buf) { pos_a = 5 } };
}

handed_lem :
    notify_received no_program 1 (record before { pkt_begin = 0; rx_ctrl = taken }) ≡ done tt handed
unfolding notify_received pop_callback call_back Buf.read Buf.load_word
handed_lem = refl

handle_blockwrite-message_example :
    handle_blockwrite no_program before ≡ done tt (record (answered handed) { pkt_begin = 10 })
handle_blockwrite-message_example =
    handle_blockwrite-message no_program before handed taken 1 65534 (some 3) three [] (omega arith)
      (omega arith) (omega arith) refl taken_lem handed_lem some_buf-IsValid (omega arith)

handle_blockwrite-Ends_example :
    Ends (handle_blockwrite no_program before)
    ⊎ Stuck no_program (record {
      self = before;
      buf = Buf.init (block (message_packet (some 3) 65534 three) []) 10;
    })
handle_blockwrite-Ends_example =
    handle_blockwrite-Ends no_program before 10 (block (message_packet (some 3) 65534 three) [])
      refl (omega arith)
