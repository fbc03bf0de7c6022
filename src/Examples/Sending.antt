-- ===== src/Examples/Sending.antt =====
-- A small transmit control of client/wtp/wtp/transmission.c, and packets for the reader.
use wisp_ert.Common.{ℕ, ◌+◌, ◌≤◌, ◌≡◌, refl, [], ◌∷◌, arith, false, done, List}
use wisp_ert.Wio.Buf.{Buf}
use wisp_ert.Wio.Buf.Bounds.{IsValid}
use wisp_ert.Wio.Buf.Transfer.{written}
use wisp_ert.Wio.Queue.{Queue}
use wisp_ert.Wio.Queue.Refine.{Holds}
use wisp_ert.Wtp.Tx.{Fragment, TxCtrl, fragment_data_size}
use wisp_ert.Wtp.Tx.Tiles.{WholeCut}
use wisp_ert.Wtp.Tx.Message.{make_fragments-WholeCut}
use wisp_ert.Wtp.Tx.Window.{in_flight, header_size, fragment_data_size-bounds}
use wisp_ert.Wtp.Endpoint.Load.{write_packet}
use wisp_ert.Wtp.Endpoint.Load.Encode.{write_packet-fits}

abbrev pub some_buf : Buf
some_buf = record {
  bytes = 0 ∷ 0 ∷ 0 ∷ 0 ∷ 0 ∷ 0 ∷ 0 ∷ 0 ∷ 0 ∷ 0 ∷ 0 ∷ 0 ∷ [];
  size = 12;
  pos_a = 0;
  pos_b = 0;
}

pub some_buf-IsValid : IsValid some_buf
some_buf-IsValid = record {
  pos_a_in = omega arith;
  pos_b_in = omega arith;
  size_in = omega arith;
  small = omega arith;
}

abbrev no_items {ℓ} : {A : Type ℓ} → Queue A
no_items = record { size = 0; capacity = 0; item_size = 1; slots = []; begin = 0; end = 0 }

-- ten bytes of the message from 100 on have been cut, four of them acknowledged
abbrev pub some_tx : TxCtrl
some_tx = record {
  seq_num = 104;
  window_size = 16;
  timeout = 0;
  read_size = 24;
  pkt_buf = some_buf;
  msg_buf = some_buf;
  pkt_begin = 0;
  pkt_size = 0;
  msg_begin_seq = 100;
  msg_begin_pos = 0;
  msg_fragmented = 10;
  fragments_queue = no_items;
  read_info_queue = no_items;
  msg_ends_queue = no_items;
}

fragment_data_size-bounds_example :
    (header_size some_tx + fragment_data_size some_tx 24 50 ≤ 24)
    × (some_tx.msg_fragmented + fragment_data_size some_tx 24 50 ≤ 50)
    × (in_flight some_tx + fragment_data_size some_tx 24 50 ≤ some_tx.window_size)
fragment_data_size-bounds_example =
    fragment_data_size-bounds some_tx 24 50 (omega arith) (omega arith) (omega arith) (omega arith)
      (omega arith) (omega arith) (omega arith)

abbrev fragment_at : ℕ → Fragment
fragment_at n = record { seq_num = n; msg_size = 0; data_at = 2; size = 4; need_send = false }

abbrev two_fragments : Queue Fragment
two_fragments = record {
  size = 2;
  capacity = 3;
  item_size = 9;
  slots = fragment_at 100 ∷ fragment_at 104 ∷ fragment_at 0 ∷ [];
  begin = 2;
  end = 0;
}

-- the first of a message's fragments
abbrev first_fragment : Fragment
first_fragment = record (fragment_at 300) { msg_size = 5 }

write_packet-fits_example :
    write_packet (5 ∷ 0 ∷ 1 ∷ 2 ∷ 3 ∷ 4 ∷ 5 ∷ []) first_fragment some_buf
    ≡ done tt (written some_buf (4 ∷ 5 ∷ 0 ∷ 44 ∷ 1 ∷ 4 ∷ 1 ∷ 2 ∷ 3 ∷ 4 ∷ 0 ∷ []))
write_packet-fits_example =
    write_packet-fits (5 ∷ 0 ∷ 1 ∷ 2 ∷ 3 ∷ 4 ∷ 5 ∷ []) first_fragment some_buf some_buf-IsValid
      (omega arith) (omega arith) (omega arith)

-- a message of five bytes, none of them sent, with room in all queues
abbrev three_slots : Queue Fragment
three_slots = record two_fragments { size = 0; begin = 1; end = 1 }

abbrev two_ends : Queue ℕ
two_ends = record { size = 0; capacity = 2; item_size = 2; slots = 0 ∷ 0 ∷ []; begin = 0; end = 0 }

abbrev loaded : TxCtrl
loaded = record some_tx {
  seq_num = 100;
  msg_buf = record some_buf {
    bytes = 5 ∷ 0 ∷ 1 ∷ 2 ∷ 3 ∷ 4 ∷ 5 ∷ 0 ∷ 0 ∷ 0 ∷ 0 ∷ 0 ∷ [];
    pos_b = 7;
  };
  msg_fragmented = 0;
  fragments_queue = three_slots;
  msg_ends_queue = two_ends;
}

loaded-IsValid : IsValid loaded.msg_buf
loaded-IsValid = record {
  pos_a_in = omega arith;
  pos_b_in = omega arith;
  size_in = omega arith;
  small = omega arith;
}

three_slots-Holds : Holds three_slots []
three_slots-Holds = record {
  count = refl;
  fits = omega arith;
  small = omega arith;
  memory = omega arith;
  end_in = omega arith;
  begin_at = refl;
  stored = tt;
}

two_ends-Holds : Holds two_ends []
two_ends-Holds = record {
  count = refl;
  fits = omega arith;
  small = omega arith;
  memory = omega arith;
  end_in = omega arith;
  begin_at = refl;
  stored = tt;
}

abbrev five : List ℕ
five = 1 ∷ 2 ∷ 3 ∷ 4 ∷ 5 ∷ []

make_fragments-WholeCut_example : WholeCut loaded 10 5 2 five [] []
make_fragments-WholeCut_example =
    make_fragments-WholeCut 2 loaded 10 5 five (0 ∷ 0 ∷ 0 ∷ 0 ∷ 0 ∷ []) [] [] loaded-IsValid
      (omega arith) (λ e. omega (arith, e)) refl refl (omega arith) (omega arith) (omega arith)
      (omega arith) (omega arith) (omega arith) (omega arith) (omega arith) (omega arith)
      three_slots-Holds (omega arith) two_ends-Holds (λ e. omega arith)
