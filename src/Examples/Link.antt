-- ===== src/Examples/Link.antt =====
-- A message of five bytes in two fragments, over the link of the two controls of
-- client/wtp/wtp/transmission.c and back.
use wisp_ert.Common.{
  fault, ℕ, ◌+◌, ◌-◌, ◌≤◌, ◌≡◌, refl, false, List, [], ◌∷◌, ◌++◌, arith, bytes16, add16, done,
  ◌>>=◌, inl,
}
use wisp_ert.Wio.Buf.{Buf}
use wisp_ert.Wio.Buf.Bounds.{IsValid}
use wisp_ert.Wio.Buf.Unread.{unread}
use wisp_ert.Wio.Queue.{Queue}
use wisp_ert.Wio.Queue.Refine.{Holds}
use wisp_ert.Wtp.Tx.{Fragment, ReadInfo, TxCtrl, add_msg, read_info_of}
use wisp_ert.Wtp.Tx.Tiles.{make_fragments}
use wisp_ert.Wtp.Tx.Ack.{handle_ack}
use wisp_ert.Wtp.Tx.Ack.Border.{handle_ack-inside, handle_ack-stale}
use wisp_ert.Wtp.Tx.Cycle.{Idle, HasRoom, Settled}
use wisp_ert.Wtp.Tx.Window.{in_flight}
use wisp_ert.Wtp.Rx.{MsgInfo}
use wisp_ert.Wtp.Rx.Fragments.{node_at, untouched}
use wisp_ert.Wtp.Rx.Assemble.{compact}
use wisp_ert.Wtp.Rx.Packet.{handle_packet}
use wisp_ert.Wtp.Rx.Partial.{partial}
use wisp_ert.Wtp.Rx.Wrapped.{handle_packet-wrapped}
use wisp_ert.Wtp.Rx.Waiting.{waiting}
use wisp_ert.Wtp.Rx.Sequence.{Received, spent, receive_all}
use wisp_ert.Wtp.Rx.Stream.{receive_all-Received}
use wisp_ert.Wtp.Link.{deliver_all}
use wisp_ert.Wtp.Link.Exchange.{add_msg-exchanged}
use wisp_ert.Examples.Sending.{some_buf, some_buf-IsValid, some_tx}

abbrev blank : Fragment
blank = record { seq_num = 0; msg_size = 0; data_at = 0; size = 0; need_send = false }

-- an empty queue of two slots
abbrev two_slots {ℓ} : {A : Type ℓ} → A → Queue A
two_slots x = record {
  size = 0;
  capacity = 2;
  item_size = 9;
  slots = x ∷ x ∷ [];
  begin = 0;
  end = 0;
}

two_slots-Holds {ℓ} : {A : Type ℓ} (x : A) → Holds (two_slots x) []
two_slots-Holds x = record {
  count = refl;
  fits = omega arith;
  small = omega arith;
  memory = omega arith;
  end_in = omega arith;
  begin_at = refl;
  stored = tt;
}

abbrev no_info : ReadInfo
no_info = record { size = 0; n_reads = 0 }

-- nothing to send from 100 on
abbrev idle : TxCtrl
idle = record some_tx {
  seq_num = 100;
  msg_fragmented = 0;
  fragments_queue = two_slots blank;
  read_info_queue = two_slots no_info;
  msg_ends_queue = two_slots 0;
}

idle-Idle : Idle idle
idle-Idle = record {
  valid = some_buf-IsValid;
  empty = refl;
  begin = refl;
  uncut = refl;
  next_seq = refl;
  no_fragments = two_slots-Holds blank;
  at_front = refl;
  no_ends = two_slots-Holds 0;
}

abbrev letters : List ℕ
letters = 1 ∷ 2 ∷ 3 ∷ 4 ∷ 5 ∷ []

abbrev letters_info : ReadInfo
letters_info = record { size = 11; n_reads = 1 }

letters-HasRoom : HasRoom 2 idle letters letters_info [] 10
unfolding read_info_of
letters-HasRoom = record {
  some_byte = omega arith;
  buffer = omega arith;
  read_info = refl;
  read_infos = two_slots-Holds no_info;
  read_info_slot = omega arith;
  window = omega arith;
  window_small = omega arith;
  numbers = omega arith;
  avail_small = omega arith;
  header_fits = omega arith;
  enough = omega arith;
  slots = omega arith;
  count_small = omega arith;
  end_slot = omega arith;
}

abbrev spare : MsgInfo
spare = record { begin = 0; size = 0; in_use = false; next = 0 }

-- twenty bytes
abbrev records_buf : Buf
records_buf = record {
  bytes = 0 ∷ 0 ∷ 0 ∷ 0 ∷ 0 ∷ 0 ∷ 0 ∷ 0 ∷ 0 ∷ 0 ∷ 0 ∷ 0 ∷ 0 ∷ 0 ∷ 0 ∷ 0 ∷ 0 ∷ 0 ∷ 0 ∷ 0 ∷ [];
  size = 20;
  pos_a = 0;
  pos_b = 0;
}

records_buf-IsValid : IsValid records_buf
records_buf-IsValid = record {
  pos_a_in = omega arith;
  pos_b_in = omega arith;
  size_in = omega arith;
  small = omega arith;
}

add_msg-exchanged_example :
    (calls : ℕ) × (sent after : TxCtrl) × (gs : List Fragment) × (calls ≤ 2)
    × ((add_msg letters >>= λ _. make_fragments calls 10) idle ≡ done tt sent)
    × Holds sent.fragments_queue gs
    × Received
        (deliver_all 5 sent.msg_buf.bytes gs (waiting 100 16 some_buf records_buf [] spare [] 0))
        16
        (100 + 5)
        (spent 100 5 0)
        []
        0
        (unread some_buf ++ (bytes16 5 ++ letters))
    × (handle_ack (100 + 5) sent ≡ done 1 after)
    × Settled idle 5 after
add_msg-exchanged_example =
    add_msg-exchanged 2 idle letters letters_info [] 10 5 16 some_buf records_buf [] spare [] 0
      idle-Idle letters-HasRoom (omega arith) refl (some_buf-IsValid, omega arith) (omega arith)
      (records_buf-IsValid, refl) (omega arith)

receive_all-Received_example :
    Received
      (receive_all 5 100 5
        (1 ∷ 2 ∷ 3 ∷ [])
        ((4 ∷ 5 ∷ []) ∷ [])
        (waiting 100 16 some_buf records_buf [] spare [] 0))
      16
      (add16 100 5)
      (spent 100 5 0)
      []
      0
      (unread some_buf ++ (bytes16 5 ++ letters))
unfolding mathlib.Core.List.flatten
receive_all-Received_example =
    receive_all-Received 16 5 100 some_buf records_buf [] spare [] 0 (1 ∷ 2 ∷ 3 ∷ [])
      ((4 ∷ 5 ∷ []) ∷ []) (omega arith) refl
      (omega arith, omega arith, omega arith, (omega arith, omega arith, omega arith, tt))
      (omega arith) (some_buf-IsValid, omega arith) (omega arith) (records_buf-IsValid, refl)
      (omega arith)

-- the message has been cut into a fragment of four bytes and one of a single byte
abbrev first_four : Fragment
first_four = record { seq_num = 100; msg_size = 5; data_at = 2; size = 4; need_send = false }

abbrev last_one : Fragment
last_one = record { seq_num = 104; msg_size = 0; data_at = 6; size = 1; need_send = false }

abbrev both : TxCtrl
both = record idle {
  msg_fragmented = 5;
  fragments_queue = record {
    size = 2;
    capacity = 2;
    item_size = 9;
    slots = first_four ∷ last_one ∷ [];
    begin = 0;
    end = 0;
  };
  msg_ends_queue = record {
    size = 1;
    capacity = 2;
    item_size = 2;
    slots = 105 ∷ 0 ∷ [];
    begin = 1;
    end = 0;
  };
}

both-Holds : Holds both.fragments_queue (first_four ∷ last_one ∷ [])
both-Holds = record {
  count = refl;
  fits = omega arith;
  small = omega arith;
  memory = omega arith;
  end_in = omega arith;
  begin_at = refl;
  stored = (refl, (refl, tt));
}

handle_ack-inside_example : handle_ack 102 both ≡ done 0 both
handle_ack-inside_example =
    handle_ack-inside 100 100 102 [] (last_one ∷ []) first_four both both-Holds refl (omega arith)
      refl (inl refl) (omega arith) (omega arith) (omega arith)

-- all has been acknowledged
abbrev settled : TxCtrl
settled = record idle { seq_num = 105; msg_fragmented = 5 }

handle_ack-stale_example :
    (handle_ack 104 settled ≡ done 0 (record settled { seq_num = 104 }))
    × (in_flight (record settled { seq_num = 104 }) ≡ in_flight settled + (105 - 104))
handle_ack-stale_example =
    handle_ack-stale 104 settled (two_slots-Holds blank) (omega arith) (omega arith) (omega arith)

-- the fragments buffer, empty, with its cursors near the end
abbrev late_buf : Buf
late_buf = record records_buf { pos_a = 16; pos_b = 16 }

late_buf-IsValid : IsValid late_buf
late_buf-IsValid = record {
  pos_a_in = omega arith;
  pos_b_in = omega arith;
  size_in = omega arith;
  small = omega arith;
}

handle_packet-wrapped_example :
    handle_packet 5 103 (4 ∷ 5 ∷ []) 0 (partial 103 16 some_buf late_buf [] 100 5 [] 0) ≡ fault
unfolding compact node_at untouched
handle_packet-wrapped_example =
    handle_packet-wrapped 5 103 16 some_buf some_buf late_buf [] 100 5 [] 0 (4 ∷ 5 ∷ [])
      (omega arith) (omega arith, omega arith, omega arith) (λ e. omega (arith, e)) refl
      some_buf-IsValid (omega arith) (late_buf-IsValid, refl) (omega arith) (omega arith)
      (omega arith) (omega arith) (λ e. omega (arith, e)) refl
