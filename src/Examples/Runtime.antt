-- ===== src/Examples/Runtime.antt =====
-- Rounds of the RFID loop of client/wisp-ert/runtime/runtime.c, and a user's routine that waits.
use wisp_ert.Common.{
  ℕ, ◌+◌, ◌%◌, ◌≡◌, refl, inl, false, none, [], ◌∷◌, arith, take, drop, done, fault, some, M, ◌>>◌,
  ◌>>=◌,
}
use wisp_ert.Wio.Status.{return_status}
use wisp_ert.Wio.Queue.{Queue}
use wisp_ert.Wio.Queue.Refine.{Holds}
use wisp_ert.Wtp.Endpoint.{Wtp, Env}
use wisp_ert.Ert.Epc.{epc_round}
use wisp_ert.Ert.Runtime.{
  Runtime, runtime_ctx, ert_blockwrite_callback, ert_user_suspend, ert_user_resume, before_rfid,
  after_read, after_blockwrite, rfid_round, rfid_rounds, ert_on_connect,
}
use wisp_ert.Ert.Runtime.Resume.{written, resumed, suspend-resume}
use wisp_ert.Ert.Runtime.Rounds.{Clear, KeepsCounter, rfid_rounds-Clear}
use wisp_ert.Ert.Runtime.Connect.{open_block, status_of, connected}
use wisp_ert.Ert.Runtime.Open.{ended, rfid_round-open}
use wisp_ert.Examples.Sending.{some_buf-IsValid}
use wisp_ert.Examples.Receiving.{called, no_program}

abbrev idle_runtime : Runtime
idle_runtime = record {
  read_flag = false;
  blockwrite_flag = false;
  epc_update_counter = 1;
  wtp_ep = called;
  user_status_var = none;
  user_result_var = none;
  user_result_size = 0;
  running = runtime_ctx;
  mem = 0 ∷ 0 ∷ 0 ∷ 0 ∷ [];
}

-- a firmware that has done nothing
abbrev silent : M Runtime (Unit {0})
silent s = done tt s

-- a firmware that has written a block with a WTP_PKT_OPEN packet
abbrev open_written : M Runtime (Unit {0})
open_written s = done tt (
    ert_blockwrite_callback (record s { wtp_ep = record (s.wtp_ep) { write_mem = open_block [] } }))

-- room for two receive callbacks, and the runtime's callback of the open event, 50
abbrev room_for_two {ℓ} : {A : Type ℓ} → A → Queue A
room_for_two a = record {
  size = 0;
  capacity = 2;
  item_size = 2;
  slots = a ∷ a ∷ [];
  begin = 0;
  end = 0;
}

room_for_two-Holds : {A : Type 0} (a : A) → Holds (room_for_two a) []
room_for_two-Holds a = record {
  count = refl;
  fits = omega arith;
  small = omega arith;
  memory = omega arith;
  end_in = omega arith;
  begin_at = refl;
  stored = tt;
}

abbrev listening_runtime : Runtime
listening_runtime = record idle_runtime {
  wtp_ep = record called {
    recv_cb_queue = room_for_two none;
    recv_cb_data_queue = room_for_two 0;
    event_cb = some 50 ∷ none ∷ none ∷ [];
  };
}

-- a library that has no memory for the call
abbrev no_call : M Wtp ℕ
no_call w = done 2 w

abbrev connecting : Env
connecting = record {
  invoke = λ cb cb_data status result. status_of (ert_on_connect 60 (no_call >>= return_status));
  rx_header = 5;
}

rfid_round-open_example :
    rfid_round connecting open_written listening_runtime
    ≡ done tt (ended listening_runtime 2 (connected [] 60 listening_runtime.wtp_ep))
unfolding ert_blockwrite_callback
rfid_round-open_example =
    rfid_round-open connecting open_written no_call listening_runtime [] 50 0 60 [] [] refl refl
      refl some_buf-IsValid (omega arith) refl refl refl (room_for_two-Holds none, omega arith)
      (room_for_two-Holds 0, omega arith)

silent-KeepsCounter : KeepsCounter silent
silent-KeepsCounter s s' e = cc

rfid_rounds-Clear_example :
    Clear (record idle_runtime { epc_update_counter = 3 }) × (◌≡◌ {A = ℕ} 3 ((1 + 2) % 256))
unfolding rfid_rounds rfid_round before_rfid after_read after_blockwrite epc_round
rfid_rounds-Clear_example =
    rfid_rounds-Clear no_program silent 2 idle_runtime
      (record idle_runtime { epc_update_counter = 3 }) (omega arith) (refl, refl)
      silent-KeepsCounter refl

suspend-resume_example :
    ((ert_user_suspend 0 2 1 >> ert_user_resume 0 (some (7 ∷ 8 ∷ 9 ∷ []))) idle_runtime
      ≡ done tt (resumed idle_runtime 0 2 1 0 (7 ∷ 8 ∷ 9 ∷ [])))
    × (take 1 (drop 0 (written (idle_runtime.mem) 0 2 1 0 (7 ∷ 8 ∷ 9 ∷ []))) ≡ 0 ∷ [])
    × (take 2 (drop 1 (written (idle_runtime.mem) 0 2 1 0 (7 ∷ 8 ∷ 9 ∷ [])))
        ≡ take 2 (7 ∷ 8 ∷ 9 ∷ []))
    × ((ert_user_suspend 0 2 1 >> ert_user_resume 0 none) idle_runtime ≡ fault)
suspend-resume_example =
    suspend-resume idle_runtime 0 2 1 0 (7 ∷ 8 ∷ 9 ∷ []) (omega arith) (omega arith) (omega arith)
      (inl (omega arith))
