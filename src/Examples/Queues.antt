-- ===== src/Examples/Queues.antt =====
-- A small queue of client/wisp-base/wio/queue.c.
use wisp_ert.Common.{ℕ, ◌≡◌, refl, List, [], ◌∷◌, arith}
use wisp_ert.Wio.Queue.{Queue}
use wisp_ert.Wio.Queue.Refine.{Holds, Op, put, take_oldest, run, run_fifo, run_refines}

-- two items that go round
abbrev some_queue : Queue ℕ
some_queue = record {
  size = 2;
  capacity = 3;
  item_size = 1;
  slots = 8 ∷ 0 ∷ 7 ∷ [];
  begin = 1;
  end = 2;
}

some_queue-Holds : Holds some_queue (7 ∷ 8 ∷ [])
some_queue-Holds = record {
  count = refl;
  fits = omega arith;
  small = omega arith;
  memory = omega arith;
  end_in = omega arith;
  begin_at = refl;
  stored = (refl, (refl, tt));
}

abbrev some_calls : List (Op ℕ)
some_calls = put 9 ∷ put 10 ∷ take_oldest ∷ take_oldest ∷ take_oldest ∷ take_oldest ∷ []

run_refines_example : run some_queue some_calls ≡ run_fifo 3 (7 ∷ 8 ∷ []) some_calls
run_refines_example = run_refines some_calls (7 ∷ 8 ∷ []) some_queue-Holds
