-- ===== src/Examples/Context.antt =====
-- A context of client/wisp-ert/posix/ucontext.c for a function with five arguments.
use wisp_ert.Common.{
  ℕ, ◌<◌, ◌+◌, ◌-◌, ◌*◌, ◌≡◌, [], ◌∷◌, ◌++◌, arith, replicate, some, leb, if◌then◌else◌, fault,
  refl,
}
use wisp_ert.Ert.Runtime.{runtime_ctx}
use wisp_ert.Ert.Enter.{Entry, ert_enter_main}
use wisp_ert.Ert.Enter.Branches.{started, loaded, ert_enter_main_exact}
use wisp_ert.Ert.Context.{Mcontext, Stack, makecontext}
use wisp_ert.Ert.Context.Layout.{Stands, makecontext-Stands}

abbrev blank : Mcontext
blank = record {
  pc = 0;
  sp = 0;
  r4 = 0;
  r5 = 0;
  r6 = 0;
  r7 = 0;
  r8 = 0;
  r9 = 0;
  r10 = 0;
  r11 = 0;
  r12 = 0;
  r13 = 0;
  r14 = 0;
  r15 = 0;
}

abbrev zeros : Stack
zeros at = 0

makecontext-Stands_example :
    ((makecontext 7000 200 900 (1 ∷ 2 ∷ 3 ∷ 4 ∷ 5 ∷ []) blank zeros).0 ≡ record blank {
      r12 = 1;
      r13 = 2;
      r14 = 3;
      r15 = 4;
      sp = 7000 + 200 - 4 * (1 + 2);
      pc = 900;
    })
    × Stands
        (makecontext 7000 200 900 (1 ∷ 2 ∷ 3 ∷ 4 ∷ 5 ∷ []) blank zeros).1
        (7000 + 200 - 4)
        ((5 ∷ []) ++ (0 ∷ []))
    × ((makecontext 7000 200 900 (1 ∷ 2 ∷ 3 ∷ 4 ∷ 5 ∷ []) blank zeros).1 7204 ≡ zeros 7204)
makecontext-Stands_example =
    makecontext-Stands 7000 200 900 1 2 3 4 7204 (5 ∷ []) blank zeros (omega arith) (omega arith)
      (omega arith)

abbrev entry : Entry
entry = record {
  consts_store = replicate 20 0;
  ss_sp = 0;
  ss_size = 0;
  mcontext = blank;
  stack = zeros;
  running = runtime_ctx;
}

low_stack : (p : ℕ) → some 7000 ≡ some p → p + 200 < 4294967296
low_stack p e = ground arith

ert_enter_main_exact_example :
    ert_enter_main (λ size. some 7000) (some 900) (replicate 20 7) 20 entry ≡ (
      if leb 20 20
      then started (λ size. some 7000) (some 900) (loaded entry (replicate 20 7) 20)
      else fault)
ert_enter_main_exact_example =
    ert_enter_main_exact (λ size. some 7000) (some 900) (replicate 20 7) 20 entry (omega arith) refl
      low_stack
