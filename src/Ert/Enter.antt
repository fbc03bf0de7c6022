-- ===== src/Ert/Enter.antt =====
-- The start of the user's routine: `ert_enter_main` of client/wisp-ert/runtime/runtime.c, with the store
-- of the ERT constants of client/wisp-ert/runtime/rpc.c and include/ert/rpc.h.
pub mod Branches
use wisp_ert.Common.{ℕ, Option, none, some, List, [], done, fail, fault, M, ◌>>=◌, ◌>>◌, present}
use wisp_ert.Common.Memory.{slice, store}
use wisp_ert.Wio.Status.{no_memory}
use wisp_ert.Ert.Context.{Mcontext, Stack, makecontext}
use wisp_ert.Ert.Runtime.{Context, user_ctx}

-- the bytes of `ert_consts_store`: ten words, without padding
abbrev pub ert_consts_size : ℕ
ert_consts_size = 20

-- ERT_USER_STACK_SIZE
abbrev pub ert_user_stack_size : ℕ
ert_user_stack_size = 200

-- `ert_consts_store`, the user's machine context and its `uc_stack`, memory, and the context that runs
pub record Entry : Type 0 where
  pub consts_store : List ℕ
  pub ss_sp : ℕ
  pub ss_size : ℕ
  pub mcontext : Mcontext
  pub stack : Stack
  pub running : Context

-- `memcpy(&ert_consts_store, remote_consts->data, remote_consts->size)`
unfoldable pub load_consts : (bytes : List ℕ) (size : ℕ) → M Entry (Unit {0})
load_consts bytes size s = elim (slice bytes 0 size) [
  | none ↦ fault
  | some consts ↦ elim (store s.consts_store 0 consts) [
    | none ↦ fault
    | some mem ↦ done tt (record s { consts_store = mem })
  ]
]

-- "Allocate memory for user stack" to "Jump to user context"
unfoldable pub start_user : (malloc : ℕ → Option ℕ) (func : ℕ) → M Entry (Unit {0})
start_user malloc func s = elim (malloc ert_user_stack_size) [
  | none ↦ fail no_memory s
  | some user_stack ↦
      let made = makecontext user_stack ert_user_stack_size func [] s.mcontext s.stack in
      done tt (record s {
        ss_sp = user_stack;
        ss_size = ert_user_stack_size;
        mcontext = made.0;
        stack = made.1;
        running = user_ctx;
      })
]

-- `ert_enter_main`; `ert_main` is `none` where the program has no main routine.
unfoldable pub ert_enter_main :
    (malloc : ℕ → Option ℕ) (ert_main : Option ℕ) (bytes : List ℕ) (size : ℕ) → M Entry (Unit {0})
unfolding load_consts start_user
ert_enter_main malloc ert_main bytes size =
    load_consts bytes size
    >> elim ert_main [ none ↦ (λ s. done tt s) | some func ↦ start_user malloc func ]
