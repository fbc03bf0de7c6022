-- ===== src/Ert/Enter/Branches.antt =====
-- What `ert_enter_main` of client/wisp-ert/runtime/runtime.c does, branch by branch.
use wisp_ert.Common.{
  ℕ, ◌+◌, ◌-◌, ◌==◌, ap, ap₂, ◌<◌, ◌≤◌, ◌≡◌, refl, arith, Option, none, some, List, [], ◌∙◌, length,
  length-take, take, leb, if◌then◌else◌, done, fail, fault, Outcome, Bool-cases, inl, inr,
}
use wisp_ert.Common.Memory.{splice, slice-some, store-some, store-none}
use wisp_ert.Wio.Status.{no_memory}
use wisp_ert.Ert.Context.{makecontext, push, pass_args, down}
use wisp_ert.Ert.Runtime.{user_ctx}
use wisp_ert.Ert.Enter.{Entry, ert_consts_size, ert_enter_main, load_consts, start_user}

-- the constants, at the begin of their store
abbrev pub loaded : Entry → (bytes : List ℕ) (size : ℕ) → Entry
loaded s bytes size = record s { consts_store = splice s.consts_store 0 (take size bytes) }

-- the user's context, ready at its function on a stack of 200 bytes whose top word is the return
-- address 0; the stack pointer is at the word below
abbrev pub entered : Entry → (user_stack func : ℕ) → Entry
entered s user_stack func = record s {
  ss_sp = user_stack;
  ss_size = 200;
  mcontext = record (s.mcontext) { pc = func; sp = user_stack + 192 };
  stack = λ a. if a == user_stack + 196 then 0 else s.stack a;
  running = user_ctx;
}

makecontext-entered :
    (user_stack func : ℕ) (s : Entry)
    → user_stack + 200 < 4294967296
    → makecontext user_stack 200 func [] s.mcontext s.stack
      ≡ ((entered s user_stack func).mcontext, (entered s user_stack func).stack)
unfolding makecontext push pass_args
makecontext-entered user_stack func s small =
    let top : user_stack + 200 - 4 ≡ user_stack + 196 = omega arith in
    let below : down (user_stack + 196) ≡ user_stack + 192 = omega arith in
    ap₂ {A = ℕ} {B = ℕ}
      (λ t d.
        (record (s.mcontext) { pc = func; sp = d }, λ (a : ℕ). if a == t then 0 else s.stack a))
      top (ap down top ∙ below)

-- What a call gives once the constants have been loaded.
abbrev pub started :
    (malloc : ℕ → Option ℕ) (ert_main : Option ℕ) → Entry → Outcome Entry (Unit {0})
started malloc none s = done tt s
started malloc (some func) s = elim (malloc 200) [
  | none ↦ fail no_memory s
  | some user_stack ↦ done tt (entered s user_stack func)
]

load_consts_exact :
    (bytes : List ℕ) (size : ℕ) (s : Entry)
    → size ≤ length bytes
    → length s.consts_store ≡ ert_consts_size
    → load_consts bytes size s
      ≡ (if leb size ert_consts_size then done tt (loaded s bytes size) else fault)
unfolding load_consts
load_consts_exact bytes size s there store_size = ground (
  arith,
  slice-some bytes 0 size (omega arith),
  length-take size bytes,
  store-some s.consts_store 0 (take size bytes),
  store-none s.consts_store 0 (take size bytes),
)

start_user-started :
    (malloc : ℕ → Option ℕ) (func : ℕ) (s : Entry) (p : Option ℕ)
    → malloc 200 ≡ p
    → ((p : ℕ) → malloc 200 ≡ some p → p + 200 < 4294967296)
    → start_user malloc func s ≡ started malloc (some func) s
unfolding start_user
start_user-started malloc func s none m low = rw (start_user, started, m) refl
start_user-started malloc func s (some p) m low =
    rw (start_user, started, m, makecontext-entered p func s (low p m)) refl

started-start_user :
    (malloc : ℕ → Option ℕ) (ert_main : Option ℕ) (bytes : List ℕ) (size : ℕ) (s t : Entry)
    → ((p : ℕ) → malloc 200 ≡ some p → p + 200 < 4294967296)
    → load_consts bytes size s ≡ done tt t
    → ert_enter_main malloc ert_main bytes size s ≡ started malloc ert_main t
unfolding ert_enter_main
started-start_user malloc none bytes size s t low e = rw e refl
started-start_user malloc (some func) bytes size s t low e =
    rw e (start_user-started malloc func t (malloc 200) refl low)

-- The size of the constants that the server sends is not looked at: up to 20 bytes, the size of their
-- store, they are copied to its begin; beyond, the copy writes behind the store. After it, without a main
-- routine nothing happens; without memory for a stack of 200 bytes the call fails; and otherwise the
-- user's context runs: its program counter is the main routine, the top word of its stack is 0, its
-- stack pointer is at the word below, and nothing else of the context and the memory has changed. The
-- stack that `malloc` gives ends below 2^32.
pub ert_enter_main_exact :
    (malloc : ℕ → Option ℕ) (ert_main : Option ℕ) (bytes : List ℕ) (size : ℕ) (s : Entry)
    → size ≤ length bytes
    → length s.consts_store ≡ 20
    → ((p : ℕ) → malloc 200 ≡ some p → p + 200 < 4294967296)
    → ert_enter_main malloc ert_main bytes size s
      ≡ (if leb size 20 then started malloc ert_main (loaded s bytes size) else fault)
unfolding ert_enter_main
ert_enter_main_exact malloc ert_main bytes size s there store_size low =
    elim (Bool-cases (leb size ert_consts_size)) [
      | inl e ↦ rw e (
          started-start_user malloc ert_main bytes size s (loaded s bytes size) low
            (load_consts_exact bytes size s there store_size ∙ rw e refl))
      | inr e ↦ rw (e, load_consts_exact bytes size s there store_size, e) refl
    ]
