-- ===== src/Ert/Fs.antt =====
-- The file calls of client/wisp-ert/runtime/fs.c. The u-RPC library is not a part of the program:
-- what it does with a call is a parameter, and so is whether `malloc` finds memory.
pub mod Reply
use wisp_ert.Common.{
  ℕ, zero, suc, ◌+◌, ◌*◌, ◌==◌, ltb, Bool, true, false, Option, none, some, List, [], ◌∷◌, ◌++◌,
  length, set, get_elem?, if◌then◌else◌, sub16, done, fail, fault, M, ◌>>=◌, ◌>>◌, pure, get,
  modify, present, Outcome, out_of_fuel,
}
use wisp_ert.Wio.Status.{wio_ok, no_memory}

-- `ERT_ERR_SYS_FAILED`
abbrev pub sys_failed : ℕ
sys_failed = 48

-- `wio_closure_t`
pub record Closure : Type 0 where
  pub func : ℕ
  pub arg : ℕ

-- an argument of a u-RPC call, with its type in the signature
pub data Arg : Type 0 where
  vary : List ℕ → Arg
  i16 : ℕ → Arg
  u16 : ℕ → Arg

-- the function numbers of the server, from client/wisp-ert/include/ert/rpc.h
abbrev pub func_open : ℕ
func_open = 1

abbrev pub func_close : ℕ
func_close = 2

abbrev pub func_read : ℕ
func_read = 3

abbrev pub func_write : ℕ
func_write = 4

-- what a callback gets with its data and the status
pub data Passed : Type 0 where
  null : Passed
  int16 : ℕ → Passed
  bytes : List ℕ → Passed

-- a call of a callback of the program
pub record Invocation : Type 0 where
  pub closure : Closure
  pub status : ℕ
  pub passed : Passed

-- The closures that have been allocated, by pointer, `none` once freed; the u-RPC endpoint; and the
-- callbacks that have been called.
pub record Fs (U : Type 0) : Type 0 where
  pub closures : List (Option Closure)
  pub rpc_ep : U
  pub invoked : List Invocation

module _ {U : Type 0} (urpc_call : (func : ℕ) → List Arg → (closure : ℕ) → U → U)
    (malloc : List (Option Closure) → Bool) where
  -- "Allocate closure memory", "Initialize closure" and "Do u-RPC call"; what the library returns is
  -- ignored
  unfoldable pub call : (func : ℕ) → List Arg → (cb_data cb : ℕ) → M (Fs U) (Unit {0})
  call f args cb_data cb s = elim (malloc s.closures) [
    | false ↦ fail no_memory s
    | true ↦ done tt (record s {
      closures = s.closures ++ (some (record { func = cb; arg = cb_data }) ∷ []);
      rpc_ep = urpc_call f args (length s.closures) s.rpc_ep;
    })
  ]

  -- `ert_open`, `ert_close`, `ert_read` and `ert_write`
  unfoldable pub open_file : (path : List ℕ) (flags mode cb_data cb : ℕ) → M (Fs U) (Unit {0})
  unfolding call
  open_file path flags mode = call func_open (vary path ∷ i16 flags ∷ u16 mode ∷ [])

  unfoldable pub close_file : (fd cb_data cb : ℕ) → M (Fs U) (Unit {0})
  unfolding call
  close_file fd = call func_close (i16 fd ∷ [])

  unfoldable pub read_file : (fd size cb_data cb : ℕ) → M (Fs U) (Unit {0})
  unfolding call
  read_file fd size = call func_read (i16 fd ∷ u16 size ∷ [])

  unfoldable pub write_file : (fd : ℕ) (buf : List ℕ) (cb_data cb : ℕ) → M (Fs U) (Unit {0})
  unfolding call
  write_file fd buf = call func_write (i16 fd ∷ vary buf ∷ [])

module _ {U : Type 0} where
  -- a call of the closure's function with the closure's data
  unfoldable pub invoke : Closure → (status : ℕ) → Passed → M (Fs U) (Unit {0})
  invoke closure status passed = modify (λ s. record s {
    invoked = s.invoked ++ (record { closure = closure; status = status; passed = passed } ∷ []);
  })

  -- `rpc_results[i]`, `rpc_results[i][j]`
  unfoldable pub result_at : List (List ℕ) → ℕ → M (Fs U) (List ℕ)
  result_at results i = present (get_elem? results i)

  unfoldable pub byte_at : List (List ℕ) → (i j : ℕ) → M (Fs U) ℕ
  unfolding result_at
  byte_at results i j = result_at results i >>= λ bytes. present (get_elem? bytes j)

  -- "Operation succeed": an `int16_t` that is not negative
  unfoldable pub succeed : Closure → List (List ℕ) → (n_results op_result : ℕ) → M (Fs U) (Unit {0})
  unfolding invoke result_at
  succeed closure results n_results op_result =
      if n_results == 1
      then invoke closure wio_ok (int16 op_result)
      else (result_at results 2 >>= λ read. invoke closure wio_ok (bytes read))

  -- "Operation failed": `op_result *= -1`
  unfoldable pub failed : Closure → (op_result : ℕ) → M (Fs U) (Unit {0})
  unfolding invoke
  failed closure op_result = invoke closure sys_failed (int16 (sub16 0 op_result))

  -- what `ert_fs_rpc_cb` does with the results of a call that went through
  unfoldable pub report : Closure → List (List ℕ) → M (Fs U) (Unit {0})
  unfolding byte_at succeed failed
  report closure results = do
    n_results ← byte_at results 0 0
    low ← byte_at results 1 0
    high ← byte_at results 1 1
    if ltb (low + high * 256) 32768
        then succeed closure results n_results (low + high * 256)
        else failed closure (low + high * 256)

  -- `free(closure)`
  unfoldable pub free : ℕ → M (Fs U) (Unit {0})
  free p = modify (λ s. record s { closures = set s.closures p none })

  -- the closure behind a pointer, unless it has been freed
  unfoldable pub closure_at : ℕ → M (Fs U) Closure
  closure_at p s = elim (get_elem? s.closures p) [ none ↦ fault | some cell ↦ present cell s ]

  -- `ert_fs_rpc_cb`
  unfoldable pub ert_fs_rpc_cb :
      (data_ status : ℕ) → (results : List (List ℕ)) → M (Fs U) (Unit {0})
  unfolding closure_at invoke report free
  ert_fs_rpc_cb data_ status results = do
    closure ← closure_at data_
    (if status == 0 then report closure results else invoke closure status null)
    free data_
