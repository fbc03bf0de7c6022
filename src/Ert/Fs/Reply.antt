-- ===== src/Ert/Fs/Reply.antt =====
-- A file call of client/wisp-ert/runtime/fs.c and its reply.
use wisp_ert.Common.{
  ℕ, ◌-◌, ◌<◌, ◌≤◌, ◌≡◌, Bool, true, Option, none, some, List, [], ◌∷◌, ◌++◌, arith, length, set,
  get_elem?, bytes16, done, fault, M, lt_of_get_elem?, get_elem?-set_self,
}
use wisp_ert.Wio.Status.{wio_ok}
use wisp_ert.Ert.Fs.{
  Closure, Arg, vary, i16, u16, func_open, func_close, func_read, func_write, sys_failed, null,
  int16, bytes, Invocation, Fs, call, open_file, close_file, read_file, write_file, invoke,
  result_at, byte_at, succeed, failed, report, free, closure_at, ert_fs_rpc_cb,
}

-- the file calls of a program
pub data Request : Type 0 where
  opens : (path : List ℕ) (flags mode : ℕ) → Request
  closes : (fd : ℕ) → Request
  reads : (fd size : ℕ) → Request
  writes : (fd : ℕ) (buf : List ℕ) → Request

abbrev pub func_of : Request → ℕ
func_of (opens path flags mode) = func_open
func_of (closes fd) = func_close
func_of (reads fd size) = func_read
func_of (writes fd buf) = func_write

abbrev pub args_of : Request → List Arg
args_of (opens path flags mode) = vary path ∷ i16 flags ∷ u16 mode ∷ []
args_of (closes fd) = i16 fd ∷ []
args_of (reads fd size) = i16 fd ∷ u16 size ∷ []
args_of (writes fd buf) = i16 fd ∷ vary buf ∷ []

-- what comes back: the call failed, or the server's number, with data, or its error
pub data Reply : Type 0 where
  lost : (status : ℕ) → Reply
  number : (value : ℕ) → Reply
  content : (size : ℕ) (read : List ℕ) → Reply
  refused : (error : ℕ) → Reply

abbrev pub IsReply : Reply → Type 0
IsReply (lost status) = 0 < status
IsReply (number value) = value < 32768
IsReply (content size read) = size < 32768
IsReply (refused error) = (0 < error) × (error ≤ 32768)

-- the status and the results that u-RPC passes on for it
abbrev pub status_of : Reply → ℕ
status_of (lost status) = status
status_of _ = wio_ok

abbrev pub results_of : Reply → List (List ℕ)
results_of (lost status) = []
results_of (number value) = (1 ∷ []) ∷ bytes16 value ∷ []
results_of (content size read) = (2 ∷ []) ∷ bytes16 size ∷ read ∷ []
results_of (refused error) = (1 ∷ []) ∷ bytes16 (65536 - error) ∷ []

-- the callback that the program sees
abbrev pub seen : Closure → Reply → Invocation
seen c (lost status) = record { closure = c; status = status; passed = null }
seen c (number value) = record { closure = c; status = wio_ok; passed = int16 value }
seen c (content size read) = record { closure = c; status = wio_ok; passed = bytes read }
seen c (refused error) = record { closure = c; status = sys_failed; passed = int16 error }

module _ {U : Type 0} where
  abbrev pub answered : Fs U → (p : ℕ) → Closure → Reply → Fs U
  answered t p c reply = record t {
    closures = set t.closures p none;
    invoked = t.invoked ++ (seen c reply ∷ []);
  }

  cb-answered :
      (t : Fs U) (p : ℕ) (c : Closure) (reply : Reply)
      → IsReply reply
      → get_elem? t.closures p ≡ some (some c)
      → ert_fs_rpc_cb p (status_of reply) (results_of reply) t ≡ done tt (answered t p c reply)
  unfolding ert_fs_rpc_cb closure_at report free invoke byte_at result_at succeed failed
  cb-answered t p c (lost status) r e = ground (arith, e, r)
  cb-answered t p c (number value) r e = ground (arith, e, r)
  cb-answered t p c (content size read) r e = ground (arith, e, r)
  cb-answered t p c (refused error) r e = ground (arith, e, r)

  cb-freed :
      (t : Fs U) (p status : ℕ) (c : Closure) (reply : Reply) (results : List (List ℕ))
      → get_elem? t.closures p ≡ some (some c)
      → ert_fs_rpc_cb p status results (answered t p c reply) ≡ fault
  unfolding ert_fs_rpc_cb closure_at
  cb-freed t p status c reply results e =
      ground (arith, get_elem?-set_self t.closures p none (lt_of_get_elem? t.closures p (some c) e))

module _ {U : Type 0} (urpc_call : (func : ℕ) → List Arg → (closure : ℕ) → U → U)
    (malloc : List (Option Closure) → Bool) where
  abbrev pub start : Request → (cb_data cb : ℕ) → M (Fs U) (Unit {0})
  start (opens path flags mode) = open_file urpc_call malloc path flags mode
  start (closes fd) = close_file urpc_call malloc fd
  start (reads fd size) = read_file urpc_call malloc fd size
  start (writes fd buf) = write_file urpc_call malloc fd buf

  -- the state after a call: the closure has its place, and u-RPC has the call
  abbrev pub started : Fs U → Request → (cb_data cb : ℕ) → Fs U
  started s r cb_data cb = record s {
    closures = s.closures ++ (some (record { func = cb; arg = cb_data }) ∷ []);
    rpc_ep = urpc_call (func_of r) (args_of r) (length s.closures) s.rpc_ep;
  }

  start-started :
      (s : Fs U) (r : Request) (cb_data cb : ℕ)
      → malloc s.closures ≡ true
      → start r cb_data cb s ≡ done tt (started s r cb_data cb)
  unfolding open_file close_file read_file write_file call
  start-started s (opens path flags mode) cb_data cb m = ground (arith, m)
  start-started s (closes fd) cb_data cb m = ground (arith, m)
  start-started s (reads fd size) cb_data cb m = ground (arith, m)
  start-started s (writes fd buf) cb_data cb m = ground (arith, m)

  -- While `malloc` finds memory, a file call passes its function number, its arguments and a new
  -- closure on to u-RPC and returns WIO_OK. Once the reply comes, in whatever state in which that
  -- closure is still allocated, the program's callback is called exactly once, with the program's
  -- own data and what the reply says: the status of a call that was lost, the server's number, the
  -- content that was read, or the server's error; the closure is freed, nothing else changes, and a
  -- second reply to it is a use of freed memory.
  pub start-reply :
      (s t : Fs U) (r : Request) (cb_data cb : ℕ) (reply : Reply)
      → malloc s.closures ≡ true
      → IsReply reply
      → get_elem? t.closures (length s.closures) ≡ some (some (record { func = cb; arg = cb_data }))
      → (start r cb_data cb s ≡ done tt (started s r cb_data cb))
        × (ert_fs_rpc_cb (length s.closures) (status_of reply) (results_of reply) t
            ≡ done tt (answered t (length s.closures) (record { func = cb; arg = cb_data }) reply))
        × (ert_fs_rpc_cb
              (length s.closures)
              (status_of reply)
              (results_of reply)
              (answered t (length s.closures) (record { func = cb; arg = cb_data }) reply)
            ≡ fault)
  start-reply s t r cb_data cb reply m v e = (
    start-started s r cb_data cb m,
    cb-answered t (length s.closures) _ reply v e,
    cb-freed t (length s.closures) (status_of reply) _ reply (results_of reply) e,
  )
