-- ===== src/Examples/Fs.antt =====
-- A file that is read by a call of client/wisp-ert/runtime/fs.c.
use wisp_ert.Common.{ℕ, ◌≡◌, refl, Bool, true, Option, none, List, [], ◌∷◌, arith, done, fault}
use wisp_ert.Ert.Fs.{Arg, Closure, Fs, ert_fs_rpc_cb}
use wisp_ert.Ert.Fs.Reply.{
  reads, content, status_of, results_of, answered, start, started, start-reply,
}

-- a u-RPC endpoint that keeps the functions that were called
abbrev keep : (func : ℕ) → List Arg → (closure : ℕ) → List ℕ → List ℕ
keep func args closure calls = func ∷ calls

abbrev plenty : List (Option Closure) → Bool
plenty closures = true

abbrev files : Fs (List ℕ)
files = record { closures = none ∷ []; rpc_ep = []; invoked = [] }

abbrev reader : Closure
reader = record { func = 70; arg = 80 }

abbrev pending : Fs (List ℕ)
pending = started keep plenty files (reads 3 2) 80 70

start-reply_example :
    (start keep plenty (reads 3 2) 80 70 files ≡ done tt pending)
    × (ert_fs_rpc_cb 1
          (status_of (content 2 (5 ∷ 6 ∷ [])))
          (results_of (content 2 (5 ∷ 6 ∷ [])))
          pending
        ≡ done tt (answered pending 1 reader (content 2 (5 ∷ 6 ∷ []))))
    × (ert_fs_rpc_cb 1
          (status_of (content 2 (5 ∷ 6 ∷ [])))
          (results_of (content 2 (5 ∷ 6 ∷ [])))
          (answered pending 1 reader (content 2 (5 ∷ 6 ∷ [])))
        ≡ fault)
start-reply_example =
    start-reply keep plenty files pending (reads 3 2) 80 70 (content 2 (5 ∷ 6 ∷ [])) refl
      (omega arith) refl
