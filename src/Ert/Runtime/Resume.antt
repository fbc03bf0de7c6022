-- ===== src/Ert/Runtime/Resume.antt =====
-- The user's routine of client/wisp-ert/runtime/runtime.c waits for a result, and gets it.
use wisp_ert.Common.{
  ℕ, ◌+◌, ◌≤◌, ◌≡◌, ◌⊎◌, inl, inr, sym, none, some, List, [], ◌∷◌, arith, length, take, drop,
  length-take, done, fault, ◌>>◌, ap, ◌∙◌,
}
use wisp_ert.Common.Memory.{
  splice, slice-some, store-some, length-splice, take-splice, take-drop-splice, drop-splice,
}
use wisp_ert.Ert.Runtime.{
  Runtime, user_ctx, ert_user_suspend, ert_user_resume, write_var, copy_result,
}

-- the user's memory after the status and the result have been written
abbrev pub written : List ℕ → (status_var size result_var status : ℕ) → List ℕ → List ℕ
written mem status_var size result_var status result =
    splice (splice mem status_var (status ∷ [])) result_var (take size result)

-- the state in which the user's routine goes on
abbrev pub resumed : Runtime → (status_var size result_var status : ℕ) → List ℕ → Runtime
resumed s status_var size result_var status result = record s {
  user_status_var = some status_var;
  user_result_var = some result_var;
  user_result_size = size;
  running = user_ctx;
  mem = written s.mem status_var size result_var status result;
}

module _ (s : Runtime) (status_var size result_var status : ℕ) (result : List ℕ)
    (status_in : status_var + 1 ≤ length s.mem) where
  resume-run :
      size ≤ length result
      → result_var + size ≤ length s.mem
      → (ert_user_suspend status_var size result_var >> ert_user_resume status (some result)) s
        ≡ done tt (resumed s status_var size result_var status result)
  unfolding ert_user_suspend ert_user_resume write_var copy_result
  resume-run h k = ground (
    arith,
    store-some s.mem status_var (status ∷ []),
    slice-some result 0 size,
    length-take size result,
    length-splice s.mem status_var (status ∷ []),
    store-some (splice s.mem status_var (status ∷ [])) result_var (take size result),
  )

  resume-null :
      (ert_user_suspend status_var size result_var >> ert_user_resume status none) s ≡ fault
  unfolding ert_user_suspend ert_user_resume write_var copy_result
  resume-null = ground (arith, store-some s.mem status_var (status ∷ []))

  status-kept :
      size ≤ length result
      → (status_var + 1 ≤ result_var) ⊎ (result_var + size ≤ status_var)
      → take 1 (drop status_var (written s.mem status_var size result_var status result))
        ≡ status ∷ []
  status-kept h (inl before) =
      take-drop-splice (splice s.mem status_var (status ∷ [])) result_var (take size result)
        status_var 1 before
      ∙ take-splice s.mem status_var (status ∷ []) status_in
  status-kept h (inr behind) =
      ap (take 1) (
        drop-splice (splice s.mem status_var (status ∷ [])) result_var (take size result) status_var
          (omega (arith, length-take size result)))
      ∙ take-splice s.mem status_var (status ∷ []) status_in

  result-there :
      size ≤ length result
      → result_var + size ≤ length s.mem
      → take size (drop result_var (written s.mem status_var size result_var status result))
        ≡ take size result
  result-there h k =
      let e : length (take size result) ≡ size = omega (arith, length-take size result) in
      ap (λ n. take n (drop result_var (written s.mem status_var size result_var status result)))
        (sym e)
      ∙ take-splice (splice s.mem status_var (status ∷ [])) result_var (take size result)
          (omega (arith, e, length-splice s.mem status_var (status ∷ [])))

-- When the user's routine has suspended with places for a status and a result in its memory, apart
-- from each other, a callback with a result that is long enough resumes it: it runs again, the status
-- and the result stand at their places, and nothing but those places, the pointers and the context has
-- changed. A callback without a result, as that of a call that failed is, reads through NULL.
pub suspend-resume :
    (s : Runtime) (status_var size result_var status : ℕ) (result : List ℕ)
    → status_var + 1 ≤ length s.mem
    → size ≤ length result
    → result_var + size ≤ length s.mem
    → (status_var + 1 ≤ result_var) ⊎ (result_var + size ≤ status_var)
    → ((ert_user_suspend status_var size result_var >> ert_user_resume status (some result)) s
        ≡ done tt (resumed s status_var size result_var status result))
      × (take 1 (drop status_var (written s.mem status_var size result_var status result))
          ≡ status ∷ [])
      × (take size (drop result_var (written s.mem status_var size result_var status result))
          ≡ take size result)
      × ((ert_user_suspend status_var size result_var >> ert_user_resume status none) s ≡ fault)
suspend-resume s status_var size result_var status result i h k apart = (
  resume-run s status_var size result_var status result i h k,
  status-kept s status_var size result_var status result i h apart,
  result-there s status_var size result_var status result i h k,
  resume-null s status_var size result_var status result i,
)
