-- ===== src/Ert/Runtime.antt =====
-- The runtime of client/wisp-ert/runtime/runtime.c: its flags, the set-up and the RFID loop of `main`,
-- its callbacks, and the switches between the runtime and the user's routine. The RFID firmware and the
-- u-RPC library are not a part of the program: what they do is a parameter.
pub mod Rounds
pub mod Resume
pub mod Connect
pub mod Open
use wisp_ert.Common.{
  ℕ, zero, suc, ◌+◌, ◌-◌, Bool, true, false, Option, none, some, List, [], ◌∷◌, length, take,
  replicate, if◌then◌else◌, done, fail, fault, out_of_fuel, M, ◌>>=◌, ◌>>◌, pure, get, modify, on,
  present,
}
use wisp_ert.Common.Memory.{slice, store}
use wisp_ert.Wtp.Packet.{event_open}
use wisp_ert.Wtp.Endpoint.{
  Callback, CallbackResult, Wtp, Env, EndpointMemory, wtp_init, ignore_status,
}
use wisp_ert.Wtp.Endpoint.Events.{on_event}
use wisp_ert.Wtp.Endpoint.Load.{load_read_mem}
use wisp_ert.Wtp.Endpoint.Uplink.{connect, recv}
use wisp_ert.Wtp.Endpoint.Blockwrite.{handle_blockwrite}
use wisp_ert.Ert.Epc.{epc_round}

-- which of the two contexts runs
pub data Context : Type 0 where
  runtime_ctx : Context
  user_ctx : Context

-- The runtime's static variables, the endpoint, the context that runs, and the memory that the user's
-- pointers point into. A pointer is an index, and NULL is `none`.
pub record Runtime : Type 0 where
  pub read_flag : Bool
  pub blockwrite_flag : Bool
  pub epc_update_counter : ℕ
  pub wtp_ep : Wtp
  pub user_status_var : Option ℕ
  pub user_result_var : Option ℕ
  pub user_result_size : ℕ
  pub running : Context
  pub mem : List ℕ

-- `ert_read_callback` and `ert_blockwrite_callback`, which the firmware calls
unfoldable pub ert_read_callback : Runtime → Runtime
ert_read_callback s = record s { read_flag = true }

unfoldable pub ert_blockwrite_callback : Runtime → Runtime
ert_blockwrite_callback s = record s { blockwrite_flag = true }

-- `ert_on_recv` and `ert_on_connect`; `on_recv` is the pointer to `ert_on_recv`.
module _ (on_recv : ℕ) where
  unfoldable pub ert_on_recv : (urpc_on_recv : M Wtp (Unit {0})) → M Wtp (Unit {0})
  ert_on_recv urpc_on_recv = recv 0 (some on_recv) >> urpc_on_recv

  unfoldable pub ert_on_connect : (urpc_call : M Wtp (Unit {0})) → M Wtp (Unit {0})
  ert_on_connect urpc_call = recv 0 (some on_recv) >> urpc_call

-- the endpoint that `main` sets up, statuses ignored but where there is no endpoint
unfoldable pub main_init :
    EndpointMemory
    → (epc_mem read_mem blockwrite_buffer : List ℕ) (on_connect : ℕ) → M (Unit {0}) Wtp
main_init m epc_mem read_mem blockwrite_buffer on_connect u =
    elim (wtp_init m epc_mem 10 read_mem blockwrite_buffer 64 10 200 200 5 5 u) [
      | done ep u' ↦
          elim ((ignore_status (on_event event_open 0 (some on_connect)) >> ignore_status connect)
            ep) [
              | done _ ep' ↦ done ep' u'
              | fail e _ ↦ fail e u'
              | fault ↦ fault
              | out_of_fuel ↦ out_of_fuel
            ]
      | fail e u' ↦ fail e u'
      | fault ↦ fault
      | out_of_fuel ↦ out_of_fuel
    ]

abbrev pub on_wtp {ℓ} : {A : Type ℓ} → M Wtp A → M Runtime A
on_wtp = on (λ s. s.wtp_ep) (λ s w. record s { wtp_ep = w })

module _ (env : Env) (do_rfid : M Runtime (Unit {0})) where
  -- "Update counter", and the EPC update
  unfoldable pub before_rfid : M Runtime (Unit {0})
  before_rfid = do
    s ← get
    counter ← on_wtp (epc_round s.epc_update_counter)
    modify (λ s. record s { epc_update_counter = counter })

  -- "Called after a Read operation" and "Called after a BlockWrite operation"
  unfoldable pub after_read : M Runtime (Unit {0})
  after_read = do
    s ← get
    (if s.read_flag
        then (on_wtp (ignore_status load_read_mem) >> modify (λ s. record s { read_flag = false }))
        else pure tt)

  unfoldable pub after_blockwrite : M Runtime (Unit {0})
  after_blockwrite = do
    s ← get
    (if s.blockwrite_flag
        then (on_wtp (ignore_status (handle_blockwrite env))
            >> modify (λ s. record s { blockwrite_flag = false }))
        else pure tt)

  -- one round of the "RFID loop", and a number of rounds
  unfoldable pub rfid_round : M Runtime (Unit {0})
  unfolding before_rfid after_read after_blockwrite
  rfid_round = before_rfid >> do_rfid >> after_read >> after_blockwrite

  unfoldable pub rfid_rounds : ℕ → M Runtime (Unit {0})
  unfolding rfid_round
  rfid_rounds zero = pure tt
  rfid_rounds (suc n) = rfid_round >>= λ _. rfid_rounds n

-- `ert_user_suspend`
unfoldable pub ert_user_suspend : (status_var result_size result_var : ℕ) → M Runtime (Unit {0})
ert_user_suspend status_var result_size result_var s = done tt (record s {
  user_status_var = some status_var;
  user_result_var = some result_var;
  user_result_size = result_size;
  running = runtime_ctx;
})

-- `*pointer = bytes`
unfoldable pub write_var : Option ℕ → List ℕ → M Runtime (Unit {0})
write_var pointer bytes s = elim pointer [
  | none ↦ fault
  | some at ↦ elim (store s.mem at bytes) [
    | none ↦ fault
    | some mem ↦ done tt (record s { mem = mem })
  ]
]

-- `memcpy(user_result_var, result, user_result_size)`; a result is the memory from its pointer on.
unfoldable pub copy_result : Option (List ℕ) → M Runtime (Unit {0})
unfolding write_var
copy_result result s = elim result [
  | none ↦ fault
  | some bytes ↦ (present (slice bytes 0 s.user_result_size) >>= write_var s.user_result_var) s
]

-- `ert_user_resume`
unfoldable pub ert_user_resume : (status : ℕ) → Option (List ℕ) → M Runtime (Unit {0})
unfolding write_var copy_result
ert_user_resume status result = do
  s ← get
  write_var s.user_status_var (status ∷ [])
  copy_result result
  modify (λ s. record s { running = user_ctx })
