-- ===== src/Ert/Runtime/Rounds.antt =====
-- The flags and the counter of the RFID loop of `main` in client/wisp-ert/runtime/runtime.c.
use wisp_ert.Common.{
  ℕ, zero, suc, ◌+◌, ◌%◌, ◌<◌, ◌≡◌, false, arith, add8, done, M, and_then-eq-done, ◌>>◌,
}
use wisp_ert.Wtp.Endpoint.{Wtp, Env}
use wisp_ert.Wtp.Endpoint.Blockwrite.Advance.{put_back-eq-done}
use wisp_ert.Ert.Epc.{epc_round}
use wisp_ert.Ert.Runtime.{
  Runtime, on_wtp, before_rfid, after_read, after_blockwrite, rfid_round, rfid_rounds,
}

-- no operation of the firmware waits to be handled
abbrev pub Clear : Runtime → Type 0
Clear s = (s.read_flag ≡ false) × (s.blockwrite_flag ≡ false)

-- the firmware leaves the counter alone
abbrev pub KeepsCounter : M Runtime (Unit {0}) → Type 0
KeepsCounter m = (s s' : Runtime) → m s ≡ done tt s' → s'.epc_update_counter ≡ s.epc_update_counter

epc_round-counter : (c c' : ℕ) (w w' : Wtp) → epc_round c w ≡ done c' w' → c' ≡ add8 c 1
unfolding epc_round
epc_round-counter c c' w w' e = ground (arith, e)

module _ (env : Env) (do_rfid : M Runtime (Unit {0})) where
  before_rfid-counter :
      (s s' : Runtime)
      → before_rfid env do_rfid s ≡ done tt s'
      → s'.epc_update_counter ≡ add8 s.epc_update_counter 1
  unfolding before_rfid
  before_rfid-counter s s' e =
      let (c, s1, e1, e2) = and_then-eq-done (on_wtp (epc_round s.epc_update_counter) s) _ e in
      let (w, e3, p) =
        put_back-eq-done (λ w. record s { wtp_ep = w }) (epc_round s.epc_update_counter s.wtp_ep)
          e1 in
      let f : c ≡ add8 s.epc_update_counter 1 =
        epc_round-counter s.epc_update_counter c s.wtp_ep w e3 in
      ground (arith, e2, f)

  after_read-flag :
      (s s' : Runtime)
      → after_read env do_rfid s ≡ done tt s'
      → (s'.read_flag ≡ false) × (s'.epc_update_counter ≡ s.epc_update_counter)
  unfolding after_read
  after_read-flag s s' e = ground (arith, e)

  after_blockwrite-flag :
      (s s' : Runtime)
      → after_blockwrite env do_rfid s ≡ done tt s'
      → (s'.blockwrite_flag ≡ false)
        × (s'.read_flag ≡ s.read_flag)
        × (s'.epc_update_counter ≡ s.epc_update_counter)
  unfolding after_blockwrite
  after_blockwrite-flag s s' e = ground (arith, e)

  -- a round that returns
  round-counter :
      (s s' : Runtime)
      → KeepsCounter do_rfid
      → rfid_round env do_rfid s ≡ done tt s'
      → Clear s' × (s'.epc_update_counter ≡ add8 s.epc_update_counter 1)
  unfolding rfid_round
  round-counter s s' keeps e =
      let (u3, s3, e3, l) =
        and_then-eq-done (((before_rfid env do_rfid >> do_rfid) >> after_read env do_rfid) s) _ e in
      let (u2, s2, e2, k) = and_then-eq-done ((before_rfid env do_rfid >> do_rfid) s) _ e3 in
      let (u1, s1, e1, j) = and_then-eq-done (before_rfid env do_rfid s) _ e2 in
      let b = before_rfid-counter s s1 e1 in
      let c = keeps s1 s2 j in
      let r = after_read-flag s2 s3 k in
      let w = after_blockwrite-flag s3 s' l in ground (arith, b, c, r, w)

  -- Between the rounds of the RFID loop no operation of the firmware waits: from a state with both
  -- flags clear, any number of rounds that return, with any firmware that leaves the counter alone,
  -- whatever blocks were written and fragments read, leads to a state with both flags clear, and
  -- the counter has gone on by one for each round, in 8 bits.
  pub rfid_rounds-Clear :
      (n : ℕ) (s s' : Runtime)
      → s.epc_update_counter < 256
      → Clear s
      → KeepsCounter do_rfid
      → rfid_rounds env do_rfid n s ≡ done tt s'
      → Clear s' × (s'.epc_update_counter ≡ (s.epc_update_counter + n) % 256)
  unfolding rfid_rounds
  rfid_rounds-Clear zero s s' small clear keeps e = ground (arith, e, clear)
  rfid_rounds-Clear (suc n) s s' small clear keeps e =
      let (u, s1, e1, rest) = and_then-eq-done (rfid_round env do_rfid s) _ e in
      let r = round-counter s s1 keeps e1 in
      let i = rfid_rounds-Clear n s1 s' (omega (arith, r.1)) r.0 keeps rest in
      (i.0, omega (arith, r.1, i.1))
