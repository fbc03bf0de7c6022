-- ===== src/Wtp/Endpoint/Blockwrite/Ends.antt =====
-- The loop of `wtp_handle_blockwrite` of client/wtp/wtp/endpoint.c ends.
use wisp_ert.Common.{
  ℕ, zero, suc, ◌+◌, ◌-◌, ◌<◌, ◌≡◌, refl, ◌⊎◌, inl, inr, true, false, List, ◌∷◌, arith, ltb, ◌==◌,
  get_elem?, Outcome, done, fail, fault, out_of_fuel, and_then, AllBytes, Bool-cases, Option-cases,
}
use wisp_ert.Wio.Buf
use wisp_ert.Wio.Buf.{Buf}
use wisp_ert.Wtp.Packet.{pkt_end}
use wisp_ert.Wtp.Endpoint.{Wtp, Env}
use wisp_ert.Wtp.Endpoint.Checksum.{Recv}
use wisp_ert.Wtp.Endpoint.Blockwrite.{
  read_type, pkt_handler, dispatch, read_packets, handle_blockwrite,
}
use wisp_ert.Wtp.Endpoint.Blockwrite.Advance.{
  Within, Forward, Advances, handle_open-Advances, handle_ack-Advances, handle_set_param-Advances,
  handle_msg_packet-Advances,
}

-- a call that ends, with WIO_OK, another status, or a fault
abbrev pub Ends {ℓ κ} : {S : Type ℓ} {A : Type κ} → Outcome S A → Type 0
Ends out_of_fuel = ⊥
Ends _ = Unit

-- the state in which a round of the loop reads the packet's type
abbrev pub begun : Recv → Recv
begun r = record r { self = record (r.self) { pkt_begin = r.buf.pos_a } }

-- the rounds of the loop come to a packet whose handler does not end
pub data Stuck (env : Env) : Recv → Type 0 where
  now :
      {r r1 : Recv} (t : ℕ)
      → read_type (begun r) ≡ done t r1
      → dispatch env t r1 ≡ out_of_fuel
      → Stuck env r
  later :
      {r r1 r2 : Recv} (t : ℕ)
      → read_type (begun r) ≡ done t r1
      → dispatch env t r1 ≡ done tt r2
      → Stuck env r2
      → Stuck env r

fail-Advances : (x : ℕ) → Advances {A = Unit {0}} (fail x)
fail-Advances x r r' a w e = cc

dispatch-Advances : (env : Env) (t : ℕ) → Advances (dispatch env t)
unfolding dispatch pkt_handler
dispatch-Advances env t r r' a w e = ground (
  arith,
  handle_open-Advances env r r' a w,
  handle_ack-Advances env r r' a w,
  handle_msg_packet-Advances env true r r' a w,
  handle_msg_packet-Advances env false r r' a w,
  handle_set_param-Advances r r' a w,
)

-- the state after a byte has been read
abbrev past : Recv → Recv
past r = record r { buf = record (r.buf) { pos_a = r.buf.pos_a + 1 } }

read_type-cases :
    (r : Recv)
    → Within r.buf
    → (read_type r ≡ done pkt_end r)
      ⊎ ((read_type r ≡ fault)
          ⊎ ((t : ℕ) × (r.buf.pos_a < r.buf.size) × (read_type r ≡ done t (past r))))
unfolding read_type Buf.read Buf.load_byte
read_type-cases r w = elim (Bool-cases (ltb r.buf.pos_a r.buf.size)) [
  | inl more ↦ elim (Option-cases (get_elem? r.buf.bytes r.buf.pos_a)) [
    | inl absent ↦ inr (inl (ground arith))
    | inr (t, there) ↦ inr (inr (t, ground arith, ground arith))
  ]
  | inr none_left ↦ inl (ground arith)
]

-- a handler's outcome, and the rest of the loop
then-Ends :
    (env : Env) (t fuel : ℕ) (r r1 : Recv) (o : Outcome Recv (Unit {0}))
    → read_type (begun r) ≡ done t r1
    → dispatch env t r1 ≡ o
    → ((r2 : Recv)
        → dispatch env t r1 ≡ done tt r2
        → Ends (read_packets env fuel r2) ⊎ Stuck env r2)
    → Ends (and_then o (λ _. read_packets env fuel)) ⊎ Stuck env r
then-Ends env t fuel r r1 (done tt r2) e d rest = elim (rest r2 d) [
  | inl ends ↦ inl ends
  | inr stuck ↦ inr (later t e d stuck)
]
then-Ends env t fuel r r1 (fail x r2) e d rest = inl tt
then-Ends env t fuel r r1 fault e d rest = inl tt
then-Ends env t fuel r r1 out_of_fuel e d rest = inr (now t e d)

read_packets-Ends :
    (env : Env) (fuel : ℕ) (r : Recv)
    → Within r.buf
    → r.buf.size - r.buf.pos_a < fuel
    → Ends (read_packets env fuel r) ⊎ Stuck env r
unfolding read_packets
read_packets-Ends env zero r w h = absurd (omega arith)
read_packets-Ends env (suc fuel) r w h = elim (read_type-cases (begun r) w) [
  | inl e ↦ rw e (inl tt)
  | inr (inl e) ↦ rw e (inl tt)
  | inr (inr (t, more, e)) ↦ elim (Bool-cases (t == pkt_end)) [
    | inl last ↦ rw (e, and_then, last) (inl tt)
    | inr packet ↦
        rw (e, and_then, packet)
          (then-Ends env t fuel r (past (begun r)) (dispatch env t (past (begun r))) e refl λ r' d.
            let f : Forward (past (begun r)).buf r'.buf =
              dispatch-Advances env t (past (begun r)) r' tt
                (record { in_size = omega arith; small = w.small; bytes = w.bytes }) d in
            read_packets-Ends env fuel r' f.within (omega arith))
  ]
]

-- what `wtp_handle_blockwrite` makes of the loop's outcome
abbrev finish : Outcome Recv (Unit {0}) → Outcome Wtp (Unit {0})
finish (done _ r) = done tt r.self
finish (fail e r) = fail e r.self
finish fault = fault
finish out_of_fuel = out_of_fuel

finish-Ends : {P : Type 0} (o : Outcome Recv (Unit {0})) → Ends o ⊎ P → Ends (finish o) ⊎ P
finish-Ends (done _ r) h = h
finish-Ends (fail e r) h = h
finish-Ends fault h = h
finish-Ends out_of_fuel h = h

handle_blockwrite-finish :
    (env : Env) (s : Wtp) (size : ℕ) (mem : List ℕ)
    → s.write_mem ≡ size ∷ mem
    → handle_blockwrite env s
      ≡ finish (read_packets env (suc size) (record { self = s; buf = Buf.init mem size }))
unfolding handle_blockwrite
handle_blockwrite-finish env s size mem e = ground (arith, e)

-- `wtp_handle_blockwrite` of a block that holds bytes ends, whatever packets they are: it returns
-- a status or faults after at most one round for each byte of the block and one more, unless its
-- rounds come to a packet whose handler does not end.
pub handle_blockwrite-Ends :
    (env : Env) (s : Wtp) (size : ℕ) (mem : List ℕ)
    → s.write_mem ≡ size ∷ mem
    → AllBytes (size ∷ mem)
    → Ends (handle_blockwrite env s) ⊎ Stuck env (record { self = s; buf = Buf.init mem size })
unfolding Buf.init
handle_blockwrite-Ends env s size mem e h = rw (handle_blockwrite-finish env s size mem e) (
    finish-Ends _ (
      read_packets-Ends env (suc size) (record { self = s; buf = Buf.init mem size })
        (record { in_size = omega arith; small = h.0; bytes = h.1 }) (omega arith)))
