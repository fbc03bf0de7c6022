-- ===== src/Ert/Epc.antt =====
-- The EPC update of the RFID loop in `main` of client/wisp-ert/runtime/runtime.c.
pub mod Drain
pub mod RoundTrip
pub mod Ends
use wisp_ert.Common.{
  ℕ, zero, suc, ◌+◌, Option, none, some, List, [], ◌∷◌, true, false, ltb, leb, ◌==◌, if◌then◌else◌,
  get_elem?, add8, add16, length, ◌%◌, Outcome, done, fail, fault, out_of_fuel, M, ◌>>=◌, ◌>>◌,
  pure, starve, on, modify,
}
use wisp_ert.Wio.Buf
use wisp_ert.Wio.Buf.{Buf}
use wisp_ert.Wtp.Packet.{pkt_end}
use wisp_ert.Wtp.Endpoint.{Wtp, ignore_status}

-- "Fill EPC buffer with data packets", on fuel: the state holds the packet and the EPC buffer.
unfoldable pub fill : ℕ → M (Buf × Buf) (Unit {0})
fill zero s = out_of_fuel
fill (suc fuel) (pkt, epc) = elim (ltb pkt.pos_a pkt.pos_b) [
  | false ↦ done tt (pkt, epc)
  | true ↦ elim (get_elem? pkt.bytes pkt.pos_a) [
    | none ↦ fault
    | some pkt_size ↦ elim (ltb epc.size (add16 epc.pos_a pkt_size)) [
      | true ↦ done tt (pkt, epc)
      | false ↦
          (ignore_status (Buf.copy pkt_size) >>= λ _. fill fuel)
            (record pkt { pos_a = add16 pkt.pos_a 1 }, epc)
    ]
  ]
]

-- "Write packets to EPC memory". The fuel is the number of bytes in the packet buffer and one more.
unfoldable pub update_epc : M (Buf × Buf) (Unit {0})
unfolding fill
update_epc (pkt, epc) =
    if pkt.pos_a == pkt.pos_b
    then done tt (pkt, epc)
    else (fill (suc (length pkt.bytes))
          >> on (λ s. s.1) (λ s b. (s.0, b)) (ignore_status (Buf.write (pkt_end ∷ [])))
          >> modify (λ s.
            if s.0.pos_a == s.0.pos_b then (record (s.0) { pos_a = 0; pos_b = 0 }, s.1) else s))
        (pkt, record epc { pos_a = 0; pos_b = 0 })

-- "Update counter": the endpoint's buffers are updated at every sixteenth round.
unfoldable pub epc_round : ℕ → M Wtp ℕ
unfolding update_epc
epc_round epc_update_counter s =
    let counter = add8 epc_update_counter 1 in
    if counter % 16 == 1
    then (on (λ (s : Wtp). (s.tx_ctrl.pkt_buf, s.epc_buf))
            (λ s b. record s { tx_ctrl = record (s.tx_ctrl) { pkt_buf = b.0 }; epc_buf = b.1 })
            update_epc
          >>= λ _. pure counter)
        s
    else done counter s
