-- ===== src/Examples/Epc.antt =====
-- Two control packets on the way to the EPC memory.
use mathlib.Core.List.{flatten}
use wisp_ert.Common.{
  ℕ, ◌+◌, ◌≡◌, refl, List, [], ◌∷◌, ◌++◌, arith, length, leb, if◌then◌else◌, done,
}
use wisp_ert.Wio.Buf.{Buf}
use wisp_ert.Wio.Buf.Bounds.{IsValid}
use wisp_ert.Wio.Buf.Transfer.{written}
use wisp_ert.Wtp.Packet.{pkt_end}
use wisp_ert.Wtp.Tx.{TxCtrl}
use wisp_ert.Ert.Epc.{update_epc}
use wisp_ert.Ert.Epc.Ends.{update_epc-Ends}
use wisp_ert.Wtp.Endpoint.Blockwrite.Ends.{Ends}
use wisp_ert.Ert.Epc.RoundTrip.{Packet, bodies, emit_all, update_epc-emit_all}
use wisp_ert.Examples.Sending.{some_buf, some_buf-IsValid, some_tx}

abbrev an_open : Packet
an_open = (1, [])

abbrev an_ack : Packet
an_ack = (3, (104 ∷ 0 ∷ []) ∷ [])

-- a packet buffer with the same two packets
abbrev two_packets : Buf
two_packets = record {
  bytes = 1 ∷ 1 ∷ 3 ∷ 3 ∷ 104 ∷ 0 ∷ 0 ∷ 0 ∷ [];
  size = 8;
  pos_a = 0;
  pos_b = 6;
}

two_packets-IsValid : IsValid two_packets
two_packets-IsValid = record {
  pos_a_in = omega arith;
  pos_b_in = omega arith;
  size_in = omega arith;
  small = omega arith;
}

abbrev two_bodies : List (List ℕ)
two_bodies = (1 ∷ []) ∷ (3 ∷ 104 ∷ 0 ∷ []) ∷ []

update_epc-emit_all_example :
    (s' : TxCtrl) × (emit_all (an_open ∷ an_ack ∷ []) some_tx ≡ done tt s')
    × (update_epc (s'.pkt_buf, some_buf)
        ≡ done tt (
          record (s'.pkt_buf) { pos_a = 0; pos_b = 0 },
          written
              (record some_buf { pos_a = 0; pos_b = 0 })
              (if leb (length (flatten (bodies (an_open ∷ an_ack ∷ []))) + 1) some_buf.size
                then flatten (bodies (an_open ∷ an_ack ∷ [])) ++ pkt_end ∷ []
                else flatten (bodies (an_open ∷ an_ack ∷ []))),
        ))
unfolding flatten
update_epc-emit_all_example =
    update_epc-emit_all an_open (an_ack ∷ []) some_tx some_buf some_buf-IsValid some_buf-IsValid
      refl (omega arith, (omega arith, tt)) (omega arith) (omega arith) (omega arith)

update_epc-Ends_example : Ends (update_epc (two_packets, some_buf))
update_epc-Ends_example = update_epc-Ends two_packets some_buf (omega arith)
