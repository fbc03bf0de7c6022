-- ===== src/Ert/Epc/RoundTrip.antt =====
-- From the calls that build control packets to the EPC memory that the reader sees:
-- client/wtp/wtp/transmission.c and client/wisp-ert/runtime/runtime.c together.
use mathlib.Core.List.{flatten}
use wisp_ert.Common.{
  ℕ, suc, ◌+◌, ◌≤◌, ◌<◌, ◌≡◌, refl, sym, ap, ◌∙◌, List, [], ◌∷◌, ◌++◌, arith, length, length-append,
  drop, u16_mod, leb, if◌then◌else◌, Bool-cases, inl, inr, false, ==_refl, ◌==◌, done, M, ◌>>=◌,
  pure,
}
use wisp_ert.Common.Memory.{drop-splice_self}
use wisp_ert.Wio.Buf.{Buf, write}
use wisp_ert.Wio.Buf.Bounds.{IsValid, write_exact}
use wisp_ert.Wio.Buf.Transfer.{written, written-nil, written-append, written-IsValid}
use wisp_ert.Wtp.Packet.{pkt_end}
use wisp_ert.Wtp.Tx.{TxCtrl}
use wisp_ert.Wtp.Tx.Frame.{emit, frame, emit-frame}
use wisp_ert.Wtp.Endpoint.{ignore_status}
use wisp_ert.Ert.Epc.{update_epc}
use wisp_ert.Ert.Epc.Drain.{frames, Short, length-frames, fill-frames}

-- a packet by its type and fields, and its bytes
abbrev pub Packet : Type 0
Packet = ℕ × List (List ℕ)

abbrev pub bodies : List Packet → List (List ℕ)
bodies [] = []
bodies ((t, fields) ∷ ps) = (t ∷ flatten fields) ∷ bodies ps

-- packets built one after the other
unfoldable pub emit_all : List Packet → M TxCtrl (Unit {0})
emit_all [] = pure tt
emit_all ((t, fields) ∷ ps) = emit t fields >>= λ _. emit_all ps

-- what a packet buffer holds after packets have been built
abbrev pub Built : List Packet → TxCtrl → Type 0
Built ps s =
    (s' : TxCtrl) × (emit_all ps s ≡ done tt s')
    × (s'.pkt_buf ≡ written s.pkt_buf (frames (bodies ps)))

-- the control after its first packet
abbrev emitted : ℕ → List (List ℕ) → TxCtrl → TxCtrl
emitted t fields s = record s {
  pkt_buf = written s.pkt_buf (frame t fields);
  pkt_begin = s.pkt_buf.pos_b + 1;
  pkt_size = s.pkt_buf.pos_b;
}

Built-cons :
    (t : ℕ) (fields : List (List ℕ)) (ps : List Packet) (s : TxCtrl)
    → emit t fields s ≡ done tt (emitted t fields s)
    → Built ps (emitted t fields s)
    → Built ((t, fields) ∷ ps) s
unfolding emit_all
Built-cons t fields ps s first (s', rest, stands) =
    (s', rw first rest, stands ∙ written-append s.pkt_buf (frame t fields) (frames (bodies ps)))

-- Packets that fit behind the write cursor of a valid packet buffer, and whose sizes fit a byte,
-- are all built, and stand there one frame after the other.
pub emit_all-frames :
    (ps : List Packet) (s : TxCtrl)
    → IsValid s.pkt_buf
    → Short (bodies ps)
    → s.pkt_buf.pos_b + length (frames (bodies ps)) ≤ s.pkt_buf.size
    → Built ps s
unfolding emit_all
emit_all-frames [] s v l h = (s, refl, sym (written-nil s.pkt_buf))
emit_all-frames ((t, fields) ∷ ps) s v l h =
    Built-cons t fields ps s (emit-frame s v t fields (omega (arith, l.0)) (omega (arith, split))) (
      emit_all-frames ps (emitted t fields s)
        (written-IsValid (frame t fields) v (omega (arith, split))) (l.1) (omega (arith, split)))
  where
    split :
        length (flatten fields ++ frames (bodies ps))
        ≡ length (flatten fields) + length (frames (bodies ps))
    split = length-append (flatten fields) (frames (bodies ps))

-- WTP_PKT_END behind what a valid buffer holds, if it fits
mark_end :
    {b : Buf}
    → IsValid b
    → b.pos_b + 1 < u16_mod
    → ignore_status (write (pkt_end ∷ [])) b
      ≡ done tt (if leb (b.pos_b + 1) b.size then written b (pkt_end ∷ []) else b)
mark_end {b} v h = elim (Bool-cases (leb (b.pos_b + 1) b.size)) [
  | inl room ↦ rw (ignore_status, write_exact v (pkt_end ∷ []) h, room)
  | inr full ↦ rw (ignore_status, write_exact v (pkt_end ∷ []) h, full)
]

-- The EPC update takes all packets that stand as frames between the cursors of a valid packet
-- buffer, where at least one is there and all fit the EPC memory together: the EPC memory begins
-- with their bytes in order, followed by WTP_PKT_END if that fits, and the packet buffer is reset.
pub update_epc-frames :
    (p : List ℕ) (ps : List (List ℕ)) {pkt epc : Buf} (rest : List ℕ)
    → IsValid pkt
    → IsValid epc
    → drop pkt.pos_a pkt.bytes ≡ frames (p ∷ ps) ++ rest
    → pkt.pos_b ≡ pkt.pos_a + length (frames (p ∷ ps))
    → length (flatten (p ∷ ps)) ≤ epc.size
    → epc.size + 1 < u16_mod
    → Short (p ∷ ps)
    → update_epc (pkt, epc)
      ≡ done tt (
        record pkt { pos_a = 0; pos_b = 0 },
        written
            (record epc { pos_a = 0; pos_b = 0 })
            (if leb (length (flatten (p ∷ ps)) + 1) epc.size
              then flatten (p ∷ ps) ++ pkt_end ∷ []
              else flatten (p ∷ ps)),
      )
unfolding update_epc
update_epc-frames p ps {pkt} {epc} rest v w e h k m l =
    rw
      (
        some_left,
        fill-frames (p ∷ ps) pkt epc0 (suc (length pkt.bytes)) rest v w0 e h refl room l fuel,
      )
      (rw
        (
          mark_end {b = written epc0 all} (written-IsValid all w0 room) (omega arith),
          ==_refl pkt.pos_b,
        )
        (ap (λ b. done tt (record pkt { pos_a = 0; pos_b = 0 }, b)) ending))
  where
    all : List ℕ
    all = flatten (p ∷ ps)

    epc0 : Buf
    epc0 = record epc { pos_a = 0; pos_b = 0 }

    w0 : IsValid epc0
    w0 = omega arith

    some_left : (pkt.pos_a == pkt.pos_b) ≡ false
    some_left = ground arith

    room : 0 + length all ≤ epc.size
    room = omega arith

    fuel : length (p ∷ ps) < suc (length pkt.bytes)
    fuel = omega (arith, length-frames (p ∷ ps))

    start : 0 + length all + 1 ≡ length all + 1
    start = omega arith

    chosen :
        {n m : ℕ}
        → n ≡ m
        → (if leb n epc.size then written (written epc0 all) (pkt_end ∷ []) else written epc0 all)
          ≡ (if leb m epc.size then written (written epc0 all) (pkt_end ∷ []) else written epc0 all)
    chosen e =
        ap
          (λ k.
            if leb k epc.size then written (written epc0 all) (pkt_end ∷ []) else written epc0 all)
          e

    ending :
        (if leb (0 + length all + 1) epc.size
          then written (written epc0 all) (pkt_end ∷ [])
          else written epc0 all)
        ≡ written epc0 (if leb (length all + 1) epc.size then all ++ pkt_end ∷ [] else all)
    ending = chosen start ∙ elim (Bool-cases (leb (length all + 1) epc.size)) [
      | inl fits ↦ rw fits (written-append epc0 all (pkt_end ∷ []))
      | inr full ↦ rw full
    ]

-- Packets built in a valid packet buffer that was empty reach the EPC memory by one EPC update, if
-- there is one, each size fits a byte, all frames fit the packet buffer, and all bytes fit the EPC
-- memory: the update writes the packets' bytes in order there, followed by WTP_PKT_END if that
-- fits, and resets the packet buffer.
pub update_epc-emit_all :
    (p : Packet) (ps : List Packet) (s : TxCtrl) (epc : Buf)
    → IsValid s.pkt_buf
    → IsValid epc
    → s.pkt_buf.pos_a ≡ s.pkt_buf.pos_b
    → Short (bodies (p ∷ ps))
    → s.pkt_buf.pos_b + length (frames (bodies (p ∷ ps))) ≤ s.pkt_buf.size
    → length (flatten (bodies (p ∷ ps))) ≤ epc.size
    → epc.size + 1 < u16_mod
    → (s' : TxCtrl) × (emit_all (p ∷ ps) s ≡ done tt s')
      × (update_epc (s'.pkt_buf, epc)
          ≡ done tt (
            record (s'.pkt_buf) { pos_a = 0; pos_b = 0 },
            written
                (record epc { pos_a = 0; pos_b = 0 })
                (if leb (length (flatten (bodies (p ∷ ps))) + 1) epc.size
                  then flatten (bodies (p ∷ ps)) ++ pkt_end ∷ []
                  else flatten (bodies (p ∷ ps))),
          ))
update_epc-emit_all p ps s epc v w start l room k m =
    let (s', built, stands) = emit_all-frames (p ∷ ps) s v l room in
    let out : List ℕ = frames (bodies (p ∷ ps)) in
    (
      s',
      built,
      rw stands (
          update_epc-frames (p.0 ∷ flatten (p.1)) (bodies ps) {pkt = written s.pkt_buf out}
            (drop (length out) (drop s.pkt_buf.pos_b s.pkt_buf.bytes)) (written-IsValid out v room)
            w (rw start (drop-splice_self s.pkt_buf.bytes s.pkt_buf.pos_b out (omega arith)))
            (omega arith) k m l),
    )
