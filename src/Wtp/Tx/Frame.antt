-- ===== src/Wtp/Tx/Frame.antt =====
-- Outgoing packets of client/wtp/wtp/transmission.c: `wtp_tx_begin_packet`, the writes of the
-- packet's fields, and `wtp_tx_end_packet`.
use mathlib.Core.List.{flatten}
use wisp_ert.Common.{
  ℕ, suc, ◌+◌, ◌≤◌, ◌<◌, ◌≡◌, refl, ap, ◌∙◌, List, [], ◌∷◌, arith, length, u8_mod, sub16, to_u8,
  Outcome, done, M, ◌>>◌,
}
use wisp_ert.Common.Memory.{splice, store-some, splice-splice_back, length-splice}
use wisp_ert.Wio.Buf.{Buf, alloc}
use wisp_ert.Wio.Buf.Bounds.{IsValid}
use wisp_ert.Wio.Buf.Transfer.{
  write_chunks, write_chunks-fits, write-fits, written, written-append, written-IsValid,
}
use wisp_ert.Wtp.Tx.{TxCtrl, on_pkt_buf, begin_packet, end_packet, poke}

-- a packet of the given type and fields
unfoldable pub emit : ℕ → List (List ℕ) → M TxCtrl (Unit {0})
emit pkt_type fields = begin_packet pkt_type >> on_pkt_buf (write_chunks fields) >> end_packet

-- a packet as it stands in the packet buffer: its size, its type and its fields
abbrev pub frame : ℕ → List (List ℕ) → List ℕ
frame pkt_type fields = suc (length (flatten fields)) ∷ pkt_type ∷ flatten fields

-- a buffer after a block of one byte has been allocated at its write cursor
abbrev reserved : Buf → Buf
reserved b = record b { pos_b = b.pos_b + 1 }

reserve : {b : Buf} → IsValid b → b.pos_b + 1 < b.size → alloc 1 b ≡ done b.pos_b (reserved b)
unfolding alloc
reserve v h = ground arith

reserved-IsValid : {b : Buf} → IsValid b → b.pos_b + 1 < b.size → IsValid (reserved b)
reserved-IsValid v h = ground arith

-- the control after the type and some bytes have been written behind the size byte
abbrev begun : TxCtrl → List ℕ → TxCtrl
begun s out = record s {
  pkt_buf = written (reserved s.pkt_buf) out;
  pkt_begin = s.pkt_buf.pos_b + 1;
  pkt_size = s.pkt_buf.pos_b;
}

module _ (s : TxCtrl) (v : IsValid s.pkt_buf) where
  begin_packet-fits :
      (t : ℕ) → s.pkt_buf.pos_b + 2 ≤ s.pkt_buf.size → begin_packet t s ≡ done tt (begun s (t ∷ []))
  unfolding begin_packet
  begin_packet-fits t h = rw (
    reserve v (omega arith),
    write-fits (t ∷ []) (reserved-IsValid v (omega arith)) (omega arith),
  )

  end_packet-fits :
      (out : List ℕ)
      → length out < u8_mod
      → s.pkt_buf.pos_b + 1 + length out ≤ s.pkt_buf.size
      → end_packet (begun s out)
        ≡ done tt (record (begun s out) {
          pkt_buf = record (s.pkt_buf) {
            bytes = splice s.pkt_buf.bytes s.pkt_buf.pos_b (length out ∷ out);
            pos_b = s.pkt_buf.pos_b + 1 + length out;
          };
        })
  unfolding end_packet
  end_packet-fits out h k = rw (
    size,
    poke,
    store-some mem p (length out ∷ []) room,
    splice-splice_back b.bytes p (length out) out (p + 1) refl,
  )
    where
      b : Buf
      b = s.pkt_buf

      p : ℕ
      p = b.pos_b

      mem : List ℕ
      mem = splice b.bytes (p + 1) out

      room : p + length (length out ∷ []) ≤ length mem
      room = omega (arith, length-splice b.bytes (p + 1) out)

      size : to_u8 (sub16 (p + 1 + length out) (p + 1)) ≡ length out
      size = omega arith

  -- A packet whose size byte, type and fields fit behind the write cursor of a valid packet buffer
  -- is written there as one frame, its size in front, and the write cursor stands behind it.
  pub emit-frame :
      (t : ℕ) (fields : List (List ℕ))
      → length (flatten fields) + 1 < u8_mod
      → s.pkt_buf.pos_b + 2 + length (flatten fields) ≤ s.pkt_buf.size
      → emit t fields s
        ≡ done tt (record s {
          pkt_buf = written s.pkt_buf (frame t fields);
          pkt_begin = s.pkt_buf.pos_b + 1;
          pkt_size = s.pkt_buf.pos_b;
        })
  unfolding emit
  emit-frame t fields h k =
      rw
        (
          begin_packet-fits t (omega arith),
          write_chunks-fits fields (written (reserved s.pkt_buf) (t ∷ [])) v' (omega arith),
          written-append (reserved s.pkt_buf) (t ∷ []) (flatten fields),
        )
        (end_packet-fits (t ∷ flatten fields) (omega arith) (omega arith) ∙ ap done_at count)
    where
      v' : IsValid (written (reserved s.pkt_buf) (t ∷ []))
      v' = written-IsValid (t ∷ []) (reserved-IsValid v (omega arith)) (omega arith)

      done_at : ℕ → Outcome TxCtrl (Unit {0})
      done_at n = done tt (record s {
        pkt_buf = record (s.pkt_buf) {
          bytes = splice s.pkt_buf.bytes s.pkt_buf.pos_b (frame t fields);
          pos_b = n;
        };
        pkt_begin = s.pkt_buf.pos_b + 1;
        pkt_size = s.pkt_buf.pos_b;
      })

      count :
          s.pkt_buf.pos_b + 1 + length (t ∷ flatten fields)
          ≡ s.pkt_buf.pos_b + length (frame t fields)
      count = omega arith
