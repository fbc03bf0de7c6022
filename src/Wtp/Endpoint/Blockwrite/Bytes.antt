-- ===== src/Wtp/Endpoint/Blockwrite/Bytes.antt =====
-- The bytes of a block that `wtp_handle_blockwrite` of client/wtp/wtp/endpoint.c reads: a packet with its
-- checksum, and the reads in it.
use wisp_ert.Common.{
  ℕ, suc, append_assoc, ◌∙◌, ◌+◌, ◌≤◌, ◌<◌, ◌-◌, ◌≡◌, refl, ap, some, List, ◌∷◌, ◌++◌, arith,
  length, length-append, ==_refl, take, drop, take-append, drop-append, done,
}
use wisp_ert.Common.Memory.{slice, slice-some}
use wisp_ert.Wio.Buf
use wisp_ert.Wio.Buf.{Buf}
use wisp_ert.Wio.Buf.Bounds.{IsValid, read_exact}
use wisp_ert.Wtp.Packet.{pkt_end}
use wisp_ert.Wtp.Endpoint.{Wtp}
use wisp_ert.Wtp.Endpoint.Checksum.{verify_checksum}
use wisp_ert.Wtp.Endpoint.Checksum.Exact.{xor_all, verify_checksum_exact}
use wisp_ert.Wtp.Endpoint.Blockwrite.{read_type}

-- a block with a packet and its checksum, after the block's size; more may stand behind it
abbrev pub block : (packet rest : List ℕ) → List ℕ
block packet rest = packet ++ xor_all 0 packet ∷ rest

-- a packet of any header before its bytes, of `m` bytes in all
module _ (hd payload rest : List ℕ) (m : ℕ) (e : m ≡ length hd + length payload)
    (short : m + 1 < 256) where
  -- the buffer over the block
  abbrev pub block_buf : ℕ → Buf
  block_buf n = record (Buf.init (block (hd ++ payload) rest) (suc m)) { pos_a = n }

  block-length : m + 1 ≤ length (block (hd ++ payload) rest)
  block-length = omega (
    arith,
    length-append (hd ++ payload) (xor_all 0 (hd ++ payload) ∷ rest),
    length-append hd payload,
  )

  at-IsValid : (n : ℕ) → n ≤ m + 1 → IsValid (block_buf n)
  unfolding Buf.init
  at-IsValid n h = record {
    pos_a_in = omega arith;
    pos_b_in = omega arith;
    size_in = omega (arith, block-length);
    small = omega arith;
  }

  pub read-at :
      (p n : ℕ)
      → p + n ≤ m + 1
      → Buf.read n (block_buf p)
        ≡ done (take n (drop p (block (hd ++ payload) rest))) (block_buf (p + n))
  unfolding Buf.init
  read-at p n h = ground (arith, read_exact (at-IsValid p (omega arith)) n (omega arith))

  pub read_type-at :
      (s : Wtp)
      → read_type (record { self = s; buf = block_buf (suc m) })
        ≡ done pkt_end (record { self = s; buf = block_buf (suc m) })
  unfolding read_type Buf.init
  read_type-at s = ground (arith, read_exact (at-IsValid (suc m) (omega arith)) 1 (omega arith))

  pub payload-at : slice (block (hd ++ payload) rest) (length hd) (length payload) ≡ some payload
  payload-at =
      slice-some (block (hd ++ payload) rest) (length hd) (length payload)
        (omega (arith, block-length))
      ∙ ap (λ xs. some (take (length payload) xs))
          (ap (drop (length hd)) (append_assoc hd payload (xor_all 0 (hd ++ payload) ∷ rest))
            ∙ drop-append hd (payload ++ xor_all 0 (hd ++ payload) ∷ rest) (length hd) refl)
      ∙ ap some (take-append payload (xor_all 0 (hd ++ payload) ∷ rest) (length payload) refl)

  pub checksum-at :
      (s : Wtp)
      → verify_checksum (record { self = record s { pkt_begin = 0 }; buf = block_buf m })
        ≡ done tt (record { self = record s { pkt_begin = 0 }; buf = block_buf (suc m) })
  unfolding Buf.init
  checksum-at s =
      rw
        (
          verify_checksum_exact (record s { pkt_begin = 0 }) (block_buf m)
              (at-IsValid m (omega arith)) (omega arith) (omega arith) (omega arith),
          covered,
          checksum,
          ==_refl (xor_all 0 (hd ++ payload)),
        )
        (ground arith)
    where
      long : length (hd ++ payload) ≡ m
      long = omega (arith, length-append hd payload)

      covered : take (m - 0) (block (hd ++ payload) rest) ≡ hd ++ payload
      covered =
          take-append (hd ++ payload) (xor_all 0 (hd ++ payload) ∷ rest) (m - 0)
            (omega (arith, long))

      checksum : drop m (block (hd ++ payload) rest) ≡ xor_all 0 (hd ++ payload) ∷ rest
      checksum = drop-append (hd ++ payload) (xor_all 0 (hd ++ payload) ∷ rest) m long
