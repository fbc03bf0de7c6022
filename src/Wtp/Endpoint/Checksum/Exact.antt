-- ===== src/Wtp/Endpoint/Checksum/Exact.antt =====
-- What the checksum of client/wtp/wtp/endpoint.c is, and which packets it lets through.
use wisp_ert.Common.{
  ℕ, zero, suc, ◌+◌, ◌-◌, ◌≤◌, ◌<◌, ◌≡◌, refl, some, List, [], ◌∷◌, length, take, drop, arith,
  take-drop-suc, get_elem?-some, bit_xor, ◌==◌, if◌then◌else◌, u16_mod, done, fail, leb,
}
use wisp_ert.Wio.Status.{invalid, out_of_range}
use wisp_ert.Wio.Buf.{Buf}
use wisp_ert.Wio.Buf.Bounds.{IsValid, read_exact}
use wisp_ert.Wtp.Endpoint.{Wtp}
use wisp_ert.Wtp.Endpoint.Checksum.{xor_loop, xor_checksum, verify_checksum, byte_of}

-- the exclusive or of bytes, from a first one on
abbrev pub xor_all : ℕ → List ℕ → ℕ
xor_all a [] = a
xor_all a (x ∷ xs) = xor_all (bit_xor a x) xs

xor_loop-all :
    (n : ℕ) (mem : List ℕ) (i a : ℕ)
    → i + n ≤ length mem
    → xor_loop n mem i a ≡ some (xor_all a (take n (drop i mem)))
unfolding xor_loop
xor_loop-all zero mem i a h = refl
xor_loop-all (suc n) mem i a h =
    let (x, e) = get_elem?-some mem i (omega arith) in
    rw (xor_loop, e, take-drop-suc mem i n x e)
      (xor_loop-all n mem (suc i) (bit_xor a x) (omega arith))

-- Within the memory, `wtp_xor_checksum` is the exclusive or of the bytes of the range.
pub xor_checksum-all :
    (mem : List ℕ) (begin end : ℕ)
    → begin ≤ end
    → end ≤ length mem
    → xor_checksum mem begin end ≡ some (xor_all 0 (take (end - begin) (drop begin mem)))
unfolding xor_checksum
xor_checksum-all mem begin end h k = xor_loop-all (end - begin) mem begin 0 (omega arith)

-- For a valid buffer of less than 2^16 - 1 bytes and a packet that begins at or before the read
-- cursor, `wtp_verify_checksum` reads one byte: it succeeds if that byte is the exclusive or of the
-- packet's bytes so far, returns WIO_ERR_INVALID if it is another, and returns
-- WIO_ERR_OUT_OF_RANGE, with nothing read, if there is no byte left.
pub verify_checksum_exact :
    (self : Wtp) (b : Buf)
    → IsValid b
    → b.pos_a + 1 < u16_mod
    → b.pos_a ≤ b.size
    → self.pkt_begin ≤ b.pos_a
    → verify_checksum (record { self = self; buf = b }) ≡ (
        if leb (b.pos_a + 1) b.size
        then (if xor_all 0 (take (b.pos_a - self.pkt_begin) (drop self.pkt_begin b.bytes))
              == byte_of (take 1 (drop b.pos_a b.bytes))
            then done tt (record { self = self; buf = record b { pos_a = b.pos_a + 1 } })
            else fail invalid (record { self = self; buf = record b { pos_a = b.pos_a + 1 } }))
        else fail out_of_range (record { self = self; buf = b }))
unfolding verify_checksum
verify_checksum_exact self b v h k first =
    ground
      (arith, xor_checksum-all b.bytes self.pkt_begin b.pos_a first (omega arith), read_exact v 1 h)
