-- ===== src/Wtp/Endpoint/Checksum.antt =====
-- `wtp_xor_checksum` and `wtp_verify_checksum` of client/wtp/wtp/endpoint.c.
pub mod Exact
use wisp_ert.Common.{
  ℕ, zero, suc, ◌+◌, ◌-◌, Option, none, some, List, ◌∷◌, [], ◌==◌, if◌then◌else◌, get_elem?, add16,
  bit_xor, done, fail, M, ◌>>=◌, ◌>>◌, pure, get, present, on,
}
use wisp_ert.Wio.Status.{invalid}
use wisp_ert.Wio.Buf
use wisp_ert.Wio.Buf.{Buf}
use wisp_ert.Wtp.Endpoint.{Wtp}

-- the loop, with the rounds left; `none` where it reads outside the memory
unfoldable pub xor_loop : ℕ → List ℕ → (i checksum : ℕ) → Option ℕ
xor_loop zero mem i checksum = some checksum
xor_loop (suc rounds) mem i checksum = elim (get_elem? mem i) [
  | none ↦ none
  | some byte ↦ xor_loop rounds mem (suc i) (bit_xor checksum byte)
]

-- `wtp_xor_checksum`
unfoldable pub xor_checksum : List ℕ → (begin end : ℕ) → Option ℕ
unfolding xor_loop
xor_checksum mem begin end = xor_loop (end - begin) mem begin 0

-- an endpoint with the buffer of the packets that it handles
pub record Recv : Type 0 where
  pub self : Wtp
  pub buf : Buf

module _ {ℓ} {A : Type ℓ} where
  abbrev pub on_self : M Wtp A → M Recv A
  on_self = on (λ r. r.self) (λ r s. record r { self = s })

  abbrev pub on_buf : M Buf A → M Recv A
  on_buf = on (λ r. r.buf) (λ r b. record r { buf = b })

-- the byte that `wio_read` of 1 gives
abbrev pub byte_of : List ℕ → ℕ
byte_of (b ∷ _) = b
byte_of [] = 0

-- `wtp_verify_checksum`
unfoldable pub verify_checksum : M Recv (Unit {0})
unfolding xor_checksum
verify_checksum = do
  r ← get
  calc_checksum ← present (xor_checksum r.buf.bytes r.self.pkt_begin r.buf.pos_a)
  pkt_checksum ← on_buf (Buf.read 1)
  if calc_checksum == byte_of pkt_checksum then pure tt else fail invalid
