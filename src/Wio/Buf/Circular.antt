-- ===== src/Wio/Buf/Circular.antt =====
-- `wio_alloc` and `wio_free` of buf.c, which use a buffer as a ring of blocks.
use wisp_ert.Common.{
  ℕ, ◌+◌, ◌≤◌, ◌<◌, ◌≡◌, ◌⊎◌, arith, ltb, leb, ◌-◌, ◌==◌, ◌&&◌, not, if◌then◌else◌, u16_mod, done,
  ◌>>=◌,
}
use wisp_ert.Wio.Buf.{Buf, alloc, free}
use wisp_ert.Wio.Buf.Bounds.{IsValid}

-- A block no larger than a valid buffer is allocated within it: the buffer stays valid, the block
-- ends at the new write cursor, and it begins at the old one or at the front.
pub alloc-within :
    {b b' : Buf} (n p : ℕ)
    → IsValid b
    → n ≤ b.size
    → b.pos_b + n < u16_mod
    → alloc n b ≡ done p b'
    → IsValid b'
      × (p + n ≡ b'.pos_b)
      × ((p ≡ b.pos_b) ⊎ (p ≡ 0))
      × (b'.bytes ≡ b.bytes)
      × (b'.pos_a ≡ b.pos_a)
unfolding alloc
alloc-within n p v h k e = ground arith

-- A block larger than the buffer is allocated as well: `wio_alloc` returns WIO_OK with a block at
-- the front that ends behind the buffer.
pub alloc-overrun :
    {b : Buf} (n : ℕ)
    → IsValid b
    → b.size < n
    → b.pos_b + n < u16_mod
    → alloc n b ≡ done 0 (record b { pos_b = n })
unfolding alloc
alloc-overrun n v h k = ground arith

-- From a valid buffer with equal cursors, an allocated block that is freed leaves the cursors
-- equal again, but for one case: a block away from the front that would end just at the size.
pub free-alloc :
    {b : Buf} (n : ℕ)
    → IsValid b
    → b.pos_a ≡ b.pos_b
    → n ≤ b.size
    → b.pos_b + n < u16_mod
    → (b' : Buf) × ((alloc n >>= λ _. free n) b ≡ done tt b')
      × ((b'.pos_a == b'.pos_b) ≡ not (ltb 0 b.pos_b && (b.pos_b + n == b.size)))
      × IsValid b'
unfolding alloc free
free-alloc {b} n v e h k = (
  record b {
    pos_a = (if ltb (b.size - b.pos_b) n then 0 else b.pos_b) + n;
    pos_b = (if leb b.size (b.pos_b + n) then 0 else b.pos_b) + n;
  },
  ground arith,
  ground arith,
  ground arith,
)
