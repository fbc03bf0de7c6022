-- ===== src/Wio/Buf/Transfer.antt =====
-- Writing and reading back, and `wio_copy` between two buffers of buf.c.
use wisp_ert.Common.{
  ℕ, ◌+◌, ◌≤◌, ◌<◌, ◌≡◌, refl, ap, List, [], ◌∷◌, ◌++◌, arith, length, length-append, take, drop,
  leb, if◌then◌else◌, u16_mod, done, fail, M, ◌>>=◌, pure, sym, ◌∙◌,
}
use mathlib.Core.List.{flatten}
use wisp_ert.Common.Memory.{splice, splice-nil, splice-splice, take-splice, length-splice}
use wisp_ert.Wio.Status.{out_of_range}
use wisp_ert.Wio.Buf.{Buf, read, write, copy}
use wisp_ert.Wio.Buf.Bounds.{IsValid, read_exact, write_from_exact, write_exact}

-- several writes in a row
unfoldable pub write_chunks : List (List ℕ) → M Buf (Unit {0})
write_chunks [] = pure tt
write_chunks (c ∷ cs) = write c >>= λ _. write_chunks cs

-- the buffer after bytes have been written that fit
abbrev pub written : Buf → List ℕ → Buf
written b src = record b { bytes = splice b.bytes b.pos_b src; pos_b = b.pos_b + length src }

pub written-IsValid :
    {b : Buf} (src : List ℕ) → IsValid b → b.pos_b + length src ≤ b.size → IsValid (written b src)
written-IsValid {b} src v h = ground (arith, length-splice b.bytes b.pos_b src)

pub write-fits :
    {b : Buf} (src : List ℕ)
    → IsValid b
    → b.pos_b + length src ≤ b.size
    → write src b ≡ done tt (written b src)
write-fits src v h = ground (arith, write_exact v src)

pub written-nil : (b : Buf) → written b [] ≡ b
written-nil b = let e : b.pos_b + 0 ≡ b.pos_b = omega arith in rw (splice-nil b.bytes b.pos_b, e)

pub written-append : (b : Buf) (xs ys : List ℕ) → written (written b xs) ys ≡ written b (xs ++ ys)
written-append b xs ys =
    let e : b.pos_b + length xs + length ys ≡ b.pos_b + length (xs ++ ys) =
      omega (arith, length-append xs ys) in
    rw (splice-splice b.bytes b.pos_b xs ys (b.pos_b + length xs) refl, e)

pub write_chunks-fits :
    (cs : List (List ℕ)) (b : Buf)
    → IsValid b
    → b.pos_b + length (flatten cs) ≤ b.size
    → write_chunks cs b ≡ done tt (written b (flatten cs))
unfolding write_chunks flatten
write_chunks-fits [] b v h = ap (done tt) (sym (written-nil b))
write_chunks-fits (c ∷ cs) b v h =
    rw (write-fits c v (omega (arith, length-append c (flatten cs)))) (
      write_chunks-fits cs (written b c)
        (written-IsValid c v (omega (arith, length-append c (flatten cs))))
        (omega (arith, length-append c (flatten cs)))
      ∙ ap (done tt) (written-append b c (flatten cs)))

-- What `wio_write` writes at the read cursor of a valid buffer, `wio_read` gives back, and the two
-- cursors are again the same.
pub read-write :
    {b : Buf} (src : List ℕ)
    → IsValid b
    → b.pos_a ≡ b.pos_b
    → b.pos_b + length src ≤ b.size
    → (write src >>= λ _. read (length src)) b
      ≡ done src (record b {
        bytes = splice b.bytes b.pos_b src;
        pos_a = b.pos_b + length src;
        pos_b = b.pos_b + length src;
      })
read-write {b} src v e h =
    ground (
      arith,
      write_exact v src,
      read_exact {b = b'} v' (length src),
      take-splice b.bytes b.pos_b src,
    )
  where
    b' : Buf
    b' = record b { bytes = splice b.bytes b.pos_b src; pos_b = b.pos_b + length src }

    v' : IsValid b'
    v' = ground (arith, length-splice b.bytes b.pos_b src)

-- `wio_copy` of `n` bytes between valid buffers, with both sums below 2^16: if the source has them
-- and the target has room, they are copied from read cursor to write cursor and both cursors move;
-- in every other case it returns WIO_ERR_OUT_OF_RANGE and neither buffer changes.
pub copy_exact :
    {src dst : Buf} (n : ℕ)
    → IsValid src
    → IsValid dst
    → src.pos_a + n < u16_mod
    → dst.pos_b + n < u16_mod
    → copy n (src, dst) ≡ (
        if leb (src.pos_a + n) src.size
        then if leb (dst.pos_b + n) dst.size
          then done tt (
            record src { pos_a = src.pos_a + n },
            record dst {
              bytes = splice dst.bytes dst.pos_b (take n (drop src.pos_a src.bytes));
              pos_b = dst.pos_b + n;
            },
          )
          else fail out_of_range (src, dst)
        else fail out_of_range (src, dst))
unfolding copy
copy_exact {src} {dst} n v w h k = ground (arith, write_from_exact w src.bytes src.pos_a n)
