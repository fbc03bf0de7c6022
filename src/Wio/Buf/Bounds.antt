-- ===== src/Wio/Buf/Bounds.antt =====
-- The range checks of buf.c: when they are right, and what they keep.
use wisp_ert.Common.{
  ℕ, suc, ◌+◌, ◌≤◌, ◌<◌, ◌≡◌, ap, some, List, ◌∷◌, arith, length, get_elem?, take, drop,
  lt_of_get_elem?, le_of_get_elem?, take-drop-suc, take-length, length-take, length-drop, sym, ◌∙◌,
  Option-cases, leb, inl, inr, if◌then◌else◌, u16_mod, done, fail, fault,
}
use wisp_ert.Common.Memory.{slice, splice, slice-some, slice-none, store-some, length-splice}
use wisp_ert.Wio.Status.{out_of_range}
use wisp_ert.Wio.Buf.{Buf, load_byte, load_word, load, read, write_from, write}

-- The cursors stay within the size, and the size within the memory.
pub record IsValid (b : Buf) : Type 0 where
  pub pos_a_in : b.pos_a ≤ b.size
  pub pos_b_in : b.pos_b ≤ b.size
  pub size_in : b.size ≤ length b.bytes
  pub small : b.size < u16_mod

load_byte-eq-slice : (mem : List ℕ) (at : ℕ) → load_byte mem at ≡ slice mem at 1
unfolding load_byte
load_byte-eq-slice mem at = elim (Option-cases (get_elem? mem at)) [
  | inl e ↦ rw (e, load_byte) (sym (slice-none mem at 1 (omega (arith, le_of_get_elem? mem at e))))
  | inr (a, e) ↦
      rw (e, load_byte, slice-some mem at 1 (omega (arith, lt_of_get_elem? mem at a e)))
        (ap some (sym (take-drop-suc mem at 0 a e)))
]

load_word-eq-slice : (mem : List ℕ) (at : ℕ) → load_word mem at ≡ slice mem at 2
unfolding load_word
load_word-eq-slice mem at = elim (Option-cases (get_elem? mem at)) [
  | inl e ↦ rw (e, load_word) (sym (slice-none mem at 2 (omega (arith, le_of_get_elem? mem at e))))
  | inr (a, e) ↦
      rw (e, load_word)
        (elim (Option-cases (get_elem? mem (at + 1))) [
          | inl f ↦ rw f (sym (slice-none mem at 2 (omega (arith, le_of_get_elem? mem (at + 1) f))))
          | inr (b, f) ↦
              let f' : get_elem? mem (suc at) ≡ some b = ap (get_elem? mem) (omega arith) ∙ f in
              rw (f, slice-some mem at 2 (omega (arith, lt_of_get_elem? mem (at + 1) b f)))
                (ap some (
                  sym
                    (take-drop-suc mem at 1 a e ∙ ap (◌∷◌ a) (take-drop-suc mem (suc at) 0 b f'))))
        ])
]

-- The three cases of the `switch` all copy the bytes that `memcpy` would copy.
pub load-eq-slice : (mem : List ℕ) (at n : ℕ) → load mem at n ≡ slice mem at n
unfolding load
load-eq-slice mem at n = ground (arith, load_byte-eq-slice mem at, load_word-eq-slice mem at)

module _ {b : Buf} (v : IsValid b) where
  -- While the cursor and the size together stay below 2^16, `wio_read` gives the `n` bytes at the
  -- read cursor and moves it behind them if they are within the size; if not, it returns
  -- WIO_ERR_OUT_OF_RANGE and changes nothing.
  pub read_exact :
      (n : ℕ)
      → b.pos_a + n < u16_mod
      → read n b ≡ (
          if leb (b.pos_a + n) b.size
          then done (take n (drop b.pos_a b.bytes)) (record b { pos_a = b.pos_a + n })
          else fail out_of_range b)
  unfolding read
  read_exact n h = ground (arith, load-eq-slice b.bytes b.pos_a n, slice-some b.bytes b.pos_a n)

  pub write_from_exact :
      (src : List ℕ) (at n : ℕ)
      → b.pos_b + n < u16_mod
      → at + n ≤ length src
      → write_from src at n b ≡ (
          if leb (b.pos_b + n) b.size
          then done tt (record b {
            bytes = splice b.bytes b.pos_b (take n (drop at src));
            pos_b = b.pos_b + n;
          })
          else fail out_of_range b)
  unfolding write_from
  write_from_exact src at n h k = ground (
    arith,
    load-eq-slice src at n,
    slice-some src at n,
    length-take n (drop at src),
    length-drop at src,
    store-some b.bytes b.pos_b (take n (drop at src)),
  )

  -- While the cursor and the length together stay below 2^16, `wio_write` copies the bytes to the
  -- write cursor and moves it behind them if they fit within the size; if not, it returns
  -- WIO_ERR_OUT_OF_RANGE and changes nothing.
  pub write_exact :
      (src : List ℕ)
      → b.pos_b + length src < u16_mod
      → write src b ≡ (
          if leb (b.pos_b + length src) b.size
          then done tt
              (record b { bytes = splice b.bytes b.pos_b src; pos_b = b.pos_b + length src })
          else fail out_of_range b)
  unfolding write
  write_exact src h = rw (take-length src) at (write_from_exact src 0 (length src) h (omega arith))

  pub read-IsValid :
      (n : ℕ) {out : List ℕ} {b' : Buf}
      → b.pos_a + n < u16_mod
      → read n b ≡ done out b'
      → IsValid b'
  read-IsValid n h e = ground (arith, read_exact n h)

  pub write-IsValid :
      (src : List ℕ) {b' : Buf}
      → b.pos_b + length src < u16_mod
      → write src b ≡ done tt b'
      → IsValid b'
  write-IsValid src h e = ground (arith, write_exact src h, length-splice b.bytes b.pos_b src)

-- Behind 2^16 the check is made on the wrapped sum: a valid buffer whose read cursor and size add
-- up to 2^16 or more reads outside its memory, where the wrapped sum is within its size.
pub read-fault_of_wrap :
    {b : Buf} (n : ℕ)
    → IsValid b
    → n < u16_mod
    → length b.bytes < u16_mod
    → u16_mod ≤ b.pos_a + n
    → b.pos_a + n ≤ u16_mod + b.size
    → read n b ≡ fault
unfolding read
read-fault_of_wrap {b} n v h l w k =
    ground (arith, load-eq-slice b.bytes b.pos_a n, slice-none b.bytes b.pos_a n)
