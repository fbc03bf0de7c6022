-- ===== src/Base/Fram/RoundTrip.antt =====
-- What is written to a segment of client/wisp-base/nvm/fram.c and read back.
use wisp_ert.Common.{ℕ, zero, suc, ◌+◌, ◌*◌, ◌<◌, ◌≤◌, ◌≡◌, ◌⊎◌, refl, sym, arith}
use wisp_ert.Base.Fram.{
  Memory, at_offset, info_a_start, info_b_start, info_c_start, info_d_start, read_char, read_int,
  read_long,
}
use wisp_ert.Base.Fram.Copy.{
  Width, char, int, long, size_of, fetch, write_array, AllBytes, Copied, span, write_array-Copied,
}
use wisp_ert.Base.Fram.Segments.{
  write_info_a_long, write_info_a_int, write_info_a_char, write_info_b_long, write_info_b_int,
  write_info_b_char, write_info_c_long, write_info_c_int, write_info_c_char, write_info_d_long,
  write_info_d_int, write_info_d_char, read_info_a_long, read_info_a_int, read_info_a_char,
  read_info_b_long, read_info_b_int, read_info_b_char, read_info_c_long, read_info_c_int,
  read_info_c_char, read_info_d_long, read_info_d_int, read_info_d_char,
}

pub data Segment : Type 0 where
  info_a : Segment
  info_b : Segment
  info_c : Segment
  info_d : Segment

abbrev pub start_of : Segment → ℕ
start_of info_a = info_a_start
start_of info_b = info_b_start
start_of info_c = info_c_start
start_of info_d = info_d_start

-- the functions of the segments, for each type
abbrev pub write_info : Segment → Width → Memory → (address_offset number write_data : ℕ) → Memory
write_info info_a char = write_info_a_char
write_info info_a int = write_info_a_int
write_info info_a long = write_info_a_long
write_info info_b char = write_info_b_char
write_info info_b int = write_info_b_int
write_info info_b long = write_info_b_long
write_info info_c char = write_info_c_char
write_info info_c int = write_info_c_int
write_info info_c long = write_info_c_long
write_info info_d char = write_info_d_char
write_info info_d int = write_info_d_int
write_info info_d long = write_info_d_long

abbrev pub read_info : Segment → Width → Memory → (address_offset : ℕ) → ℕ
read_info info_a char = read_info_a_char
read_info info_a int = read_info_a_int
read_info info_a long = read_info_a_long
read_info info_b char = read_info_b_char
read_info info_b int = read_info_b_int
read_info info_b long = read_info_b_long
read_info info_c char = read_info_c_char
read_info info_c int = read_info_c_int
read_info info_c long = read_info_c_long
read_info info_d char = read_info_d_char
read_info info_d int = read_info_d_int
read_info info_d long = read_info_d_long

-- where an element stands
abbrev pub place : Segment → Width → ℕ → ℕ
place s w address_offset = start_of s + size_of w * address_offset

write_info-array :
    (s : Segment) (w : Width) (mem : Memory) (offset number src : ℕ)
    → write_info s w mem offset number src
      ≡ write_array w mem (at_offset (start_of s) (size_of w) offset) number src
unfolding write_info_a_long write_info_a_int write_info_a_char write_info_b_long write_info_b_int
    write_info_b_char write_info_c_long write_info_c_int write_info_c_char write_info_d_long
    write_info_d_int write_info_d_char
write_info-array info_a char mem offset number src = refl
write_info-array info_a int mem offset number src = refl
write_info-array info_a long mem offset number src = refl
write_info-array info_b char mem offset number src = refl
write_info-array info_b int mem offset number src = refl
write_info-array info_b long mem offset number src = refl
write_info-array info_c char mem offset number src = refl
write_info-array info_c int mem offset number src = refl
write_info-array info_c long mem offset number src = refl
write_info-array info_d char mem offset number src = refl
write_info-array info_d int mem offset number src = refl
write_info-array info_d long mem offset number src = refl

read_info-read :
    (s : Segment) (w : Width) (mem : Memory) (offset : ℕ)
    → read_info s w mem offset ≡ fetch w mem (at_offset (start_of s) (size_of w) offset)
unfolding read_info_a_long read_info_a_int read_info_a_char read_info_b_long read_info_b_int
    read_info_b_char read_info_c_long read_info_c_int read_info_c_char read_info_d_long
    read_info_d_int read_info_d_char
read_info-read info_a char mem offset = refl
read_info-read info_a int mem offset = refl
read_info-read info_a long mem offset = refl
read_info-read info_b char mem offset = refl
read_info-read info_b int mem offset = refl
read_info-read info_b long mem offset = refl
read_info-read info_c char mem offset = refl
read_info-read info_c int mem offset = refl
read_info-read info_c long mem offset = refl
read_info-read info_d char mem offset = refl
read_info-read info_d int mem offset = refl
read_info-read info_d long mem offset = refl

start_of-le : (s : Segment) → start_of s ≤ 6528
start_of-le info_a = omega arith
start_of-le info_b = omega arith
start_of-le info_c = omega arith
start_of-le info_d = omega arith

at_offset-place :
    (s : Segment) (w : Width) (offset : ℕ)
    → size_of w * offset ≤ 128
    → at_offset (start_of s) (size_of w) offset ≡ place s w offset
at_offset-place s w offset h = omega (arith, start_of-le s)

span-eq : (w : Width) (n : ℕ) → span w n ≡ size_of w * n
span-eq char zero = refl
span-eq char (suc n) = omega (arith, span-eq char n)
span-eq int zero = refl
span-eq int (suc n) = omega (arith, span-eq int n)
span-eq long zero = refl
span-eq long (suc n) = omega (arith, span-eq long n)

read-Copied :
    (w : Width) (mem mem' : Memory) (address size src k : ℕ)
    → Copied mem mem' address size src
    → address + size < 65536
    → src + size < 65536
    → k + size_of w ≤ size
    → fetch w mem' (address + k) ≡ fetch w mem (src + k)
unfolding read_char read_int read_long
read-Copied char mem mem' address size src k c f g h = c.inside k (omega arith)
read-Copied int mem mem' address size src k c f g h =
    ground (arith, c.inside k (omega arith), c.inside (k + 1) (omega arith))
read-Copied long mem mem' address size src k c f g h = ground (
  arith,
  c.inside k (omega arith),
  c.inside (k + 1) (omega arith),
  c.inside (k + 2) (omega arith),
  c.inside (k + 3) (omega arith),
)

-- the elements of an array, and its bytes, fit a segment and stand apart from where they come from
pub record Fits (s : Segment) (w : Width) (offset number src : ℕ) : Type 0 where
  pub room : size_of w * offset + size_of w * number ≤ 128
  pub source : src + size_of w * number < 65536
  pub apart :
      (place s w offset + size_of w * number ≤ src) ⊎ (src + size_of w * number ≤ place s w offset)

write_info-Copied :
    (s : Segment) (w : Width) (mem : Memory) (offset number src : ℕ)
    → AllBytes mem
    → Fits s w offset number src
    → Copied mem (write_info s w mem offset number src) (place s w offset) (size_of w * number) src
write_info-Copied s w mem offset number src h f =
    let le : size_of w * offset ≤ 128 = omega (arith, f.room) in
    rw
      (
        write_info-array s w mem offset number src,
        at_offset-place s w offset le,
        sym (span-eq w number),
      )
      (write_array-Copied w mem (place s w offset) number src h
        (omega (arith, span-eq w number, start_of-le s, f.room))
        (omega (arith, span-eq w number, f.source)) (rw (span-eq w number) f.apart))

element-place :
    (s : Segment) (w : Width) (offset i : ℕ)
    → size_of w * offset + size_of w * i ≤ 128
    → at_offset (start_of s) (size_of w) (offset + i) ≡ place s w offset + size_of w * i
element-place s char offset i h = omega (arith, start_of-le s)
element-place s int offset i h = omega (arith, start_of-le s)
element-place s long offset i h = omega (arith, start_of-le s)

element-within :
    (w : Width) (i number : ℕ) → i < number → size_of w * i + size_of w ≤ size_of w * number
element-within char i number h = omega arith
element-within int i number h = omega arith
element-within long i number h = omega arith

-- For each segment A to D and each of the types long, int and char: after `FRAM_write_infoX_T` of
-- an array that fits the segment and stands apart from its place there, `FRAM_read_infoX_T` gives
-- back each element as it stood in the source, and each byte outside of the place is as it was.
pub write_info-read_info :
    (s : Segment) (w : Width) (mem : Memory) (offset number src i other : ℕ)
    → AllBytes mem
    → Fits s w offset number src
    → i < number
    → (other < place s w offset) ⊎ (place s w offset + size_of w * number ≤ other)
    → (read_info s w (write_info s w mem offset number src) (offset + i)
        ≡ fetch w mem (src + size_of w * i))
      × (write_info s w mem offset number src other ≡ mem other)
write_info-read_info s w mem offset number src i other h f l o =
    let c = write_info-Copied s w mem offset number src h f in
    (
      rw
          (
            read_info-read s w (write_info s w mem offset number src) (offset + i),
            element-place s w offset i (omega (arith, element-within w i number l, f.room)),
          )
          (read-Copied w mem (write_info s w mem offset number src) (place s w offset)
            (size_of w * number) src (size_of w * i) c (omega (arith, start_of-le s, f.room))
            f.source (element-within w i number l)),
      c.outside other o,
    )
