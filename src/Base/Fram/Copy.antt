-- ===== src/Base/Fram/Copy.antt =====
-- What the copies of client/wisp-base/nvm/fram.c leave at each address.
use wisp_ert.Common.{
  ℕ, zero, suc, ◌+◌, ◌-◌, ◌<◌, ◌≤◌, ◌≡◌, ◌⊎◌, inl, inr, refl, ap, arith, ltb, add16, Bool-cases,
  ◌∙◌,
}
use wisp_ert.Base.Fram.{
  Memory, read_char, read_int, read_long, put_char, put_int, put_long, write_char_array,
  write_int_array, write_long_array,
}

-- the types of the elements
pub data Width : Type 0 where
  char : Width
  int : Width
  long : Width

abbrev pub size_of : Width → ℕ
size_of char = 1
size_of int = 2
size_of long = 4

abbrev pub fetch : Width → Memory → ℕ → ℕ
fetch char = read_char
fetch int = read_int
fetch long = read_long

abbrev put : Width → Memory → (address value : ℕ) → Memory
put char = put_char
put int = put_int
put long = put_long

abbrev pub write_array : Width → Memory → (address number write_data : ℕ) → Memory
write_array char = write_char_array
write_array int = write_int_array
write_array long = write_long_array

abbrev pub AllBytes : Memory → Type 0
AllBytes mem = (a : ℕ) → mem a < 256

-- a range that has been copied, and the rest of the memory
pub record Copied (mem mem' : Memory) (address size src : ℕ) : Type 0 where
  pub inside : (k : ℕ) → k < size → mem' (address + k) ≡ mem (src + k)
  pub outside : (a : ℕ) → ((a < address) ⊎ (address + size ≤ a)) → mem' a ≡ mem a

-- one element of each type
abbrev moved : Width → Memory → (address src : ℕ) → Memory
moved w mem address src = put w mem address (fetch w mem src)

char-inside :
    (mem : Memory) (address src k : ℕ)
    → AllBytes mem
    → address + 1 ≤ 65536
    → src + 1 ≤ 65536
    → k < 1
    → moved char mem address src (address + k) ≡ mem (src + k)
unfolding put_char read_char
char-inside mem address src zero h f g l = ground (arith, h src)
char-inside mem address src (suc k) h f g l = absurd (omega arith)

int-inside :
    (mem : Memory) (address src k : ℕ)
    → AllBytes mem
    → address + 2 ≤ 65536
    → src + 2 ≤ 65536
    → k < 2
    → moved int mem address src (address + k) ≡ mem (src + k)
unfolding put_int read_int
int-inside mem address src zero h f g l = ground (arith, h src, h (src + 1))
int-inside mem address src (suc zero) h f g l = ground (arith, h src, h (src + 1))
int-inside mem address src (suc (suc k)) h f g l = absurd (omega arith)

long-inside :
    (mem : Memory) (address src k : ℕ)
    → AllBytes mem
    → address + 4 ≤ 65536
    → src + 4 ≤ 65536
    → k < 4
    → moved long mem address src (address + k) ≡ mem (src + k)
unfolding put_long put_int read_long read_int
long-inside mem address src zero h f g l =
    ground (arith, h src, h (src + 1), h (src + 2), h (src + 3))
long-inside mem address src (suc zero) h f g l =
    ground (arith, h src, h (src + 1), h (src + 2), h (src + 3))
long-inside mem address src (suc (suc zero)) h f g l =
    ground (arith, h src, h (src + 1), h (src + 2), h (src + 3))
long-inside mem address src (suc (suc (suc zero))) h f g l =
    ground (arith, h src, h (src + 1), h (src + 2), h (src + 3))
long-inside mem address src (suc (suc (suc (suc k)))) h f g l = absurd (omega arith)

moved-outside :
    (w : Width) (mem : Memory) (address src a : ℕ)
    → address + size_of w ≤ 65536
    → (a < address) ⊎ (address + size_of w ≤ a)
    → moved w mem address src a ≡ mem a
unfolding put_char put_int put_long
moved-outside char mem address src a f o = ground arith
moved-outside int mem address src a f o = ground arith
moved-outside long mem address src a f o = ground arith

moved-AllBytes :
    (w : Width) (mem : Memory) (address src : ℕ) → AllBytes mem → AllBytes (moved w mem address src)
unfolding put_char put_int put_long
moved-AllBytes char mem address src h a = ground (arith, h a)
moved-AllBytes int mem address src h a = ground (arith, h a)
moved-AllBytes long mem address src h a = ground (arith, h a)

moved-Copied :
    (w : Width) (mem : Memory) (address src : ℕ)
    → AllBytes mem
    → address + size_of w ≤ 65536
    → src + size_of w ≤ 65536
    → Copied mem (moved w mem address src) address (size_of w) src
moved-Copied char mem address src h f g = record {
  inside = λ k. char-inside mem address src k h f g;
  outside = λ a. moved-outside char mem address src a f;
}
moved-Copied int mem address src h f g = record {
  inside = λ k. int-inside mem address src k h f g;
  outside = λ a. moved-outside int mem address src a f;
}
moved-Copied long mem address src h f g = record {
  inside = λ k. long-inside mem address src k h f g;
  outside = λ a. moved-outside long mem address src a f;
}

-- the bytes of a number of elements
abbrev pub span : Width → ℕ → ℕ
span w zero = 0
span w (suc n) = size_of w + span w n

Copied-join :
    {mem mem1 mem2 : Memory} (address size1 size2 src : ℕ)
    → (address + (size1 + size2) ≤ src) ⊎ (src + (size1 + size2) ≤ address)
    → Copied mem mem1 address size1 src
    → Copied mem1 mem2 (address + size1) size2 (src + size1)
    → Copied mem mem2 address (size1 + size2) src
Copied-join {mem} {mem1} {mem2} address size1 size2 src apart c1 c2 = record {
  inside = λ k h. elim (Bool-cases (ltb k size1)) [
    | inl first ↦ c2.outside (address + k) (inl (ground arith)) ∙ c1.inside k (ground arith)
    | inr second ↦
        ap mem2 (let e : address + k ≡ (address + size1) + (k - size1) = ground arith in e)
        ∙ c2.inside (k - size1) (ground arith)
        ∙ ap mem1 (let e : (src + size1) + (k - size1) ≡ src + k = ground arith in e)
        ∙ c1.outside (src + k) (ground arith)
  ];
  outside = λ a o. c2.outside a (ground arith) ∙ c1.outside a (ground arith);
}

array-step :
    (w : Width) (mem : Memory) (address n src : ℕ)
    → write_array w mem address (suc n) src
      ≡ write_array w
          (moved w mem address src)
          (add16 address (size_of w))
          n
          (add16 src (size_of w))
unfolding write_char_array write_int_array write_long_array
array-step char mem address n src = refl
array-step int mem address n src = refl
array-step long mem address n src = refl

array-none : (w : Width) (mem : Memory) (address src : ℕ) → write_array w mem address 0 src ≡ mem
unfolding write_char_array write_int_array write_long_array
array-none char mem address src = refl
array-none int mem address src = refl
array-none long mem address src = refl

-- A copy of an array to a place apart from it.
pub write_array-Copied :
    (w : Width) (mem : Memory) (address n src : ℕ)
    → AllBytes mem
    → address + span w n < 65536
    → src + span w n < 65536
    → (address + span w n ≤ src) ⊎ (src + span w n ≤ address)
    → Copied mem (write_array w mem address n src) address (span w n) src
write_array-Copied w mem address zero src h f g apart =
    rw (array-none w mem address src)
      (record { inside = λ k l. absurd (omega arith); outside = λ a o. refl })
write_array-Copied w mem address (suc n) src h f g apart =
    let ea : add16 address (size_of w) ≡ address + size_of w = omega arith in
    let es : add16 src (size_of w) ≡ src + size_of w = omega arith in
    rw (array-step w mem address n src, ea, es)
      (Copied-join address (size_of w) (span w n) src apart
        (moved-Copied w mem address src h (omega arith) (omega arith))
        (write_array-Copied w (moved w mem address src) (address + size_of w) n (src + size_of w)
          (moved-AllBytes w mem address src h) (omega arith) (omega arith) (ground arith)))
