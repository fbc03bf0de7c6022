-- ===== src/Wio/Buf.antt =====
-- client/wisp-base/wio/buf.c and buf.h: a byte buffer with a read cursor and a write cursor.
pub mod Bounds
pub mod Transfer
pub mod Unread
pub mod Circular
pub mod Safety
use wisp_ert.Common.{
  ℕ, ◌+◌, Option, none, some, List, [], ◌∷◌, Bool, ltb, leb, ◌==◌, if◌then◌else◌, length, get_elem?,
  add16, sub16, Outcome, done, fail, fault, out_of_fuel, M,
}
use wisp_ert.Common.Memory.{slice, store}
use wisp_ert.Wio.Status.{out_of_range, no_memory}

-- `wio_buf_t`. `bytes` is the memory from `buffer` to the end of the object that it points into, so
-- an access behind it is a fault. `size` is what the program takes the size to be.
pub record Buf : Type 0 where
  pub bytes : List ℕ
  pub size : ℕ
  pub pos_a : ℕ
  pub pos_b : ℕ

-- `wio_buf_init`
unfoldable pub init : List ℕ → ℕ → Buf
init buffer size = record { bytes = buffer; size = size; pos_a = 0; pos_b = 0 }

-- `wio_buf_alloc_init`. The first argument is what `malloc` gives for a size.
unfoldable pub alloc_init {ℓ} : {S : Type ℓ} → (ℕ → Option (List ℕ)) → ℕ → M S Buf
unfolding init
alloc_init malloc size s = elim (malloc size) [
  | none ↦ fail no_memory s
  | some mem ↦ done (init mem size) s
]

-- `*dst = *src;` and the same for a word, byte by byte
unfoldable pub load_byte : List ℕ → ℕ → Option (List ℕ)
load_byte mem at = elim (get_elem? mem at) [ none ↦ none | some a ↦ some (a ∷ []) ]

unfoldable pub load_word : List ℕ → ℕ → Option (List ℕ)
load_word mem at = elim (get_elem? mem at) [
  | none ↦ none
  | some a ↦ elim (get_elem? mem (at + 1)) [ none ↦ none | some b ↦ some (a ∷ b ∷ []) ]
]

-- The `switch (size)` of `wio_read` and `wio_write`: a byte, a word, or `memcpy`.
unfoldable pub load : List ℕ → ℕ → ℕ → Option (List ℕ)
load mem at n =
    if n == 1 then load_byte mem at else if n == 2 then load_word mem at else slice mem at n

-- `wio_read`: the bytes go out through `data`.
unfoldable pub read : ℕ → M Buf (List ℕ)
unfolding load
read n b =
    if ltb b.size (add16 b.pos_a n) then fail out_of_range b else elim (load b.bytes b.pos_a n) [
      | none ↦ fault
      | some out ↦ done out (record b { pos_a = add16 b.pos_a n })
    ]

-- `wio_write` of the `n` bytes at index `at` of the memory `src`.
unfoldable pub write_from : List ℕ → ℕ → ℕ → M Buf (Unit {0})
unfolding load
write_from src at n b =
    if ltb b.size (add16 b.pos_b n) then fail out_of_range b else elim (load src at n) [
      | none ↦ fault
      | some out ↦ elim (store b.bytes b.pos_b out) [
        | none ↦ fault
        | some mem ↦ done tt (record b { bytes = mem; pos_b = add16 b.pos_b n })
      ]
    ]

-- `wio_write` of a whole object
unfoldable pub write : List ℕ → M Buf (Unit {0})
unfolding write_from
write src = write_from src 0 (length src)

-- `wio_copy`; the state holds `*from` and `*to`.
unfoldable pub copy : ℕ → M (Buf × Buf) (Unit {0})
unfolding write_from
copy n (src, dst) =
    if ltb src.size (add16 src.pos_a n)
    then fail out_of_range (src, dst)
    else elim (write_from src.bytes src.pos_a n dst) [
      | done _ dst' ↦ done tt (record src { pos_a = add16 src.pos_a n }, dst')
      | fail e dst' ↦ fail e (src, dst')
      | fault ↦ fault
      | out_of_fuel ↦ out_of_fuel
    ]

-- `wio_alloc`: the pointer that goes out is an index of the buffer's memory.
unfoldable pub alloc : ℕ → M Buf ℕ
alloc n b =
    let start = if leb b.size (add16 b.pos_b n) then 0 else b.pos_b in
    done start (record b { pos_b = add16 start n })

-- `wio_free`
unfoldable pub free : ℕ → M Buf (Unit {0})
free n b =
    let start = if ltb (sub16 b.size b.pos_a) n then 0 else b.pos_a in
    done tt (record b { pos_a = add16 start n })
