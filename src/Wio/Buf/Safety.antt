-- ===== src/Wio/Buf/Safety.antt =====
-- Clients of the buffers of client/wisp-base/wio/buf.c: any sequence of reads, writes and copies.
use wisp_ert.Common.{
  ℕ, ◌+◌, ◌<◌, ◌≡◌, ◌∙◌, if◌then◌else◌, refl, List, [], ◌∷◌, arith, length, take, drop, u16_mod,
  done, fail, fault, out_of_fuel, M, ◌>>◌, pure, on, leb, Bool-cases, inl, inr,
}
use wisp_ert.Common.Memory.{splice, length-splice}
use wisp_ert.Wio.Buf.{Buf, read, write, copy}
use wisp_ert.Wio.Buf.Bounds.{IsValid, read_exact, write_exact}
use wisp_ert.Wio.Buf.Transfer.{written, written-IsValid, copy_exact}

-- what a client does with two buffers
pub data Call : Type 0 where
  read_first : ℕ → Call
  write_first : List ℕ → Call
  read_second : ℕ → Call
  write_second : List ℕ → Call
  copy_over : ℕ → Call

-- a client goes on when a call returns a status other than WIO_OK
abbrev pub tolerate {ℓ} : {A : Type ℓ} → M (Buf × Buf) A → M (Buf × Buf) (Unit {0})
tolerate call s = elim (call s) [
  | done _ s' ↦ done tt s'
  | fail _ s' ↦ done tt s'
  | fault ↦ fault
  | out_of_fuel ↦ out_of_fuel
]

abbrev pub on_first {ℓ} : {A : Type ℓ} → M Buf A → M (Buf × Buf) A
on_first = on (λ s. s.0) (λ s b. (b, s.1))

abbrev pub on_second {ℓ} : {A : Type ℓ} → M Buf A → M (Buf × Buf) A
on_second = on (λ s. s.1) (λ s b. (s.0, b))

abbrev pub perform : Call → M (Buf × Buf) (Unit {0})
perform (read_first n) = tolerate (on_first (read n))
perform (write_first src) = tolerate (on_first (write src))
perform (read_second n) = tolerate (on_second (read n))
perform (write_second src) = tolerate (on_second (write src))
perform (copy_over n) = tolerate (copy n)

abbrev pub perform_all : List Call → M (Buf × Buf) (Unit {0})
perform_all [] = pure tt
perform_all (c ∷ cs) = perform c >> perform_all cs

-- A call of buffers of `size` and `size'` bytes asks for so few bytes that a cursor within each buffer
-- that it uses, and the bytes, stay below 2^16.
abbrev pub Small : (size size' : ℕ) → Call → Type 0
Small size size' (read_first n) = size + n < u16_mod
Small size size' (write_first src) = size + length src < u16_mod
Small size size' (read_second n) = size' + n < u16_mod
Small size size' (write_second src) = size' + length src < u16_mod
Small size size' (copy_over n) = (size + n < u16_mod) × (size' + n < u16_mod)

abbrev pub AllSmall : (size size' : ℕ) → List Call → Type 0
AllSmall size size' [] = Unit
AllSmall size size' (c ∷ cs) = Small size size' c × AllSmall size size' cs

-- both buffers are valid, of `size` and of `size'` bytes
pub record BothValid (size size' : ℕ) (s : Buf × Buf) : Type 0 where
  pub first : IsValid s.0
  pub second : IsValid s.1
  pub first_size : s.0.size ≡ size
  pub second_size : s.1.size ≡ size'

-- a buffer after a read, and after a write, of valid size or not
abbrev pub read_on : ℕ → Buf → Buf
read_on n b = if leb (b.pos_a + n) b.size then record b { pos_a = b.pos_a + n } else b

abbrev pub write_on : List ℕ → Buf → Buf
write_on src b = if leb (b.pos_b + length src) b.size then written b src else b

read_on-IsValid : (n : ℕ) (b : Buf) → IsValid b → IsValid (read_on n b)
read_on-IsValid n b v = elim (Bool-cases (leb (b.pos_a + n) b.size)) [
  | inl e ↦ rw e (record {
    pos_a_in = ground arith;
    pos_b_in = v.pos_b_in;
    size_in = v.size_in;
    small = v.small;
  })
  | inr e ↦ rw e v
]

write_on-IsValid : (src : List ℕ) (b : Buf) → IsValid b → IsValid (write_on src b)
write_on-IsValid src b v = elim (Bool-cases (leb (b.pos_b + length src) b.size)) [
  | inl e ↦ rw e (written-IsValid src v (ground arith))
  | inr e ↦ rw e v
]

read_on-size : (n : ℕ) (b : Buf) → (read_on n b).size ≡ b.size
read_on-size n b = ground arith

write_on-size : (src : List ℕ) (b : Buf) → (write_on src b).size ≡ b.size
write_on-size src b = ground arith

module _ (size size' : ℕ) where
  perform-BothValid :
      (c : Call) (s : Buf × Buf)
      → BothValid size size' s
      → Small size size' c
      → (s' : Buf × Buf) × (perform c s ≡ done tt s') × BothValid size size' s'
  perform-BothValid (read_first n) (b, d) v small = (
    (read_on n b, d),
    ground (arith, read_exact v.first n (omega (arith, v.first.pos_a_in, v.first_size))),
    record {
      first = read_on-IsValid n b v.first;
      second = v.second;
      first_size = read_on-size n b ∙ v.first_size;
      second_size = v.second_size;
    },
  )
  perform-BothValid (write_first src) (b, d) v small = (
    (write_on src b, d),
    ground (arith, write_exact v.first src (omega (arith, v.first.pos_b_in, v.first_size))),
    record {
      first = write_on-IsValid src b v.first;
      second = v.second;
      first_size = write_on-size src b ∙ v.first_size;
      second_size = v.second_size;
    },
  )
  perform-BothValid (read_second n) (b, d) v small = (
    (b, read_on n d),
    ground (arith, read_exact v.second n (omega (arith, v.second.pos_a_in, v.second_size))),
    record {
      first = v.first;
      second = read_on-IsValid n d v.second;
      first_size = v.first_size;
      second_size = read_on-size n d ∙ v.second_size;
    },
  )
  perform-BothValid (write_second src) (b, d) v small = (
    (b, write_on src d),
    ground (arith, write_exact v.second src (omega (arith, v.second.pos_b_in, v.second_size))),
    record {
      first = v.first;
      second = write_on-IsValid src d v.second;
      first_size = v.first_size;
      second_size = write_on-size src d ∙ v.second_size;
    },
  )
  perform-BothValid (copy_over n) (b, d) v small =
      let exact =
        copy_exact n v.first v.second (omega (arith, v.first.pos_a_in, v.first_size, small.0))
          (omega (arith, v.second.pos_b_in, v.second_size, small.1)) in
      elim (Bool-cases (leb (b.pos_a + n) b.size)) [
        | inr e ↦ ((b, d), ground (arith, exact), v)
        | inl e ↦ elim (Bool-cases (leb (d.pos_b + n) d.size)) [
          | inr f ↦ ((b, d), ground (arith, exact), v)
          | inl f ↦ (
            (
              record b { pos_a = b.pos_a + n },
              record d {
                bytes = splice d.bytes d.pos_b (take n (drop b.pos_a b.bytes));
                pos_b = d.pos_b + n;
              },
            ),
            ground (arith, exact),
            record {
              first = record {
                pos_a_in = ground arith;
                pos_b_in = v.first.pos_b_in;
                size_in = v.first.size_in;
                small = v.first.small;
              };
              second = record {
                pos_a_in = v.second.pos_a_in;
                pos_b_in = ground arith;
                size_in = omega (
                  arith,
                  v.second.size_in,
                  length-splice d.bytes d.pos_b (take n (drop b.pos_a b.bytes)),
                );
                small = v.second.small;
              };
              first_size = v.first_size;
              second_size = v.second_size;
            },
          )
        ]
      ]

  -- A sequence of reads, writes and copies on two valid buffers, of any two sizes, in which each call asks
  -- for so few bytes that the size of each buffer that it uses and they stay below 2^16, does not
  -- access memory outside of the buffers, also where calls are refused in between; and both buffers
  -- stay valid and keep their sizes.
  pub perform_all-BothValid :
      (cs : List Call) (s : Buf × Buf)
      → BothValid size size' s
      → AllSmall size size' cs
      → (s' : Buf × Buf) × (perform_all cs s ≡ done tt s') × BothValid size size' s'
  perform_all-BothValid [] s v small = (s, refl, v)
  perform_all-BothValid (c ∷ cs) s v small =
      let (t, e, v') = perform-BothValid c s v small.0 in
      let (u, f, v'') = perform_all-BothValid cs t v' small.1 in (u, rw e f, v'')
