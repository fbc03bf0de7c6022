-- ===== src/Common/Words.antt =====
-- Machine words of the MSP430, where `int` has 16 bits: `uint16_t` and `uint8_t` arithmetic.
use Prim.Native.Nat.{ℕ, ◌+◌, ◌-◌, ◌*◌, ◌/◌, ◌%◌, ◌<◌}
use mathlib.Core.Path.{◌≡◌}
use mathlib.Core.List.{List, [], ◌∷◌}
use native.Mathlib.Omega.{arith}

abbrev pub u16_mod : ℕ
u16_mod = 65536

abbrev pub u8_mod : ℕ
u8_mod = 256

-- `uint16_t` addition, subtraction and multiplication: they wrap.
abbrev pub add16 : ℕ → ℕ → ℕ
add16 a b = (a + b) % u16_mod

abbrev pub sub16 : ℕ → ℕ → ℕ
sub16 a b = (a + u16_mod - b) % u16_mod

abbrev pub mul16 : ℕ → ℕ → ℕ
mul16 a b = a * b % u16_mod

-- A conversion to `uint8_t`, and `uint8_t` addition.
abbrev pub to_u8 : ℕ → ℕ
to_u8 a = a % u8_mod

abbrev pub add8 : ℕ → ℕ → ℕ
add8 a b = (a + b) % u8_mod

-- A `uint16_t` in memory: the MSP430 is little-endian.
abbrev pub bytes16 : ℕ → List ℕ
bytes16 w = w % u8_mod ∷ (w / u8_mod) % u8_mod ∷ []

abbrev pub word16 : List ℕ → ℕ
word16 (a ∷ b ∷ _) = a + b * u8_mod
word16 _ = 0

pub word16-bytes16 : (w : ℕ) → w < u16_mod → word16 (bytes16 w) ≡ w
word16-bytes16 w h = omega arith

-- every element is a byte
abbrev pub AllBytes : List ℕ → Type 0
AllBytes [] = Unit
AllBytes (x ∷ xs) = (x < u8_mod) × AllBytes xs
