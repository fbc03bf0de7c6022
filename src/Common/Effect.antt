-- ===== src/Common/Effect.antt =====
-- What a call does to the state that it is given. A `wio_status_t` other than `WIO_OK` ends the
-- caller through `WIO_TRY`, and the state keeps what was written before it.
use Prim.Native.Nat.{ℕ}
use mathlib.Core.Path.{◌≡◌, refl}
use mathlib.Core.Option.{Option, none, some}

pub data Outcome {ℓ κ} (S : Type ℓ) (A : Type κ) : Type (ℓ ⊔ κ) where
  -- `WIO_OK`, with what went out through the pointer arguments
  done : A → S → Outcome S A
  -- any other status
  fail : ℕ → S → Outcome S A
  -- an access outside the memory that the program owns, or a division by zero
  fault : Outcome S A
  -- a loop of the model that used up its fuel
  out_of_fuel : Outcome S A

abbrev pub M {ℓ κ} : Type ℓ → Type κ → Type (ℓ ⊔ κ)
M S A = S → Outcome S A

abbrev pub and_then {ℓ κ ι} :
    {S : Type ℓ} {A : Type κ} {B : Type ι} → Outcome S A → (A → M S B) → Outcome S B
and_then (done a s) f = f a s
and_then (fail e s) f = fail e s
and_then fault f = fault
and_then out_of_fuel f = out_of_fuel

infixl 5 ◌>>=◌ ◌>>◌
abbrev pub ◌>>=◌ {ℓ κ ι} : {S : Type ℓ} {A : Type κ} {B : Type ι} → M S A → (A → M S B) → M S B
m >>= f = λ s. and_then (m s) f

abbrev pub ◌>>◌ {ℓ κ ι} : {S : Type ℓ} {A : Type κ} {B : Type ι} → M S A → M S B → M S B
m >> k = m >>= λ _. k

abbrev pub pure {ℓ κ} : {S : Type ℓ} {A : Type κ} → A → M S A
pure = done

abbrev pub get {ℓ} : {S : Type ℓ} → M S S
get s = done s s

abbrev pub modify {ℓ} : {S : Type ℓ} → (S → S) → M S (Unit {0})
modify f s = done tt (f s)

-- A call on a part of the state: `&self->part`.
abbrev pub put_back {ℓ κ ι} :
    {S : Type ℓ} {T : Type κ} {A : Type ι} → (T → S) → Outcome T A → Outcome S A
put_back put (done a t) = done a (put t)
put_back put (fail e t) = fail e (put t)
put_back put fault = fault
put_back put out_of_fuel = out_of_fuel

abbrev pub on {ℓ κ ι} :
    {S : Type ℓ} {T : Type κ} {A : Type ι} → (S → T) → (S → T → S) → M T A → M S A
on part put m s = put_back (put s) (m (part s))

-- A call on an object of the caller's own frame; a status that ends the caller ends it too.
abbrev pub local {ℓ κ ι} : {S : Type ℓ} {T : Type κ} {A : Type ι} → M T A → T → M S (A × T)
local m t s = elim (m t) [
  | done a t' ↦ done (a, t') s
  | fail e _ ↦ fail e s
  | fault ↦ fault
  | out_of_fuel ↦ out_of_fuel
]

-- Memory that may not be there.
abbrev pub present {ℓ κ} : {S : Type ℓ} {A : Type κ} → Option A → M S A
present none s = fault
present (some a) s = done a s

abbrev pub faulting {ℓ κ} : {S : Type ℓ} {A : Type κ} → M S A
faulting s = fault

abbrev pub starve {ℓ κ} : {S : Type ℓ} {A : Type κ} → M S A
starve s = out_of_fuel

-- Inversion of a chain that went through.
pub and_then-eq-done {ℓ κ ι} :
    {S : Type ℓ} {A : Type κ} {B : Type ι} (o : Outcome S A) (f : A → M S B) {b : B} {s' : S}
    → and_then o f ≡ done b s'
    → (a : A) × (s : S) × (o ≡ done a s) × (f a s ≡ done b s')
and_then-eq-done (done a s) f e = (a, s, refl, e)
and_then-eq-done (fail x s) f e = cc
and_then-eq-done fault f e = cc
and_then-eq-done out_of_fuel f e = cc
