-- ===== src/Outcome.antt =====
-- `anyhow::Result`: a value, or the error that ends the caller by `?`.
use ripfuzz.Prelude.{◌≡◌, refl, Option, none, some}

pub data Error : Type 0 where
  -- an error that a callee outside this model returned
  foreign : Error
  -- `ensure!(!handlers.is_empty(), ..)` of `Sequence::random`
  no_handlers : Error
  missing_coverage missing_result reverted undecodable : Error
  -- a slice, an index or an arithmetic operation that panics
  panicked : Error

pub data Result {ℓ} (A : Type ℓ) : Type ℓ where
  ok : A → Result A
  err : Error → Result A

infixl 5 ◌>>=◌
abbrev pub ◌>>=◌ {ℓ κ} : {A : Type ℓ} {B : Type κ} → Result A → (A → Result B) → Result B
ok a >>= f = f a
err e >>= f = err e

abbrev pub context {ℓ} : {A : Type ℓ} → Error → Option A → Result A
context e none = err e
context e (some a) = ok a

pub ok-injective {ℓ} : {A : Type ℓ} {a b : A} → ok a ≡ ok b → a ≡ b
ok-injective e = cc

-- What a block that returned went through: a first value, and the rest of the block from there.
pub bind-eq-ok {ℓ κ} :
    {A : Type ℓ} {B : Type κ} {y : B} (step : Result A) (rest : A → Result B)
    → (step >>= rest) ≡ ok y
    → (x : A) × (step ≡ ok x) × (rest x ≡ ok y)
bind-eq-ok (err _) rest returned = cc
bind-eq-ok (ok x) rest returned = (x, refl, returned)

-- A computation returns a value of which `P` holds.
abbrev pub Returns {ℓ} : {A : Type ℓ} → Result A → (A → Type 0) → Type 0
Returns (ok a) P = P a
Returns (err e) P = ⊥

pub Returns-bind {ℓ κ} :
    {A : Type ℓ} {B : Type κ} (m : Result A) (f : A → Result B) (P : A → Type 0) (Q : B → Type 0)
    → Returns m P
    → ((a : A) → P a → Returns (f a) Q)
    → Returns (m >>= f) Q
Returns-bind (ok a) f P Q p g = g a p
Returns-bind (err e) f P Q p g = absurd p

pub Returns-map {ℓ} :
    {A : Type ℓ} (m : Result A) (P Q : A → Type 0)
    → ((a : A) → P a → Q a)
    → Returns m P
    → Returns m Q
Returns-map (ok a) P Q f p = f a p
Returns-map (err e) P Q f p = absurd p
