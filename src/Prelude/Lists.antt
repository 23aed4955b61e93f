-- ===== src/Prelude/Lists.antt =====
-- Lists measured and indexed by native numbers, under the library's names.
use Prim.Native.Nat.{◌≤◌, ℕ, zero, suc, ◌+◌, ◌-◌, ◌<◌, min}
use mathlib.Core.Path.{◌≡◌, refl, ap, subst}
use mathlib.Core.Logic.{◌≢◌}
use mathlib.Core.Bool.{Bool, true, false}
use mathlib.Core.List.{List, [], ◌∷◌, ◌++◌}
use mathlib.Core.Option.{Option, none, some, some-injective}
use native.Mathlib.Omega.{arith}

module _ {ℓ} {A : Type ℓ} where
  abbrev pub length : List A → ℕ
  length [] = 0
  length (x ∷ xs) = suc (length xs)

  abbrev pub get_elem? : List A → ℕ → Option A
  get_elem? [] i = none
  get_elem? (x ∷ xs) zero = some x
  get_elem? (x ∷ xs) (suc i) = get_elem? xs i

  -- A write out of bounds changes nothing.
  abbrev pub set : List A → ℕ → A → List A
  set [] i v = []
  set (x ∷ xs) zero v = v ∷ xs
  set (x ∷ xs) (suc i) v = x ∷ set xs i v

  abbrev pub take : ℕ → List A → List A
  take zero xs = []
  take (suc n) [] = []
  take (suc n) (x ∷ xs) = x ∷ take n xs

  abbrev pub drop : ℕ → List A → List A
  drop zero xs = xs
  drop (suc n) [] = []
  drop (suc n) (x ∷ xs) = drop n xs

  -- `Vec::is_empty`.
  abbrev pub is_empty : List A → Bool
  is_empty [] = true
  is_empty (_ ∷ _) = false

  -- `Vec::remove`; the index is in bounds wherever the program calls it.
  abbrev pub remove : List A → ℕ → List A
  remove [] i = []
  remove (x ∷ xs) zero = xs
  remove (x ∷ xs) (suc i) = x ∷ remove xs i

  pub length-append : (xs ys : List A) → length (xs ++ ys) ≡ length xs + length ys
  length-append [] ys = omega arith
  length-append (x ∷ xs) ys = omega (arith, length-append xs ys)

  pub length-take : (n : ℕ) (xs : List A) → length (take n xs) ≡ min n (length xs)
  length-take zero xs = omega arith
  length-take (suc n) [] = omega arith
  length-take (suc n) (x ∷ xs) = omega (arith, length-take n xs)

  pub length-drop : (n : ℕ) (xs : List A) → length (drop n xs) ≡ length xs - n
  length-drop zero xs = omega arith
  length-drop (suc n) [] = omega arith
  length-drop (suc n) (x ∷ xs) = omega (arith, length-drop n xs)

  pub length-remove : (xs : List A) (i : ℕ) → i < length xs → length (remove xs i) + 1 ≡ length xs
  length-remove [] i h = absurd (omega arith)
  length-remove (x ∷ xs) zero h = omega arith
  length-remove (x ∷ xs) (suc i) h = omega (arith, length-remove xs i (omega arith))

  pub length-set : (xs : List A) (i : ℕ) (v : A) → length (set xs i v) ≡ length xs
  length-set [] i v = refl
  length-set (x ∷ xs) zero v = refl
  length-set (x ∷ xs) (suc i) v = ap suc (length-set xs i v)

module _ {ℓ} {A : Type ℓ} where
  pub get_elem?-set_same :
      (xs : List A) (i : ℕ) (v : A) {x : A}
      → get_elem? xs i ≡ some x
      → get_elem? (set xs i v) i ≡ some v
  get_elem?-set_same [] i v e = cc
  get_elem?-set_same (x ∷ xs) zero v e = refl
  get_elem?-set_same (x ∷ xs) (suc i) v e = get_elem?-set_same xs i v e

  pub get_elem?-set_other :
      (xs : List A) (i j : ℕ) (v : A) → i ≢ j → get_elem? (set xs i v) j ≡ get_elem? xs j
  get_elem?-set_other [] i j v h = refl
  get_elem?-set_other (x ∷ xs) zero zero v h = absurd (h refl)
  get_elem?-set_other (x ∷ xs) zero (suc j) v h = refl
  get_elem?-set_other (x ∷ xs) (suc i) zero v h = refl
  get_elem?-set_other (x ∷ xs) (suc i) (suc j) v h =
      get_elem?-set_other xs i j v (λ e. h (ap suc e))

  pub get_elem?-set_past :
      (xs : List A) (i j : ℕ) (v : A) → get_elem? xs j ≡ none → get_elem? (set xs i v) j ≡ none
  get_elem?-set_past [] i j v e = e
  get_elem?-set_past (x ∷ xs) zero zero v e = cc
  get_elem?-set_past (x ∷ xs) zero (suc j) v e = e
  get_elem?-set_past (x ∷ xs) (suc i) zero v e = e
  get_elem?-set_past (x ∷ xs) (suc i) (suc j) v e = get_elem?-set_past xs i j v e

module _ {ℓ κ} {A : Type ℓ} where
  -- A predicate by recursion, which the tactics read and build.
  abbrev pub All : (A → Type κ) → List A → Type κ
  All P [] = Unit
  All P (x ∷ xs) = P x × All P xs

  pub All-append : (P : A → Type κ) (xs ys : List A) → All P xs → All P ys → All P (xs ++ ys)
  All-append P [] ys hx hy = hy
  All-append P (x ∷ xs) ys hx hy = (hx.0, All-append P xs ys hx.1 hy)

  pub All-remove : (P : A → Type κ) (xs : List A) (i : ℕ) → All P xs → All P (remove xs i)
  All-remove P [] i h = h
  All-remove P (x ∷ xs) zero h = h.1
  All-remove P (x ∷ xs) (suc i) h = (h.0, All-remove P xs i h.1)

  pub All-set : (P : A → Type κ) (xs : List A) (i : ℕ) (v : A) → All P xs → P v → All P (set xs i v)
  All-set P [] i v h p = h
  All-set P (x ∷ xs) zero v h p = (p, h.1)
  All-set P (x ∷ xs) (suc i) v h p = (h.0, All-set P xs i v h.1 p)

  pub All-get_elem? :
      (P : A → Type κ) (xs : List A) (i : ℕ) {x : A} → All P xs → get_elem? xs i ≡ some x → P x
  All-get_elem? P [] i h e = cc
  All-get_elem? P (x ∷ xs) zero h e = subst P (some-injective x _ e) h.0
  All-get_elem? P (x ∷ xs) (suc i) h e = All-get_elem? P xs i h.1 e

-- A weight summed over a list, and what one write changes of the sum.
module _ {ℓ} {A : Type ℓ} (w : A → ℕ) where
  abbrev pub sum_of : List A → ℕ
  sum_of [] = 0
  sum_of (x ∷ xs) = w x + sum_of xs

  pub sum_of-set :
      (xs : List A) (i : ℕ) {x : A} (v : A)
      → get_elem? xs i ≡ some x
      → sum_of (set xs i v) + w x ≡ sum_of xs + w v
  sum_of-set [] i v e = cc
  sum_of-set (y ∷ ys) zero {x} v e = let p : y ≡ x = some-injective y x e in rw p (omega arith)
  sum_of-set (y ∷ ys) (suc i) v e = omega (arith, sum_of-set ys i v e)

  pub sum_of-get_elem? : (xs : List A) (i : ℕ) {x : A} → get_elem? xs i ≡ some x → w x ≤ sum_of xs
  sum_of-get_elem? [] i e = cc
  sum_of-get_elem? (y ∷ ys) zero {x} e = let p : y ≡ x = some-injective y x e in rw p (omega arith)
  sum_of-get_elem? (y ∷ ys) (suc i) e = omega (arith, sum_of-get_elem? ys i e)
