-- ===== src/Rng/Draw.antt =====
-- Code that draws from a generator and may return an error: the generator moves on in either case.
use ripfuzz.Prelude.{◌≡◌, refl, arith}
use ripfuzz.Outcome.{Result, ok, err}

abbrev pub Draw : Type 0 → Type 0 → Type 0
Draw G A = G → Result A × G

module _ {G A : Type 0} where
  abbrev pub pure : A → Draw G A
  pure a g = (ok a, g)

  abbrev pub lift : Result A → Draw G A
  lift r g = (r, g)

  abbrev pub draw : (G → A × G) → Draw G A
  draw f g = let (a, g') = f g in (ok a, g')

module _ {G A B : Type 0} where
  abbrev continue : (A → Draw G B) → Result A × G → Result B × G
  continue f (ok a, g) = f a g
  continue f (err e, g) = (err e, g)

  infixl 5 ◌>>=◌
  abbrev pub ◌>>=◌ : Draw G A → (A → Draw G B) → Draw G B
  ◌>>=◌ m f g = continue f (m g)

  -- A block that returned a value ran its first step to a value.
  pub bind-eq-ok :
      (m : Draw G A) (f : A → Draw G B) (g : G) {b : B}
      → ((m >>= f) g).0 ≡ ok b
      → (a : A) × ((m g).0 ≡ ok a) × ((f a (m g).1).0 ≡ ok b)
  bind-eq-ok m f g h = go (m g) h
    where
      go :
          (p : Result A × G) {b : B}
          → (continue f p).0 ≡ ok b
          → (a : A) × (p.0 ≡ ok a) × ((f a p.1).0 ≡ ok b)
      go (ok a, g') h = (a, refl, h)
      go (err e, g') h = cc

  -- A block whose first step returns a value goes on from there.
  pub bind-ok :
      (m : Draw G A) (f : A → Draw G B) (g : G) {a : A} → (m g).0 ≡ ok a → (m >>= f) g ≡ f a (m g).1
  bind-ok m f g h = go (m g) h
    where
      go : (p : Result A × G) {a : A} → p.0 ≡ ok a → continue f p ≡ f a p.1
      go (ok a, g') h = ground arith
      go (err e, g') h = cc

-- What a block leaves: a fact of the state in either case, and one of the value that it returns.
module _ {G : Type 0} (Inv : G → Type 0) where
  abbrev pub Leaves : {A : Type 0} → (A → Type 0) → Result A × G → Type 0
  Leaves P (ok a, g) = Inv g × P a
  Leaves P (err e, g) = Inv g

  pub Leaves-bind :
      {A B : Type 0} (m : Draw G A) (f : A → Draw G B) (g : G) (P : A → Type 0) (Q : B → Type 0)
      → Leaves P (m g)
      → ((a : A) (g' : G) → Inv g' → P a → Leaves Q (f a g'))
      → Leaves Q ((m >>= f) g)
  Leaves-bind {A} {B} m f g P Q h next = go (m g) h
    where
      go : (p : Result A × G) → Leaves P p → Leaves Q (continue f p)
      go (ok a, g') h = next a g' h.0 h.1
      go (err e, g') h = h

  -- A result that is no draw leaves the state alone, and is the value.
  pub Leaves-lift : {A : Type 0} (m : Result A) (g : G) → Inv g → Leaves (λ a. m ≡ ok a) (lift m g)
  Leaves-lift (ok a) g h = (h, refl)
  Leaves-lift (err e) g h = h

  pub Leaves-map :
      {A : Type 0} (P Q : A → Type 0) (p : Result A × G)
      → ((a : A) → P a → Q a)
      → Leaves P p
      → Leaves Q p
  Leaves-map P Q (ok a, g) f h = (h.0, f a h.1)
  Leaves-map P Q (err e, g) f h = h

pub Leaves-any : {G A : Type 0} (p : Result A × G) → Leaves (λ _. Unit {0}) (λ _. Unit {0}) p
Leaves-any (ok a, g) = (tt, tt)
Leaves-any (err e, g) = tt

-- A block returns a value of which `P` holds, whatever the draws.
abbrev pub Gives : {G A : Type 0} → (A → Type 0) → Result A × G → Type 0
Gives P (ok a, g) = P a
Gives P (err e, g) = ⊥

pub Gives-bind :
    {G A B : Type 0} (m : Draw G A) (f : A → Draw G B) (g : G) (P : A → Type 0) (Q : B → Type 0)
    → Gives P (m g)
    → ((a : A) (g' : G) → P a → Gives Q (f a g'))
    → Gives Q ((m >>= f) g)
Gives-bind {G} {A} {B} m f g P Q h next = go (m g) h
  where
    go : (p : Result A × G) → Gives P p → Gives Q (continue f p)
    go (ok a, g') h = next a g' h
    go (err e, g') h = absurd h
