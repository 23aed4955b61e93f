-- ===== src/Tester/Values/Sources.antt =====
-- What the three sources of a value give (`src/tester/corpus/rvg.rs`).
use ripfuzz.Prelude.{
  ℕ, zero, suc, ◌<◌, ◌≡◌, refl, inl, inr, Option, none, some, List, [], ◌∷◌, arith, ltb, Bool-cases,
  length, get_elem?, All, All-get_elem?,
}
use ripfuzz.Outcome.{Result, ok, err, Returns}
use ripfuzz.Rng.{Rng}
use ripfuzz.Rng.Draw.{◌>>=◌, Draw, lift, Gives, Gives-bind}
use ripfuzz.Tester.Values.{pick, mixed, literal, edge_case, accepted, or_random}

get_elem?-some :
    {A : Type 0} (xs : List A) (i : ℕ) → i < length xs → (x : A) × (get_elem? xs i ≡ some x)
get_elem?-some [] i h = absurd (omega arith)
get_elem?-some (x ∷ xs) zero h = (x, refl)
get_elem?-some (x ∷ xs) (suc i) h = get_elem?-some xs i (omega arith)

module _ (r : Rng) where
  abbrev pub FromPool : {A : Type 0} → (A → Type 0) → Option A → Type 0
  FromPool P none = Unit {0}
  FromPool P (some a) = P a

  -- An item that is picked is one of the pool.
  pick-Gives :
      {A : Type 0} (P : A → Type 0) (pool : List A) (g : r.Gen)
      → All P pool
      → Gives (FromPool P) (pick r pool g)
  unfolding pick
  pick-Gives P [] g h = tt
  pick-Gives P (x ∷ xs) g h =
      let i = (r.below (length (x ∷ xs)) g).0 in
      let (y, at) = get_elem?-some (x ∷ xs) i (r.below-lt (length (x ∷ xs)) g (omega arith)) in
      rw at (All-get_elem? P (x ∷ xs) i h at)

  module _ {A B : Type 0} (Q : B → Type 0) (pool : List A) (accept : A → Result (Option B))
      (edges : ℕ) (edge : ℕ → Result B) (random : Draw r.Gen B) where
    abbrev pub Accepted : Result (Option B) → Type 0
    Accepted m = Returns m (FromPool Q)

    literal-Gives :
        All (λ a. Accepted (accept a)) pool
        → ((g : r.Gen) → Gives Q (random g))
        → (g : r.Gen) → Gives Q (literal r pool accept edges edge random g)
    unfolding literal
    literal-Gives hp hr g =
        Gives-bind (pick r pool) _ g (FromPool (λ a. Accepted (accept a))) Q
          (pick-Gives (λ a. Accepted (accept a)) pool g hp) go
      where
        of :
            (m : Result (Option B)) (g : r.Gen)
            → Accepted m
            → Gives Q ((lift m >>= or_random r pool accept edges edge random) g)
        of (ok none) g h = hr g
        of (ok (some b)) g h = h
        of (err e) g h = h

        go :
            (o : Option A) (g : r.Gen)
            → FromPool (λ a. Accepted (accept a)) o
            → Gives Q (accepted r pool accept edges edge random o g)
        go none g h = hr g
        go (some a) g h = of (accept a) g h

    edge_case-Gives :
        0 < edges
        → ((e : ℕ) → e < edges → Returns (edge e) Q)
        → (g : r.Gen) → Gives Q (edge_case r pool accept edges edge random g)
    unfolding edge_case
    edge_case-Gives pos he g = go (edge (r.below edges g).0) (he _ (r.below-lt edges g pos))
      where
        go : (m : Result B) → Returns m Q → Gives Q (lift m (r.below edges g).1)
        go (ok b) h = h
        go (err e) h = h

    -- Each of the three sources is good enough.
    pub mixed-Gives :
        All (λ a. Accepted (accept a)) pool
        → 0 < edges
        → ((e : ℕ) → e < edges → Returns (edge e) Q)
        → ((g : r.Gen) → Gives Q (random g))
        → (g : r.Gen) → Gives Q (mixed r pool accept edges edge random g)
    unfolding mixed
    mixed-Gives hp pos he hr g =
        let (roll, g1) = r.below 100 g in
        elim (Bool-cases (ltb roll 20)) [
          | inl z ↦ rw z (literal-Gives hp hr g1)
          | inr z ↦ rw z (elim (Bool-cases (ltb roll 50)) [
            | inl y ↦ rw y (edge_case-Gives pos he g1)
            | inr y ↦ rw y (hr g1)
          ])
        ]
