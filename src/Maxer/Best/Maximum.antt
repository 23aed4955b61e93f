-- ===== src/Maxer/Best/Maximum.antt =====
-- The best against all that a campaign was offered (`src/maxer/best.rs`).
use ripfuzz.Prelude.{
  ℕ, ◌≡◌, ◌≢◌, ◌≤◌, ◌<◌, ◌⊎◌, ◌↔◌, refl, true, false, some, List, [], ◌∷◌, length, arith, All, max,
}
use ripfuzz.Maxer.Best.{Best, consider}

-- One call of `consider`; a campaign's calls come in the order in which they take the lock.
pub record Offer (C Chain : Type 0) : Type 0 where
  pub sequence : List C
  pub value : ℕ
  pub chain : Chain

module _ {C Chain : Type 0} where
  -- The new best is accepted exactly for a higher value, or for the same value with fewer calls
  -- once a sequence is held; and then it is the offered triple, else nothing changes.
  pub consider_lem :
      (b : Best C Chain) (s : List C) (v : ℕ) (c : Chain)
      → let r = consider b s v c in
        ((r.1 ≡ true)
          ↔ ((b.value < v) ⊎ ((v ≡ b.value) × (b.sequence ≢ []) × (length s < length b.sequence))))
        × (r.1 ≡ true → r.0 ≡ record { value = v; sequence = s; chain = some c })
        × (r.1 ≡ false → r.0 ≡ b)
  unfolding consider
  consider_lem b s v c = ground arith

  pub consider_all : Best C Chain → List (Offer C Chain) → Best C Chain
  consider_all b [] = b
  consider_all b (o ∷ os) = consider_all (consider b o.sequence o.value o.chain).0 os

  abbrev pub highest : ℕ → List (Offer C Chain) → ℕ
  highest v [] = v
  highest v (o ∷ os) = highest (max v o.value) os

  value-consider :
      (b : Best C Chain) (s : List C) (v : ℕ) (c : Chain)
      → (consider b s v c).0.value ≡ max b.value v
  unfolding consider
  value-consider b s v c = ground arith

  -- Whatever the order of the offers, the value ends as the maximum of the first and of theirs.
  pub value-consider_all :
      (b : Best C Chain) (os : List (Offer C Chain))
      → (consider_all b os).value ≡ highest b.value os
  unfolding consider_all
  value-consider_all b [] = refl
  value-consider_all b (o ∷ os) =
      rw (value-consider_all (consider b o.sequence o.value o.chain).0 os, value-consider)

  -- Of the offers seen, none has a higher value, and none of the best value has fewer calls than
  -- the sequence held, unless that is the empty one of the start.
  abbrev pub Beats : Best C Chain → Offer C Chain → Type 0
  Beats b o =
      (o.value ≤ b.value)
      × (o.value ≡ b.value → b.sequence ≢ [] → length b.sequence ≤ length o.sequence)

  Beats-consider :
      (b : Best C Chain) (s : List C) (v : ℕ) (c : Chain) (o : Offer C Chain)
      → Beats b o
      → Beats (consider b s v c).0 o
  unfolding consider
  Beats-consider b s v c o h = ground arith

  consider-Beats :
      (b : Best C Chain) (o : Offer C Chain) → Beats (consider b o.sequence o.value o.chain).0 o
  unfolding consider
  consider-Beats b o = ground arith

  Beats-consider_all :
      (b : Best C Chain) (os : List (Offer C Chain)) (o : Offer C Chain)
      → Beats b o
      → Beats (consider_all b os) o
  unfolding consider_all
  Beats-consider_all b [] o h = h
  Beats-consider_all b (p ∷ os) o h =
      Beats-consider_all (consider b p.sequence p.value p.chain).0 os o
        (Beats-consider b p.sequence p.value p.chain o h)

  -- After all the offers, none of them has a higher value than the best, and none of the same value
  -- has fewer calls, unless the best holds no calls.
  pub consider_all-Beats :
      (b : Best C Chain) (os : List (Offer C Chain)) → All (Beats (consider_all b os)) os
  unfolding consider_all
  consider_all-Beats b [] = tt
  consider_all-Beats b (o ∷ os) =
      let b' = (consider b o.sequence o.value o.chain).0 in
      (Beats-consider_all b' os o (consider-Beats b o), consider_all-Beats b' os)
