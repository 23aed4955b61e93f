-- ===== src/Maxer/Corpus/Sampling.antt =====
-- The sampling of a snapshot by weight.
use ripfuzz.Prelude.{
  ℕ, ◌+◌, ◌-◌, ◌%◌, ◌^◌, ◌<◌, ◌≡◌, ◌≢◌, ◌⊎◌, inl, inr, none, some, List, [], ◌∷◌, ◌++◌, arith,
  dec_lt, Option-cases,
}
use ripfuzz.Rng.{Rng}
use ripfuzz.Maxer.Corpus.{Entry, entry_weight, counted, total_from, pick_entry, random_base}

module _ (bit_len : ℕ → ℕ) {C Chain : Type 0} where
  -- The sum of the weights, without the wrap of `u64`.
  abbrev pub weights : List (Entry C Chain) → ℕ
  weights [] = 0
  weights (e ∷ es) = counted bit_len e e.chain + weights es

  total_from-eq :
      (acc : ℕ) (es : List (Entry C Chain))
      → acc < 2 ^ 64
      → total_from bit_len acc es ≡ (acc + weights es) % 2 ^ 64
  unfolding total_from
  total_from-eq acc [] h = omega arith
  total_from-eq acc (e ∷ es) h =
      omega (arith, total_from-eq ((acc + counted bit_len e e.chain) % 2 ^ 64) es (omega arith))

  -- A draw within the sum of the weights picks an entry.
  pick_entry-ne-none :
      (es : List (Entry C Chain)) (pick : ℕ) → pick < weights es → pick_entry bit_len es pick ≢ none
  unfolding pick_entry
  pick_entry-ne-none [] pick h = absurd (omega arith)
  pick_entry-ne-none (e ∷ es) pick h =
      ground
        (arith, pick_entry-ne-none es pick, pick_entry-ne-none es (pick - entry_weight bit_len e))

  -- What is picked, or fallen back to, is an entry of the corpus that has a state.
  pub Holds : List (Entry C Chain) → List C × ℕ × Chain → Type 0
  Holds [] x = ⊥
  Holds (e ∷ es) (s, v, c) =
      ((e.sequence ≡ s) × (e.value ≡ v) × (e.chain ≡ some c)) ⊎ Holds es (s, v, c)

  -- The entry that the draws `weights xs + k` pick, for `k` below its weight, is the one after `xs`:
  -- each entry with a state is picked by exactly as many draws as its weight.
  pub pick_entry-append :
      (xs ys : List (Entry C Chain)) (e : Entry C Chain) (c : Chain) (k : ℕ)
      → e.chain ≡ some c
      → k < entry_weight bit_len e
      → pick_entry bit_len (xs ++ e ∷ ys) (weights xs + k) ≡ some (e.sequence, e.value, c)
  unfolding pick_entry
  pick_entry-append [] ys e c k has lt = ground arith
  pick_entry-append (x ∷ xs) ys e c k has lt = ground (arith, pick_entry-append xs ys e c k has lt)

  Holds-pick_entry :
      (es : List (Entry C Chain)) (pick : ℕ) (x : List C × ℕ × Chain)
      → pick_entry bit_len es pick ≡ some x
      → Holds es x
  unfolding pick_entry Holds
  Holds-pick_entry [] pick x h = cc
  Holds-pick_entry (e ∷ es) pick x h =
      ground
        (arith, Holds-pick_entry es pick x, Holds-pick_entry es (pick - entry_weight bit_len e) x)

  -- While the weights sum to less than `2 ^ 64`, a base is found exactly if their sum is positive,
  -- it is an entry of the corpus with its own value and state, and the draw alone decides which:
  -- the fallback to the last entry is never taken.
  pub random_base-Holds :
      (r : Rng) (es : List (Entry C Chain)) (g : r.Gen)
      → weights es < 2 ^ 64
      → ((random_base bit_len r es g).0 ≡ none × (weights es ≡ 0))
        ⊎ ((x : List C × ℕ × Chain) × ((random_base bit_len r es g).0 ≡ some x)
            × (pick_entry bit_len es (r.below (weights es) g).0 ≡ some x)
            × Holds es x)
  unfolding random_base
  random_base-Holds r es g fits =
      let total : total_from bit_len 0 es ≡ weights es = omega (arith, total_from-eq 0 es) in
      elim (dec_lt 0 (weights es)) [
        | no empty ↦ inl (rw total (ground arith), omega arith)
        | yes some_weight ↦
            let pick = (r.below (weights es) g).0 in
            elim (Option-cases (pick_entry bit_len es pick)) [
              | inl missed ↦
                  absurd (pick_entry-ne-none es pick (r.below-lt (weights es) g some_weight) missed)
              | inr (x, picked) ↦
                  inr (x, rw total (ground arith), picked, Holds-pick_entry es pick x picked)
            ]
      ]
