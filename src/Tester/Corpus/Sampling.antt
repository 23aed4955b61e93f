-- ===== src/Tester/Corpus/Sampling.antt =====
-- The sampling of a snapshot by coverage gain.
use ripfuzz.Prelude.{
  ℕ, ◌+◌, ◌-◌, ◌%◌, ◌^◌, ◌<◌, ◌≡◌, refl, sym, ◌∙◌, ◌≢◌, ◌↔◌, none, some, List, [], ◌∷◌, ◌++◌, arith,
  dec_lt, All,
}
use ripfuzz.Rng.{Rng}
use ripfuzz.Tester.Corpus.{Entry, weight, counted, total_from, pick_entry, random_base}

module _ {C Chain : Type 0} where
  -- The sum of the weights, without the wrap of `u64`.
  abbrev pub weights : List (Entry C Chain) → ℕ
  weights [] = 0
  weights (e ∷ es) = counted e e.chain + weights es

  total_from-eq :
      (acc : ℕ) (es : List (Entry C Chain))
      → acc < 2 ^ 64
      → total_from acc es ≡ (acc + weights es) % 2 ^ 64
  unfolding total_from
  total_from-eq acc [] h = omega arith
  total_from-eq acc (e ∷ es) h =
      omega (arith, total_from-eq ((acc + counted e e.chain) % 2 ^ 64) es (omega arith))

  pick_entry-ne-none :
      (es : List (Entry C Chain)) (pick : ℕ) → pick < weights es → pick_entry es pick ≢ none
  unfolding pick_entry
  pick_entry-ne-none [] pick h = absurd (omega arith)
  pick_entry-ne-none (e ∷ es) pick h =
      ground (arith, pick_entry-ne-none es pick, pick_entry-ne-none es (pick - weight e))

  -- For each entry with a state, the draws that pick it are as many as its weight: they are those
  -- that lie between the weights of the entries before it and that sum with its own weight added.
  pub picked_by_weight :
      (xs ys : List (Entry C Chain)) (e : Entry C Chain) (c : Chain) (k : ℕ)
      → e.chain ≡ some c
      → k < weight e
      → pick_entry (xs ++ e ∷ ys) (weights xs + k) ≡ some (e.sequence, c)
  unfolding pick_entry
  picked_by_weight [] ys e c k has lt = ground arith
  picked_by_weight (x ∷ xs) ys e c k has lt = ground (arith, picked_by_weight xs ys e c k has lt)

  weights_zero : (es : List (Entry C Chain)) → weights es ≡ 0 → All (λ e. e.chain ≡ none) es
  unfolding weight
  weights_zero [] h = tt
  weights_zero (e ∷ es) h = (ground arith, weights_zero es (omega arith))

  zero_weights : (es : List (Entry C Chain)) → All (λ e. e.chain ≡ none) es → weights es ≡ 0
  zero_weights [] h = refl
  zero_weights (e ∷ es) h = ground (arith, zero_weights es h.1)

  -- While the weights sum to less than `2 ^ 64`, no base is returned exactly if no entry has a
  -- state; else the draw alone decides, and the fallback to the last entry is never taken.
  pub random_base_lem :
      (r : Rng) (es : List (Entry C Chain)) (g : r.Gen)
      → weights es < 2 ^ 64
      → (((random_base r es g).0 ≡ none) ↔ All (λ e. e.chain ≡ none) es)
        × (0 < weights es → (random_base r es g).0 ≡ pick_entry es (r.below (weights es) g).0)
  unfolding random_base
  random_base_lem r es g fits =
      let total : total_from 0 es ≡ weights es = omega (arith, total_from-eq 0 es) in
      let pick = (r.below (weights es) g).0 in
      elim (dec_lt 0 (weights es)) [
        | no empty ↦ (
          (λ _. weights_zero es (omega arith), λ _. rw total (ground arith)),
          λ some_weight. absurd (empty some_weight),
        )
        | yes some_weight ↦
            let picked = pick_entry-ne-none es pick (r.below-lt (weights es) g some_weight) in
            let drawn : (random_base r es g).0 ≡ pick_entry es pick = rw total (ground arith) in
            (
              (
                λ none_found. absurd (picked (sym drawn ∙ none_found)),
                λ all. absurd (omega (arith, zero_weights es all)),
              ),
              λ _. drawn,
            )
      ]
