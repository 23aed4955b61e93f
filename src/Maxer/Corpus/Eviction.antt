-- ===== src/Maxer/Corpus/Eviction.antt =====
-- What joins the corpus when it is full, and what leaves it.
use ripfuzz.Prelude.{
  ℕ, zero, suc, ◌+◌, ◌-◌, ◌≤◌, ◌<◌, max, ◌≡◌, refl, ap, ◌⊎◌, inl, inr, false, ◌&&◌, Option, none,
  some, List, [], ◌∷◌, ◌++◌, arith, dec_lt, ltb, leb, if◌then◌else◌, Bool-cases, Option-cases,
  length, get_elem?, remove, length-append, length-remove, All,
}
use ripfuzz.Maxer.Corpus.{
  Entry, best_value, weaker, weaker_than, weakest_from, weakest, add_with_chain, strength,
  max_entries,
}

module _ {C Chain : Type 0} where
  -- What a search for the weakest returns: an entry at its index, below the best.
  abbrev IsFound : ℕ → List (Entry C Chain) → Option (ℕ × Entry C Chain) → Type 0
  IsFound best whole none = Unit {0}
  IsFound best whole (some (i, x)) = (get_elem? whole i ≡ some x) × (x.value < best)

  -- One step of the search keeps the index right.
  shift-index :
      (whole es : List (Entry C Chain)) (i k : ℕ)
      → get_elem? whole (i + suc k) ≡ get_elem? es k
      → get_elem? whole (i + 1 + k) ≡ get_elem? es k
  shift-index whole es i k h = let e : i + 1 + k ≡ i + suc k = omega arith in rw e h

  keep-IsFound :
      (best i : ℕ) (whole : List (Entry C Chain)) (e : Entry C Chain)
      (acc : Option (ℕ × Entry C Chain))
      → get_elem? whole (i + 0) ≡ some e
      → IsFound best whole acc
      → IsFound best whole (if ltb e.value best && weaker_than e acc then some (i, e) else acc)
  keep-IsFound best i whole e acc at found =
      let z : i + 0 ≡ i = omega arith in
      let at' : get_elem? whole i ≡ some e = rw z at at in ground arith

  weakest_from-IsFound :
      (best : ℕ) (whole es : List (Entry C Chain)) (i : ℕ) (acc : Option (ℕ × Entry C Chain))
      → ((k : ℕ) → get_elem? whole (i + k) ≡ get_elem? es k)
      → IsFound best whole acc
      → IsFound best whole (weakest_from best i acc es)
  unfolding weakest_from
  weakest_from-IsFound best whole [] i acc at found = found
  weakest_from-IsFound best whole (e ∷ es) i acc at found =
      weakest_from-IsFound best whole es (i + 1) _ (λ k. shift-index whole es i k (at (suc k)))
        (keep-IsFound best i whole e acc (at 0) found)

  -- No entry below the best is weaker than the one that is found.
  abbrev IsLeast : ℕ → Option (ℕ × Entry C Chain) → Entry C Chain → Type 0
  IsLeast best none y = best ≤ y.value
  IsLeast best (some (_, x)) y = y.value < best → weaker y x ≡ false

  keep-IsLeast :
      (best i : ℕ) (e y : Entry C Chain) (acc : Option (ℕ × Entry C Chain))
      → IsLeast best acc y
      → IsLeast best (if ltb e.value best && weaker_than e acc then some (i, e) else acc) y
  keep-IsLeast best i e y none h = ground arith
  keep-IsLeast best i e y (some (j, x)) h = ground arith

  new-IsLeast :
      (best i : ℕ) (e : Entry C Chain) (acc : Option (ℕ × Entry C Chain))
      → IsLeast best (if ltb e.value best && weaker_than e acc then some (i, e) else acc) e
  new-IsLeast best i e none = ground arith
  new-IsLeast best i e (some (j, x)) = ground arith

  IsLeast-weakest_from :
      (best i : ℕ) (acc : Option (ℕ × Entry C Chain)) (es : List (Entry C Chain))
      (y : Entry C Chain)
      → IsLeast best acc y
      → IsLeast best (weakest_from best i acc es) y
  unfolding weakest_from
  IsLeast-weakest_from best i acc [] y h = h
  IsLeast-weakest_from best i acc (e ∷ es) y h =
      IsLeast-weakest_from best (i + 1) _ es y (keep-IsLeast best i e y acc h)

  weakest_from-IsLeast :
      (best i : ℕ) (acc : Option (ℕ × Entry C Chain)) (es : List (Entry C Chain))
      → All (IsLeast best (weakest_from best i acc es)) es
  unfolding weakest_from
  weakest_from-IsLeast best i acc [] = tt
  weakest_from-IsLeast best i acc (e ∷ es) = (
    IsLeast-weakest_from best (i + 1) _ es e (new-IsLeast best i e acc),
    weakest_from-IsLeast best (i + 1) _ es,
  )

  best_value-append :
      (xs ys : List (Entry C Chain)) → best_value (xs ++ ys) ≡ max (best_value xs) (best_value ys)
  unfolding best_value
  best_value-append [] ys = omega arith
  best_value-append (x ∷ xs) ys = omega (arith, best_value-append xs ys)

  value-le-best_value :
      (xs : List (Entry C Chain)) (i : ℕ) (x : Entry C Chain)
      → get_elem? xs i ≡ some x
      → x.value ≤ best_value xs
  unfolding best_value
  value-le-best_value [] i x at = cc
  value-le-best_value (y ∷ ys) zero x at = ground arith
  value-le-best_value (y ∷ ys) (suc i) x at = omega (arith, value-le-best_value ys i x at)

  best_value-remove-le :
      (xs : List (Entry C Chain)) (i : ℕ) → best_value (remove xs i) ≤ best_value xs
  unfolding best_value
  best_value-remove-le [] i = omega arith
  best_value-remove-le (y ∷ ys) zero = omega arith
  best_value-remove-le (y ∷ ys) (suc i) = omega (arith, best_value-remove-le ys i)

  index-lt-length :
      (xs : List (Entry C Chain)) (i : ℕ) (x : Entry C Chain)
      → get_elem? xs i ≡ some x
      → i < length xs
  index-lt-length [] i x at = cc
  index-lt-length (y ∷ ys) zero x at = omega arith
  index-lt-length (y ∷ ys) (suc i) x at = omega (arith, index-lt-length ys i x at)

  best_value-remove_below :
      (xs : List (Entry C Chain)) (i : ℕ) (x : Entry C Chain)
      → get_elem? xs i ≡ some x
      → x.value < best_value xs
      → best_value (remove xs i) ≡ best_value xs
  unfolding best_value
  best_value-remove_below [] i x at h = cc
  best_value-remove_below (y ∷ ys) zero x at h = ground arith
  best_value-remove_below (y ∷ ys) (suc i) x at h = elim (dec_lt x.value (best_value ys)) [
    | yes below ↦ rw (best_value-remove_below ys i x at below)
    | no top ↦ omega (arith, value-le-best_value ys i x at, best_value-remove-le ys i)
  ]

  weakest-IsFound : (best : ℕ) (es : List (Entry C Chain)) → IsFound best es (weakest best es)
  weakest-IsFound best es =
      weakest_from-IsFound best es es 0 none (λ k. ap (get_elem? es) (omega arith)) tt

  best_value-snoc :
      (xs : List (Entry C Chain)) (e : Entry C Chain)
      → best_value (xs ++ e ∷ []) ≡ max (best_value xs) e.value
  unfolding best_value
  best_value-snoc xs e = omega (arith, best_value-append xs (e ∷ []))

  -- Adding never loses the best value: afterwards it is the larger of the old one and the new
  -- entry's, whether the corpus is full or not and whether the entry joins or not.
  pub best_value-add_with_chain :
      (es : List (Entry C Chain)) (e : Entry C Chain)
      → best_value (add_with_chain es e) ≡ max (best_value es) e.value
  unfolding add_with_chain
  best_value-add_with_chain es e =
      let best = best_value es in
      elim (Option-cases (weakest best es)) [
        | inl none_below ↦ ground (
          arith,
          best_value-snoc es e,
          best_value-snoc (remove es (length es - 1)) e,
          best_value-remove-le es (length es - 1),
        )
        | inr ((i, x), found) ↦
            let at : IsFound best es (some (i, x)) = rw found at (weakest-IsFound best es) in
            ground (
              arith,
              best_value-snoc es e,
              best_value-snoc (remove es i) e,
              best_value-remove_below es i x at.0 at.1,
            )
      ]

  -- The corpus never holds more than its maximum, and adding never makes it shorter.
  pub length-add_with_chain :
      (es : List (Entry C Chain)) (e : Entry C Chain)
      → length es ≤ max_entries
      → (length (add_with_chain es e) ≤ max_entries) × (length es ≤ length (add_with_chain es e))
  unfolding add_with_chain
  length-add_with_chain es e bounded =
      let best = best_value es in
      elim (Option-cases (weakest best es)) [
        | inl none_below ↦ ground (
          arith,
          length-append es (e ∷ []),
          length-append (remove es (length es - 1)) (e ∷ []),
          length-remove es (length es - 1),
        )
        | inr ((i, x), found) ↦
            let at : IsFound best es (some (i, x)) = rw found at (weakest-IsFound best es) in
            ground (
              arith,
              length-append es (e ∷ []),
              length-append (remove es i) (e ∷ []),
              length-remove es i (index-lt-length es i x at.0),
            )
      ]

  -- An entry above the best value joins a corpus of any length, at its end; it drops one entry
  -- at most, and that only from a full corpus.
  pub improving_joins :
      (es : List (Entry C Chain)) (e : Entry C Chain)
      → best_value es < e.value
      → (xs : List (Entry C Chain)) × (add_with_chain es e ≡ xs ++ e ∷ [])
        × ((xs ≡ es) ⊎ ((i : ℕ) × (xs ≡ remove es i) × (max_entries ≤ length es)))
  unfolding add_with_chain
  improving_joins es e better = elim (Bool-cases (ltb (length es) max_entries)) [
    | inl room ↦ (es, ground arith, inl refl)
    | inr full ↦ elim (Option-cases (weakest (best_value es) es)) [
      | inl none_below ↦
          (remove es (length es - 1), ground arith, inr (length es - 1, refl, ground arith))
      | inr ((i, x), found) ↦ (remove es i, ground arith, inr (i, refl, ground arith))
    ]
  ]

  -- What the eviction of a full corpus replaces by an entry that does not improve the best value:
  -- an entry below the best that is strictly weaker than the new one, while no entry below the best
  -- has a smaller key of strength and value.
  pub record Evicts (es : List (Entry C Chain)) (e : Entry C Chain) (i : ℕ) : Type 0 where
    pub victim : Entry C Chain
    pub index : get_elem? es i ≡ some victim
    pub below : victim.value < best_value es
    pub stronger : strength victim < strength e
    pub least : All (λ y. y.value < best_value es → weaker y victim ≡ false) es

  -- An entry that does not improve the best value of a full corpus is either dropped, with nothing
  -- changed, or replaces a weakest entry below the best.
  pub full_corpus-Evicts :
      (es : List (Entry C Chain)) (e : Entry C Chain)
      → max_entries ≤ length es
      → e.value ≤ best_value es
      → (add_with_chain es e ≡ es)
        ⊎ ((i : ℕ) × (add_with_chain es e ≡ remove es i ++ e ∷ []) × Evicts es e i)
  unfolding add_with_chain
  full_corpus-Evicts es e full notbest = elim (Option-cases (weakest (best_value es) es)) [
    | inl none_below ↦ inl (ground arith)
    | inr ((i, x), found) ↦ elim (Bool-cases (leb (strength e) (strength x))) [
      | inl weak ↦ inl (ground arith)
      | inr strong ↦
          let at : IsFound (best_value es) es (some (i, x)) =
            rw found at (weakest-IsFound (best_value es) es) in
          inr (
            i,
            ground arith,
            record {
              victim = x;
              index = at.0;
              below = at.1;
              stronger = ground arith;
              least = rw found at (weakest_from-IsLeast (best_value es) 0 none es);
            },
          )
    ]
  ]
