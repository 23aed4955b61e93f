-- ===== src/Tester/Corpus/Eviction.antt =====
-- What joins the corpus of a test campaign when it is full, and what leaves it.
use ripfuzz.Prelude.{
  ℕ, zero, suc, ◌+◌, ◌≤◌, ◌<◌, ◌≡◌, refl, sym, ap, subst, inl, inr, Option, none, some, List, [],
  ◌∷◌, ◌++◌, arith, dec_lt, leb, if◌then◌else◌, Bool-cases, Option-cases, length, get_elem?, remove,
  length-append, length-remove, All,
}
use ripfuzz.Tester.Corpus.{Entry, fewer_than, weakest_from, weakest, add_with_chain, max_entries}

module _ {C Chain : Type 0} where
  abbrev IsFound : List (Entry C Chain) → Option (ℕ × ℕ) → Type 0
  IsFound whole none = Unit {0}
  IsFound whole (some (i, edges)) =
      (x : Entry C Chain) × (get_elem? whole i ≡ some x) × (x.new_edges ≡ edges)

  abbrev IsLeast : Option (ℕ × ℕ) → Entry C Chain → Type 0
  IsLeast none y = ⊥
  IsLeast (some (_, edges)) y = edges ≤ y.new_edges

  shift-index :
      (whole es : List (Entry C Chain)) (i k : ℕ)
      → get_elem? whole (i + suc k) ≡ get_elem? es k
      → get_elem? whole (i + 1 + k) ≡ get_elem? es k
  shift-index whole es i k h = let e : i + 1 + k ≡ i + suc k = omega arith in rw e h

  keep-IsFound :
      (i : ℕ) (whole : List (Entry C Chain)) (e : Entry C Chain) (acc : Option (ℕ × ℕ))
      → get_elem? whole (i + 0) ≡ some e
      → IsFound whole acc
      → IsFound whole (if fewer_than e acc then some (i, e.new_edges) else acc)
  keep-IsFound i whole e acc at found =
      let z : i + 0 ≡ i = omega arith in
      let here : get_elem? whole i ≡ some e = rw z at at in
      elim (Bool-cases (fewer_than e acc)) [
        | inl fewer ↦ rw fewer (e, here, refl)
        | inr not_fewer ↦ rw not_fewer found
      ]

  weakest_from-IsFound :
      (whole es : List (Entry C Chain)) (i : ℕ) (acc : Option (ℕ × ℕ))
      → ((k : ℕ) → get_elem? whole (i + k) ≡ get_elem? es k)
      → IsFound whole acc
      → IsFound whole (weakest_from i acc es)
  unfolding weakest_from
  weakest_from-IsFound whole [] i acc at found = found
  weakest_from-IsFound whole (e ∷ es) i acc at found =
      weakest_from-IsFound whole es (i + 1) _ (λ k. shift-index whole es i k (at (suc k)))
        (keep-IsFound i whole e acc (at 0) found)

  keep-IsLeast :
      (i : ℕ) (e y : Entry C Chain) (acc : Option (ℕ × ℕ))
      → IsLeast acc y
      → IsLeast (if fewer_than e acc then some (i, e.new_edges) else acc) y
  keep-IsLeast i e y none h = absurd h
  keep-IsLeast i e y (some (j, edges)) h = ground arith

  new-IsLeast :
      (i : ℕ) (e : Entry C Chain) (acc : Option (ℕ × ℕ))
      → IsLeast (if fewer_than e acc then some (i, e.new_edges) else acc) e
  new-IsLeast i e none = ground arith
  new-IsLeast i e (some (j, edges)) = ground arith

  IsLeast-weakest_from :
      (i : ℕ) (acc : Option (ℕ × ℕ)) (es : List (Entry C Chain)) (y : Entry C Chain)
      → IsLeast acc y
      → IsLeast (weakest_from i acc es) y
  unfolding weakest_from
  IsLeast-weakest_from i acc [] y h = h
  IsLeast-weakest_from i acc (e ∷ es) y h =
      IsLeast-weakest_from (i + 1) _ es y (keep-IsLeast i e y acc h)

  weakest_from-IsLeast :
      (i : ℕ) (acc : Option (ℕ × ℕ)) (es : List (Entry C Chain))
      → All (IsLeast (weakest_from i acc es)) es
  unfolding weakest_from
  weakest_from-IsLeast i acc [] = tt
  weakest_from-IsLeast i acc (e ∷ es) =
      (IsLeast-weakest_from (i + 1) _ es e (new-IsLeast i e acc), weakest_from-IsLeast (i + 1) _ es)

  weakest-IsFound : (es : List (Entry C Chain)) → IsFound es (weakest es)
  weakest-IsFound es = weakest_from-IsFound es es 0 none (λ k. ap (get_elem? es) (omega arith)) tt

  -- The entry at an index, with no more edges than any other entry.
  pub record IsWeakest (es : List (Entry C Chain)) (i : ℕ) (x : Entry C Chain) : Type 0 where
    pub index : get_elem? es i ≡ some x
    pub least : All (λ y. x.new_edges ≤ y.new_edges) es

  weakest-exists :
      (es : List (Entry C Chain))
      → 0 < length es
      → (i : ℕ) × ((x : Entry C Chain) × (weakest es ≡ some (i, x.new_edges)) × IsWeakest es i x)
  weakest-exists [] h = absurd (omega arith)
  weakest-exists (e ∷ es) h = elim (Option-cases (weakest (e ∷ es))) [
    | inl missing ↦ absurd (rw missing at (weakest_from-IsLeast 0 none (e ∷ es)).0)
    | inr ((i, edges), found) ↦
        let (x, at, same) : IsFound (e ∷ es) (some (i, edges)) =
          subst (λ o. IsFound (e ∷ es) o) found (weakest-IsFound (e ∷ es)) in
        let least =
          subst (λ o. All (IsLeast o) (e ∷ es)) found (weakest_from-IsLeast 0 none (e ∷ es)) in
        (
          i,
          (
            x,
            ground arith,
            record {
              index = at;
              least = subst (λ n. All (λ y. n ≤ y.new_edges) (e ∷ es)) (sym same) least;
            },
          ),
        )
  ]

  index-lt-length :
      (xs : List (Entry C Chain)) (i : ℕ) (x : Entry C Chain)
      → get_elem? xs i ≡ some x
      → i < length xs
  index-lt-length [] i x at = cc
  index-lt-length (y ∷ ys) zero x at = omega arith
  index-lt-length (y ∷ ys) (suc i) x at = omega (arith, index-lt-length ys i x at)

  -- A corpus with room takes every entry at its end. A full one has an entry with the fewest edges:
  -- an entry with at least as many takes its place, at the end, and any other changes nothing. So
  -- the corpus never outgrows its limit.
  pub add_with_chain_lem :
      (es : List (Entry C Chain)) (e : Entry C Chain)
      → (length es < max_entries → add_with_chain es e ≡ es ++ e ∷ [])
        × (max_entries ≤ length es
            → (i : ℕ) × ((x : Entry C Chain) × IsWeakest es i x
                × (add_with_chain es e
                    ≡ (if leb x.new_edges e.new_edges then remove es i ++ e ∷ [] else es))))
        × (length es ≤ max_entries → length (add_with_chain es e) ≤ max_entries)
  unfolding add_with_chain
  add_with_chain_lem es e = (
    λ room. ground arith,
    λ full.
        let (i, found) = weakest-exists es (omega arith) in
        let (x, at, weak) = found in (i, (x, weak, rw at (ground arith))),
    λ bounded. elim (dec_lt (length es) max_entries) [
      | yes room ↦ ground (arith, length-append es (e ∷ []))
      | no full ↦
          let (i, found) = weakest-exists es (omega arith) in
          let (x, at, weak) = found in
          ground (
            arith,
            length-append (remove es i) (e ∷ []),
            length-remove es i (index-lt-length es i x weak.index),
          )
    ],
  )
