-- ===== src/Maxer/Corpus/Entries.antt =====
-- What carries over from the entries with a state to the operations of the corpus
-- (`src/maxer/corpus.rs`).
use ripfuzz.Prelude.{
  ℕ, ◌-◌, inl, inr, Option, none, some, List, [], ◌∷◌, ◌++◌, ltb, leb, ◌==◌, Bool-cases, length,
  remove, All, All-append, All-remove,
}
use ripfuzz.Rng.{Rng}
use ripfuzz.Maxer.Best.{Best, consider}
use ripfuzz.Maxer.Best.Maximum.{consider_lem}
use ripfuzz.Maxer.Corpus.{
  add, Entry, weakest, evict_for_best, replace_weakest, add_with_chain, add, keep_better,
  best_entry_from, best_entry, try_entry, pick_entry, or_entry, last_replayed, or_else, random_base,
  max_entries, best_value, strength, total_from,
}

module _ {C Chain : Type 0} (P : List C → ℕ → Chain → Type 0) where
  abbrev pub OfState : List C → ℕ → Option Chain → Type 0
  OfState s v none = Unit {0}
  OfState s v (some c) = P s v c

  abbrev pub OfEntry : Entry C Chain → Type 0
  OfEntry e = OfState e.sequence e.value e.chain

  abbrev pub OfBase : Option (List C × ℕ × Chain) → Type 0
  OfBase none = Unit {0}
  OfBase (some (s, v, c)) = P s v c

  abbrev snoc :
      (es : List (Entry C Chain)) (e : Entry C Chain)
      → All OfEntry es
      → OfEntry e
      → All OfEntry (es ++ e ∷ [])
  snoc es e hs h = All-append OfEntry es (e ∷ []) hs (h, tt)

  evict-All :
      (es : List (Entry C Chain)) (o : Option (ℕ × Entry C Chain))
      → All OfEntry es
      → All OfEntry (evict_for_best es o)
  evict-All es none hs = All-remove OfEntry es (length es - 1) hs
  evict-All es (some (i, x)) hs = All-remove OfEntry es i hs

  replace-All :
      (es : List (Entry C Chain)) (e : Entry C Chain) (o : Option (ℕ × Entry C Chain))
      → All OfEntry es
      → OfEntry e
      → All OfEntry (replace_weakest es e o)
  replace-All es e none hs h = hs
  replace-All es e (some (i, x)) hs h = elim (Bool-cases (leb (strength e) (strength x))) [
    | inl z ↦ rw z hs
    | inr z ↦ rw z (snoc (remove es i) e (All-remove OfEntry es i hs) h)
  ]

  pub add_with_chain-All :
      (es : List (Entry C Chain)) (e : Entry C Chain)
      → All OfEntry es
      → OfEntry e
      → All OfEntry (add_with_chain es e)
  unfolding add_with_chain
  add_with_chain-All es e hs h = elim (Bool-cases (ltb (length es) max_entries)) [
    | inl z ↦ rw z (snoc es e hs h)
    | inr z ↦ rw z (elim (Bool-cases (ltb (best_value es) e.value)) [
      | inl b ↦ rw b (
          snoc (evict_for_best es (weakest (best_value es) es)) e
            (evict-All es (weakest (best_value es) es) hs) h)
      | inr b ↦ rw b (replace-All es e (weakest (best_value es) es) hs h)
    ])
  ]

  pub add-All :
      (es : List (Entry C Chain)) (sequence : List C) (value new_edges delta_activity : ℕ)
      (chain : Chain)
      → All OfEntry es
      → P sequence value chain
      → All OfEntry (add es sequence value new_edges delta_activity chain)
  unfolding add
  add-All es sequence value new_edges delta_activity chain hs h =
      add_with_chain-All es
        (record {
          sequence = sequence;
          value = value;
          new_edges = new_edges;
          delta_activity = delta_activity;
          chain = some chain;
        })
        hs h

  pub consider-OfState :
      (b : Best C Chain) (s : List C) (v : ℕ) (c : Chain)
      → OfState b.sequence b.value b.chain
      → P s v c
      → let b' = (consider b s v c).0 in OfState b'.sequence b'.value b'.chain
  consider-OfState b s v c hb h =
      let l = consider_lem b s v c in
      elim (Bool-cases (consider b s v c).1) [ inl z ↦ rw (l.1 z) h | inr z ↦ rw (l.2 z) hb ]

  keep_better-OfBase :
      (acc : Option (List C × ℕ × Chain)) (e : Entry C Chain) (o : Option Chain)
      → OfBase acc
      → OfState e.sequence e.value o
      → OfBase (keep_better acc e o)
  keep_better-OfBase acc e none ha h = ha
  keep_better-OfBase none e (some c) ha h = h
  keep_better-OfBase (some (s, v, d)) e (some c) ha h = elim (Bool-cases (ltb e.value v)) [
    | inl z ↦ rw z ha
    | inr z ↦ rw z h
  ]

  best_entry_from-OfBase :
      (acc : Option (List C × ℕ × Chain)) (es : List (Entry C Chain))
      → OfBase acc
      → All OfEntry es
      → OfBase (best_entry_from acc es)
  unfolding best_entry_from
  best_entry_from-OfBase acc [] ha hs = ha
  best_entry_from-OfBase acc (e ∷ es) ha hs =
      best_entry_from-OfBase (keep_better acc e e.chain) es
        (keep_better-OfBase acc e e.chain ha hs.0) hs.1

  pub best_entry-OfBase : (es : List (Entry C Chain)) → All OfEntry es → OfBase (best_entry es)
  unfolding best_entry
  best_entry-OfBase es hs = best_entry_from-OfBase none es tt hs

  module _ (bit_len : ℕ → ℕ) where
    try_entry-OfBase :
        (e : Entry C Chain) (o : Option Chain) (pick : ℕ) (rest : ℕ → Option (List C × ℕ × Chain))
        → OfState e.sequence e.value o
        → ((n : ℕ) → OfBase (rest n))
        → OfBase (try_entry bit_len e o pick rest)
    try_entry-OfBase e none pick rest h hr = hr pick
    try_entry-OfBase e (some c) pick rest h hr =
        elim (Bool-cases (ltb pick (ripfuzz.Maxer.Corpus.entry_weight bit_len e))) [
          | inl z ↦ rw z h
          | inr z ↦ rw z (hr _)
        ]

    pick_entry-OfBase :
        (es : List (Entry C Chain)) (pick : ℕ)
        → All OfEntry es
        → OfBase (pick_entry bit_len es pick)
    unfolding pick_entry
    pick_entry-OfBase [] pick hs = tt
    pick_entry-OfBase (e ∷ es) pick hs =
        try_entry-OfBase e e.chain pick (pick_entry bit_len es) hs.0
          (λ n. pick_entry-OfBase es n hs.1)

    or_entry-OfBase :
        (e : Entry C Chain) (o : Option Chain) (b : Option (List C × ℕ × Chain))
        → OfState e.sequence e.value o
        → OfBase b
        → OfBase (or_entry bit_len e o b)
    or_entry-OfBase e o (some x) h hb = hb
    or_entry-OfBase e none none h hb = tt
    or_entry-OfBase e (some c) none h hb = h

    last_replayed-OfBase :
        (es : List (Entry C Chain)) → All OfEntry es → OfBase (last_replayed bit_len es)
    unfolding last_replayed
    last_replayed-OfBase [] hs = tt
    last_replayed-OfBase (e ∷ es) hs =
        or_entry-OfBase e e.chain (last_replayed bit_len es) hs.0 (last_replayed-OfBase es hs.1)

    or_else-OfBase :
        (x y : Option (List C × ℕ × Chain)) → OfBase x → OfBase y → OfBase (or_else bit_len x y)
    or_else-OfBase none y hx hy = hy
    or_else-OfBase (some x) y hx hy = hx

    pub random_base-OfBase :
        (r : Rng) (es : List (Entry C Chain)) (g : r.Gen)
        → All OfEntry es
        → OfBase (random_base bit_len r es g).0
    unfolding random_base
    random_base-OfBase r es g hs = elim (Bool-cases (total_from bit_len 0 es == 0)) [
      | inl z ↦ rw z tt
      | inr z ↦ rw z (
          let pick = (r.below (total_from bit_len 0 es) g).0 in
          or_else-OfBase (pick_entry bit_len es pick) (last_replayed bit_len es)
            (pick_entry-OfBase es pick hs) (last_replayed-OfBase es hs))
    ]
