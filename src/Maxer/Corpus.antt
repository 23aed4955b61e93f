-- ===== src/Maxer/Corpus.antt =====
-- src/maxer/corpus.rs: the bounded corpus of measured sequences and its weighted sampling. Sums of
-- `u64` wrap, as in a release build. The bit length is the integer crate's.
pub mod Eviction
pub mod Entries
pub mod Sampling
use ripfuzz.Prelude.{
  ℕ, zero, suc, ◌+◌, ◌-◌, ◌*◌, ◌/◌, ◌%◌, ◌^◌, ◌≤◌, ◌<◌, min, max, compare, Ordering, ◌≡◌, refl, sym,
  ap, ◌∙◌, subst, ◌≢◌, ◌↔◌, ◌⊎◌, inl, inr, Bool, true, false, not, ◌&&◌, ◌||◌, Option, none, some,
  List, [], ◌∷◌, ◌++◌, map, arith, dec_lt, dec_le, ℕ_discrete, ltb, leb, ◌==◌, if◌then◌else◌,
  ltb→lt, lt→ltb, ltb-false→le, ==_iff, Bool-cases, Option-cases, is_some, u64_max, saturating_add,
  length, get_elem?, set, take, drop, is_empty, remove, length-append, length-take, length-drop,
  length-remove, length-set, All, All-append, All-remove, All-set, All-get_elem?, sum_of,
  sum_of-set,
}
use ripfuzz.Rng.{Rng}

pub record Entry (C Chain : Type 0) : Type 0 where
  pub sequence : List C
  pub value : ℕ
  pub new_edges : ℕ
  pub delta_activity : ℕ
  pub chain : Option Chain

abbrev pub max_entries : ℕ
max_entries = 256

module _ {C Chain : Type 0} where
  abbrev pub strength : Entry C Chain → ℕ
  strength e = saturating_add e.new_edges e.delta_activity

  -- `entries.iter().map(|entry| entry.value).max()`, or zero for no entry.
  unfoldable pub best_value : List (Entry C Chain) → ℕ
  best_value [] = 0
  best_value (e ∷ es) = max e.value (best_value es)

  -- The order of the key `(strength, value)`.
  abbrev pub weaker : Entry C Chain → Entry C Chain → Bool
  weaker a b = ltb (strength a) (strength b) || (strength a == strength b && ltb a.value b.value)

  abbrev pub weaker_than : Entry C Chain → Option (ℕ × Entry C Chain) → Bool
  weaker_than e none = true
  weaker_than e (some (_, x)) = weaker e x

  -- `enumerate`, `filter` and `min_by_key` in one pass, which keeps the first of equal keys.
  pub weakest_from :
      ℕ → ℕ → Option (ℕ × Entry C Chain) → List (Entry C Chain) → Option (ℕ × Entry C Chain)
  weakest_from best i acc [] = acc
  weakest_from best i acc (e ∷ es) =
      weakest_from best (i + 1) (if ltb e.value best && weaker_than e acc then some (i, e) else acc)
        es

  abbrev pub weakest : ℕ → List (Entry C Chain) → Option (ℕ × Entry C Chain)
  weakest best entries = weakest_from best 0 none entries

  -- An improving entry replaces the weakest below the best, or else the last.
  abbrev evict_for_best : List (Entry C Chain) → Option (ℕ × Entry C Chain) → List (Entry C Chain)
  evict_for_best entries none = remove entries (length entries - 1)
  evict_for_best entries (some (i, _)) = remove entries i

  -- Another entry joins only if it is stronger than the weakest below the best.
  abbrev replace_weakest :
      List (Entry C Chain) → Entry C Chain → Option (ℕ × Entry C Chain) → List (Entry C Chain)
  replace_weakest entries e none = entries
  replace_weakest entries e (some (i, x)) =
      if leb (strength e) (strength x) then entries else remove entries i ++ e ∷ []

  unfoldable pub add_with_chain : List (Entry C Chain) → Entry C Chain → List (Entry C Chain)
  add_with_chain entries e =
      if ltb (length entries) max_entries
      then entries ++ e ∷ []
      else let best = best_value entries in
        if ltb best e.value
        then evict_for_best entries (weakest best entries) ++ e ∷ []
        else replace_weakest entries e (weakest best entries)

  unfoldable pub add : List (Entry C Chain) → List C → ℕ → ℕ → ℕ → Chain → List (Entry C Chain)
  unfolding add_with_chain
  add entries sequence value new_edges delta_activity chain = add_with_chain entries (record {
    sequence = sequence;
    value = value;
    new_edges = new_edges;
    delta_activity = delta_activity;
    chain = some chain;
  })

  -- The last entry with a state among those of the highest value (`max_by_key`).
  abbrev keep_better :
      Option (List C × ℕ × Chain) → Entry C Chain → Option Chain → Option (List C × ℕ × Chain)
  keep_better acc e none = acc
  keep_better none e (some c) = some (e.sequence, e.value, c)
  keep_better (some (s, v, d)) e (some c) =
      if ltb e.value v then some (s, v, d) else some (e.sequence, e.value, c)

  unfoldable pub best_entry_from :
      Option (List C × ℕ × Chain) → List (Entry C Chain) → Option (List C × ℕ × Chain)
  best_entry_from acc [] = acc
  best_entry_from acc (e ∷ es) = best_entry_from (keep_better acc e e.chain) es

  unfoldable pub best_entry : List (Entry C Chain) → Option (List C × ℕ × Chain)
  unfolding best_entry_from
  best_entry = best_entry_from none

module _ (bit_len : ℕ → ℕ) {C Chain : Type 0} where
  unfoldable pub entry_weight : Entry C Chain → ℕ
  entry_weight e =
      let value_weight = saturating_add (bit_len e.value) 1 in
      saturating_add (saturating_add (saturating_add e.new_edges 1) value_weight) e.delta_activity

  abbrev counted : Entry C Chain → Option Chain → ℕ
  counted e none = 0
  counted e (some _) = entry_weight e

  unfoldable pub total_from : ℕ → List (Entry C Chain) → ℕ
  total_from acc [] = acc
  total_from acc (e ∷ es) = total_from ((acc + counted e e.chain) % 2 ^ 64) es

  -- The loop over the entries with a state: `pick` falls by the weights that are passed.
  abbrev try_entry :
      Entry C Chain
      → Option Chain
      → ℕ
      → (ℕ → Option (List C × ℕ × Chain))
      → Option (List C × ℕ × Chain)
  try_entry e none pick rest = rest pick
  try_entry e (some c) pick rest =
      if ltb pick (entry_weight e)
      then some (e.sequence, e.value, c)
      else rest (pick - entry_weight e)

  pub pick_entry : List (Entry C Chain) → ℕ → Option (List C × ℕ × Chain)
  pick_entry [] pick = none
  pick_entry (e ∷ es) pick = try_entry e e.chain pick (pick_entry es)

  abbrev or_entry :
      Entry C Chain → Option Chain → Option (List C × ℕ × Chain) → Option (List C × ℕ × Chain)
  or_entry e c (some x) = some x
  or_entry e none none = none
  or_entry e (some c) none = some (e.sequence, e.value, c)

  -- `entries.iter().rev().find(..)`.
  pub last_replayed : List (Entry C Chain) → Option (List C × ℕ × Chain)
  last_replayed [] = none
  last_replayed (e ∷ es) = or_entry e e.chain (last_replayed es)

  abbrev or_else :
      Option (List C × ℕ × Chain) → Option (List C × ℕ × Chain) → Option (List C × ℕ × Chain)
  or_else none y = y
  or_else (some x) y = some x

  unfoldable pub random_base :
      (r : Rng) → List (Entry C Chain) → r.Gen → Option (List C × ℕ × Chain) × r.Gen
  unfolding total_from pick_entry last_replayed
  random_base r entries g =
      let total = total_from 0 entries in
      if total == 0
      then (none, g)
      else let (pick, g') = r.below total g in
        (or_else (pick_entry entries pick) (last_replayed entries), g')
