-- ===== src/Tester/Corpus.antt =====
-- src/tester/corpus/mod.rs: the bounded corpus of sequences that found coverage. Sums of `u64`
-- wrap, as in a release build.
pub mod Eviction
pub mod Sampling
use ripfuzz.Prelude.{
  ℕ, zero, suc, ◌+◌, ◌-◌, ◌*◌, ◌/◌, ◌%◌, ◌^◌, ◌≤◌, ◌<◌, min, max, compare, Ordering, ◌≡◌, refl, sym,
  ap, ◌∙◌, subst, ◌≢◌, ◌↔◌, ◌⊎◌, inl, inr, Bool, true, false, not, ◌&&◌, ◌||◌, Option, none, some,
  List, [], ◌∷◌, ◌++◌, map, arith, dec_lt, dec_le, ℕ_discrete, ltb, leb, ◌==◌, if◌then◌else◌,
  ltb→lt, lt→ltb, ltb-false→le, ==_iff, Bool-cases, Option-cases, is_some, u64_max, saturating_add,
  length, get_elem?, set, take, drop, is_empty, remove, length-append, length-take, length-drop,
  length-remove, length-set, All, All-append, All-remove, All-set, All-get_elem?, sum_of,
  sum_of-set, sum_of-get_elem?,
}
use ripfuzz.Rng.{Rng}

pub record Entry (C Chain : Type 0) : Type 0 where
  pub sequence : List C
  pub new_edges : ℕ
  pub chain : Option Chain

abbrev pub max_entries : ℕ
max_entries = 256

module _ {C Chain : Type 0} where
  abbrev fewer_than : Entry C Chain → Option (ℕ × ℕ) → Bool
  fewer_than e none = true
  fewer_than e (some (_, edges)) = ltb e.new_edges edges

  -- `enumerate` and `min_by_key`, which keeps the first of equal keys: an index and its edges.
  pub weakest_from : ℕ → Option (ℕ × ℕ) → List (Entry C Chain) → Option (ℕ × ℕ)
  weakest_from i acc [] = acc
  weakest_from i acc (e ∷ es) =
      weakest_from (i + 1) (if fewer_than e acc then some (i, e.new_edges) else acc) es

  abbrev pub weakest : List (Entry C Chain) → Option (ℕ × ℕ)
  weakest = weakest_from 0 none

  abbrev pub replace_weakest :
      List (Entry C Chain) → Entry C Chain → Option (ℕ × ℕ) → List (Entry C Chain)
  replace_weakest entries e none = entries
  replace_weakest entries e (some (i, edges)) =
      if leb edges e.new_edges then remove entries i ++ e ∷ [] else entries

  unfoldable pub add_with_chain : List (Entry C Chain) → Entry C Chain → List (Entry C Chain)
  unfolding weakest_from
  add_with_chain entries e =
      if leb max_entries (length entries)
      then replace_weakest entries e (weakest entries)
      else entries ++ e ∷ []

  unfoldable pub add : List (Entry C Chain) → List C → ℕ → Chain → List (Entry C Chain)
  unfolding add_with_chain
  add entries sequence new_edges chain =
      add_with_chain entries
        (record { sequence = sequence; new_edges = new_edges; chain = some chain })

  unfoldable pub weight : Entry C Chain → ℕ
  weight e = saturating_add e.new_edges 1

  abbrev pub counted : Entry C Chain → Option Chain → ℕ
  counted e none = 0
  counted e (some _) = weight e

  pub total_from : ℕ → List (Entry C Chain) → ℕ
  total_from acc [] = acc
  total_from acc (e ∷ es) = total_from ((acc + counted e e.chain) % 2 ^ 64) es

  abbrev pub try_entry :
      Entry C Chain → Option Chain → ℕ → (ℕ → Option (List C × Chain)) → Option (List C × Chain)
  try_entry e none pick rest = rest pick
  try_entry e (some c) pick rest =
      if ltb pick (weight e) then some (e.sequence, c) else rest (pick - weight e)

  unfoldable pub pick_entry : List (Entry C Chain) → ℕ → Option (List C × Chain)
  pick_entry [] pick = none
  pick_entry (e ∷ es) pick = try_entry e e.chain pick (pick_entry es)

  abbrev pub or_entry :
      Entry C Chain → Option Chain → Option (List C × Chain) → Option (List C × Chain)
  or_entry e c (some x) = some x
  or_entry e none none = none
  or_entry e (some c) none = some (e.sequence, c)

  unfoldable pub last_replayed : List (Entry C Chain) → Option (List C × Chain)
  last_replayed [] = none
  last_replayed (e ∷ es) = or_entry e e.chain (last_replayed es)

  abbrev pub or_else : Option (List C × Chain) → Option (List C × Chain) → Option (List C × Chain)
  or_else none y = y
  or_else (some x) y = some x

  unfoldable pub random_base :
      (r : Rng) → List (Entry C Chain) → r.Gen → Option (List C × Chain) × r.Gen
  unfolding total_from pick_entry last_replayed
  random_base r entries g =
      let total = total_from 0 entries in
      if total == 0
      then (none, g)
      else let (pick, g') = r.below total g in
        (or_else (pick_entry entries pick) (last_replayed entries), g')
