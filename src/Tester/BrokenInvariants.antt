-- ===== src/Tester/BrokenInvariants.antt =====
-- src/tester/broken_invariant.rs: one finding, and the shared collection with one entry for each
-- id. The set `keys` is written and never read; it is kept as a list.
pub mod Collection
use Prim.Native.String.{String}
use text.Mathlib.Text.{◌==◌ as str_eq}
use ripfuzz.Prelude.{
  ℕ, zero, suc, ◌+◌, ◌-◌, ◌*◌, ◌/◌, ◌%◌, ◌^◌, ◌≤◌, ◌<◌, min, max, compare, Ordering, ◌≡◌, refl, sym,
  ap, ◌∙◌, subst, ◌≢◌, ◌↔◌, ◌⊎◌, inl, inr, Bool, true, false, not, ◌&&◌, ◌||◌, Option, none, some,
  List, [], ◌∷◌, ◌++◌, map, arith, dec_lt, dec_le, ℕ_discrete, ltb, leb, ◌==◌, if◌then◌else◌,
  ltb→lt, lt→ltb, ltb-false→le, ==_iff, Bool-cases, Option-cases, is_some, u64_max, saturating_add,
  length, get_elem?, set, take, drop, is_empty, remove, length-append, length-take, length-drop,
  length-remove, length-set, All, All-append, All-remove, All-set, All-get_elem?, sum_of,
  sum_of-set, sum_of-get_elem?,
}

pub record BrokenInvariant (C : Type 0) : Type 0 where
  pub sequence : List C
  pub id : String
  pub description : String

abbrev pub empty : {C : Type 0} → BrokenInvariant C
empty = record { sequence = []; id = ""; description = "" }

pub record Inner (C : Type 0) : Type 0 where
  pub broken_invariants : List (BrokenInvariant C)
  pub keys : List String

module _ {C : Type 0} where
  pub with_id : String → BrokenInvariant C → BrokenInvariant C
  with_id id b = record b { id = id }

  pub with_description : String → BrokenInvariant C → BrokenInvariant C
  with_description description b = record b { description = description }

  unfoldable pub with_calls : List C → BrokenInvariant C → BrokenInvariant C
  with_calls sequence b = record b { sequence = sequence }

  -- `iter_mut().find(..)`: the known finding of the id.
  unfoldable pub find : String → List (BrokenInvariant C) → Option (BrokenInvariant C)
  find id [] = none
  find id (b ∷ bs) = if str_eq b.id id then some b else find id bs

  -- The assignment through the found reference: the first finding of the id becomes the new one.
  unfoldable pub replace : BrokenInvariant C → List (BrokenInvariant C) → List (BrokenInvariant C)
  replace broken [] = []
  replace broken (b ∷ bs) = if str_eq b.id broken.id then broken ∷ bs else b ∷ replace broken bs

  abbrev pub add_found :
      ℕ → Inner C → BrokenInvariant C → Option (BrokenInvariant C) → Inner C × Bool
  add_found limit inner broken (some existing) =
      if ltb (length broken.sequence) (length existing.sequence)
      then (record inner { broken_invariants = replace broken inner.broken_invariants }, false)
      else (inner, false)
  add_found limit inner broken none =
      if leb limit (length inner.broken_invariants) then (inner, false) else (
        record {
          broken_invariants = inner.broken_invariants ++ broken ∷ [];
          keys = broken.id ∷ inner.keys;
        },
        true,
      )

  -- `limit` is the field `max` of the collection.
  unfoldable pub try_add : ℕ → Inner C → BrokenInvariant C → Inner C × Bool
  unfolding find replace
  try_add limit inner broken = add_found limit inner broken (find broken.id inner.broken_invariants)

  unfoldable pub is_full : ℕ → Inner C → Bool
  is_full limit inner = leb limit (length inner.broken_invariants)
