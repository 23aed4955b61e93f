-- ===== src/Maxer/Records.antt =====
-- src/maxer/records.rs: the smallest and largest delta of each class, and the novelty flags. The
-- hash map is an association list; `selector` of a call comes from the ABI crate.
pub mod Novelty
use ripfuzz.Prelude.{
  ℕ, Bool, true, false, ◌&&◌, ◌||◌, ◌==◌, Option, none, some, List, [], ◌∷◌, map, if◌then◌else◌,
}
use ripfuzz.Maxer.Delta.{Delta, is_zero, is_negative, is_positive, lt_delta}

pub record Observation : Type 0 where
  pub new_record_min : Bool
  pub new_record_max : Bool
  pub recovery : Bool

-- The derived `Default`.
abbrev pub no_observation : Observation
no_observation = record { new_record_min = false; new_record_max = false; recovery = false }

unfoldable pub is_interesting : Observation → Bool
is_interesting o = o.new_record_min || o.new_record_max || o.recovery

pub record Class : Type 0 where
  pub prefix : List ℕ
  pub handler : ℕ

pub record ClassRecord : Type 0 where
  pub min : Delta
  pub max : Delta

abbrev pub Records : Type 0
Records = List (Class × ClassRecord)

pub same_prefix : List ℕ → List ℕ → Bool
same_prefix [] [] = true
same_prefix (x ∷ xs) (y ∷ ys) = x == y && same_prefix xs ys
same_prefix _ _ = false

-- The derived `Eq` of a class.
unfoldable pub same_class : Class → Class → Bool
same_class c d = c.handler == d.handler && same_prefix c.prefix d.prefix

unfoldable pub find : Class → Records → Option ClassRecord
find c [] = none
find c ((d, r) ∷ m) = if same_class d c then some r else find c m

unfoldable pub insert : Class → ClassRecord → Records → Records
insert c r [] = (c, r) ∷ []
insert c r ((d, q) ∷ m) = if same_class d c then (c, r) ∷ m else (d, q) ∷ insert c r m

-- The widened record of a class that has one.
pub widen : ClassRecord → Delta → ClassRecord
widen r delta = record {
  min = if lt_delta delta r.min then delta else r.min;
  max = if lt_delta r.max delta then delta else r.max;
}

-- The two arms of the match on the map's entry.
unfoldable pub observe_class :
    Option ClassRecord → Records → Class → Delta → Bool → Records × Observation
unfolding widen is_negative is_positive
observe_class none records c delta recovery = (
  insert c (record { min = delta; max = delta }) records,
  record {
    new_record_min = is_negative delta;
    new_record_max = is_positive delta;
    recovery = recovery;
  },
)
observe_class (some r) records c delta recovery = (
  insert c (widen r delta) records,
  record {
    new_record_min = is_negative delta && lt_delta delta r.min;
    new_record_max = is_positive delta && lt_delta r.max delta;
    recovery = recovery;
  },
)

unfoldable pub observe :
    {C : Type 0} → (C → ℕ) → Records → List C → C → Delta → Bool → Records × Observation
unfolding is_zero observe_class
observe selector records prefix handler delta below_baseline =
    if is_zero delta
    then (records, no_observation)
    else let c : Class = record { prefix = map selector prefix; handler = selector handler } in
      observe_class (find c records) records c delta (below_baseline && is_positive delta)
