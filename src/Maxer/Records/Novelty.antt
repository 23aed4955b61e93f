-- ===== src/Maxer/Records/Novelty.antt =====
-- The novelty flags of an observation, against the history of all the observations before it.
use ripfuzz.Prelude.{
  ℕ, ◌≡◌, refl, ◌↔◌, inl, inr, Bool, true, not, ◌&&◌, ◌||◌, Option, none, some, List, [], ◌∷◌, map,
  arith, if◌then◌else◌, Option-cases,
}
use ripfuzz.Maxer.Delta.Order.{between_exact}
use ripfuzz.Maxer.Delta.{
  between, is_negative, is_positive, Delta, cmp, lt_delta, is_zero, is_negative, is_positive,
}
use ripfuzz.Maxer.Records.{
  Class, ClassRecord, Records, same_prefix, same_class, find, insert, Observation, observe, widen,
  no_observation,
}

same_prefix_iff : (xs ys : List ℕ) → (same_prefix xs ys ≡ true) ↔ (xs ≡ ys)
unfolding same_prefix
same_prefix_iff [] [] = ground arith
same_prefix_iff [] (y ∷ ys) = ground arith
same_prefix_iff (x ∷ xs) [] = ground arith
same_prefix_iff (x ∷ xs) (y ∷ ys) = ground (arith, same_prefix_iff xs ys)

pub same_class_iff : (c d : Class) → (same_class c d ≡ true) ↔ (c ≡ d)
unfolding same_class
same_class_iff c d = ground (arith, same_prefix_iff c.prefix d.prefix)

pub find-insert :
    (c d : Class) (r : ClassRecord) (m : Records)
    → find d (insert c r m) ≡ (if same_class c d then some r else find d m)
unfolding find insert
find-insert c d r [] = refl
find-insert c d r ((e, q) ∷ m) =
    ground (arith, same_class_iff c d, same_class_iff e c, same_class_iff e d, find-insert c d r m)

-- One observed call: its class, the values around it, and whether it set out below the baseline.
pub record Event (C : Type 0) : Type 0 where
  pub prefix : List C
  pub handler : C
  pub before : ℕ
  pub after : ℕ
  pub below_baseline : Bool

module _ {C : Type 0} (selector : C → ℕ) where
  abbrev pub class_of : Event C → Class
  class_of e = record { prefix = map selector e.prefix; handler = selector e.handler }

  abbrev pub delta_of : Event C → Delta
  delta_of e = between e.before e.after

  abbrev observe_event : Records → Event C → Records × Observation
  observe_event m e = observe selector m e.prefix e.handler (delta_of e) e.below_baseline

  -- The records after a history of observations, the newest first.
  pub after : List (Event C) → Records
  after [] = []
  after (e ∷ es) = (observe_event (after es) e).0

  -- Whether every earlier change of the class lies strictly above, or strictly below, a delta.
  abbrev pub all_above : Class → Delta → List (Event C) → Bool
  all_above c d [] = true
  all_above c d (e ∷ es) =
      (not (same_class (class_of e) c) || is_zero (delta_of e) || lt_delta d (delta_of e))
      && all_above c d es

  abbrev pub all_below : Class → Delta → List (Event C) → Bool
  all_below c d [] = true
  all_below c d (e ∷ es) =
      (not (same_class (class_of e) c) || is_zero (delta_of e) || lt_delta (delta_of e) d)
      && all_below c d es

  abbrev min_bound : Option ClassRecord → Delta → Bool
  min_bound none d = true
  min_bound (some r) d = lt_delta d r.min

  abbrev max_bound : Option ClassRecord → Delta → Bool
  max_bound none d = true
  max_bound (some r) d = lt_delta r.max d

  lt-min :
      (d e m : Delta) → lt_delta d (if lt_delta e m then e else m) ≡ (lt_delta d e && lt_delta d m)
  unfolding cmp
  lt-min d e m = ground arith

  lt-max :
      (d e m : Delta) → lt_delta (if lt_delta m e then e else m) d ≡ (lt_delta e d && lt_delta m d)
  unfolding cmp
  lt-max d e m = ground arith

  -- What one observation does to the bounds of a class.
  min_bound-observe :
      (c : Class) (d : Delta) (m : Records) (e : Event C)
      → min_bound (find c (observe_event m e).0) d ≡ (
          (not (same_class (class_of e) c) || is_zero (delta_of e) || lt_delta d (delta_of e))
          && min_bound (find c m) d)
  unfolding observe widen
  min_bound-observe c d m e = elim (Option-cases (find (class_of e) m)) [
    | inl fresh ↦ ground (
      arith,
      same_class_iff (class_of e) c,
      find-insert (class_of e) c (record { min = (delta_of e); max = (delta_of e) }) m,
    )
    | inr (r, found) ↦ ground (
      arith,
      same_class_iff (class_of e) c,
      lt-min d (delta_of e) r.min,
      find-insert (class_of e) c (widen r (delta_of e)) m,
    )
  ]

  max_bound-observe :
      (c : Class) (d : Delta) (m : Records) (e : Event C)
      → max_bound (find c (observe_event m e).0) d ≡ (
          (not (same_class (class_of e) c) || is_zero (delta_of e) || lt_delta (delta_of e) d)
          && max_bound (find c m) d)
  unfolding observe widen
  max_bound-observe c d m e = elim (Option-cases (find (class_of e) m)) [
    | inl fresh ↦ ground (
      arith,
      same_class_iff (class_of e) c,
      find-insert (class_of e) c (record { min = (delta_of e); max = (delta_of e) }) m,
    )
    | inr (r, found) ↦ ground (
      arith,
      same_class_iff (class_of e) c,
      lt-max d (delta_of e) r.max,
      find-insert (class_of e) c (widen r (delta_of e)) m,
    )
  ]

  min_bound-after :
      (c : Class) (d : Delta) (es : List (Event C))
      → min_bound (find c (after es)) d ≡ all_above c d es
  unfolding after find
  min_bound-after c d [] = refl
  min_bound-after c d (e ∷ es) = rw (min_bound-observe c d (after es) e, min_bound-after c d es)

  max_bound-after :
      (c : Class) (d : Delta) (es : List (Event C))
      → max_bound (find c (after es)) d ≡ all_below c d es
  unfolding after find
  max_bound-after c d [] = refl
  max_bound-after c d (e ∷ es) = rw (max_bound-observe c d (after es) e, max_bound-after c d es)

  -- After any history of observations, a fall is a new minimum exactly if it is below every earlier
  -- change of its class, a rise is a new maximum exactly if it is above every earlier change, a rise
  -- from below the baseline is a recovery, and a flat call is none of these and changes no record.
  pub observe_novelty :
      (es : List (Event C)) (e : Event C)
      → let r = observe selector (after es) e.prefix e.handler (delta_of e) e.below_baseline in
        (r.1.new_record_min ≡ (is_negative (delta_of e) && all_above (class_of e) (delta_of e) es))
        × (r.1.new_record_max
            ≡ (is_positive (delta_of e) && all_below (class_of e) (delta_of e) es))
        × (r.1.recovery ≡ (e.below_baseline && is_positive (delta_of e)))
        × (is_zero (delta_of e) ≡ true → (r.1 ≡ no_observation) × (r.0 ≡ after es))
  unfolding observe
  observe_novelty es e = elim (Option-cases (find (class_of e) (after es))) [
    | inl fresh ↦ ground (
      arith,
      between_exact e.before e.after,
      min_bound-after (class_of e) (delta_of e) es,
      max_bound-after (class_of e) (delta_of e) es,
    )
    | inr (r, found) ↦ ground (
      arith,
      between_exact e.before e.after,
      min_bound-after (class_of e) (delta_of e) es,
      max_bound-after (class_of e) (delta_of e) es,
    )
  ]
