-- ===== src/Tests/Maxer.antt =====
-- The campaign for a maximum.
use mathlib.Core.List.{Sublist}
use ripfuzz.Maxer.Shrinker.Turns.{turns, redraws}
use ripfuzz.Maxer.Shrinker.Returns.{Replays, shrink-returns}
use ripfuzz.Tests.Engine.{total}
use ripfuzz.Maxer.Shrinker.{start}
use ripfuzz.Maxer.Shrinker.Schedule.{shrink-Shortened, Reaches}
use ripfuzz.Maxer.Shrinker.Budget.{replayed, replayed-le-max_runs}
use ripfuzz.Maxer.Corpus.{Entry, best_value, add_with_chain, pick_entry, random_base, entry_weight}
use ripfuzz.Maxer.Corpus.Eviction.{
  best_value-add_with_chain, improving_joins, full_corpus-Evicts, length-add_with_chain, Evicts,
}
use ripfuzz.Maxer.Corpus.Sampling.{weights, Holds, random_base-Holds}
use ripfuzz.Maxer.Best.{Best}
use ripfuzz.Maxer.Best.Maximum.{Offer, consider_all, Beats, consider_all-Beats}
use ripfuzz.Maxer.Records.{observe, no_observation}
use ripfuzz.Maxer.Records.Novelty.{
  Event, after, class_of, delta_of, all_above, all_below, observe_novelty,
}
use ripfuzz.Maxer.Delta.{is_negative, is_positive, is_zero}
use ripfuzz.Prelude.{
  ℕ, zero, suc, ◌+◌, ◌*◌, ◌≤◌, ◌<◌, min, max, ◌≡◌, refl, ◌⊎◌, Bool, true, false, ◌&&◌, none, some,
  List, [], ◌∷◌, ◌++◌, map, arith, length, remove, All,
}
use ripfuzz.Rng.{tape}
use ripfuzz.Outcome.{ok}
use ripfuzz.Tests.Engine.{sum_of_seven}
use ripfuzz.Sequence.{without}
use ripfuzz.Maxer.Value.{decode}
use ripfuzz.Threads.{run}
use ripfuzz.Maxer.Shrinker.{
  new, join, shrink_worker, exhausted, choose_chunk, record_attempt, update, measure, shrink,
}

-- One thread deletes the second call of three, is then out of budget, and stops.
abbrev one_thread : List (ℕ × Bool)
one_thread = (0, false) ∷ (0, false) ∷ (0, false) ∷ (0, false) ∷ (0, false) ∷ (0, false) ∷ []

two_calls :
    shrink sum_of_seven tape (5 ∷ 1 ∷ 2 ∷ []) 1 ((1 ∷ 1 ∷ []) ∷ []) one_thread
    ≡ some (ok (5 ∷ 2 ∷ []))
unfolding shrink new run join shrink_worker exhausted choose_chunk record_attempt update measure
    without decode
two_calls = refl

shrink-Shortened_example :
    Sublist {A = ℕ} (5 ∷ 2 ∷ []) (5 ∷ 1 ∷ 2 ∷ [])
    × (2 ≤ 3)
    × ((◌≡◌ {A = List ℕ} (5 ∷ 2 ∷ []) (5 ∷ 1 ∷ 2 ∷ []))
        ⊎ Reaches sum_of_seven (5 ∷ 1 ∷ 2 ∷ []) (5 ∷ 2 ∷ []))
shrink-Shortened_example =
    shrink-Shortened sum_of_seven (5 ∷ 1 ∷ 2 ∷ []) tape 1 ((1 ∷ 1 ∷ []) ∷ []) one_thread
      (5 ∷ 2 ∷ []) two_calls

replayed-le-max_runs_example :
    replayed sum_of_seven tape
      (start sum_of_seven tape (5 ∷ 1 ∷ 2 ∷ []) 1 ((1 ∷ 1 ∷ []) ∷ (1 ∷ 0 ∷ []) ∷ []))
      ((0, false) ∷ (1, false) ∷ (0, false) ∷ (1, false) ∷ (1, false) ∷ [])
    ≤ 1
replayed-le-max_runs_example =
    replayed-le-max_runs sum_of_seven tape (5 ∷ 1 ∷ 2 ∷ []) 1 ((1 ∷ 1 ∷ []) ∷ (1 ∷ 0 ∷ []) ∷ [])
      ((0, false) ∷ (1, false) ∷ (0, false) ∷ (1, false) ∷ (1, false) ∷ []) (omega arith)

abbrev entry : List ℕ → ℕ → ℕ → Entry ℕ ℕ
entry sequence value new_edges = record {
  sequence = sequence;
  value = value;
  new_edges = new_edges;
  delta_activity = 0;
  chain = some value;
}

abbrev small : List (Entry ℕ ℕ)
small = entry (1 ∷ []) 10 2 ∷ entry (2 ∷ 3 ∷ []) 30 1 ∷ []

abbrev copies : ℕ → Entry ℕ ℕ → List (Entry ℕ ℕ)
copies zero e = []
copies (suc n) e = e ∷ copies n e

abbrev full : List (Entry ℕ ℕ)
full = entry (9 ∷ []) 50 4 ∷ copies 255 (entry (8 ∷ []) 7 3)

best_value-add_with_chain_example :
    best_value (add_with_chain small (entry (4 ∷ []) 20 5)) ≡ max (best_value small) 20
best_value-add_with_chain_example = best_value-add_with_chain small (entry (4 ∷ []) 20 5)

full_best : best_value full < 60
unfolding best_value
full_best = omega arith

full_beats : 20 ≤ best_value full
unfolding best_value
full_beats = omega arith

improving_joins_example :
    (xs : List (Entry ℕ ℕ)) × (add_with_chain full (entry (4 ∷ []) 60 0)
      ≡ xs ++ entry (4 ∷ []) 60 0 ∷ [])
    × ((xs ≡ full) ⊎ ((i : ℕ) × (xs ≡ remove full i) × (256 ≤ length full)))
improving_joins_example = improving_joins full (entry (4 ∷ []) 60 0) full_best

full_corpus-Evicts_example :
    (add_with_chain full (entry (4 ∷ []) 20 3) ≡ full)
    ⊎ ((i : ℕ) × (add_with_chain full (entry (4 ∷ []) 20 3)
          ≡ remove full i ++ entry (4 ∷ []) 20 3 ∷ [])
        × Evicts full (entry (4 ∷ []) 20 3) i)
full_corpus-Evicts_example = full_corpus-Evicts full (entry (4 ∷ []) 20 3) (omega arith) full_beats

length-add_with_chain_example :
    (length (add_with_chain full (entry (4 ∷ []) 60 0)) ≤ 256)
    × (length full ≤ length (add_with_chain full (entry (4 ∷ []) 60 0)))
length-add_with_chain_example = length-add_with_chain full (entry (4 ∷ []) 60 0) (omega arith)

-- A bit length that the laws allow.
abbrev bits : ℕ → ℕ
bits n = min n 256

random_base-Holds_example :
    ((random_base bits tape small (5 ∷ [])).0 ≡ none × (weights bits small ≡ 0))
    ⊎ ((x : List ℕ × ℕ × ℕ) × ((random_base bits tape small (5 ∷ [])).0 ≡ some x)
        × (pick_entry bits small (tape.below (weights bits small) (5 ∷ [])).0 ≡ some x)
        × Holds bits small x)
unfolding entry_weight
random_base-Holds_example = random_base-Holds bits tape small (5 ∷ []) (omega arith)

abbrev best : Best ℕ ℕ
best = record { value = 10; sequence = 1 ∷ 2 ∷ []; chain = some 3 }

abbrev offers : List (Offer ℕ ℕ)
offers =
    record { sequence = 4 ∷ []; value = 10; chain = 5 }
    ∷ record { sequence = 6 ∷ 7 ∷ []; value = 12; chain = 8 }
    ∷ []

consider_all-Beats_example : All (Beats (consider_all best offers)) offers
consider_all-Beats_example = consider_all-Beats best offers

abbrev rise : Event ℕ
rise = record { prefix = 1 ∷ []; handler = 2; before = 3; after = 9; below_baseline = true }

observe_novelty_example :
    let r =
      observe (λ c. c) (after (λ c. c) (rise ∷ [])) (1 ∷ []) 2 (delta_of (λ c. c) rise) true in
    (r.1.new_record_min ≡ (
      is_negative (delta_of (λ c. c) rise)
      && all_above (λ c. c) (class_of (λ c. c) rise) (delta_of (λ c. c) rise) (rise ∷ [])))
    × (r.1.new_record_max ≡ (
        is_positive (delta_of (λ c. c) rise)
        && all_below (λ c. c) (class_of (λ c. c) rise) (delta_of (λ c. c) rise) (rise ∷ [])))
    × (r.1.recovery ≡ (true && is_positive (delta_of (λ c. c) rise)))
    × (is_zero (delta_of (λ c. c) rise) ≡ true
        → (r.1 ≡ no_observation) × (r.0 ≡ after (λ c. c) (rise ∷ [])))
observe_novelty_example = observe_novelty (λ c. c) (rise ∷ []) rise

replays : Replays sum_of_seven tape
unfolding measure decode
replays c = (some (total 0 (map (λ x. x) c) + 0), refl)

abbrev two_gens : List (List ℕ)
two_gens = (1 ∷ 1 ∷ []) ∷ (1 ∷ 0 ∷ []) ∷ []

-- Both threads in turns.
abbrev in_turns : ℕ → List (ℕ × Bool)
in_turns zero = []
in_turns (suc n) = (0, false) ∷ (1, false) ∷ in_turns n

turns-enough :
    (i : ℕ)
    → i < 2
    → 5 * 1
        + 3
        + 2
          * redraws sum_of_seven tape i
              (start sum_of_seven tape (5 ∷ 1 ∷ 2 ∷ []) 1 two_gens)
              (in_turns 10)
      ≤ turns i (in_turns 10)
unfolding redraws new shrink_worker exhausted choose_chunk record_attempt update measure without
    decode
turns-enough zero lt = omega arith
turns-enough (suc zero) lt = omega arith
turns-enough (suc (suc i)) lt = absurd (omega arith)

shrink-returns_example :
    (s : List ℕ) × (shrink sum_of_seven tape (5 ∷ 1 ∷ 2 ∷ []) 1 two_gens (in_turns 10)
      ≡ some (ok s))
shrink-returns_example =
    shrink-returns sum_of_seven tape replays (5 ∷ 1 ∷ 2 ∷ []) 1 two_gens (in_turns 10) (omega arith)
      turns-enough
