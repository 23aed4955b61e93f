-- ===== src/Maxer/Shrinker/Schedule.antt =====
-- The shared sequence under the schedules of the threads (`src/maxer/shrinker.rs`).
use mathlib.Core.List.{Sublist}
use mathlib.Core.List.Sublist
use ripfuzz.Prelude.{
  ℕ, ◌≤◌, ◌≡◌, refl, subst, ◌⊎◌, inl, inr, Bool, Option, some, List, [], ◌∷◌, map, arith, dec_le,
  Bool-cases, length, is_empty, All,
}
use ripfuzz.Outcome.{Result, ok}
use ripfuzz.Rng.{Rng}
use ripfuzz.Threads.{System, run, Holds, run-Holds}
use ripfuzz.Evm.{Engine}
use ripfuzz.Sequence.{without, without_lem, pick_chunk, pick_chunk_fits}
use ripfuzz.Maxer.Shrinker.{
  SharedShrink, update, record_attempt, exhausted, Phase, top, looking, counting, replaying,
  accepting, Thread, Execution, measure, judge, choose_chunk, candidate_phase, worker_phase,
  shrink_worker, new, join, shrink, start,
}

module _ {engine : Engine} {C : Type 0} (ex : Execution engine C) (original : List C) where
  abbrev IsReached : ℕ → Result (Option ℕ) → Type 0
  IsReached target (ok (some v)) = target ≤ v
  IsReached target _ = ⊥

  -- A replay of the sequence ends at the target value at least.
  abbrev pub Reaches : List C → Type 0
  Reaches s = IsReached ex.target_value (measure ex s)

  pub record Shortened (s : List C) : Type 0 where
    pub order : Sublist s original
    pub shorter : length s ≤ length original
    pub some_call : 1 ≤ length s

  abbrev PhaseHolds : Phase C → Type 0
  PhaseHolds (counting c) = Shortened c
  PhaseHolds (replaying c) = Shortened c
  PhaseHolds (accepting c) = Shortened c × Reaches c
  PhaseHolds _ = Unit {0}

  abbrev SharedHolds : SharedShrink C → Type 0
  SharedHolds s = Shortened s.current × ((s.current ≡ original) ⊎ Reaches s.current)

  candidate-Holds :
      (current : List C) (from to : ℕ)
      → Shortened current
      → from ≤ to
      → to ≤ length current
      → PhaseHolds (candidate_phase (without current from to))
  candidate-Holds current from to h le fits =
      let (rest, returned, order, len) = without_lem current from to le fits in
      rw returned (elim (Bool-cases (is_empty rest)) [
        | inl none_left ↦ rw none_left tt
        | inr some_left ↦ rw some_left (record {
          order = Sublist.trans order h.order;
          shorter = omega (arith, len, h.shorter);
          some_call = ground arith;
        })
      ])

  module _ (r : Rng) where
    choose_chunk-Holds :
        (current : List C) (g : r.Gen) → Shortened current → PhaseHolds (choose_chunk r current g).0
    unfolding choose_chunk
    choose_chunk-Holds current g h =
        let (from, to) = (pick_chunk r (length current) g).0 in
        let fits = pick_chunk_fits r (length current) g h.some_call in
        candidate-Holds current from to h fits.0 fits.1

    judge-Holds : (c : List C) → Shortened c → PhaseHolds (judge ex c (measure ex c))
    judge-Holds c h = ground arith

    abbrev LocalHolds : SharedShrink C × Thread C r.Gen → Type 0
    LocalHolds (s, t) = SharedHolds s × PhaseHolds t.phase

    worker_phase-Holds :
        (timed_out : Bool) (s : SharedShrink C) (g : r.Gen) (p : Phase C)
        → SharedHolds s
        → PhaseHolds p
        → LocalHolds (worker_phase ex r timed_out s g p)
    unfolding exhausted record_attempt update
    worker_phase-Holds timed_out s g top hs ht = ground arith
    worker_phase-Holds timed_out s g looking hs ht =
        ground (arith, choose_chunk-Holds s.current g hs.0)
    worker_phase-Holds timed_out s g (counting c) hs ht = ground arith
    worker_phase-Holds timed_out s g (replaying c) hs ht = (hs, judge-Holds c ht)
    worker_phase-Holds timed_out s g (accepting c) hs ht = ground arith
    worker_phase-Holds timed_out s g _ hs ht = (hs, tt)

    abbrev SystemHolds : System (SharedShrink C) (Thread C r.Gen) → Type 0
    SystemHolds = Holds (shrink_worker ex r) SharedHolds (λ t. PhaseHolds t.phase)

    shrink_worker-Holds :
        (timed_out : Bool) (s : SharedShrink C) (t : Thread C r.Gen)
        → SharedHolds s
        → PhaseHolds t.phase
        → LocalHolds (shrink_worker ex r timed_out s t)
    unfolding shrink_worker
    shrink_worker-Holds timed_out s t hs ht = worker_phase-Holds timed_out s t.gen t.phase hs ht

    start-Holds :
        (max_runs : ℕ) (gens : List r.Gen)
        → 1 ≤ length original
        → SystemHolds (start ex r original max_runs gens)
    unfolding new
    start-Holds max_runs gens some_call = (
      (
        record { order = Sublist.refl original; shorter = omega arith; some_call = some_call },
        inl refl,
      ),
      idle gens,
    )
      where
        idle :
            (gs : List r.Gen)
            → All
                (λ (t : Thread C r.Gen). PhaseHolds t.phase)
                (map (λ g. record { phase = top; gen = g }) gs)
        idle [] = tt
        idle (g ∷ gs) = (tt, idle gs)

    join-eq-ok :
        (ts : List (Thread C r.Gen)) (current s : List C)
        → join ex r ts current ≡ some (ok s)
        → current ≡ s
    unfolding join
    join-eq-ok [] current s h = ground arith
    join-eq-ok (t ∷ ts) current s h = ground (arith, join-eq-ok ts current s)

    -- Under every schedule of any number of threads, what shrinking returns has the original's
    -- calls in their order, is not longer than it, and is the original itself or a sequence whose
    -- replay on a clean chain ends at the target value at least.
    pub shrink-Shortened :
        (max_runs : ℕ) (gens : List r.Gen) (steps : List (ℕ × Bool)) (s : List C)
        → shrink ex r original max_runs gens steps ≡ some (ok s)
        → Sublist s original × (length s ≤ length original) × ((s ≡ original) ⊎ Reaches s)
    unfolding shrink
    shrink-Shortened max_runs gens steps s h = elim (dec_le (length original) 1) [
      | yes short ↦
          let same : s ≡ original = ground arith in
          (rw same (Sublist.refl original), rw same (omega arith), inl same)
      | no long ↦
          let final = run (shrink_worker ex r) (start ex r original max_runs gens) steps in
          let held =
            run-Holds (shrink_worker ex r) SharedHolds (λ t. PhaseHolds t.phase) shrink_worker-Holds
              (start ex r original max_runs gens) steps (start-Holds max_runs gens (omega arith)) in
          let same : final.shared.current ≡ s =
            join-eq-ok final.threads final.shared.current s (ground arith) in
          let kept = subst (λ x. Shortened x × ((x ≡ original) ⊎ Reaches x)) same held.0 in
          (kept.0.order, kept.0.shorter, kept.1)
    ]
