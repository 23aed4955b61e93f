-- ===== src/Maxer/Shrinker/Returns.antt =====
-- When shrinking returns, and when it is an error (`src/maxer/shrinker.rs`).
use ripfuzz.Prelude.{
  ℕ, suc, true, ◌+◌, ◌*◌, ◌^◌, ◌<◌, get_elem?, ◌≤◌, ◌≡◌, refl, sym, subst, inl, inr, Bool, Option,
  none, some, List, [], ◌∷◌, map, arith, dec_le, Bool-cases, length, is_empty, All,
}
use ripfuzz.Outcome.{Result, ok}
use ripfuzz.Rng.{Rng}
use ripfuzz.Threads.{run, HoldsOf, run-Holds}
use ripfuzz.Evm.{Engine}
use ripfuzz.Sequence.{without_lem, pick_chunk, pick_chunk_fits}
use ripfuzz.Maxer.Shrinker.Turns.{ended, turns, redraws, run-ended}
use ripfuzz.Maxer.Shrinker.{
  SharedShrink, record_attempt, exhausted, Phase, top, looking, counting, replaying, accepting,
  finished, failed, Thread, Execution, measure, judge, choose_chunk, candidate_phase, worker_phase,
  shrink_worker, join, shrink, start,
}

abbrev Fine : {C : Type 0} → Phase C → Type 0
Fine (failed _) = ⊥
Fine _ = Unit {0}

candidate-Fine :
    {C : Type 0} (c : Result (List C)) {rest : List C} → c ≡ ok rest → Fine (candidate_phase c)
candidate-Fine c {rest} e =
    rw e (elim (Bool-cases (is_empty rest)) [ inl z ↦ rw z tt | inr z ↦ rw z tt ])

module _ {engine : Engine} {C : Type 0} (ex : Execution engine C) (r : Rng) where
  choose_chunk-Fine :
      (current : List C) (g : r.Gen) → 1 ≤ length current → Fine (choose_chunk r current g).0
  unfolding choose_chunk
  choose_chunk-Fine current g some_call =
      let (from, to) = (pick_chunk r (length current) g).0 in
      let fits = pick_chunk_fits r (length current) g some_call in
      candidate-Fine _ (without_lem current from to fits.0 fits.1).1

  -- Every replay of a candidate yields a result.
  abbrev pub Replays : Type 0
  Replays = (c : List C) → (v : Option ℕ) × (measure ex c ≡ ok v)

  judge-Fine : (c : List C) (v : Option ℕ) → Fine (judge ex c (ok v))
  judge-Fine c none = tt
  judge-Fine c (some v) = ground arith

  worker_phase-Fine :
      Replays
      → (timed_out : Bool) (s : SharedShrink C) (g : r.Gen) (p : Phase C) → Fine p
      → Fine (worker_phase ex r timed_out s g p).1.phase
  unfolding exhausted record_attempt
  worker_phase-Fine replays timed_out s g top h = ground arith
  worker_phase-Fine replays timed_out s g looking h = elim (dec_le (length s.current) 1) [
    | yes one ↦ ground arith
    | no more ↦ ground (arith, choose_chunk-Fine s.current g (omega arith))
  ]
  worker_phase-Fine replays timed_out s g (counting c) h = ground arith
  worker_phase-Fine replays timed_out s g (replaying c) h =
      let (v, e) = replays c in subst (λ m. Fine (judge ex c m)) (sym e) (judge-Fine c v)
  worker_phase-Fine replays timed_out s g (accepting c) h = tt
  worker_phase-Fine replays timed_out s g finished h = tt
  worker_phase-Fine replays timed_out s g (failed e) h = h

  abbrev AllFine : List (Thread C r.Gen) → Type 0
  AllFine = All (λ t. Fine t.phase)

  shrink_worker-Fine :
      Replays
      → (timed_out : Bool) (s : SharedShrink C) (t : Thread C r.Gen) → Unit {0}
      → Fine t.phase
      → HoldsOf
          (shrink_worker ex r)
          (λ _. Unit {0})
          (λ t. Fine t.phase)
          (shrink_worker ex r timed_out s t)
  unfolding shrink_worker
  shrink_worker-Fine replays timed_out s t u h =
      (tt, worker_phase-Fine replays timed_out s t.gen t.phase h)

  started-Fine : (gs : List r.Gen) → AllFine (map (λ g. record { phase = top; gen = g }) gs)
  started-Fine [] = tt
  started-Fine (g ∷ gs) = (tt, started-Fine gs)

  join-Fine :
      (ts : List (Thread C r.Gen)) (current : List C)
      → AllFine ts
      → ((i : ℕ) (t : Thread C r.Gen) → get_elem? ts i ≡ some t → ended t.phase ≡ true)
      → join ex r ts current ≡ some (ok current)
  unfolding join
  join-Fine [] current h over = refl
  join-Fine (t ∷ ts) current h over =
      let rest = join-Fine ts current h.1 (λ i u at. over (suc i) u at) in
      ground (arith, h.0, over 0 t refl, rest)

  -- If every replay of a candidate yields a result, shrinking ends and returns a sequence and no error,
  -- under every schedule of fewer than 2^64 steps, of any number of threads, that gives each thread five
  -- turns for each run of the budget and three more, and two for each time it draws the whole sequence,
  -- which is not counted as an attempt.
  pub shrink-returns :
      Replays
      → (original : List C) (max_runs : ℕ) (gens : List r.Gen) (steps : List (ℕ × Bool))
      → length steps < 2 ^ 64
      → ((i : ℕ)
          → i < length gens
          → 5 * max_runs + 3 + 2 * redraws ex r i (start ex r original max_runs gens) steps
            ≤ turns i steps)
      → (s : List C) × (shrink ex r original max_runs gens steps ≡ some (ok s))
  unfolding shrink
  shrink-returns replays original max_runs gens steps fits enough =
      elim (dec_le (length original) 1) [
        | yes short ↦ (original, ground arith)
        | no long ↦
            let final = run (shrink_worker ex r) (start ex r original max_runs gens) steps in
            let fine =
              (run-Holds (shrink_worker ex r) (λ _. Unit {0}) (λ t. Fine t.phase)
                (shrink_worker-Fine replays) (start ex r original max_runs gens) steps
                (tt, started-Fine gens)).1 in
            let over = run-ended ex r original max_runs gens steps fits enough in
            (
              final.shared.current,
              ground (arith, join-Fine final.threads final.shared.current fine over),
            )
      ]
