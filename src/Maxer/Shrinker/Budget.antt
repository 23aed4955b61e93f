-- ===== src/Maxer/Shrinker/Budget.antt =====
-- The budget of validation runs, under every schedule of the threads.
use ripfuzz.Prelude.{
  ℕ, ◌+◌, ◌^◌, ◌≤◌, ◌<◌, ◌≡◌, refl, ◌∙◌, ◌⊎◌, Bool, Option, none, some, List, [], ◌∷◌, map, arith,
  length, get_elem?, sum_of, sum_of-set,
}
use ripfuzz.Rng.{Rng}
use ripfuzz.Threads.{System, move}
use ripfuzz.Evm.{Engine}
use ripfuzz.Maxer.Shrinker.{
  SharedShrink, update, record_attempt, exhausted, Phase, top, looking, counting, replaying,
  accepting, finished, failed, Thread, Execution, choose_chunk, worker_phase, shrink_worker, new,
  start,
}

module _ {engine : Engine} {C : Type 0} (ex : Execution engine C) (r : Rng) where
  abbrev replays : Phase C → ℕ
  replays (replaying _) = 1
  replays _ = 0

  abbrev runs_on : Phase C → ℕ
  runs_on finished = 0
  runs_on (failed _) = 0
  runs_on _ = 1

  abbrev waiting : List (Thread C r.Gen) → ℕ
  waiting = sum_of (λ t. replays t.phase)

  abbrev active : List (Thread C r.Gen) → ℕ
  active = sum_of (λ t. runs_on t.phase)

  abbrev replays_now : Option (Thread C r.Gen) → ℕ
  replays_now none = 0
  replays_now (some t) = replays t.phase

  -- The replays on a clean chain that the threads make along a schedule.
  pub replayed : System (SharedShrink C) (Thread C r.Gen) → List (ℕ × Bool) → ℕ
  replayed s [] = 0
  replayed s ((i, timed_out) ∷ steps) =
      replays_now (get_elem? s.threads i)
      + replayed (move (shrink_worker ex r) s i timed_out (get_elem? s.threads i)) steps

  -- `done` replays have been made, by `n` threads.
  record Within (max_runs n done : ℕ) (s : System (SharedShrink C) (Thread C r.Gen)) : Type 0 where
    budget : s.shared.max_runs ≡ max_runs
    counted : done + waiting s.threads ≤ s.shared.attempts
    allowed : done + waiting s.threads ≤ max_runs
    bounded : s.shared.attempts + active s.threads ≤ max_runs + n
    few : active s.threads ≤ n

  worker-Within :
      (timed_out : Bool) (s : SharedShrink C) (g : r.Gen) (p : Phase C)
      → s.attempts + 1 < 2 ^ 64
      → let (s', t') = worker_phase ex r timed_out s g p in
        (s'.max_runs ≡ s.max_runs)
        × (s'.attempts ≤ s.attempts + 1)
        × (replays t'.phase + s.attempts ≤ s'.attempts)
        × ((replays t'.phase ≡ 0) ⊎ (s'.attempts ≤ s.max_runs))
        × (runs_on t'.phase ≤ runs_on p)
        × ((s'.attempts ≡ s.attempts)
            ⊎ ((runs_on p ≡ 1) × ((s'.attempts ≤ s.max_runs) ⊎ (runs_on t'.phase ≡ 0))))
  unfolding exhausted record_attempt update choose_chunk
  worker-Within timed_out s g top fits = ground arith
  worker-Within timed_out s g looking fits = ground arith
  worker-Within timed_out s g (counting c) fits = ground arith
  worker-Within timed_out s g (replaying c) fits = ground arith
  worker-Within timed_out s g (accepting c) fits = ground arith
  worker-Within timed_out s g finished fits = ground arith
  worker-Within timed_out s g (failed e) fits = ground arith

  module _ (max_runs n : ℕ) (fits : max_runs + n + 1 < 2 ^ 64) where
    move-Within :
        (s : System (SharedShrink C) (Thread C r.Gen)) (done i : ℕ) (timed_out : Bool)
        (o : Option (Thread C r.Gen))
        → get_elem? s.threads i ≡ o
        → Within max_runs n done s
        → Within max_runs n (done + replays_now o) (move (shrink_worker ex r) s i timed_out o)
    unfolding shrink_worker
    move-Within s done i timed_out none at h = record {
      budget = h.budget;
      counted = omega (arith, h.counted);
      allowed = omega (arith, h.allowed);
      bounded = h.bounded;
      few = h.few;
    }
    move-Within s done i timed_out (some t) at h =
        let t' = (worker_phase ex r timed_out s.shared t.gen t.phase).1 in
        let w = worker-Within timed_out s.shared t.gen t.phase (omega (arith, h.bounded)) in
        let e1 = sum_of-set (λ (t : Thread C r.Gen). replays t.phase) s.threads i t' at in
        let e2 = sum_of-set (λ (t : Thread C r.Gen). runs_on t.phase) s.threads i t' at in
        record {
          budget = w.0 ∙ h.budget;
          counted = omega (arith, w.2, e1, h.counted);
          allowed = omega (arith, w.0, w.2, w.3, e1, h.allowed, h.counted, h.budget);
          bounded = omega (arith, w.0, w.1, w.4, w.5, e2, h.bounded, h.few, h.budget);
          few = omega (arith, w.4, e2, h.few);
        }

    run-Within :
        (s : System (SharedShrink C) (Thread C r.Gen)) (done : ℕ) (steps : List (ℕ × Bool))
        → Within max_runs n done s
        → done + replayed s steps ≤ max_runs
    unfolding replayed
    run-Within s done [] h = omega (arith, h.allowed)
    run-Within s done ((i, timed_out) ∷ steps) h =
        let o = get_elem? s.threads i in
        omega (
          arith,
          run-Within (move (shrink_worker ex r) s i timed_out o) (done + replays_now o) steps
              (move-Within s done i timed_out o refl h),
        )

  idle :
      (gens : List r.Gen)
      → let ts =
          map (λ (g : r.Gen). let t : Thread C r.Gen = record { phase = top; gen = g } in t) gens in
        (waiting ts ≡ 0) × (active ts ≡ length gens)
  idle [] = omega arith
  idle (g ∷ gs) = omega (arith, idle gs)

  -- However many threads share the budget and however their steps interleave, the candidates
  -- replayed on a clean chain are at most `max_runs` in all (while the counter cannot wrap).
  pub replayed-le-max_runs :
      (original : List C) (max_runs : ℕ) (gens : List r.Gen) (steps : List (ℕ × Bool))
      → max_runs + length gens + 1 < 2 ^ 64
      → replayed (start ex r original max_runs gens) steps ≤ max_runs
  unfolding new
  replayed-le-max_runs original max_runs gens steps fits =
      let none_yet = idle gens in
      let h : Within max_runs (length gens) 0 (start ex r original max_runs gens) = record {
        budget = refl;
        counted = omega (arith, none_yet);
        allowed = omega (arith, none_yet);
        bounded = omega (arith, none_yet);
        few = omega (arith, none_yet);
      } in
      omega (
        arith,
        run-Within max_runs (length gens) fits (start ex r original max_runs gens) 0 steps h,
      )
