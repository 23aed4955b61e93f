-- ===== src/Tester/Fuzzer/Findings.antt =====
-- The findings and states that a campaign keeps (`src/tester/fuzzer.rs`).
use ripfuzz.Prelude.{
  ℕ, inl, inr, Bool, ◌||◌, Option, none, some, List, [], ◌∷◌, arith, ltb, ◌==◌, Bool-cases, All,
}
use ripfuzz.Outcome.{Result, ok, err}
use ripfuzz.Rng.{Rng}
use ripfuzz.Rng.Draw.{Leaves}
use ripfuzz.Threads.{run-Holds}
use ripfuzz.Evm.{Engine}
use ripfuzz.Coverage.Shared.{SharedCoverage}
use ripfuzz.Tester.Stop.{Codecs}
use ripfuzz.Tester.BrokenInvariants.{Inner, is_full}
use ripfuzz.Tester.Corpus.{Entry}
use ripfuzz.Tester.Fuzzer.{
  Campaign, Running, Phase, idle, running, finished, failed, Thread, Execution, record_run,
  request_stop, execute_call, end_sequence,
}
use ripfuzz.Tester.Fuzzer.{keep_sequence}
use ripfuzz.Tester.Fuzzer.Observed.{OfEntry, add-All}
use ripfuzz.Tester.Fuzzer.Worker.{
  choose, worker_phase, worker, chosen, called, advance, seeded, spawn, played,
}
use ripfuzz.Tester.Fuzzer.Bases.{
  Kept, FindingHolds, StateHolds, RunHolds, Started, Any, choose-Started,
}
use ripfuzz.Tester.Fuzzer.Calls.{OfRun, execute_call-Leaves}

module _ {engine : Engine} {C H : Type 0} (r : Rng) (codecs : Codecs)
    (ex : Execution engine C H r.Gen) where
  open engine use {Chain}

  abbrev Keeps : Campaign C Chain → Type 0
  Keeps = StateHolds r codecs ex

  record_run-Keeps : (s : Campaign C Chain) → Keeps s → Keeps (record_run s)
  unfolding record_run
  record_run-Keeps s h = h

  request_stop-Keeps : (s : Campaign C Chain) → Keeps s → Keeps (request_stop s)
  unfolding request_stop
  request_stop-Keeps s h = h

  keep_sequence-Keeps :
      (q : Running C Chain) (s : Campaign C Chain)
      → Keeps s
      → Kept r codecs ex q.executed q.chain
      → Keeps (keep_sequence r codecs ex q s)
  unfolding keep_sequence
  keep_sequence-Keeps q s h k = elim (Bool-cases (ltb 0 q.new_edges)) [
    | inl z ↦ rw z (h.0, add-All (Kept r codecs ex) s.corpus q.executed q.new_edges q.chain h.1 k)
    | inr z ↦ rw z h
  ]

  end_sequence-Keeps :
      (q : Running C Chain) (s : Campaign C Chain)
      → Keeps s
      → Kept r codecs ex q.executed q.chain
      → Keeps (end_sequence r codecs ex q s)
  unfolding end_sequence
  end_sequence-Keeps q s h k =
      let kept = keep_sequence-Keeps q s h k in
      elim (Bool-cases (is_full ex.max_findings (keep_sequence r codecs ex q s).findings)) [
        | inl z ↦ rw z (request_stop-Keeps (keep_sequence r codecs ex q s) kept)
        | inr z ↦ rw z kept
      ]

  abbrev PhaseHolds : Phase C Chain → Type 0
  PhaseHolds (running q) = Started r codecs ex q
  PhaseHolds _ = Unit {0}

  abbrev LocalHolds : Campaign C Chain × Thread C Chain r.Gen → Type 0
  LocalHolds (s, t) = Keeps s × PhaseHolds t.phase

  chosen-Holds :
      (s : Campaign C Chain) (t : Thread C Chain r.Gen) (p : Result (Running C Chain) × r.Gen)
      → Keeps s
      → Leaves (Any r codecs ex) (Started r codecs ex) p
      → LocalHolds (chosen r codecs ex s t p)
  chosen-Holds s t (ok q, g) hs h = (hs, h.1)
  chosen-Holds s t (err e, g) hs h = (hs, tt)

  called-Holds :
      (t : Thread C Chain r.Gen) (p : Result (Option (Running C Chain)) × Campaign C Chain)
      → Leaves Keeps (OfRun r codecs ex) p
      → LocalHolds (called r codecs ex t p)
  called-Holds t (ok none, s) h = (h.0, tt)
  called-Holds t (ok (some q), s) h = h
  called-Holds t (err e, s) h = (h, tt)

  advance-Holds :
      (s : Campaign C Chain) (t : Thread C Chain r.Gen) (q : Running C Chain) (pending : List C)
      → Keeps s
      → RunHolds r codecs ex pending q
      → LocalHolds (advance r codecs ex s t q pending)
  advance-Holds s t q [] hs h = (end_sequence-Keeps q s hs (h.0, omega (arith, h.1)), tt)
  advance-Holds s t q (call ∷ pending) hs h =
      called-Holds t (execute_call r codecs ex q call pending s)
        (execute_call-Leaves r codecs ex q call pending s hs h)

  worker-Holds :
      (timed_out : Bool) (s : Campaign C Chain) (t : Thread C Chain r.Gen) (p : Phase C Chain)
      → Keeps s
      → PhaseHolds p
      → PhaseHolds t.phase
      → LocalHolds (worker_phase r codecs ex timed_out s t p)
  worker-Holds timed_out s t idle hs h ht =
      elim (Bool-cases (t.left == 0 || (s.stop || timed_out))) [
        | inl z ↦ rw z (hs, tt)
        | inr z ↦ rw z (elim (Bool-cases (is_full ex.max_findings s.findings)) [
          | inl y ↦ rw y (request_stop-Keeps s hs, tt)
          | inr y ↦ rw y (
              chosen-Holds (record_run s) t (choose r codecs ex (record_run s) t.gen)
                (record_run-Keeps s hs)
                (choose-Started r codecs ex (record_run s) t.gen (record_run-Keeps s hs)))
        ])
      ]
  worker-Holds timed_out s t (running q) hs h ht = advance-Holds s t q q.pending hs h
  worker-Holds timed_out s t finished hs h ht = (hs, ht)
  worker-Holds timed_out s t (failed e) hs h ht = (hs, ht)

  step-Holds :
      (timed_out : Bool) (s : Campaign C Chain) (t : Thread C Chain r.Gen)
      → Keeps s
      → PhaseHolds t.phase
      → LocalHolds (worker r codecs ex timed_out s t)
  unfolding worker
  step-Holds timed_out s t hs h = worker-Holds timed_out s t t.phase hs h h

  spawn-Holds :
      (gens : List r.Gen) (budgets : List ℕ)
      → All (λ (t : Thread C Chain r.Gen). PhaseHolds t.phase) (spawn r codecs ex gens budgets)
  unfolding spawn
  spawn-Holds [] budgets = tt
  spawn-Holds (g ∷ gs) [] = tt
  spawn-Holds (g ∷ gs) (b ∷ bs) = (tt, spawn-Holds gs bs)

  -- Under every schedule of any number of threads, whatever fails on the way, each finding that is
  -- held was observed: its calls but the last were executed one by one from the initial state, and
  -- there the last, of a handler, or an invariant run after them, reported its id or met a filter
  -- that makes its id. The states in the corpus are those after their sequences, of at most the
  -- limit of calls. Both hold if they hold of the findings and the corpus at the start.
  pub played-Observed :
      (findings : Inner C) (corpus : List (Entry C Chain)) (coverage : SharedCoverage)
      (gens : List r.Gen) (budgets : List ℕ) (steps : List (ℕ × Bool))
      → All (FindingHolds r codecs ex) findings.broken_invariants
      → All (OfEntry (Kept r codecs ex)) corpus
      → StateHolds r codecs ex
          (played r codecs ex
            (seeded r codecs ex findings corpus coverage)
            gens
            budgets
            steps).shared
  played-Observed findings corpus coverage gens budgets steps hf hc =
      (run-Holds (worker r codecs ex) Keeps (λ t. PhaseHolds t.phase) step-Holds
        (record {
          shared = seeded r codecs ex findings corpus coverage;
          threads = spawn r codecs ex gens budgets;
        })
        steps ((hf, hc), spawn-Holds gens budgets)).0
