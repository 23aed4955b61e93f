-- ===== src/Maxer/Fuzzer/Snapshots.antt =====
-- The states that a campaign keeps, against replays of their sequences (`src/maxer/fuzzer.rs`).
use ripfuzz.Prelude.{
  ℕ, ◌≡◌, refl, subst, inl, inr, Bool, ◌&&◌, ◌||◌, Option, none, some, List, [], ◌∷◌, ◌==◌,
  Bool-cases, All,
}
use mathlib.Core.Option.{some-injective}
use ripfuzz.Outcome.{Result, ok, err}
use ripfuzz.Rng.{Rng}
use ripfuzz.Rng.Draw.{Leaves}
use ripfuzz.Threads.{run-Holds}
use ripfuzz.Evm.{Engine, TransactionResult, last}
use ripfuzz.Coverage.Shared.{SharedCoverage}
use ripfuzz.Maxer.Best as Best
use ripfuzz.Maxer.Best.{Best, consider, with_chain}
use ripfuzz.Maxer.Corpus.{Entry, best_entry}
use ripfuzz.Maxer.Corpus.Entries.{
  add-All, consider-OfState, best_entry-OfBase, OfBase, OfState, OfEntry, OfBase, best_entry-OfBase,
}
use ripfuzz.Maxer.Fuzzer.{
  Campaign, MeasuredPrefix, Running, Phase, idle, running, considering, admitting, finished, failed,
  Thread, Execution, record_run, record_call, record_gas, consider_shared, admit, execute_call,
}
use ripfuzz.Maxer.Fuzzer.Execute.{execute_call-Leaves}
use ripfuzz.Maxer.Fuzzer.Worker.{
  choose, worker_phase, worker, chosen, called, advance, offer, seeded, seed_best, spawn, played,
}
use ripfuzz.Maxer.Fuzzer.Bases.{
  Kept, StateHolds, PrefixHolds, RunHolds, Started, Any, choose-Started,
}

All-last {ℓ} :
    {A : Type ℓ} (P : A → Type 0) (xs : List A) (x : A) → All P xs → last xs ≡ some x → P x
All-last P [] x h e = cc
All-last P (y ∷ []) x h e = subst P (some-injective y x e) h.0
All-last P (y ∷ z ∷ zs) x h e = All-last P (z ∷ zs) x h.1 e

module _ {engine : Engine} {C H : Type 0} (r : Rng) (ex : Execution engine C H r.Gen) where
  open engine use {Chain}

  Keeps : Campaign C Chain → Type 0
  Keeps = StateHolds r ex

  Keeps-StateHolds : (s : Campaign C Chain) → Keeps s → StateHolds r ex s
  unfolding Keeps
  Keeps-StateHolds s h = h

  record_gas-Keeps :
      (s : Campaign C Chain) (rs : List TransactionResult) → Keeps s → Keeps (record_gas rs s)
  unfolding record_gas Keeps
  record_gas-Keeps s rs h = h

  record_call-Keeps : (s : Campaign C Chain) → Keeps s → Keeps (record_call s)
  unfolding record_call Keeps
  record_call-Keeps s h = h

  execute_call-Keeps :
      (best_known : ℕ) (q : Running C Chain) (call : C) (pending : List C) (s : Campaign C Chain)
      → Keeps s
      → Leaves Keeps
          (λ (_, q'). RunHolds r ex (call ∷ pending) q → Started r ex q')
          (execute_call r ex best_known q call pending s)
  unfolding Keeps
  execute_call-Keeps best_known q call pending s h =
      execute_call-Leaves r ex Keeps record_gas-Keeps record_call-Keeps (λ s c h. h) (λ s r h. h)
        best_known q call pending s h

  record_run-Keeps : (s : Campaign C Chain) → Keeps s → Keeps (record_run s)
  unfolding record_run Keeps
  record_run-Keeps s h = h

  consider_shared-Keeps :
      (sequence : List C) (value : ℕ) (chain : Chain) (s : Campaign C Chain)
      → Keeps s
      → Kept r ex sequence value chain
      → Keeps (consider_shared ex.target_value sequence value chain s).1
  unfolding consider_shared Keeps
  consider_shared-Keeps sequence value chain s h k =
      (consider-OfState (Kept r ex) s.best sequence value chain h.0 k, h.1)

  admit-Keeps :
      (improved : Bool) (p : MeasuredPrefix C Chain) (s : Campaign C Chain)
      → Keeps s
      → PrefixHolds r ex p
      → Keeps (admit improved p s)
  unfolding admit Keeps
  admit-Keeps improved p s h k = elim (Bool-cases (p.measured && (improved || p.interesting))) [
    | inl z ↦ rw z (
      h.0,
      add-All (Kept r ex) s.corpus p.sequence p.value p.new_edges p.delta_activity p.chain h.1 k,
    )
    | inr z ↦ rw z h
  ]

  abbrev PhaseHolds : Phase C Chain → Type 0
  PhaseHolds (running q) = Started r ex q
  PhaseHolds (considering ps) = All (PrefixHolds r ex) ps
  PhaseHolds (admitting improved ps) = All (PrefixHolds r ex) ps
  PhaseHolds _ = Unit {0}

  abbrev LocalHolds : Campaign C Chain × Thread C Chain r.Gen → Type 0
  LocalHolds (s, t) = Keeps s × PhaseHolds t.phase

  chosen-Holds :
      (s : Campaign C Chain) (t : Thread C Chain r.Gen) (p : Result (Running C Chain) × r.Gen)
      → Keeps s
      → Leaves (Any r ex) (Started r ex) p
      → LocalHolds (chosen r ex s t p)
  chosen-Holds s t (ok q, g) hs h = (hs, h.1)
  chosen-Holds s t (err e, g) hs h = (hs, tt)

  called-Holds :
      (t : Thread C Chain r.Gen) (p : Result (ℕ × Running C Chain) × Campaign C Chain)
      → (before : Running C Chain) (pending : List C) → RunHolds r ex pending before
      → Leaves Keeps (λ (_, q). RunHolds r ex pending before → Started r ex q) p
      → LocalHolds (called r ex t p)
  called-Holds t (ok (b, q), s) before pending held h = (h.0, h.1 held)
  called-Holds t (err e, s) before pending held h = (h, tt)

  advance-Holds :
      (s : Campaign C Chain) (t : Thread C Chain r.Gen) (q : Running C Chain) (pending : List C)
      → Keeps s
      → RunHolds r ex pending q
      → LocalHolds (advance r ex s t q pending)
  advance-Holds s t q [] hs h = (hs, h.2)
  advance-Holds s t q (c ∷ cs) hs h =
      called-Holds t (execute_call r ex t.best_known q c cs s) q (c ∷ cs) h
        (execute_call-Keeps t.best_known q c cs s hs)

  offer-Holds :
      (s : Campaign C Chain) (t : Thread C Chain r.Gen) (ps : List (MeasuredPrefix C Chain))
      (o : Option (MeasuredPrefix C Chain))
      → last ps ≡ o
      → Keeps s
      → All (PrefixHolds r ex) ps
      → LocalHolds (offer r ex s t ps o)
  offer-Holds s t ps none e hs h = (hs, tt)
  offer-Holds s t ps (some p) e hs h = elim (Bool-cases p.measured) [
    | inl z ↦ rw z (
      consider_shared-Keeps p.sequence p.value p.chain s hs (All-last (PrefixHolds r ex) ps p h e),
      h,
    )
    | inr z ↦ rw z (hs, h)
  ]

  worker-Holds :
      (timed_out : Bool) (s : Campaign C Chain) (t : Thread C Chain r.Gen) (p : Phase C Chain)
      → Keeps s
      → PhaseHolds p
      → PhaseHolds t.phase
      → LocalHolds (worker_phase r ex timed_out s t p)
  worker-Holds timed_out s t idle hs h ht =
      elim (Bool-cases (t.left == 0 || (s.stop || timed_out))) [
        | inl z ↦ rw z (hs, tt)
        | inr z ↦ rw z (
            chosen-Holds (record_run s) t (choose r ex (record_run s) t.gen) (record_run-Keeps s hs)
              (choose-Started r ex (record_run s) t.gen
                (Keeps-StateHolds (record_run s) (record_run-Keeps s hs))))
      ]
  worker-Holds timed_out s t (running q) hs h ht = advance-Holds s t q q.pending hs h
  worker-Holds timed_out s t (considering ps) hs h ht = offer-Holds s t ps (last ps) refl hs h
  worker-Holds timed_out s t (admitting improved []) hs h ht = (hs, tt)
  worker-Holds timed_out s t (admitting improved (p ∷ ps)) hs h ht =
      (admit-Keeps improved p s hs h.0, h.1)
  worker-Holds timed_out s t finished hs h ht = (hs, ht)
  worker-Holds timed_out s t (failed e) hs h ht = (hs, ht)

  step-Holds :
      (timed_out : Bool) (s : Campaign C Chain) (t : Thread C Chain r.Gen)
      → Keeps s
      → PhaseHolds t.phase
      → LocalHolds (worker r ex timed_out s t)
  unfolding worker
  step-Holds timed_out s t hs h = worker-Holds timed_out s t t.phase hs h h

  spawn-Holds :
      (gens : List r.Gen) (budgets : List ℕ)
      → All (λ (t : Thread C Chain r.Gen). PhaseHolds t.phase) (spawn r ex gens budgets)
  unfolding spawn
  spawn-Holds [] budgets = tt
  spawn-Holds (g ∷ gs) [] = tt
  spawn-Holds (g ∷ gs) (b ∷ bs) = (tt, spawn-Holds gs bs)

  seeded-Keeps :
      (corpus : List (Entry C Chain)) (coverage : SharedCoverage)
      → All (OfEntry (Kept r ex)) corpus
      → Keeps (seeded r ex corpus coverage)
  unfolding Keeps Best.new with_chain
  seeded-Keeps corpus coverage h =
      (go (best_entry corpus) (best_entry-OfBase (Kept r ex) corpus h), h)
    where
      go :
          (o : Option (List C × ℕ × Chain))
          → OfBase (Kept r ex) o
          → let b = seed_best r ex o in OfState (Kept r ex) b.sequence b.value b.chain
      go none k = tt
      go (some (s, v, c)) k = k

  -- Under every schedule of any number of threads, whatever fails on the way, the best and every
  -- entry of the corpus that have a state have at most the limit of calls, and replaying these from
  -- the initial state, with the value call after each, ends in exactly that state with exactly that
  -- value, if this holds of the corpus at the start.
  pub played-StateHolds :
      (corpus : List (Entry C Chain)) (coverage : SharedCoverage) (gens : List r.Gen)
      (budgets : List ℕ) (steps : List (ℕ × Bool))
      → All (OfEntry (Kept r ex)) corpus
      → StateHolds r ex (played r ex (seeded r ex corpus coverage) gens budgets steps).shared
  unfolding Keeps
  played-StateHolds corpus coverage gens budgets steps h =
      (run-Holds (worker r ex) Keeps (λ t. PhaseHolds t.phase) step-Holds
        (record { shared = seeded r ex corpus coverage; threads = spawn r ex gens budgets }) steps
        (seeded-Keeps corpus coverage h, spawn-Holds gens budgets)).0
