-- ===== src/Tester/Shrinker.antt =====
-- src/tester/shrinker.rs: parallel deletion of chunks of calls from the sequence of a finding. A thread
-- is a phase and a generator, as in `Maxer.Shrinker`; whether the timeout has elapsed is an input of
-- the step that looks at the clock.
pub mod Minimised
use Prim.Native.String.{String}
use text.Mathlib.Text.{◌==◌ as str_eq}
use ripfuzz.Prelude.{
  ℕ, zero, suc, ◌+◌, ◌-◌, ◌*◌, ◌/◌, ◌%◌, ◌^◌, ◌≤◌, ◌<◌, min, max, compare, Ordering, ◌≡◌, refl, sym,
  ap, ◌∙◌, subst, ◌≢◌, ◌↔◌, ◌⊎◌, inl, inr, Bool, true, false, not, ◌&&◌, ◌||◌, Option, none, some,
  List, [], ◌∷◌, ◌++◌, map, arith, dec_lt, dec_le, ℕ_discrete, ltb, leb, ◌==◌, if◌then◌else◌,
  ltb→lt, lt→ltb, ltb-false→le, ==_iff, Bool-cases, Option-cases, is_some, u64_max, saturating_add,
  length, get_elem?, set, take, drop, is_empty, remove, length-append, length-take, length-drop,
  length-remove, length-set, All, All-append, All-remove, All-set, All-get_elem?, sum_of,
  sum_of-set, sum_of-get_elem?,
}
use ripfuzz.Outcome.{Error, Result, ok, err, ◌>>=◌}
use ripfuzz.Rng.{Rng}
use ripfuzz.Threads.{System, run}
use ripfuzz.Evm.{TransactionResult, Report, Engine, last}
use ripfuzz.Sequence.{without, pick_chunk}
use ripfuzz.Tester.BrokenInvariants.{BrokenInvariant, with_calls}
use ripfuzz.Tester.Stop.{
  Codecs, is_revert_finding, is_panic_finding, revert_matches_expected, panic_matches_expected,
}

pub record SharedShrink (C : Type 0) : Type 0 where
  pub current : BrokenInvariant C
  pub attempts : ℕ
  pub max_runs : ℕ

module _ {C : Type 0} where
  unfoldable pub new : BrokenInvariant C → ℕ → SharedShrink C
  new current max_runs = record { current = current; attempts = 0; max_runs = max_runs }

  unfoldable pub update : SharedShrink C → BrokenInvariant C → SharedShrink C × Bool
  update s candidate =
      if ltb (length candidate.sequence) (length s.current.sequence)
      then (record s { current = candidate }, true)
      else (s, false)

  unfoldable pub record_attempt : SharedShrink C → SharedShrink C × Bool
  record_attempt s =
      let attempts = (s.attempts + 1) % 2 ^ 64 in
      (record s { attempts = attempts }, leb attempts s.max_runs)

  unfoldable pub exhausted : SharedShrink C → Bool
  exhausted s = leb s.max_runs s.attempts

-- Where a worker stands in its loop; `current` is the snapshot that it took.
pub data Phase (C : Type 0) : Type 0 where
  top : Phase C
  looking : Phase C
  -- with the snapshot and a candidate, before the attempt is counted
  counting : BrokenInvariant C → List C → Phase C
  -- with a counted candidate, before its replay
  replaying : BrokenInvariant C → List C → Phase C
  -- with a finding that reproduces, before the update
  accepting : BrokenInvariant C → Phase C
  finished : Phase C
  failed : Error → Phase C

pub record Thread (C G : Type 0) : Type 0 where
  pub phase : Phase C
  pub gen : G

-- The fields of `Execution` that the workers read. A call's transaction is `transaction`.
pub record Execution (engine : Engine) (C : Type 0) : Type 0 where
  pub chain : engine.Chain
  pub transaction : C → engine.Transaction

-- `any` over the reports of one transaction, and over those of all.
unfoldable pub among : String → List Report → Bool
among id [] = false
among id (report ∷ reports) = str_eq report.id id || among id reports

unfoldable pub emits : String → List (List Report) → Bool
unfolding among
emits id [] = false
emits id (per_tx ∷ rest) = among id per_tx || emits id rest

abbrev pub expected_by : (TransactionResult → Bool) → Option TransactionResult → Bool
expected_by p none = false
expected_by p (some result) = p result

module _ {engine : Engine} {C : Type 0} (ex : Execution engine C) (codecs : Codecs) where
  unfoldable pub replay_last : List C → Result (Option TransactionResult)
  replay_last sequence = if is_empty sequence then ok none else (do
    (_, exec) ← engine.exec ex.chain (map ex.transaction sequence)
    ok (last exec.results))

  -- Whether a replay on a clean chain still makes the finding `id`.
  unfoldable pub reproduces : List C → String → Result Bool
  reproduces sequence id =
      if is_revert_finding id
      then (do
        result ← replay_last sequence
        ok (expected_by (λ r. revert_matches_expected codecs r id) result))
      else if is_panic_finding id
      then (do
        result ← replay_last sequence
        ok (expected_by (λ r. panic_matches_expected codecs r id) result))
      else (do
        (_, exec) ← engine.exec ex.chain (map ex.transaction sequence)
        ok (emits id exec.broken_invariants))

abbrev pub judge : {C : Type 0} → BrokenInvariant C → List C → Result Bool → Phase C
judge current candidate (err e) = failed e
judge current candidate (ok false) = top
judge current candidate (ok true) = accepting (with_calls candidate current)

abbrev pub candidate_phase : {C : Type 0} → BrokenInvariant C → Result (List C) → Phase C
candidate_phase current (err e) = failed e
candidate_phase current (ok candidate) = counting current candidate

module _ {C : Type 0} (r : Rng) where
  unfoldable pub choose_chunk : BrokenInvariant C → r.Gen → Phase C × r.Gen
  unfolding pick_chunk
  choose_chunk current g =
      let ((start_pos, end_pos), g') = pick_chunk r (length current.sequence) g in
      (candidate_phase current (without current.sequence start_pos end_pos), g')

module _ {engine : Engine} {C : Type 0} (ex : Execution engine C) (codecs : Codecs) (r : Rng) where
  abbrev pub Local : Type 0
  Local = SharedShrink C × Thread C r.Gen

  abbrev at_phase : SharedShrink C → Phase C → r.Gen → Local
  at_phase s phase g = (s, record { phase = phase; gen = g })

  -- One step of `shrink_worker`.
  abbrev pub worker_phase : Bool → SharedShrink C → r.Gen → Phase C → Local
  worker_phase timed_out s g top =
      at_phase s (if exhausted s || timed_out then finished else looking) g
  worker_phase timed_out s g looking =
      if is_empty s.current.sequence
      then at_phase s finished g
      else (let (phase, g') = choose_chunk r s.current g in at_phase s phase g')
  worker_phase timed_out s g (counting current candidate) =
      let (s', remains) = record_attempt s in
      at_phase s' (if remains then replaying current candidate else finished) g
  worker_phase timed_out s g (replaying current candidate) =
      at_phase s (judge current candidate (reproduces ex codecs candidate current.id)) g
  worker_phase timed_out s g (accepting candidate) = at_phase (update s candidate).0 top g
  worker_phase timed_out s g finished = at_phase s finished g
  worker_phase timed_out s g (failed e) = at_phase s (failed e) g

  unfoldable pub shrink_worker : Bool → SharedShrink C → Thread C r.Gen → Local
  unfolding exhausted choose_chunk record_attempt update reproduces replay_last emits
  shrink_worker timed_out s t = worker_phase timed_out s t.gen t.phase

  -- The first failure among the joined threads is the result; a thread that its schedule leaves before
  -- its end counts as one that stops there.
  abbrev pub join_phase : Phase C → Result (BrokenInvariant C) → Result (BrokenInvariant C)
  join_phase (failed e) rest = err e
  join_phase _ rest = rest

  unfoldable pub join : List (Thread C r.Gen) → BrokenInvariant C → Result (BrokenInvariant C)
  join [] current = ok current
  join (t ∷ ts) current = join_phase t.phase (join ts current)

  abbrev pub start : BrokenInvariant C → ℕ → List r.Gen → System (SharedShrink C) (Thread C r.Gen)
  start broken max_runs gens = record {
    shared = new broken max_runs;
    threads = map (λ g. record { phase = top; gen = g }) gens;
  }

  module _ (max_runs : ℕ) (gens : List r.Gen) where
    -- With a generator for each thread, under a schedule.
    unfoldable pub shrink_one : BrokenInvariant C → List (ℕ × Bool) → Result (BrokenInvariant C)
    unfolding new join
    shrink_one broken steps =
        if leb (length broken.sequence) 1
        then ok broken
        else (let s = run shrink_worker (start broken max_runs gens) steps in
            join s.threads s.shared.current)

    -- The loop of `Shrinker::shrink`; each finding has a budget and a schedule of its own.
    unfoldable pub shrink :
        List (BrokenInvariant C × List (ℕ × Bool)) → Result (List (BrokenInvariant C))
    shrink [] = ok []
    shrink ((broken, steps) ∷ rest) = do
      shrunk_broken ← shrink_one broken steps
      shrunk ← shrink rest
      ok (shrunk_broken ∷ shrunk)
