-- ===== src/Maxer/Shrinker.antt =====
-- src/maxer/shrinker.rs: parallel deletion of chunks of calls. A thread is a phase and a generator;
-- each step is one access of the shared state. Whether the timeout has elapsed is an input of the
-- step that looks at the clock.
pub mod Schedule
pub mod Turns
pub mod Returns
pub mod Budget
use ripfuzz.Prelude.{
  ℕ, zero, suc, ◌+◌, ◌-◌, ◌*◌, ◌/◌, ◌%◌, ◌^◌, ◌≤◌, ◌<◌, min, max, compare, Ordering, ◌≡◌, refl, sym,
  ap, ◌∙◌, subst, ◌≢◌, ◌↔◌, ◌⊎◌, inl, inr, Bool, true, false, not, ◌&&◌, ◌||◌, Option, none, some,
  List, [], ◌∷◌, ◌++◌, map, arith, dec_lt, dec_le, ℕ_discrete, ltb, leb, ◌==◌, if◌then◌else◌,
  ltb→lt, lt→ltb, ltb-false→le, ==_iff, Bool-cases, Option-cases, is_some, u64_max, saturating_add,
  length, get_elem?, set, take, drop, is_empty, remove, length-append, length-take, length-drop,
  length-remove, length-set, All, All-append, All-remove, All-set, All-get_elem?, sum_of,
  sum_of-set,
}
use ripfuzz.Outcome.{Error, Result, ok, err, missing_result, ◌>>=◌, context}
use ripfuzz.Rng.{Rng}
use ripfuzz.Threads.{System, run}
use ripfuzz.Evm.{TransactionResult, ExecOutput, Engine, first}
use ripfuzz.Sequence.{without, pick_chunk}
use ripfuzz.Maxer.Value.{decode}

pub record SharedShrink (C : Type 0) : Type 0 where
  pub current : List C
  pub attempts : ℕ
  pub max_runs : ℕ

module _ {C : Type 0} where
  unfoldable pub new : List C → ℕ → SharedShrink C
  new current max_runs = record { current = current; attempts = 0; max_runs = max_runs }

  -- The current sequence is replaced only by a shorter one.
  unfoldable pub update : SharedShrink C → List C → SharedShrink C × Bool
  update s candidate =
      if ltb (length candidate) (length s.current)
      then (record s { current = candidate }, true)
      else (s, false)

  -- `fetch_add` on the counter, and whether the budget remains.
  unfoldable pub record_attempt : SharedShrink C → SharedShrink C × Bool
  record_attempt s = (
    record s { attempts = (s.attempts + 1) % 2 ^ 64 },
    leb ((s.attempts + 1) % 2 ^ 64) s.max_runs,
  )

  unfoldable pub exhausted : SharedShrink C → Bool
  exhausted s = leb s.max_runs s.attempts

-- Where a worker stands in its loop.
pub data Phase (C : Type 0) : Type 0 where
  -- before the tests of budget and timeout
  top : Phase C
  -- before the snapshot of the current sequence
  looking : Phase C
  -- with a candidate, before its attempt is counted
  counting : List C → Phase C
  -- with a counted candidate, before its replay
  replaying : List C → Phase C
  -- with a candidate that keeps the target value, before the update
  accepting : List C → Phase C
  finished : Phase C
  failed : Error → Phase C

pub record Thread (C G : Type 0) : Type 0 where
  pub phase : Phase C
  pub gen : G

-- The fields of `Execution` that the workers read. A call's transaction is `transaction`.
pub record Execution (engine : Engine) (C : Type 0) : Type 0 where
  pub chain : engine.Chain
  pub transaction : C → engine.Transaction
  pub value_tx : engine.Transaction
  pub target_value : ℕ
  pub abi_decode : List ℕ → Option ℕ

module _ {engine : Engine} {C : Type 0} (ex : Execution engine C) where
  -- The value after a replay of the candidate on a clean chain; `none` if the value call reverts.
  unfoldable pub measure : List C → Result (Option ℕ)
  measure candidate = do
    (chain, _) ← engine.exec ex.chain (map ex.transaction candidate)
    (_, output) ← engine.exec chain (ex.value_tx ∷ [])
    result ← context missing_result (first output.results)
    if result.success then (do value ← decode ex.abi_decode result; ok (some value)) else ok none

  abbrev judge : List C → Result (Option ℕ) → Phase C
  judge candidate (err e) = failed e
  judge candidate (ok none) = top
  judge candidate (ok (some value)) = if leb ex.target_value value then accepting candidate else top

abbrev candidate_phase : {C : Type 0} → Result (List C) → Phase C
candidate_phase (err e) = failed e
candidate_phase (ok candidate) = if is_empty candidate then top else counting candidate

module _ {C : Type 0} (r : Rng) where
  -- The loop's first step: a candidate without a random chunk of the calls.
  unfoldable pub choose_chunk : List C → r.Gen → Phase C × r.Gen
  unfolding pick_chunk
  choose_chunk current g =
      let ((start_pos, end_pos), g') = pick_chunk r (length current) g in
      (candidate_phase (without current start_pos end_pos), g')

module _ {engine : Engine} {C : Type 0} (ex : Execution engine C) (r : Rng) where
  abbrev Local : Type 0
  Local = SharedShrink C × Thread C r.Gen

  abbrev at_phase : SharedShrink C → Phase C → r.Gen → Local
  at_phase s phase g = (s, record { phase = phase; gen = g })

  -- One step of `shrink_worker`.
  abbrev worker_phase : Bool → SharedShrink C → r.Gen → Phase C → Local
  worker_phase timed_out s g top =
      at_phase s (if exhausted s || timed_out then finished else looking) g
  worker_phase timed_out s g looking =
      if leb (length s.current) 1
      then at_phase s finished g
      else (let (phase, g') = choose_chunk r s.current g in at_phase s phase g')
  worker_phase timed_out s g (counting candidate) =
      let (s', remains) = record_attempt s in
      at_phase s' (if remains then replaying candidate else finished) g
  worker_phase timed_out s g (replaying candidate) =
      at_phase s (judge ex candidate (measure ex candidate)) g
  worker_phase timed_out s g (accepting candidate) = at_phase (update s candidate).0 top g
  worker_phase timed_out s g finished = at_phase s finished g
  worker_phase timed_out s g (failed e) = at_phase s (failed e) g

  unfoldable pub shrink_worker : Bool → SharedShrink C → Thread C r.Gen → Local
  unfolding exhausted choose_chunk record_attempt update
  shrink_worker timed_out s t = worker_phase timed_out s t.gen t.phase

  -- A thread is joined when it has ended, so there is nothing yet while one runs on; then the first
  -- failure among the threads is the result.
  abbrev failing : Error → Option (Result (List C)) → Option (Result (List C))
  failing e none = none
  failing e (some _) = some (err e)

  abbrev join_phase : Phase C → Option (Result (List C)) → Option (Result (List C))
  join_phase finished rest = rest
  join_phase (failed e) rest = failing e rest
  join_phase _ rest = none

  unfoldable pub join : List (Thread C r.Gen) → List C → Option (Result (List C))
  join [] current = some (ok current)
  join (t ∷ ts) current = join_phase t.phase (join ts current)

  abbrev pub start : List C → ℕ → List r.Gen → System (SharedShrink C) (Thread C r.Gen)
  start sequence max_runs gens = record {
    shared = new sequence max_runs;
    threads = map (λ g. record { phase = top; gen = g }) gens;
  }

  -- `Shrinker::shrink`, with a generator for each thread, under a schedule: what it returns, if the
  -- schedule ends all threads.
  unfoldable pub shrink : List C → ℕ → List r.Gen → List (ℕ × Bool) → Option (Result (List C))
  unfolding new join
  shrink sequence max_runs gens steps =
      if leb (length sequence) 1
      then some (ok sequence)
      else (let s = run shrink_worker (start sequence max_runs gens) steps in
          join s.threads s.shared.current)
