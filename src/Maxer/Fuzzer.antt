-- ===== src/Maxer/Fuzzer.antt =====
-- src/maxer/fuzzer.rs: the workers that extend memoized states by fresh calls. What the threads share
-- is one record; a step of a thread picks a base, executes one call and measures the value, offers
-- the sequence to the best, or admits one prefix to the corpus. Whether the timeout has elapsed is an
-- input of the step that looks at the clock. Generated calls are the parameter `random_call`.
pub mod Worker
pub mod Bases
pub mod Runs
pub mod Execute
pub mod Snapshots
pub mod Replay
use ripfuzz.Prelude.{
  ℕ, zero, suc, ◌+◌, ◌-◌, ◌*◌, ◌/◌, ◌%◌, ◌^◌, ◌≤◌, ◌<◌, min, max, compare, Ordering, ◌≡◌, refl, sym,
  ap, ◌∙◌, subst, ◌≢◌, ◌↔◌, ◌⊎◌, inl, inr, Bool, true, false, not, ◌&&◌, ◌||◌, Option, none, some,
  List, [], ◌∷◌, ◌++◌, map, arith, dec_lt, dec_le, ℕ_discrete, ltb, leb, ◌==◌, if◌then◌else◌,
  ltb→lt, lt→ltb, ltb-false→le, ==_iff, Bool-cases, Option-cases, is_some, u64_max, saturating_add,
  length, get_elem?, set, take, drop, is_empty, remove, length-append, length-take, length-drop,
  length-remove, length-set, All, All-append, All-remove, All-set, All-get_elem?, sum_of,
  sum_of-set,
}
use ripfuzz.Outcome.{Error, Result, ok, err, panicked, missing_result, missing_coverage, context}
use ripfuzz.Rng.{Rng}
use ripfuzz.Rng.Draw.{Draw, pure, lift, draw, ◌>>=◌}
use ripfuzz.Threads.{System, run}
use ripfuzz.Evm.{TransactionResult, ExecOutput, Engine, first, last}
use ripfuzz.Sequence.{random}
use ripfuzz.Coverage.Exec.{CoverageId, ExecutionContractCoverage}
use ripfuzz.Coverage.Shared.{SharedCoverage, CoverageUpdate, merge}
use ripfuzz.Coverage.Shared as Shared
use ripfuzz.Maxer.Value.{measured_value}
use ripfuzz.Maxer.Delta.{Delta, between, activity}
use ripfuzz.Maxer.Records.{Records, Observation, observe}
use ripfuzz.Maxer.Records as Records
use ripfuzz.Maxer.Best.{Best, consider, with_chain}
use ripfuzz.Maxer.Best as Best
use ripfuzz.Maxer.Corpus.{Entry, add, random_base, best_entry}

-- The atomics and the best of `Shared`, with the corpus, coverage and records of `Execution`, which
-- all threads hold by reference.
pub record Campaign (C Chain : Type 0) : Type 0 where
  pub best : Best C Chain
  pub runs : ℕ
  pub calls : ℕ
  pub gas : ℕ
  pub stop : Bool
  pub corpus : List (Entry C Chain)
  pub coverage : SharedCoverage
  pub records : Records

-- `MeasuredPrefix`.
pub record MeasuredPrefix (C Chain : Type 0) : Type 0 where
  pub sequence : List C
  pub value : ℕ
  pub chain : Chain
  pub new_edges : ℕ
  pub delta_activity : ℕ
  pub interesting : Bool
  pub measured : Bool

-- The variables of the loop over the pending calls.
pub record Running (C Chain : Type 0) : Type 0 where
  pub executed : List C
  pub prev_value : ℕ
  pub chain : Chain
  pub pending : List C
  pub prefixes : List (MeasuredPrefix C Chain)

-- Where a worker stands in a run.
pub data Phase (C Chain : Type 0) : Type 0 where
  idle : Phase C Chain
  running : Running C Chain → Phase C Chain
  considering : List (MeasuredPrefix C Chain) → Phase C Chain
  admitting : Bool → List (MeasuredPrefix C Chain) → Phase C Chain
  finished : Phase C Chain
  failed : Error → Phase C Chain

pub record Thread (C Chain G : Type 0) : Type 0 where
  pub phase : Phase C Chain
  pub gen : G
  pub best_known : ℕ
  -- the runs left of the thread's budget
  pub left : ℕ

-- The fields of `Execution` that the workers read, and what they take of other crates.
pub record Execution (engine : Engine) (C H G : Type 0) : Type 0 where
  pub chain : engine.Chain
  pub transaction : C → engine.Transaction
  pub value_tx : engine.Transaction
  pub handlers : List H
  pub random_call : H → Draw G C
  pub selector : C → ℕ
  pub contracts : engine.Coverage → List (CoverageId × ExecutionContractCoverage)
  pub initial_value : ℕ
  pub max_calls : ℕ
  pub target_value : Option ℕ
  pub abi_decode : List ℕ → Option ℕ
  pub bit_len : ℕ → ℕ

abbrev pub modify : {S : Type 0} → (S → S) → Draw S (Unit {0})
modify f = draw (λ s. (tt, f s))

abbrev pub target_reached : Option ℕ → ℕ → Bool
target_reached none value = false
target_reached (some target) value = leb target value

module _ {C Chain : Type 0} where
  unfoldable pub record_run : Campaign C Chain → Campaign C Chain
  record_run s = record s { runs = (s.runs + 1) % 2 ^ 64 }

  unfoldable pub record_call : Campaign C Chain → Campaign C Chain
  record_call s = record s { calls = (s.calls + 1) % 2 ^ 64 }

  -- The sum of `u64` and the counter wrap.
  unfoldable pub record_gas : List TransactionResult → Campaign C Chain → Campaign C Chain
  record_gas results s = record s { gas = (s.gas + sum_of (λ r. r.gas_used) results) % 2 ^ 64 }

  -- `Shared::consider`.
  unfoldable pub consider_shared :
      Option ℕ → List C → ℕ → Chain → Campaign C Chain → Bool × Campaign C Chain
  consider_shared target sequence value chain s =
      let (best, improved) = consider s.best sequence value chain in
      (improved, record s { best = best; stop = s.stop || improved && target_reached target value })

  abbrev base_of : Best C Chain → Option Chain → Option (List C × ℕ × Chain)
  base_of best none = none
  base_of best (some chain) =
      if is_empty best.sequence then none else some (best.sequence, best.value, chain)

  unfoldable pub best_base : Best C Chain → Option (List C × ℕ × Chain)
  best_base best = base_of best best.chain

  -- The coverage map changes in place; a merge that panics ends the thread.
  abbrev merged :
      Campaign C Chain
      → Result (CoverageUpdate × SharedCoverage)
      → Result CoverageUpdate × Campaign C Chain
  merged s (err e) = (err e, s)
  merged s (ok (update, coverage)) = (ok update, record s { coverage = coverage })

  unfoldable pub merge_shared :
      List (CoverageId × ExecutionContractCoverage) → Draw (Campaign C Chain) CoverageUpdate
  merge_shared local s = merged s (merge local s.coverage)

  -- The body of the loop that keeps the prefixes of a run.
  unfoldable pub admit : Bool → MeasuredPrefix C Chain → Campaign C Chain → Campaign C Chain
  admit improved p s =
      if p.measured && (improved || p.interesting)
      then record s {
        corpus = add s.corpus p.sequence p.value p.new_edges p.delta_activity p.chain;
      }
      else s

module _ {engine : Engine} {C H : Type 0} (r : Rng) (ex : Execution engine C H r.Gen) where
  open engine use {Chain}

  abbrev pub State : Type 0
  State = Campaign C Chain

  -- The value call changes the chain too.
  unfoldable pub measure_value : Chain → Draw State (Option ℕ × Chain)
  measure_value chain = do
    (after, output) ← lift (engine.exec chain (ex.value_tx ∷ []))
    _ ← modify (record_gas output.results)
    result ← lift (context missing_result (first output.results))
    measured ← lift (measured_value ex.abi_decode result)
    pure (measured, after)

  abbrev pub or_zero : Option ℕ → ℕ
  or_zero none = 0
  or_zero (some value) = value

  abbrev observed : C → Running C Chain → Delta → State → Observation × State
  observed call q delta s =
      let (records, observation) =
        observe ex.selector s.records q.executed call delta (ltb q.prev_value ex.initial_value) in
      (observation, record s { records = records })

  -- The body of the loop over the pending calls; `pending` are the calls after this one. The new
  -- best mark of the worker is returned too.
  unfoldable pub execute_call : ℕ → Running C Chain → C → List C → Draw State (ℕ × Running C Chain)
  execute_call best_known q call pending = do
    (chain, exec) ← lift (engine.exec q.chain (ex.transaction call ∷ []))
    _ ← modify (λ s. record_gas exec.results (record_call s))
    coverage ← lift (context missing_coverage exec.coverage)
    update ← merge_shared (ex.contracts coverage)
    (measured, after) ← measure_value chain
    let value = or_zero measured
    let delta = between q.prev_value value
    observation ← draw (observed call q delta)
    let sequence = q.executed ++ call ∷ []
    let beats_local = ltb best_known value
    let new_edges =
        (update.new_edges + update.new_depths + update.new_reverts + update.new_jump_edges) % 2 ^ 64
    pure (
      if beats_local then value else best_known,
      record {
        executed = sequence;
        prev_value = value;
        chain = after;
        pending = pending;
        prefixes =
            q.prefixes
            ++ record {
              sequence = sequence;
              value = value;
              chain = after;
              new_edges = new_edges;
              delta_activity = activity ex.bit_len delta;
              interesting =
                  Shared.is_interesting update || beats_local || Records.is_interesting observation;
              measured = is_some measured;
            }
              ∷ [];
      },
    )
