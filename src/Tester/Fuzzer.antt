-- ===== src/Tester/Fuzzer.antt =====
-- src/tester/fuzzer.rs: the workers that extend memoized states by fresh calls and collect broken
-- invariants. What the threads share is one record; a step of a thread picks a base, or executes one
-- call with its checks, or ends a run. Whether the timeout has elapsed is an input of the step that
-- looks at the clock. The statistics are left out, but not the panic on a missing result.
pub mod Worker
pub mod Observed
pub mod Bases
pub mod Reports
pub mod Calls
pub mod Findings
pub mod Emitted
pub mod Reproducible
use ripfuzz.Prelude.{
  ℕ, zero, suc, ◌+◌, ◌-◌, ◌*◌, ◌/◌, ◌%◌, ◌^◌, ◌≤◌, ◌<◌, min, max, compare, Ordering, ◌≡◌, refl, sym,
  ap, ◌∙◌, subst, ◌≢◌, ◌↔◌, ◌⊎◌, inl, inr, Bool, true, false, not, ◌&&◌, ◌||◌, Option, none, some,
  List, [], ◌∷◌, ◌++◌, map, arith, dec_lt, dec_le, ℕ_discrete, ltb, leb, ◌==◌, if◌then◌else◌,
  ltb→lt, lt→ltb, ltb-false→le, ==_iff, Bool-cases, Option-cases, is_some, u64_max, saturating_add,
  length, get_elem?, set, take, drop, is_empty, remove, length-append, length-take, length-drop,
  length-remove, length-set, All, All-append, All-remove, All-set, All-get_elem?, sum_of,
  sum_of-set, sum_of-get_elem?,
}
use Prim.Native.String.{String}
use ripfuzz.Outcome.{Error, Result, ok, err, panicked, context, ◌>>=◌ as bind}
use ripfuzz.Rng.{Rng}
use ripfuzz.Rng.Draw.{Draw, pure, lift, draw, ◌>>=◌}
use ripfuzz.Evm.{TransactionResult, Report, ExecOutput, Engine, first}
use ripfuzz.Coverage.Exec.{CoverageId, ExecutionContractCoverage}
use ripfuzz.Coverage.Shared.{SharedCoverage, CoverageUpdate, merge}
use ripfuzz.Tester.BrokenInvariants.{BrokenInvariant, Inner, try_add, is_full}
use ripfuzz.Tester.Corpus.{Entry, add}
use ripfuzz.Tester.Stop.{
  StopOnRevert, StopOnPanic, Codecs, revert_matches, revert_finding_id, panic_matches,
  panic_finding_id,
}

-- The atomics of `Shared`, with the findings, corpus and coverage of `Execution`, which all threads
-- hold by reference.
pub record Campaign (C Chain : Type 0) : Type 0 where
  pub findings : Inner C
  pub runs : ℕ
  pub calls : ℕ
  pub gas : ℕ
  pub stop : Bool
  pub corpus : List (Entry C Chain)
  pub coverage : SharedCoverage

-- The variables of `execute_sequence`: the sequence is the executed calls and the pending ones.
pub record Running (C Chain : Type 0) : Type 0 where
  pub executed : List C
  pub chain : Chain
  pub pending : List C
  pub new_edges : ℕ

-- Where a worker stands in a run.
pub data Phase (C Chain : Type 0) : Type 0 where
  idle : Phase C Chain
  running : Running C Chain → Phase C Chain
  finished : Phase C Chain
  failed : Error → Phase C Chain

pub record Thread (C Chain G : Type 0) : Type 0 where
  pub phase : Phase C Chain
  pub gen : G
  -- the runs left of the thread's budget
  pub left : ℕ

-- The fields of `Execution` that the workers read, and what they take of other crates. A call of an
-- invariant is `invariant_call`, its transaction `invariant_transaction`.
pub record Execution (engine : Engine) (C H G : Type 0) : Type 0 where
  pub chain : engine.Chain
  pub transaction : C → engine.Transaction
  pub invariant_transaction : H → engine.Transaction
  pub invariant_call : H → C
  pub handlers : List H
  pub invariants : List H
  pub random_call : H → Draw G C
  pub same_selector : H → C → Bool
  pub contracts : engine.Coverage → List (CoverageId × ExecutionContractCoverage)
  pub max_findings : ℕ
  pub max_calls : ℕ
  pub stop_on_revert : Option StopOnRevert
  pub stop_on_panic : Option StopOnPanic

abbrev pub modify : {S : Type 0} → (S → S) → Draw S (Unit {0})
modify f = draw (λ s. (tt, f s))

-- The sum of the counters, as `u64`.
abbrev pub score : CoverageUpdate → ℕ
score update =
    (update.new_edges + update.new_depths + update.new_reverts + update.new_jump_edges) % 2 ^ 64

abbrev pub finding : {C : Type 0} → List C → String → String → BrokenInvariant C
finding sequence id description = record { sequence = sequence; id = id; description = description }

module _ {C Chain : Type 0} where
  unfoldable pub record_run : Campaign C Chain → Campaign C Chain
  record_run s = record s { runs = (s.runs + 1) % 2 ^ 64 }

  unfoldable pub record_call : Campaign C Chain → Campaign C Chain
  record_call s = record s { calls = (s.calls + 1) % 2 ^ 64 }

  -- The sum of `u64` and the counter wrap.
  unfoldable pub record_gas : List TransactionResult → Campaign C Chain → Campaign C Chain
  record_gas results s = record s { gas = (s.gas + sum_of (λ r. r.gas_used) results) % 2 ^ 64 }

  unfoldable pub request_stop : Campaign C Chain → Campaign C Chain
  request_stop s = record s { stop = true }

  unfoldable pub collect : ℕ → BrokenInvariant C → Campaign C Chain → Campaign C Chain
  collect limit broken s = record s { findings = (try_add limit s.findings broken).0 }

  -- The coverage map changes in place; a merge that panics ends the thread.
  abbrev pub merged :
      Campaign C Chain → Result (CoverageUpdate × SharedCoverage) → Result ℕ × Campaign C Chain
  merged s (err e) = (err e, s)
  merged s (ok (update, coverage)) = (ok (score update), record s { coverage = coverage })

  -- `for report in ..`.
  unfoldable pub collect_all : ℕ → List C → List Report → Campaign C Chain → Campaign C Chain
  collect_all limit sequence [] s = s
  collect_all limit sequence (report ∷ reports) s =
      collect_all limit sequence reports
        (collect limit (finding sequence report.id report.description) s)

module _ {engine : Engine} {C H : Type 0} (r : Rng) (codecs : Codecs)
    (ex : Execution engine C H r.Gen) where
  open engine use {Chain}

  abbrev pub State : Type 0
  State = Campaign C Chain

  -- The edges that an execution's coverage adds, if it has one.
  unfoldable pub cover : Option engine.Coverage → Draw State ℕ
  cover none = pure 0
  cover (some coverage) = λ s. merged s (merge (ex.contracts coverage) s.coverage)

  abbrev pub is_handler : List H → C → Bool
  is_handler [] call = false
  is_handler (h ∷ hs) call = ex.same_selector h call || is_handler hs call

  -- The result of a handler's call is looked up for its statistics.
  unfoldable pub attributed : C → List TransactionResult → Result (Unit {0})
  attributed call results =
      if is_handler ex.handlers call
      then bind (context panicked (first results)) (λ _. ok tt)
      else ok tt

  -- The findings that a filter makes of a result.
  abbrev pub revert_stop : TransactionResult → StopOnRevert → Option String
  revert_stop result filter =
      if revert_matches codecs filter result then some (revert_finding_id codecs result) else none

  abbrev pub panic_stop : TransactionResult → StopOnPanic → Option String
  panic_stop result filter =
      if panic_matches codecs filter result then some (panic_finding_id codecs result) else none

  abbrev pub under : {F : Type 0} → Option F → (F → Option String) → Option String
  under none p = none
  under (some filter) p = p filter

  abbrev pub on_revert : TransactionResult → Option String
  on_revert result = under ex.stop_on_revert (revert_stop result)

  abbrev pub on_panic : TransactionResult → Option String
  on_panic result = under ex.stop_on_panic (panic_stop result)

  abbrev pub or_else : Option String → Option String → Option String
  or_else none rest = rest
  or_else (some id) rest = some id

  -- A handler's result is indexed only under a filter.
  unfoldable pub handler_stop : List TransactionResult → Result (Option String)
  handler_stop [] =
      if is_some ex.stop_on_revert || is_some ex.stop_on_panic then err panicked else ok none
  handler_stop (result ∷ _) = ok (or_else (on_revert result) (on_panic result))

  abbrev pub on_invariant : Option String → H → Option (H × String) → Option (H × String)
  on_invariant none h rest = rest
  on_invariant (some id) h rest = some (h, id)

  -- The first invariant with a result that stops.
  unfoldable pub first_stop :
      (TransactionResult → Option String) → List H → List TransactionResult → Option (H × String)
  first_stop p [] results = none
  first_stop p (h ∷ hs) [] = none
  first_stop p (h ∷ hs) (result ∷ results) = on_invariant (p result) h (first_stop p hs results)

  abbrev pub first_of : Option (H × String) → Option (H × String) → Option (H × String)
  first_of none rest = rest
  first_of (some x) rest = some x

  unfoldable pub invariant_stop : List TransactionResult → Option (H × String)
  unfolding first_stop
  invariant_stop results =
      first_of (first_stop on_revert ex.invariants results)
        (first_stop on_panic ex.invariants results)

  -- The reports of a handler's call.
  abbrev pub handler_reports : List C → List (List Report) → State → State
  handler_reports sequence [] s = s
  handler_reports sequence (reports ∷ _) s = collect_all ex.max_findings sequence reports s

  -- The reports of the invariants, each with a sequence that ends in its call.
  unfoldable pub invariant_reports : List C → List H → List (List Report) → State → State
  invariant_reports calls [] reports s = s
  invariant_reports calls (h ∷ hs) [] s = s
  invariant_reports calls (h ∷ hs) (reports ∷ rest) s =
      invariant_reports calls hs rest
        (collect_all ex.max_findings (calls ++ ex.invariant_call h ∷ []) reports s)

  unfoldable pub stop_with : List C → String → State → State
  stop_with sequence id s = request_stop (collect ex.max_findings (finding sequence id "") s)

  abbrev pub settled : List C → ℕ → Option (H × String) → Draw State (Option ℕ)
  settled calls gained none = pure (some gained)
  settled calls gained (some (h, id)) = do
    _ ← modify (stop_with (calls ++ ex.invariant_call h ∷ []) id)
    pure none

  -- The invariants run on a clone of the chain; nothing is returned if one of them stops.
  unfoldable pub check_invariants : Chain → List C → Draw State (Option ℕ)
  unfolding cover invariant_reports invariant_stop
  check_invariants chain calls = do
    (_, exec) ← lift (engine.exec chain (map ex.invariant_transaction ex.invariants))
    _ ← modify (record_gas exec.results)
    gained ← cover exec.coverage
    _ ← modify (invariant_reports calls ex.invariants exec.broken_invariants)
    settled calls gained (invariant_stop exec.results)

  abbrev pub continued : Running C Chain → Option ℕ → Option (Running C Chain)
  continued q none = none
  continued q (some gained) = some (record q { new_edges = (q.new_edges + gained) % 2 ^ 64 })

  abbrev pub checked : Running C Chain → Option String → Draw State (Option (Running C Chain))
  checked q (some id) = do _ ← modify (stop_with q.executed id); pure none
  checked q none =
      if is_empty ex.invariants
      then pure (some q)
      else (do gained ← check_invariants q.chain q.executed; pure (continued q gained))

  -- The body of the loop over the pending calls; `pending` are the calls after this one. Nothing is
  -- returned if a filter stops the campaign.
  unfoldable pub execute_call : Running C Chain → C → List C → Draw State (Option (Running C Chain))
  unfolding cover attributed handler_stop check_invariants
  execute_call q call pending = do
    (chain, exec) ← lift (engine.exec q.chain (ex.transaction call ∷ []))
    _ ← modify (λ s. record_gas exec.results (record_call s))
    _ ← lift (attributed call exec.results)
    gained ← cover exec.coverage
    let calls = q.executed ++ call ∷ []
    _ ← modify (handler_reports calls exec.broken_invariants)
    stop ← lift (handler_stop exec.results)
    checked
        (record {
          executed = calls;
          chain = chain;
          pending = pending;
          new_edges = (q.new_edges + gained) % 2 ^ 64;
        })
        stop

  -- The end of `execute_sequence`: a sequence that found coverage joins the corpus.
  unfoldable pub keep_sequence : Running C Chain → State → State
  keep_sequence q s =
      if ltb 0 q.new_edges
      then record s { corpus = add s.corpus q.executed q.new_edges q.chain }
      else s

  abbrev pub stop_if_full : State → State
  stop_if_full s = if is_full ex.max_findings s.findings then request_stop s else s

  unfoldable pub end_sequence : Running C Chain → State → State
  unfolding keep_sequence
  end_sequence q s = stop_if_full (keep_sequence q s)
