-- ===== src/Tester/Fuzzer/Worker.antt =====
-- `worker` and `Fuzzer::run` of src/tester/fuzzer.rs.
use ripfuzz.Prelude.{
  ℕ, ◌-◌, Bool, false, ◌||◌, Option, none, some, List, [], ◌∷◌, leb, ◌==◌, if◌then◌else◌, length,
  get_elem?, set, is_empty,
}
use ripfuzz.Outcome.{Result, ok, err, panicked, context, ◌>>=◌ as bind}
use ripfuzz.Rng.{Rng}
use ripfuzz.Rng.Draw.{Draw, pure, lift, draw, ◌>>=◌}
use ripfuzz.Threads.{System, run}
use ripfuzz.Evm.{Engine}
use ripfuzz.Sequence.{random}
use ripfuzz.Coverage.Shared.{SharedCoverage}
use ripfuzz.Maxer.Fuzzer.Worker.{split_runs}
use ripfuzz.Tester.BrokenInvariants.{BrokenInvariant, Inner, is_full}
use ripfuzz.Tester.Corpus.{Entry, random_base}
use ripfuzz.Tester.Stop.{Codecs}
use ripfuzz.Tester.Fuzzer.{
  Campaign, Running, Phase, idle, running, finished, failed, Thread, Execution, record_run,
  request_stop, execute_call, end_sequence,
}

module _ {engine : Engine} {C H : Type 0} (r : Rng) (codecs : Codecs)
    (ex : Execution engine C H r.Gen) where
  open engine use {Chain}

  abbrev pub State : Type 0
  State = Campaign C Chain

  -- The calls run from the initial state.
  abbrev pub from_start : List C → Running C Chain
  from_start pending = record { executed = []; chain = ex.chain; pending = pending; new_edges = 0 }

  -- `Call::random` of a random handler.
  unfoldable pub handler_call : Draw r.Gen C
  handler_call = do
    i ← draw (r.below (length ex.handlers))
    function ← lift (context panicked (get_elem? ex.handlers i))
    ex.random_call function

  -- At the limit of calls a random position of the base is changed, and all of it runs again.
  unfoldable pub mutate : List C → Draw r.Gen (Running C Chain)
  mutate calls = do
    call ← handler_call
    pos ← draw (r.below (length calls))
    _ ← lift (context panicked (get_elem? calls pos))
    pure (from_start (set calls pos call))

  unfoldable pub fresh_run : Draw r.Gen (Running C Chain)
  fresh_run = do
    sequence ← random r ex.random_call ex.handlers ex.max_calls
    pure (from_start sequence)

  abbrev pub extend : Option (List C × Chain) → Draw r.Gen (Running C Chain)
  extend none = fresh_run
  extend (some (sequence, chain)) =
      if leb ex.max_calls (length sequence) then mutate sequence else (do
        call ← handler_call
        pure (record { executed = sequence; chain = chain; pending = call ∷ []; new_edges = 0 }))

  -- The first part of a run: an eighth starts afresh.
  unfoldable pub choose : State → Draw r.Gen (Running C Chain)
  unfolding mutate fresh_run handler_call
  choose s = do
    eighth ← draw (r.below 8)
    if eighth == 0 then fresh_run else (do base ← draw (random_base r s.corpus); extend base)

  abbrev pub Local : Type 0
  Local = State × Thread C Chain r.Gen

  abbrev pub chosen : State → Thread C Chain r.Gen → Result (Running C Chain) × r.Gen → Local
  chosen s t (ok q, g) = (s, record t { phase = running q; gen = g; left = t.left - 1 })
  chosen s t (err e, g) = (s, record t { phase = failed e; gen = g; left = t.left - 1 })

  abbrev pub called : Thread C Chain r.Gen → Result (Option (Running C Chain)) × State → Local
  called t (ok none, s) = (s, record t { phase = idle })
  called t (ok (some q), s) = (s, record t { phase = running q })
  called t (err e, s) = (s, record t { phase = failed e })

  -- The run is over, or the next call is executed.
  abbrev pub advance : State → Thread C Chain r.Gen → Running C Chain → List C → Local
  advance s t q [] = (end_sequence r codecs ex q s, record t { phase = idle })
  advance s t q (call ∷ pending) = called t (execute_call r codecs ex q call pending s)

  -- One step of `worker`.
  abbrev pub worker_phase : Bool → State → Thread C Chain r.Gen → Phase C Chain → Local
  worker_phase timed_out s t idle =
      if t.left == 0 || (s.stop || timed_out)
      then (s, record t { phase = finished })
      else if is_full ex.max_findings s.findings
      then (request_stop s, record t { phase = finished })
      else chosen (record_run s) t (choose (record_run s) t.gen)
  worker_phase timed_out s t (running q) = advance s t q q.pending
  worker_phase timed_out s t finished = (s, t)
  worker_phase timed_out s t (failed e) = (s, t)

  unfoldable pub worker : Bool → State → Thread C Chain r.Gen → Local
  unfolding choose
  worker timed_out s t = worker_phase timed_out s t t.phase

  -- The first failure among the joined threads is the result.
  abbrev pub join_phase :
      Phase C Chain → Result (List (BrokenInvariant C)) → Result (List (BrokenInvariant C))
  join_phase (failed e) rest = err e
  join_phase _ rest = rest

  unfoldable pub join :
      List (Thread C Chain r.Gen) → List (BrokenInvariant C) → Result (List (BrokenInvariant C))
  join [] found = ok found
  join (t ∷ ts) found = join_phase t.phase (join ts found)

  abbrev pub seeded : Inner C → List (Entry C Chain) → SharedCoverage → State
  seeded findings corpus coverage = record {
    findings = findings;
    runs = 0;
    calls = 0;
    gas = 0;
    stop = false;
    corpus = corpus;
    coverage = coverage;
  }

  -- A thread has a generator of its own and its share of the runs.
  unfoldable pub spawn : List r.Gen → List ℕ → List (Thread C Chain r.Gen)
  spawn [] budgets = []
  spawn (g ∷ gs) [] = []
  spawn (g ∷ gs) (budget ∷ budgets) =
      record { phase = idle; gen = g; left = budget } ∷ spawn gs budgets

  -- The end of the threads, under a schedule.
  abbrev pub played :
      State → List r.Gen → List ℕ → List (ℕ × Bool) → System State (Thread C Chain r.Gen)
  played s gens budgets steps =
      run worker (record { shared = s; threads = spawn gens budgets }) steps

  abbrev pub reported : System State (Thread C Chain r.Gen) → Result (List (BrokenInvariant C))
  reported final = join final.threads final.shared.findings.broken_invariants

  -- `Fuzzer::run`: the findings of its outcome.
  unfoldable pub fuzz :
      Inner C
      → List (Entry C Chain)
      → SharedCoverage
      → ℕ
      → List r.Gen
      → List (ℕ × Bool)
      → Result (List (BrokenInvariant C))
  unfolding join spawn worker
  fuzz findings corpus coverage max_runs gens steps =
      if is_empty ex.handlers
      then ok findings.broken_invariants
      else bind (split_runs max_runs (length gens))
          (λ budgets. reported (played (seeded findings corpus coverage) gens budgets steps))
