-- ===== src/Maxer/Fuzzer/Worker.antt =====
-- `worker`, `Fuzzer::run` and `split_runs` of src/maxer/fuzzer.rs.
use ripfuzz.Prelude.{
  ℕ, zero, suc, ◌+◌, ◌-◌, ◌/◌, ◌%◌, Bool, false, not, ◌||◌, Option, none, some, List, [], ◌∷◌, ltb,
  leb, ◌==◌, if◌then◌else◌, length, get_elem?, set, is_empty,
}
use ripfuzz.Outcome.{Result, ok, err, panicked, context, ◌>>=◌ as bind}
use ripfuzz.Rng.{Rng}
use ripfuzz.Rng.Draw.{Draw, pure, lift, draw, ◌>>=◌}
use ripfuzz.Threads.{System, run}
use ripfuzz.Evm.{Engine, last}
use ripfuzz.Sequence.{random}
use ripfuzz.Coverage.Shared.{SharedCoverage}
use ripfuzz.Maxer.Best.{Best, with_chain}
use ripfuzz.Maxer.Best as Best
use ripfuzz.Maxer.Corpus.{random_base, best_entry, Entry}
use ripfuzz.Maxer.Fuzzer.{
  Campaign, MeasuredPrefix, Running, Phase, idle, running, considering, admitting, finished, failed,
  Thread, target_reached, Execution, record_run, consider_shared, best_base, admit, execute_call,
}

-- `u64::from(index < remainder)` on top of the even share; no thread is a division by zero.
abbrev pub shares : ℕ → ℕ → ℕ → ℕ → List ℕ
shares base remainder index zero = []
shares base remainder index (suc n) =
    (base + (if ltb index remainder then 1 else 0)) ∷ shares base remainder (index + 1) n

unfoldable pub split_runs : ℕ → ℕ → Result (List ℕ)
split_runs runs threads =
    if threads == 0 then err panicked else ok (shares (runs / threads) (runs % threads) 0 threads)

module _ {engine : Engine} {C H : Type 0} (r : Rng) (ex : Execution engine C H r.Gen) where
  open engine use {Chain}

  abbrev pub State : Type 0
  State = Campaign C Chain

  abbrev pub Base : Type 0
  Base = List C × ℕ × Chain

  -- The calls run from the initial state.
  abbrev pub from_start : List C → Running C Chain
  from_start pending = record {
    executed = [];
    prev_value = ex.initial_value;
    chain = ex.chain;
    pending = pending;
    prefixes = [];
  }

  abbrev pub or_initial : Option Base → Base
  or_initial none = ([], ex.initial_value, ex.chain)
  or_initial (some base) = base

  -- `Call::random` of a random handler.
  unfoldable pub handler_call : Draw r.Gen C
  handler_call = do
    i ← draw (r.below (length ex.handlers))
    function ← lift (context panicked (get_elem? ex.handlers i))
    ex.random_call function

  -- At the limit of calls a random position of the base is changed, and all of it runs again.
  unfoldable pub mutate : List C → Draw r.Gen (Running C Chain)
  mutate calls = do
    call ← handler_call
    pos ← draw (r.below (length calls))
    _ ← lift (context panicked (get_elem? calls pos))
    pure (from_start (set calls pos call))

  unfoldable pub extend : Base → Draw r.Gen (Running C Chain)
  extend (sequence, value, chain) =
      if leb ex.max_calls (length sequence) then mutate sequence else (do
        call ← handler_call
        pure (record {
          executed = sequence;
          prev_value = value;
          chain = chain;
          pending = call ∷ [];
          prefixes = [];
        }))

  unfoldable pub fresh_run : Draw r.Gen (Running C Chain)
  fresh_run = do
    sequence ← random r ex.random_call ex.handlers ex.max_calls
    pure (from_start sequence)

  unfoldable pub pick_base : State → ℕ → Draw r.Gen Base
  pick_base s quarter =
      if not (quarter == 0)
      then pure (or_initial (best_base s.best))
      else draw (λ g. let (base, g') = random_base ex.bit_len r s.corpus g in (or_initial base, g'))

  unfoldable pub extend_run : State → Draw r.Gen (Running C Chain)
  extend_run s = do quarter ← draw (r.below 4); base ← pick_base s quarter; extend base

  -- The first part of a run: an eighth starts afresh, of the others three quarters extend the best.
  unfoldable pub choose : State → Draw r.Gen (Running C Chain)
  choose s = do eighth ← draw (r.below 8); if eighth == 0 then fresh_run else extend_run s

  abbrev pub Local : Type 0
  Local = State × Thread C Chain r.Gen

  abbrev pub chosen : State → Thread C Chain r.Gen → Result (Running C Chain) × r.Gen → Local
  chosen s t (ok q, g) = (s, record t { phase = running q; gen = g; left = t.left - 1 })
  chosen s t (err e, g) = (s, record t { phase = failed e; gen = g; left = t.left - 1 })

  abbrev pub called : Thread C Chain r.Gen → Result (ℕ × Running C Chain) × State → Local
  called t (ok (best_known, q), s) = (s, record t { phase = running q; best_known = best_known })
  called t (err e, s) = (s, record t { phase = failed e })

  -- One run is over, or the next call is executed.
  abbrev pub advance : State → Thread C Chain r.Gen → Running C Chain → List C → Local
  advance s t q [] = (s, record t { phase = considering q.prefixes })
  advance s t q (call ∷ pending) = called t (execute_call r ex t.best_known q call pending s)

  abbrev pub offer :
      State
      → Thread C Chain r.Gen
      → List (MeasuredPrefix C Chain)
      → Option (MeasuredPrefix C Chain)
      → Local
  offer s t prefixes none = (s, record t { phase = idle })
  offer s t prefixes (some p) =
      if p.measured
      then (let (improved, s') = consider_shared ex.target_value p.sequence p.value p.chain s in
          (s', record t { phase = admitting improved prefixes }))
      else (s, record t { phase = admitting false prefixes })

  -- One step of `worker`.
  abbrev pub worker_phase : Bool → State → Thread C Chain r.Gen → Phase C Chain → Local
  worker_phase timed_out s t idle =
      if t.left == 0 || (s.stop || timed_out)
      then (s, record t { phase = finished })
      else chosen (record_run s) t (choose (record_run s) t.gen)
  worker_phase timed_out s t (running q) = advance s t q q.pending
  worker_phase timed_out s t (considering prefixes) = offer s t prefixes (last prefixes)
  worker_phase timed_out s t (admitting improved []) = (s, record t { phase = idle })
  worker_phase timed_out s t (admitting improved (p ∷ ps)) =
      (admit improved p s, record t { phase = admitting improved ps })
  worker_phase timed_out s t finished = (s, t)
  worker_phase timed_out s t (failed e) = (s, t)

  unfoldable pub worker : Bool → State → Thread C Chain r.Gen → Local
  worker timed_out s t = worker_phase timed_out s t t.phase

  -- The first failure among the joined threads is the result.
  abbrev pub join_phase : Phase C Chain → Result (Best C Chain) → Result (Best C Chain)
  join_phase (failed e) rest = err e
  join_phase _ rest = rest

  unfoldable pub join : List (Thread C Chain r.Gen) → Best C Chain → Result (Best C Chain)
  join [] best = ok best
  join (t ∷ ts) best = join_phase t.phase (join ts best)

  abbrev pub seed_best : Option (List C × ℕ × Chain) → Best C Chain
  seed_best none = Best.new [] ex.initial_value
  seed_best (some (sequence, value, chain)) = with_chain sequence value chain

  abbrev pub seeded : List (Entry C Chain) → SharedCoverage → State
  seeded corpus coverage = record {
    best = seed_best (best_entry corpus);
    runs = 0;
    calls = 0;
    gas = 0;
    stop = false;
    corpus = corpus;
    coverage = coverage;
    records = [];
  }

  -- A thread has a generator of its own and its share of the runs.
  unfoldable pub spawn : List r.Gen → List ℕ → List (Thread C Chain r.Gen)
  spawn [] budgets = []
  spawn (g ∷ gs) [] = []
  spawn (g ∷ gs) (budget ∷ budgets) =
      record { phase = idle; gen = g; best_known = ex.initial_value; left = budget }
      ∷ spawn gs budgets

  -- The end of the threads, under a schedule.
  abbrev pub played :
      State → List r.Gen → List ℕ → List (ℕ × Bool) → System State (Thread C Chain r.Gen)
  played s gens budgets steps =
      run worker (record { shared = s; threads = spawn gens budgets }) steps

  abbrev pub reported : System State (Thread C Chain r.Gen) → Result (Best C Chain)
  reported final = join final.threads final.shared.best

  -- `Fuzzer::run`.
  unfoldable pub fuzz :
      List (Entry C Chain)
      → SharedCoverage
      → ℕ
      → List r.Gen
      → List (ℕ × Bool)
      → Result (Best C Chain)
  unfolding join spawn
  fuzz corpus coverage max_runs gens steps =
      let s = seeded corpus coverage in
      if target_reached ex.target_value s.best.value || is_empty ex.handlers
      then ok s.best
      else bind (split_runs max_runs (length gens))
          (λ budgets. reported (played s gens budgets steps))
