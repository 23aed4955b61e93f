-- ===== src/Tests/Campaign.antt =====
-- Runs of the fuzzer for findings, on an engine whose chain is a sum.
use ripfuzz.Prelude.{
  ℕ, zero, suc, ◌≡◌, refl, Bool, true, false, none, some, List, [], ◌∷◌, arith, All,
}
use ripfuzz.Outcome.{ok}
use ripfuzz.Rng.{tape}
use ripfuzz.Rng.Draw.{draw}
use ripfuzz.Threads.{run}
use ripfuzz.Sequence.{random, random_calls}
use ripfuzz.Coverage.Shared.{SharedCoverage, merge}
use ripfuzz.Tests.Engine.{engine}
use ripfuzz.Tests.Stop.{codecs}
use ripfuzz.Maxer.Fuzzer.Worker.{split_runs}
use ripfuzz.Tester.BrokenInvariants.{Inner, try_add, find, is_full}
use ripfuzz.Tester.Corpus.{Entry, add, add_with_chain, random_base}
use ripfuzz.Tester.Fuzzer.{
  Execution, record_run, record_call, record_gas, request_stop, collect, collect_all, cover,
  attributed, handler_stop, first_stop, invariant_stop, invariant_reports, check_invariants,
  execute_call, keep_sequence, end_sequence,
}
use ripfuzz.Tester.Fuzzer.Worker.{
  played, seeded, worker, choose, fresh_run, mutate, handler_call, spawn, fuzz, join,
}
use ripfuzz.Tester.Corpus.{weight}
use ripfuzz.Tester.Shrinker as Shrinker
use ripfuzz.Tester.Stop.{is_revert_finding, is_panic_finding}
use ripfuzz.Tester.Fuzzer.Observed.{replay, OfEntry}
use ripfuzz.Tester.Fuzzer.Bases.{StateHolds, Kept}
use ripfuzz.Tester.Fuzzer.Findings.{played-Observed}

-- The one invariant adds nothing to the sum.
abbrev ex : Execution engine ℕ ℕ (List ℕ)
ex = record {
  chain = 0;
  transaction = λ c. c;
  invariant_transaction = λ h. 0;
  invariant_call = λ h. 0;
  handlers = 1 ∷ [];
  invariants = 2 ∷ [];
  random_call = λ h. draw (tape.below 100);
  same_selector = λ h c. true;
  contracts = λ c. [];
  max_findings = 2;
  max_calls = 2;
  stop_on_revert = none;
  stop_on_panic = none;
}

abbrev nothing : SharedCoverage
nothing = record { contracts = []; bytecodes = [] }

abbrev no_findings : Inner ℕ
no_findings = record { broken_invariants = []; keys = [] }

abbrev steps : ℕ → List (ℕ × Bool)
steps zero = []
steps (suc n) = (0, false) ∷ steps n

-- An entry whose state is that after its call.
abbrev reached_five : List (Entry ℕ ℕ)
reached_five = record { sequence = 5 ∷ []; new_edges = 1; chain = some 5 } ∷ []

reached_five-Kept : All (OfEntry (Kept tape codecs ex)) reached_five
unfolding replay
reached_five-Kept = ((refl, omega arith), tt)

-- The run extends the entry's state by a call that makes the sum seven.
abbrev extending : List ℕ
extending = 1 ∷ 0 ∷ 0 ∷ 2 ∷ []

seven_reported :
    fuzz tape codecs ex no_findings reached_five nothing 1 (extending ∷ []) (steps 5)
    ≡ ok (record { sequence = 5 ∷ 2 ∷ []; id = "big"; description = "" } ∷ [])
unfolding fuzz run split_runs worker choose fresh_run mutate handler_call random_base random
    random_calls spawn join execute_call record_run record_call record_gas request_stop collect
    collect_all cover attributed handler_stop first_stop invariant_stop invariant_reports
    check_invariants end_sequence keep_sequence merge try_add find is_full add add_with_chain weight
seven_reported = refl

played-Observed_example :
    StateHolds tape codecs ex
      (played tape codecs ex
        (seeded tape codecs ex no_findings reached_five nothing)
        (extending ∷ [])
        (1 ∷ [])
        (steps 5)).shared
played-Observed_example =
    played-Observed tape codecs ex no_findings reached_five nothing (extending ∷ []) (1 ∷ [])
      (steps 5) tt reached_five-Kept

-- Two invariants that change the sum: the second is run after the first, on the same clone.
abbrev changing : Execution engine ℕ ℕ (List ℕ)
changing = record ex {
  invariants = 4 ∷ 4 ∷ [];
  invariant_transaction = λ h. h;
  invariant_call = λ h. h;
}

abbrev clean : Shrinker.Execution engine ℕ
clean = record { chain = 0; transaction = λ c. c }

-- The finding of the second is held with a sequence that does not make it.
not_reproduced :
    (fuzz tape codecs changing no_findings [] nothing 1 ((0 ∷ 1 ∷ 0 ∷ []) ∷ []) (steps 3)
      ≡ ok (record { sequence = 0 ∷ 4 ∷ []; id = "big"; description = "" } ∷ []))
    × (Shrinker.reproduces clean codecs (0 ∷ 4 ∷ []) "big" ≡ ok false)
unfolding fuzz run split_runs worker choose fresh_run mutate handler_call random_base random
    random_calls spawn join execute_call record_run record_call record_gas request_stop collect
    collect_all cover attributed handler_stop first_stop invariant_stop invariant_reports
    check_invariants end_sequence keep_sequence merge try_add find is_full add add_with_chain weight
    Shrinker.reproduces Shrinker.emits is_revert_finding is_panic_finding
not_reproduced = (refl, refl)
