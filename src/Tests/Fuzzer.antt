-- ===== src/Tests/Fuzzer.antt =====
-- Runs of the fuzzer for a maximum, on an engine whose value is a sum modulo seven.
use ripfuzz.Rng.{tape}
use ripfuzz.Outcome.{ok}
use ripfuzz.Threads.{System, run}
use ripfuzz.Maxer.Corpus.{Entry, best_value, best_entry, best_entry_from, add, add_with_chain}
use ripfuzz.Maxer.Fuzzer.Replay.{replay, one_call, value_after}
use ripfuzz.Maxer.Fuzzer.Bases.{StateHolds, Kept}
use ripfuzz.Maxer.Fuzzer.Snapshots.{played-StateHolds}
use ripfuzz.Maxer.Fuzzer.Runs.{played-runs, split_runs-sum}
use ripfuzz.Maxer.Fuzzer.Worker.{played, seeded, split_runs, worker, choose, fresh_run, spawn}
use ripfuzz.Prelude.{
  ℕ, zero, suc, ◌+◌, ◌/◌, ◌%◌, ◌≤◌, min, ◌≡◌, refl, Bool, false, Option, none, some, List, [], ◌∷◌,
  arith, length, All, sum_of,
}
use ripfuzz.Rng.Draw.{draw}
use ripfuzz.Tests.Engine.{engine}
use ripfuzz.Maxer.Fuzzer.{
  Campaign, Thread, Execution, execute_call, record_run, record_call, record_gas, merge_shared,
  measure_value, consider_shared, admit,
}
use ripfuzz.Sequence.{random, random_calls}
use ripfuzz.Maxer.Value.{measured_value, decode}
use ripfuzz.Maxer.Delta.{between, is_zero, is_negative, is_positive, activity}
use ripfuzz.Maxer.Delta as Delta
use ripfuzz.Maxer.Records.{observe, observe_class, insert, find, same_class}
use ripfuzz.Maxer.Records as Records
use ripfuzz.Coverage.Shared.{merge}
use ripfuzz.Coverage.Shared as Shared
use ripfuzz.Maxer.Best.{consider}
use ripfuzz.Maxer.Best as Best
use ripfuzz.Maxer.Corpus.Entries.{OfEntry}
use ripfuzz.Coverage.Shared.{SharedCoverage}

abbrev modulo_seven : List ℕ → Option ℕ
modulo_seven [] = none
modulo_seven (x ∷ _) = some (x % 7)

abbrev ex : Execution engine ℕ ℕ (List ℕ)
ex = record {
  chain = 0;
  transaction = λ c. c;
  value_tx = 0;
  handlers = 1 ∷ [];
  random_call = λ h. draw (tape.below 100);
  selector = λ c. c;
  contracts = λ c. [];
  initial_value = 0;
  max_calls = 2;
  target_value = none;
  abi_decode = modulo_seven;
  bit_len = λ n. min n 256;
}

abbrev nothing : SharedCoverage
nothing = record { contracts = []; bytecodes = [] }

abbrev steps : ℕ → List (ℕ × Bool)
steps zero = []
steps (suc n) = (0, false) ∷ steps n

-- A fresh sequence whose value is five after the first call, and one after the second.
abbrev fresh : List ℕ
fresh = 0 ∷ 2 ∷ 0 ∷ 5 ∷ 0 ∷ 3 ∷ []

abbrev one_run : List (Entry ℕ ℕ) → List ℕ → ℕ → System (Campaign ℕ ℕ) (Thread ℕ ℕ (List ℕ))
one_run corpus draws n =
    played tape ex (seeded tape ex corpus nothing) (draws ∷ []) (1 ∷ []) (steps n)

-- The best value is that of the whole sequence, though the corpus holds the call that reached five.
peak_missed : let s = (one_run [] fresh 8).shared in (s.best.value ≡ 1) × (best_value s.corpus ≡ 5)
unfolding run worker choose fresh_run random random_calls execute_call spawn record_run record_call
    record_gas merge_shared merge measure_value measured_value decode between Delta.new observe
    observe_class is_zero Records.is_interesting Shared.is_interesting activity consider_shared
    consider Best.new best_entry best_entry_from admit add add_with_chain best_value is_negative
    is_positive insert find same_class
peak_missed = (refl, refl)

-- An entry whose state is that after its call.
abbrev reached_two : List (Entry ℕ ℕ)
reached_two =
    record { sequence = 2 ∷ []; value = 2; new_edges = 0; delta_activity = 0; chain = some 2 } ∷ []

reached_two-Kept : All (OfEntry (Kept tape ex)) reached_two
unfolding replay one_call value_after measured_value decode
reached_two-Kept = ((refl, omega arith), tt)

-- The run extends the entry's state by a call.
abbrev extending : List ℕ
extending = 1 ∷ 0 ∷ 0 ∷ 0 ∷ 3 ∷ []

played-StateHolds_example : StateHolds tape ex (one_run reached_two extending 6).shared
played-StateHolds_example =
    played-StateHolds tape ex reached_two nothing (extending ∷ []) (1 ∷ []) (steps 6)
      reached_two-Kept

played-runs_example :
    let final = one_run reached_two extending 6 in
    final.shared.runs + sum_of (λ (t : Thread ℕ ℕ (List ℕ)). t.left) final.threads ≡ 1
unfolding split_runs
played-runs_example =
    played-runs tape ex reached_two nothing 1 (extending ∷ []) (1 ∷ []) (steps 6) (omega arith) refl

split_runs-sum_example :
    (budgets : List ℕ) × (split_runs 10 4 ≡ ok budgets)
    × (length budgets ≡ 4)
    × (sum_of (λ n. n) budgets ≡ 10)
    × All (λ b. (10 / 4 ≤ b) × (b ≤ 10 / 4 + 1)) budgets
split_runs-sum_example = split_runs-sum 10 4 (omega arith)
