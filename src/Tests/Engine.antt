-- ===== src/Tests/Engine.antt =====
-- An engine whose chain is a sum, and whose transactions are numbers added to it.
use ripfuzz.Prelude.{ℕ, ◌+◌, true, Option, none, some, List, [], ◌∷◌, leb, if◌then◌else◌}
use ripfuzz.Outcome.{ok}
use ripfuzz.Evm.{Report, TransactionResult, Engine}
use ripfuzz.Maxer.Shrinker.{Execution}

abbrev pub total : ℕ → List ℕ → ℕ
total n [] = n
total n (x ∷ xs) = total (n + x) xs

abbrev pub results_from : ℕ → List ℕ → List TransactionResult
results_from n [] = []
results_from n (x ∷ xs) =
    record { success = true; gas_used = 21000; output = some ((n + x) ∷ []) }
    ∷ results_from (n + x) xs

-- A sum of seven breaks an invariant.
abbrev pub reports_from : ℕ → List ℕ → List (List Report)
reports_from n [] = []
reports_from n (x ∷ xs) =
    (if leb 7 (n + x) then record { id = "big"; description = "" } ∷ [] else [])
    ∷ reports_from (n + x) xs

abbrev pub engine : Engine
engine = record {
  Chain = ℕ;
  Transaction = ℕ;
  Coverage = ℕ;
  exec = λ chain txs. ok (
    total chain txs,
    record {
      results = results_from chain txs;
      coverage = some chain;
      broken_invariants = reports_from chain txs;
    },
  );
}

abbrev pub read_word : List ℕ → Option ℕ
read_word [] = none
read_word (x ∷ _) = some x

-- Sequences of numbers that keep a sum of seven.
abbrev pub sum_of_seven : Execution engine ℕ
sum_of_seven = record {
  chain = 0;
  transaction = λ c. c;
  value_tx = 0;
  target_value = 7;
  abi_decode = read_word;
}
