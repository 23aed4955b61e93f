-- ===== src/Tests/Chain.antt =====
-- Runs of `exec`, with a world that is a sum and a cheatcode state that says whether a prank is left in
-- force, under which a transaction counts for nothing.
use ripfuzz.Prelude.{
  ℕ, ◌+◌, ◌≡◌, refl, sym, ap, inl, Bool, true, false, ◌||◌, none, some, List, [], ◌∷◌, ltb, ◌==◌,
}
use ripfuzz.Outcome.{Result, ok, err, ok-injective, ◌>>=◌ as bind}
use ripfuzz.Rng.{tape}
use ripfuzz.Rng.Draw.{draw}
use ripfuzz.Evm.{TransactionResult, ExecOutput, Report}
use ripfuzz.Evm.Exec.{Revm, Chain, exec, execute, engine, broken_invariant}
use ripfuzz.Evm.Exec.Append.{LeavesCheats, Executed, exec-append}
use ripfuzz.Tests.Stop.{codecs}
use ripfuzz.Tester.Stop.{Codecs, is_revert_finding, is_panic_finding}
use ripfuzz.Tester.Fuzzer.{Execution}
use ripfuzz.Tester.Fuzzer.Observed.{IsSnapshot, replay}
use ripfuzz.Tester.Fuzzer.Reproducible.{clean, handler-reproduces}
use ripfuzz.Tester.Shrinker.{reproduces}

-- A sum of seven reverts.
abbrev result_of : ℕ → TransactionResult
result_of n = record { success = ltb n 7; gas_used = 21000; output = some (n ∷ []) }

abbrev added : ℕ → Bool → ℕ → ℕ
added world true tx = world
added world false tx = world + tx

-- Every revert reports.
abbrev reporting : Codecs
reporting = record codecs { from_revert = λ output. some (record { id = "big"; description = "" }) }

-- A transaction of the number 1 leaves a prank in force.
abbrev revm : Revm
revm = record {
  World = ℕ;
  Cheats = Bool;
  Transaction = ℕ;
  Hits = ℕ;
  Coverage = List ℕ;
  transact = λ world prank tx.
      ok (added world prank tx, prank || tx == 1, tx, result_of (added world prank tx));
  into_coverage = λ hits. hits;
}

-- The same without pranks.
abbrev plain : Revm
plain = record {
  World = ℕ;
  Cheats = Bool;
  Transaction = ℕ;
  Hits = ℕ;
  Coverage = List ℕ;
  transact = λ world prank tx. ok (world + tx, prank, tx, result_of (world + tx));
  into_coverage = λ hits. hits;
}

abbrev start : Chain ℕ Bool
start = record { world = 0; cheatcode_state = false; coverage_enabled = true }

plain-LeavesCheats : LeavesCheats plain reporting.from_revert false
plain-LeavesCheats w tx out e =
    ap (λ (o : ℕ × Bool × ℕ × TransactionResult). o.1) (sym (ok-injective e))

abbrev output : List ℕ → List ℕ → List TransactionResult → List (List Report) → ExecOutput (List ℕ)
output hits rest results reports = record {
  results = results;
  coverage = some hits;
  broken_invariants = reports;
}

abbrev at_five : Executed plain reporting.from_revert
at_five = (record start { world = 5 }, output (5 ∷ []) [] (result_of 5 ∷ []) ([] ∷ []))

abbrev big : Report
big = record { id = "big"; description = "" }

abbrev at_eight : Executed plain reporting.from_revert
at_eight = (record start { world = 8 }, output (3 ∷ []) [] (result_of 8 ∷ []) ((big ∷ []) ∷ []))

first_part : exec plain reporting.from_revert start (5 ∷ []) ≡ ok at_five
unfolding exec execute broken_invariant
first_part = refl

second_part : exec plain reporting.from_revert at_five.0 (3 ∷ []) ≡ ok at_eight
unfolding exec execute broken_invariant
second_part = refl

exec-append_example :
    (out : ExecOutput (List ℕ)) × (exec plain reporting.from_revert start (5 ∷ 3 ∷ [])
      ≡ ok (at_eight.0, out))
    × (out.results ≡ result_of 5 ∷ result_of 8 ∷ [])
    × (out.broken_invariants ≡ [] ∷ (big ∷ []) ∷ [])
exec-append_example =
    exec-append plain reporting.from_revert start (5 ∷ []) (3 ∷ []) at_five at_eight
      plain-LeavesCheats first_part second_part

abbrev world : Result (Executed revm reporting.from_revert) → ℕ
world (ok (chain, _)) = chain.world
world (err e) = 0

-- A prank that a call leaves in force holds for the next call of one execution, and not for the next
-- execution.
prank_lost :
    let run = exec revm reporting.from_revert in
    (world (run start (1 ∷ 4 ∷ [])) ≡ 1)
    × (world (bind (run start (1 ∷ [])) (λ (chain, _). run chain (4 ∷ []))) ≡ 5)
unfolding exec execute broken_invariant
prank_lost = (refl, refl)

abbrev harness : Execution (engine plain reporting.from_revert) ℕ ℕ (List ℕ)
harness = record {
  chain = start;
  transaction = λ c. c;
  invariant_transaction = λ h. h;
  invariant_call = λ h. h;
  handlers = 1 ∷ [];
  invariants = [];
  random_call = λ h. draw (tape.below 100);
  same_selector = λ h c. true;
  contracts = λ c. [];
  max_findings = 2;
  max_calls = 2;
  stop_on_revert = none;
  stop_on_panic = none;
}

reached_five : IsSnapshot tape reporting harness (5 ∷ []) at_five.0
unfolding replay exec execute
reached_five = refl

not_reserved : (is_revert_finding "big" ≡ false) × (is_panic_finding "big" ≡ false)
unfolding is_revert_finding is_panic_finding
not_reserved = (refl, refl)

handler-reproduces_example :
    reproduces (clean plain tape reporting harness) reporting (5 ∷ 3 ∷ []) "big" ≡ ok true
handler-reproduces_example =
    handler-reproduces plain tape reporting harness (5 ∷ []) 3 at_five.0 at_eight "big"
      plain-LeavesCheats reached_five second_part
      (inl (big ∷ [], (refl, inl refl, not_reserved.0, not_reserved.1)))
