-- ===== src/Evm/Exec.antt =====
-- `Chain::exec` of src/evm/chain/mod.rs: the transactions one after another, with one cheatcode
-- inspector for all of them. A transaction is executed by the revm crate, which is a parameter, with
-- the inspectors' part in it. The chain takes the database and environment back, and keeps its own
-- cheatcode state. Traces are left out.
pub mod Append
use ripfuzz.Prelude.{
  ℕ, zero, suc, ◌+◌, ◌-◌, ◌*◌, ◌/◌, ◌%◌, ◌^◌, ◌≤◌, ◌<◌, min, max, compare, Ordering, ◌≡◌, refl, sym,
  ap, ◌∙◌, subst, ◌≢◌, ◌↔◌, ◌⊎◌, inl, inr, Bool, true, false, not, ◌&&◌, ◌||◌, Option, none, some,
  List, [], ◌∷◌, ◌++◌, map, arith, dec_lt, dec_le, ℕ_discrete, ltb, leb, ◌==◌, if◌then◌else◌,
  ltb→lt, lt→ltb, ltb-false→le, ==_iff, Bool-cases, Option-cases, is_some, u64_max, saturating_add,
  length, get_elem?, set, take, drop, is_empty, remove, length-append, length-take, length-drop,
  length-remove, length-set, All, All-append, All-remove, All-set, All-get_elem?, sum_of,
  sum_of-set, sum_of-get_elem?,
}
use ripfuzz.Outcome.{Result, ok, err, ◌>>=◌}
use ripfuzz.Evm.{TransactionResult, Report, ExecOutput, Engine}

-- A committed transaction leaves a world (the database and the environments) and a cheatcode state,
-- and shows the coverage inspector what it hits.
pub record Revm : Type 1 where
  pub World : Type 0
  pub Cheats : Type 0
  pub Transaction : Type 0
  pub Hits : Type 0
  pub Coverage : Type 0
  pub transact : World → Cheats → Transaction → Result (World × Cheats × Hits × TransactionResult)
  pub into_coverage : List Hits → Coverage

-- The fields of `Chain` that `exec` reads.
pub record Chain (World Cheats : Type 0) : Type 0 where
  pub world : World
  pub cheatcode_state : Cheats
  pub coverage_enabled : Bool

module _ (revm : Revm) (from_revert : List ℕ → Option Report) where
  open revm use {World, Cheats, Transaction, Hits, Coverage, transact, into_coverage}

  -- `into_iter().collect()`.
  abbrev pub as_list : Option Report → List Report
  as_list none = []
  as_list (some report) = report ∷ []

  abbrev pub decoded : Option (List ℕ) → Option Report
  decoded none = none
  decoded (some output) = from_revert output

  -- `TransactionResult::broken_invariant`.
  unfoldable pub broken_invariant : TransactionResult → Option Report
  broken_invariant result = if result.success then none else decoded result.output

  abbrev pub End : Type 0
  End = World × Cheats × List Hits

  -- The loop over the transactions.
  unfoldable pub execute :
      World → Cheats → List Hits → List Transaction → Result (End × List TransactionResult)
  execute world cheats hits [] = ok ((world, cheats, hits), [])
  execute world cheats hits (tx ∷ txs) = do
    (world, cheats, hit, result) ← transact world cheats tx
    (end, results) ← execute world cheats (hits ++ hit ∷ []) txs
    ok (end, result ∷ results)

  abbrev pub output : Bool → List Hits → List TransactionResult → ExecOutput Coverage
  output coverage_enabled hits results = record {
    results = results;
    coverage = if coverage_enabled then some (into_coverage hits) else none;
    broken_invariants = map (λ result. as_list (broken_invariant result)) results;
  }

  unfoldable pub exec :
      Chain World Cheats → List Transaction → Result (Chain World Cheats × ExecOutput Coverage)
  unfolding execute broken_invariant
  exec chain transactions = do
    ((world, cheats, hits), results) ← execute chain.world chain.cheatcode_state [] transactions
    ok (record chain { world = world }, output chain.coverage_enabled hits results)

  -- The engine of the campaigns.
  abbrev pub engine : Engine
  engine = record {
    Chain = Chain World Cheats;
    Transaction = Transaction;
    Coverage = Coverage;
    exec = exec;
  }
