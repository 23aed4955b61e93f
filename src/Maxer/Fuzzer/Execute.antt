-- ===== src/Maxer/Fuzzer/Execute.antt =====
-- One executed call, for whatever holds of the shared state (`src/maxer/fuzzer.rs`).
use ripfuzz.Prelude.{ℕ, ◌≡◌, List, [], ◌∷◌, arith, length-append, All-append}
use ripfuzz.Outcome.{Result, ok, err, context, missing_coverage}
use ripfuzz.Rng.{Rng}
use ripfuzz.Rng.Draw.{lift, Leaves, Leaves-bind, Leaves-lift}
use ripfuzz.Evm.{Engine, TransactionResult}
use ripfuzz.Coverage.Exec.{CoverageId, ExecutionContractCoverage}
use ripfuzz.Coverage.Shared.{SharedCoverage, CoverageUpdate, merge}
use ripfuzz.Maxer.Records.{Records}
use ripfuzz.Maxer.Fuzzer.{
  Campaign, Running, Execution, record_call, record_gas, merge_shared, merged, measure_value,
  execute_call, or_zero,
}
use ripfuzz.Maxer.Fuzzer.Replay.{IsSnapshot-snoc, measure_value-Leaves, one_call-eq, value_after}
use ripfuzz.Maxer.Fuzzer.Bases.{RunHolds, Started, PrefixHolds}

module _ {engine : Engine} {C H : Type 0} (r : Rng) (ex : Execution engine C H r.Gen) where
  open engine use {Chain}

  -- `Inv` does not depend on the counters of calls and gas, the coverage and the records.
  module _ (Inv : Campaign C Chain → Type 0)
      (gas : (s : Campaign C Chain) (rs : List TransactionResult) → Inv s → Inv (record_gas rs s))
      (counted : (s : Campaign C Chain) → Inv s → Inv (record_call s))
      (covered : (s : Campaign C Chain) (c : SharedCoverage)
        → Inv s
        → Inv (record s { coverage = c }))
      (observed : (s : Campaign C Chain) (m : Records)
        → Inv s
        → Inv (record s { records = m })) where
    merge_shared-Leaves :
        (local : List (CoverageId × ExecutionContractCoverage)) (s : Campaign C Chain)
        → Inv s
        → Leaves Inv (λ _. Unit {0}) (merge_shared local s)
    unfolding merge_shared
    merge_shared-Leaves local s h = go (merge local s.coverage)
      where
        go :
            (m : Result (CoverageUpdate × SharedCoverage)) → Leaves Inv (λ _. Unit {0}) (merged s m)
        go (ok (u, c)) = (covered s c h, tt)
        go (err e) = h

    pub execute_call-Leaves :
        (best_known : ℕ) (q : Running C Chain) (call : C) (pending : List C) (s : Campaign C Chain)
        → Inv s
        → Leaves Inv
            (λ (_, q'). RunHolds r ex (call ∷ pending) q → Started r ex q')
            (execute_call r ex best_known q call pending s)
    unfolding execute_call
    execute_call-Leaves best_known q call pending s h =
        Leaves-bind Inv (lift (engine.exec q.chain (ex.transaction call ∷ []))) _ s _ _
          (Leaves-lift Inv (engine.exec q.chain (ex.transaction call ∷ [])) s h)
          (λ (chain, exec) s1 h1 e.
            let s2 = record_gas exec.results (record_call s1) in
            Leaves-bind Inv (lift (context missing_coverage exec.coverage)) _ s2 _ _
              (Leaves-lift Inv (context missing_coverage exec.coverage) s2
                (gas (record_call s1) exec.results (counted s1 h1)))
              (λ coverage s3 h3 u3.
                Leaves-bind Inv (merge_shared (ex.contracts coverage)) _ s3 (λ _. Unit {0}) _
                  (merge_shared-Leaves (ex.contracts coverage) s3 h3)
                  (λ update s4 h4 u4.
                    Leaves-bind Inv (measure_value r ex chain) _ s4
                      (λ (measured, after).
                        value_after r ex chain ≡ ok (after, or_zero r ex measured))
                      _ (measure_value-Leaves r ex Inv gas chain s4 h4)
                      (λ (measured, after) s5 h5 m. (
                        observed s5 _ h5,
                        λ (snap, fits, kept).
                            let next =
                              IsSnapshot-snoc r ex q.executed q.prev_value q.chain call
                                (after, or_zero r ex measured) snap (one_call-eq r ex e m) in
                            let len = length-append q.executed (call ∷ []) in
                            (
                              next,
                              omega (arith, fits, len),
                              All-append (PrefixHolds r ex) q.prefixes _ kept
                                  ((next, omega (arith, fits, len)), tt),
                            ),
                      )))))
