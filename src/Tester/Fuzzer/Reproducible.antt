-- ===== src/Tester/Fuzzer/Reproducible.antt =====
-- The findings that a campaign makes at a handler's call, against the replay by which the shrinker
-- checks them (`execute_sequence` of src/tester/fuzzer.rs, `reproduces` of src/tester/shrinker.rs,
-- `exec` of src/evm/chain/mod.rs).
use ripfuzz.Prelude.{
  ◌≡◌, refl, sym, ap, ◌∙◌, subst, ◌⊎◌, inl, inr, true, false, Option, none, some, List, [], ◌∷◌,
  ◌++◌, map, Bool-cases, is_empty,
}
use Prim.Native.String.{String}
use text.Mathlib.TextPositions.{starts_with-append}
use mathlib.Core.Option.{some-injective}
use ripfuzz.Outcome.{ok, bind-eq-ok, ok-injective}
use ripfuzz.Rng.{Rng}
use ripfuzz.Evm.{TransactionResult, Report, ExecOutput, first, last}
use ripfuzz.Evm.Exec.{Revm, Chain, engine, exec}
use ripfuzz.Evm.Exec.Append.{
  LeavesCheats, Executed, exec-append, exec-nil, exec-one, exec-cheatcode_state, map-append,
}
use ripfuzz.Tester.Stop.{
  Codecs, StopOnRevert, StopOnPanic, is_revert_finding, is_panic_finding, revert_matches,
  panic_matches, revert_finding_id, panic_finding_id, revert_prefix, panic_prefix, any_revert,
  any_panic,
}
use ripfuzz.Tester.Stop.{panic_suffix, panic_of}
use ripfuzz.Tester.Stop.Reproduce.{stopped_reproduces}
use ripfuzz.Tester.Fuzzer.{Execution, under, revert_stop, panic_stop}
use ripfuzz.Tester.Fuzzer.Observed.{Has, replay, IsSnapshot, Stops}
use ripfuzz.Tester.Shrinker as Shrinker
use ripfuzz.Tester.Shrinker.{among, emits, reproduces, replay_last, expected_by}
use ripfuzz.Tester.Fuzzer.Emitted.{emits-append, emits-first, last-snoc, no_panic_starts}

module _ (revm : Revm) {C H : Type 0} (r : Rng) (codecs : Codecs)
    (ex : Execution (engine revm codecs.from_revert) C H r.Gen) where
  abbrev ChainOf : Type 0
  ChainOf = Chain revm.World revm.Cheats

  abbrev Outcome : Type 0
  Outcome = Executed revm codecs.from_revert

  -- The shrinker's execution of the same harness.
  abbrev pub clean : Shrinker.Execution (engine revm codecs.from_revert) C
  clean = record { chain = ex.chain; transaction = ex.transaction }

  -- Calls that were executed one by one are executed at once, to the same state.
  replay-exec :
      (from end : ChainOf) (calls : List C)
      → LeavesCheats revm codecs.from_revert from.cheatcode_state
      → replay r codecs ex from calls ≡ ok end
      → (out : ExecOutput revm.Coverage) × (exec revm codecs.from_revert from
            (map ex.transaction calls)
          ≡ ok (end, out))
  unfolding replay
  replay-exec from end [] leaves h =
      let (out, e) = exec-nil revm codecs.from_revert from in (out, rw (sym (ok-injective h)) e)
  replay-exec from end (c ∷ calls) leaves h =
      let tx = ex.transaction c in
      let (a, at_a, h1) = bind-eq-ok (exec revm codecs.from_revert from (tx ∷ [])) _ h in
      let kept = exec-cheatcode_state revm codecs.from_revert from (tx ∷ []) a at_a in
      let (out, e) =
        replay-exec a.0 end calls (subst (LeavesCheats revm codecs.from_revert) kept leaves) h1 in
      let (all, e2, _, _) =
        exec-append revm codecs.from_revert from (tx ∷ []) (map ex.transaction calls) a (end, out)
          leaves at_a e in
      (all, e2)

  -- What a finding of a handler's call says of the output of its last call: a report of its id, which
  -- is not one of the reserved ids, or a result that a filter stops on.
  abbrev pub ShowsHandler : String → ExecOutput revm.Coverage → Type 0
  ShowsHandler id out =
      ((reports : List Report) × ((first out.broken_invariants ≡ some reports)
          × Has id reports
          × (is_revert_finding id ≡ false)
          × (is_panic_finding id ≡ false)))
      ⊎ ((result : TransactionResult) × ((first out.results ≡ some result)
            × Stops r codecs ex id result))

  abbrev Whole : List C → C → Outcome → Type 0
  Whole calls call out =
      (before : ExecOutput revm.Coverage) × ((all : ExecOutput revm.Coverage) × (exec revm
            codecs.from_revert ex.chain (map ex.transaction (calls ++ call ∷ []))
          ≡ ok (out.0, all))
        × (all.results ≡ before.results ++ out.1.results)
        × (all.broken_invariants ≡ before.broken_invariants ++ out.1.broken_invariants))

  whole :
      (calls : List C) (call : C) (chain : ChainOf) (out : Outcome)
      → LeavesCheats revm codecs.from_revert ex.chain.cheatcode_state
      → IsSnapshot r codecs ex calls chain
      → exec revm codecs.from_revert chain (ex.transaction call ∷ []) ≡ ok out
      → Whole calls call out
  whole calls call chain out leaves snap e =
      let (before, at_before) = replay-exec ex.chain chain calls leaves snap in
      let (all, at_all, results, reports) =
        exec-append revm codecs.from_revert ex.chain (map ex.transaction calls)
          (ex.transaction call ∷ []) (chain, before) out leaves at_before e in
      (before, (all, rw (map-append ex.transaction calls (call ∷ [])) at_all, results, reports))

  not_empty : (calls : List C) (call : C) → is_empty (calls ++ call ∷ []) ≡ false
  not_empty [] call = refl
  not_empty (c ∷ calls) call = refl

  report-reproduces :
      (calls : List C) (call : C) (out : Outcome) (reports : List Report) (id : String)
      → Whole calls call out
      → first out.1.broken_invariants ≡ some reports
      → Has id reports
      → is_revert_finding id ≡ false
      → is_panic_finding id ≡ false
      → reproduces clean codecs (calls ++ call ∷ []) id ≡ ok true
  unfolding reproduces
  report-reproduces calls call out reports id (before, (all, e, results, broken)) at has r1 p1 =
      let emitted : emits id all.broken_invariants ≡ true = rw broken (
        emits-append id before.broken_invariants out.1.broken_invariants
          (emits-first id reports out.1.broken_invariants at has)) in
      rw r1 (rw p1 (rw e (ap ok emitted)))

  replay_last-eq :
      (calls : List C) (call : C) (out : Outcome) (result : TransactionResult)
      → Whole calls call out
      → out.1.results ≡ result ∷ []
      → replay_last clean codecs (calls ++ call ∷ []) ≡ ok (some result)
  unfolding replay_last
  replay_last-eq calls call out result (before, (all, e, results, broken)) one =
      rw (not_empty calls call) (
        rw e (
          ap (λ rs. ok (last rs)) (results ∙ ap (λ rs. before.results ++ rs) one)
          ∙ ap ok (last-snoc before.results result)))

  is_revert_finding-id :
      (result : TransactionResult) → is_revert_finding (revert_finding_id codecs result) ≡ true
  unfolding is_revert_finding revert_finding_id
  is_revert_finding-id result = starts_with-append revert_prefix _

  is_panic_finding-id :
      (result : TransactionResult) → is_panic_finding (panic_finding_id codecs result) ≡ true
  unfolding is_panic_finding panic_finding_id
  is_panic_finding-id result = starts_with-append panic_prefix _

  panic_id-no_revert :
      (result : TransactionResult) → is_revert_finding (panic_finding_id codecs result) ≡ false
  unfolding is_revert_finding panic_finding_id
  panic_id-no_revert result = no_panic_starts (panic_suffix codecs (panic_of codecs result.output))

  module _ (calls : List C) (call : C) (result : TransactionResult)
      (at : replay_last clean codecs (calls ++ call ∷ []) ≡ ok (some result)) where
    abbrev Reproduced : String → Type 0
    Reproduced id = reproduces clean codecs (calls ++ call ∷ []) id ≡ ok true

    revert-Reproduced :
        (f : StopOnRevert)
        → revert_matches codecs f result ≡ true
        → Reproduced (revert_finding_id codecs result)
    unfolding reproduces
    revert-Reproduced f z =
        let kept = (stopped_reproduces codecs f any_panic result).0 z in
        rw (is_revert_finding-id result) (rw at (ap ok kept))

    panic-Reproduced :
        (f : StopOnPanic)
        → panic_matches codecs f result ≡ true
        → Reproduced (panic_finding_id codecs result)
    unfolding reproduces
    panic-Reproduced f z =
        let kept = (stopped_reproduces codecs any_revert f result).1 z in
        rw (panic_id-no_revert result) (rw (is_panic_finding-id result) (rw at (ap ok kept)))

    Stops-Reproduced : (id : String) → Stops r codecs ex id result → Reproduced id
    Stops-Reproduced id (inl s) = by_revert ex.stop_on_revert s
      where
        by_revert :
            (o : Option StopOnRevert)
            → under r codecs ex o (revert_stop r codecs ex result) ≡ some id
            → Reproduced id
        by_revert none h = cc
        by_revert (some f) h = elim (Bool-cases (revert_matches codecs f result)) [
          | inr z ↦ let k = rw z at h in cc
          | inl z ↦
              let k : some (revert_finding_id codecs result) ≡ some id = rw z at h in
              subst Reproduced (some-injective _ _ k) (revert-Reproduced f z)
        ]
    Stops-Reproduced id (inr s) = by_panic ex.stop_on_panic s
      where
        by_panic :
            (o : Option StopOnPanic)
            → under r codecs ex o (panic_stop r codecs ex result) ≡ some id
            → Reproduced id
        by_panic none h = cc
        by_panic (some f) h = elim (Bool-cases (panic_matches codecs f result)) [
          | inr z ↦ let k = rw z at h in cc
          | inl z ↦
              let k : some (panic_finding_id codecs result) ≡ some id = rw z at h in
              subst Reproduced (some-injective _ _ k) (panic-Reproduced f z)
        ]

  -- If no transaction changes the cheatcode state, the shrinker's replay makes every finding that a
  -- campaign makes at a handler's call: its calls but the last were executed one by one, and the last
  -- then reported the id, which is none of the reserved ones, or met a stop filter that makes the id.
  pub handler-reproduces :
      (calls : List C) (call : C) (chain : ChainOf) (out : Outcome) (id : String)
      → LeavesCheats revm codecs.from_revert ex.chain.cheatcode_state
      → IsSnapshot r codecs ex calls chain
      → exec revm codecs.from_revert chain (ex.transaction call ∷ []) ≡ ok out
      → ShowsHandler id out.1
      → reproduces clean codecs (calls ++ call ∷ []) id ≡ ok true
  handler-reproduces calls call chain out id leaves snap e (inl (reports, (at, has, r1, p1))) =
      report-reproduces calls call out reports id (whole calls call chain out leaves snap e) at has
        r1 p1
  handler-reproduces calls call chain out id leaves snap e (inr (result, (at, stops))) =
      let (result', one) = exec-one revm codecs.from_revert chain (ex.transaction call) out e in
      let same : result ≡ result' = some-injective result result' (sym at ∙ ap first one) in
      Stops-Reproduced calls call result
        (replay_last-eq calls call out result (whole calls call chain out leaves snap e)
          (one ∙ ap (λ x. x ∷ []) (sym same)))
        id stops
