-- ===== src/Tester/Fuzzer/Calls.antt =====
-- One executed call with its checks, and the findings that it makes (`execute_sequence` of
-- src/tester/fuzzer.rs).
use ripfuzz.Prelude.{
  ℕ, ◌≡◌, refl, ap, ◌∙◌, inl, inr, Option, none, some, List, [], ◌∷◌, ◌++◌, map, arith, Bool-cases,
  is_empty, length-append,
}
use Prim.Native.String.{String}
use ripfuzz.Outcome.{ok}
use ripfuzz.Rng.{Rng}
use ripfuzz.Rng.Draw.{lift, Leaves, Leaves-bind, Leaves-lift}
use ripfuzz.Evm.{ExecOutput, Engine}
use ripfuzz.Tester.Stop.{Codecs}
use ripfuzz.Tester.Fuzzer.{
  Campaign, Running, Execution, record_call, record_gas, cover, attributed, handler_stop,
  invariant_stop, handler_reports, settled, check_invariants, continued, checked, execute_call,
}
use ripfuzz.Tester.Fuzzer.Observed.{
  Observed, by_handler, by_invariant, FirstShows, IsSnapshot, IsSnapshot-snoc,
}
use ripfuzz.Tester.Fuzzer.Bases.{RunHolds, Started}
use ripfuzz.Tester.Fuzzer.Reports.{
  Keeps, record_gas-Keeps, record_call-Keeps, stop_with-Keeps, cover-Leaves, handler_reports-Keeps,
  invariant_reports-Keeps, handler_stop-Stops, invariant_stop-ShowsAt,
}

module _ {engine : Engine} {C H : Type 0} (r : Rng) (codecs : Codecs)
    (ex : Execution engine C H r.Gen) where
  open engine use {Chain, Coverage}

  check_invariants-Leaves :
      (chain : Chain) (calls : List C) (s : Campaign C Chain)
      → Keeps r codecs ex s
      → IsSnapshot r codecs ex calls chain
      → Leaves (Keeps r codecs ex) (λ _. Unit {0}) (check_invariants r codecs ex chain calls s)
  unfolding check_invariants
  check_invariants-Leaves chain calls s h snap =
      let run = engine.exec chain (map ex.invariant_transaction ex.invariants) in
      Leaves-bind (Keeps r codecs ex) (lift run) _ s _ _ (Leaves-lift (Keeps r codecs ex) run s h)
        (λ (after, output) s1 h1 e.
          let s2 = record_gas output.results s1 in
          Leaves-bind (Keeps r codecs ex) (cover r codecs ex output.coverage) _ s2 (λ _. Unit {0}) _
            (cover-Leaves r codecs ex output.coverage s2
              (record_gas-Keeps r codecs ex s1 output.results h1))
            (λ gained s3 h3 u.
              settle (after, output) e gained (invariant_stop r codecs ex output.results) refl _
                (invariant_reports-Keeps r codecs ex calls ex.invariants output.broken_invariants s3
                  h3
                  (λ i y rs id at_h at_r has.
                    by_invariant calls chain i y (after, output) refl snap e at_h
                      (inl (rs, (at_r, has)))))))
    where
      settle :
          (out : Chain × ExecOutput Coverage)
          → engine.exec chain (map ex.invariant_transaction ex.invariants) ≡ ok out
          → (gained : ℕ) (o : Option (H × String)) → invariant_stop r codecs ex out.1.results ≡ o
          → (s : Campaign C Chain) → Keeps r codecs ex s
          → Leaves (Keeps r codecs ex) (λ _. Unit {0}) (settled r codecs ex calls gained o s)
      settle out e gained none q s h = (h, tt)
      settle out e gained (some (y, id)) q s h =
          let (i, (at_h, shows)) = invariant_stop-ShowsAt r codecs ex out.1 y id q in
          (
            stop_with-Keeps r codecs ex (calls ++ ex.invariant_call y ∷ []) id s h
                (by_invariant calls chain i y out refl snap e at_h shows),
            tt,
          )

  abbrev pub OfRun : Option (Running C Chain) → Type 0
  OfRun none = Unit {0}
  OfRun (some q) = Started r codecs ex q

  continued-OfRun :
      (q : Running C Chain) (o : Option ℕ)
      → Started r codecs ex q
      → OfRun (continued r codecs ex q o)
  continued-OfRun q none h = tt
  continued-OfRun q (some gained) h = h

  checked-Leaves :
      (q : Running C Chain) (stop : Option String) (s : Campaign C Chain)
      → Keeps r codecs ex s
      → Started r codecs ex q
      → ((id : String) → stop ≡ some id → Observed r codecs ex q.executed id)
      → Leaves (Keeps r codecs ex) OfRun (checked r codecs ex q stop s)
  checked-Leaves q (some id) s h k seen =
      (stop_with-Keeps r codecs ex q.executed id s h (seen id refl), tt)
  checked-Leaves q none s h k seen = elim (Bool-cases (is_empty ex.invariants)) [
    | inl z ↦ rw z (h, k)
    | inr z ↦ rw z (
        Leaves-bind (Keeps r codecs ex) (check_invariants r codecs ex q.chain q.executed) _ s
          (λ _. Unit {0}) OfRun (check_invariants-Leaves q.chain q.executed s h k.0)
          (λ gained s1 h1 u. (h1, continued-OfRun q gained k)))
  ]

  pub execute_call-Leaves :
      (q : Running C Chain) (call : C) (pending : List C) (s : Campaign C Chain)
      → Keeps r codecs ex s
      → RunHolds r codecs ex (call ∷ pending) q
      → Leaves (Keeps r codecs ex) OfRun (execute_call r codecs ex q call pending s)
  unfolding execute_call
  execute_call-Leaves q call pending s h (snap, fits) =
      let run = engine.exec q.chain (ex.transaction call ∷ []) in
      let calls = q.executed ++ call ∷ [] in
      Leaves-bind (Keeps r codecs ex) (lift run) _ s _ _ (Leaves-lift (Keeps r codecs ex) run s h)
        (λ (after, output) s1 h1 e.
          let s2 = record_gas output.results (record_call s1) in
          let h2 =
            record_gas-Keeps r codecs ex (record_call s1) output.results
              (record_call-Keeps r codecs ex s1 h1) in
          let seen : (id : String)
              → FirstShows r codecs ex id output
              → Observed r codecs ex calls id =
            λ id shows. by_handler q.executed call q.chain (after, output) refl snap e shows in
          Leaves-bind (Keeps r codecs ex) (lift (attributed r codecs ex call output.results)) _ s2 _
            _ (Leaves-lift (Keeps r codecs ex) (attributed r codecs ex call output.results) s2 h2)
            (λ u s3 h3 u3.
              Leaves-bind (Keeps r codecs ex) (cover r codecs ex output.coverage) _ s3
                (λ _. Unit {0}) _ (cover-Leaves r codecs ex output.coverage s3 h3)
                (λ gained s4 h4 u4.
                  let s5 = handler_reports r codecs ex calls output.broken_invariants s4 in
                  let h5 =
                    handler_reports-Keeps r codecs ex calls output.broken_invariants s4 h4
                      (λ rs id at has. seen id (inl (rs, (at, has)))) in
                  Leaves-bind (Keeps r codecs ex) (lift (handler_stop r codecs ex output.results)) _
                    s5 _ _
                    (Leaves-lift (Keeps r codecs ex) (handler_stop r codecs ex output.results) s5
                      h5)
                    (λ stop s6 h6 at.
                      checked-Leaves _ stop s6 h6
                        (
                          IsSnapshot-snoc r codecs ex q.executed call q.chain (after, output) snap
                              e,
                          omega (arith, fits, length-append q.executed (call ∷ [])),
                        )
                        (λ id is.
                          let (result, (found, stops)) =
                            handler_stop-Stops r codecs ex output.results id (at ∙ ap ok is) in
                          seen id (inr (result, (found, stops))))))))
