-- ===== src/Tester/Fuzzer/Reports.antt =====
-- The reports and filters of a call, and the findings that they make (`execute_sequence` of
-- src/tester/fuzzer.rs).
use ripfuzz.Prelude.{
  ℕ, suc, ◌≡◌, refl, ◌∙◌, ◌⊎◌, inl, inr, ◌||◌, Option, none, some, List, [], ◌∷◌, ◌++◌, Bool-cases,
  is_some, get_elem?, All,
}
use Prim.Native.String.{String}
use ripfuzz.Outcome.{Result, ok, err}
use ripfuzz.Rng.{Rng}
use ripfuzz.Rng.Draw.{Leaves}
use ripfuzz.Evm.{TransactionResult, Report, ExecOutput, Engine, first}
use ripfuzz.Coverage.Shared.{SharedCoverage, CoverageUpdate, merge}
use ripfuzz.Tester.Stop.{Codecs}
use ripfuzz.Tester.BrokenInvariants.{BrokenInvariant}
use ripfuzz.Tester.Fuzzer.{
  Campaign, Execution, finding, record_call, record_gas, collect, collect_all, request_stop, merged,
  cover, on_revert, on_panic, handler_stop, first_stop, invariant_stop, first_of, on_invariant,
  handler_reports, invariant_reports, stop_with, or_else,
}
use ripfuzz.Tester.Fuzzer.Observed.{Has, Observed, ShowsAt, Stops, try_add-All}
use ripfuzz.Tester.Fuzzer.Bases.{FindingHolds, StateHolds}

-- A fact of every id that is reported.
All-Has :
    (Q : String → Type 0) (reports : List Report)
    → ((id : String) → Has id reports → Q id)
    → All (λ report. Q report.id) reports
All-Has Q [] h = tt
All-Has Q (x ∷ xs) h = (h x.id (inl refl), All-Has Q xs (λ id k. h id (inr k)))

module _ {engine : Engine} {C H : Type 0} (r : Rng) (codecs : Codecs)
    (ex : Execution engine C H r.Gen) where
  open engine use {Chain, Coverage}

  abbrev pub Keeps : Campaign C Chain → Type 0
  Keeps = StateHolds r codecs ex

  pub record_gas-Keeps :
      (s : Campaign C Chain) (rs : List TransactionResult) → Keeps s → Keeps (record_gas rs s)
  unfolding record_gas
  record_gas-Keeps s rs h = h

  pub record_call-Keeps : (s : Campaign C Chain) → Keeps s → Keeps (record_call s)
  unfolding record_call
  record_call-Keeps s h = h

  collect-Keeps :
      (b : BrokenInvariant C) (s : Campaign C Chain)
      → Keeps s
      → FindingHolds r codecs ex b
      → Keeps (collect ex.max_findings b s)
  unfolding collect
  collect-Keeps b s h k =
      (try_add-All (FindingHolds r codecs ex) ex.max_findings s.findings b k h.0, h.1)

  collect_all-Keeps :
      (sequence : List C) (reports : List Report) (s : Campaign C Chain)
      → Keeps s
      → All (λ report. Observed r codecs ex sequence report.id) reports
      → Keeps (collect_all ex.max_findings sequence reports s)
  unfolding collect_all
  collect_all-Keeps sequence [] s h k = h
  collect_all-Keeps sequence (x ∷ xs) s h k =
      collect_all-Keeps sequence xs _ (collect-Keeps (finding sequence x.id x.description) s h k.0)
        k.1

  pub stop_with-Keeps :
      (sequence : List C) (id : String) (s : Campaign C Chain)
      → Keeps s
      → Observed r codecs ex sequence id
      → Keeps (stop_with r codecs ex sequence id s)
  unfolding stop_with request_stop
  stop_with-Keeps sequence id s h k = collect-Keeps (finding sequence id "") s h k

  pub cover-Leaves :
      (coverage : Option Coverage) (s : Campaign C Chain)
      → Keeps s
      → Leaves Keeps (λ _. Unit {0}) (cover r codecs ex coverage s)
  unfolding cover
  cover-Leaves none s h = (h, tt)
  cover-Leaves (some c) s h = go (merge (ex.contracts c) s.coverage)
    where
      go :
          (m : Result (CoverageUpdate × SharedCoverage)) → Leaves Keeps (λ _. Unit {0}) (merged s m)
      go (ok (u, c)) = (h, tt)
      go (err e) = h

  pub handler_reports-Keeps :
      (sequence : List C) (reports : List (List Report)) (s : Campaign C Chain)
      → Keeps s
      → ((rs : List Report) (id : String)
          → first reports ≡ some rs
          → Has id rs
          → Observed r codecs ex sequence id)
      → Keeps (handler_reports r codecs ex sequence reports s)
  handler_reports-Keeps sequence [] s h k = h
  handler_reports-Keeps sequence (rs ∷ rest) s h k =
      collect_all-Keeps sequence rs s h
        (All-Has (Observed r codecs ex sequence) rs (λ id has. k rs id refl has))

  pub invariant_reports-Keeps :
      (calls : List C) (hs : List H) (reports : List (List Report)) (s : Campaign C Chain)
      → Keeps s
      → ((i : ℕ) (h : H) (rs : List Report) (id : String)
          → get_elem? hs i ≡ some h
          → get_elem? reports i ≡ some rs
          → Has id rs
          → Observed r codecs ex (calls ++ ex.invariant_call h ∷ []) id)
      → Keeps (invariant_reports r codecs ex calls hs reports s)
  unfolding invariant_reports
  invariant_reports-Keeps calls [] reports s h k = h
  invariant_reports-Keeps calls (x ∷ hs) [] s h k = h
  invariant_reports-Keeps calls (x ∷ hs) (rs ∷ rest) s h k =
      let sequence = calls ++ ex.invariant_call x ∷ [] in
      invariant_reports-Keeps calls hs rest _
        (collect_all-Keeps sequence rs s h
          (All-Has (Observed r codecs ex sequence) rs (λ id has. k 0 x rs id refl refl has)))
        (λ i y ys id at_h at_r has. k (suc i) y ys id at_h at_r has)

  -- The result of a handler that stops the campaign.
  pub handler_stop-Stops :
      (results : List TransactionResult) (id : String)
      → handler_stop r codecs ex results ≡ ok (some id)
      → (result : TransactionResult) × ((first results ≡ some result) × Stops r codecs ex id result)
  unfolding handler_stop
  handler_stop-Stops [] id h =
      elim (Bool-cases (is_some ex.stop_on_revert || is_some ex.stop_on_panic)) [
        | inl z ↦ let e = rw z at h in cc
        | inr z ↦ let e = rw z at h in cc
      ]
  handler_stop-Stops (result ∷ rest) id h =
      (result, (refl, go (on_revert r codecs ex result) (on_panic r codecs ex result) h))
    where
      go :
          (a b : Option String)
          → ok (or_else r codecs ex a b) ≡ ok (some id)
          → (a ≡ some id) ⊎ (b ≡ some id)
      go none b e = inr cc
      go (some a) b e = inl cc

  Found :
      (TransactionResult → Option String) → List H → List TransactionResult → H → String → Type 0
  Found p hs results h id =
      (i : ℕ) × ((get_elem? hs i ≡ some h)
        × ((result : TransactionResult) × ((get_elem? results i ≡ some result)
              × (p result ≡ some id))))

  first_stop-Found :
      (p : TransactionResult → Option String) (hs : List H) (results : List TransactionResult)
      (h : H) (id : String)
      → first_stop r codecs ex p hs results ≡ some (h, id)
      → Found p hs results h id
  unfolding first_stop Found
  first_stop-Found p [] results h id e = cc
  first_stop-Found p (x ∷ hs) [] h id e = cc
  first_stop-Found p (x ∷ hs) (result ∷ results) h id e =
      go (p result) refl e (first_stop-Found p hs results h id)
    where
      go :
          (o : Option String)
          → p result ≡ o
          → on_invariant r codecs ex o x (first_stop r codecs ex p hs results) ≡ some (h, id)
          → (first_stop r codecs ex p hs results ≡ some (h, id) → Found p hs results h id)
          → Found p (x ∷ hs) (result ∷ results) h id
      go none q e later = let (i, (at_h, rest)) = later e in (suc i, (at_h, rest))
      go (some j) q e later = (0, (cc, (result, (refl, cc))))

  pub invariant_stop-ShowsAt :
      (output : ExecOutput Coverage) (h : H) (id : String)
      → invariant_stop r codecs ex output.results ≡ some (h, id)
      → (i : ℕ) × ((get_elem? ex.invariants i ≡ some h) × ShowsAt r codecs ex i id output)
  unfolding invariant_stop Found
  invariant_stop-ShowsAt output h id e =
      go (first_stop r codecs ex (on_revert r codecs ex) ex.invariants output.results) refl e
    where
      go :
          (o : Option (H × String))
          → first_stop r codecs ex (on_revert r codecs ex) ex.invariants output.results ≡ o
          → first_of r codecs ex o
              (first_stop r codecs ex (on_panic r codecs ex) ex.invariants output.results)
            ≡ some (h, id)
          → (i : ℕ) × ((get_elem? ex.invariants i ≡ some h) × ShowsAt r codecs ex i id output)
      go none q e =
          let (i, (at_h, (result, (at_r, p)))) =
            first_stop-Found (on_panic r codecs ex) ex.invariants output.results h id e in
          (i, (at_h, inr (result, (at_r, inr p))))
      go (some x) q e =
          let (i, (at_h, (result, (at_r, p)))) =
            first_stop-Found (on_revert r codecs ex) ex.invariants output.results h id (q ∙ e) in
          (i, (at_h, inr (result, (at_r, inl p))))
