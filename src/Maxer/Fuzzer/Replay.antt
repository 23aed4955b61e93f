-- ===== src/Maxer/Fuzzer/Replay.antt =====
-- Replaying a sequence from the initial state, with the value call after each call, as the reference
-- for the states that a campaign keeps (`src/maxer/fuzzer.rs`).
use ripfuzz.Prelude.{ℕ, ◌≡◌, refl, ap, ◌∙◌, List, [], ◌∷◌, ◌++◌}
use ripfuzz.Outcome.{Result, ok, err, missing_result, context, ◌>>=◌ as bind}
use ripfuzz.Rng.{Rng}
use ripfuzz.Rng.Draw.{lift, Leaves, Leaves-bind, Leaves-lift}
use ripfuzz.Evm.{Engine, ExecOutput, first}
use ripfuzz.Maxer.Value.{measured_value}
use ripfuzz.Maxer.Fuzzer.{Campaign, Execution, measure_value, or_zero, record_gas}

module _ {engine : Engine} {C H : Type 0} (r : Rng) (ex : Execution engine C H r.Gen) where
  open engine use {Chain}

  -- The value after the value call, zero if it reverts, with the state that the call leaves.
  unfoldable pub value_after : Chain → Result (Chain × ℕ)
  value_after chain = bind (engine.exec chain (ex.value_tx ∷ [])) λ (after, output).
      bind (context missing_result (first output.results)) λ result.
        bind (measured_value ex.abi_decode result) λ measured. ok (after, or_zero r ex measured)

  unfoldable pub one_call : Chain → C → Result (Chain × ℕ)
  one_call chain call =
      bind (engine.exec chain (ex.transaction call ∷ [])) λ (after, _). value_after after

  pub one_call-eq :
      {chain : Chain} {call : C} {out : Chain × ExecOutput engine.Coverage} {p : Chain × ℕ}
      → engine.exec chain (ex.transaction call ∷ []) ≡ ok out
      → value_after out.0 ≡ ok p
      → one_call chain call ≡ ok p
  unfolding one_call
  one_call-eq e f = rw e f

  unfoldable pub replay : Chain → ℕ → List C → Result (Chain × ℕ)
  replay chain value [] = ok (chain, value)
  replay chain value (call ∷ calls) =
      bind (one_call chain call) λ (after, measured). replay after measured calls

  -- The state after the sequence, and the value there.
  abbrev pub IsSnapshot : List C → ℕ → Chain → Type 0
  IsSnapshot sequence value chain = replay ex.chain ex.initial_value sequence ≡ ok (chain, value)

  pub IsSnapshot-initial : IsSnapshot [] ex.initial_value ex.chain
  unfolding replay
  IsSnapshot-initial = refl

  replay-snoc :
      (chain : Chain) (value : ℕ) (calls : List C) (call : C)
      → replay chain value (calls ++ call ∷ [])
        ≡ bind (replay chain value calls) (λ (after, _). one_call after call)
  unfolding replay
  replay-snoc chain value [] call = go (one_call chain call)
    where
      go : (m : Result (Chain × ℕ)) → bind m (λ (after, measured). ok (after, measured)) ≡ m
      go (ok (a, v)) = refl
      go (err e) = refl
  replay-snoc chain value (c ∷ calls) call =
      go (one_call chain c) (λ (after, measured). replay-snoc after measured calls call)
    where
      go :
          (m : Result (Chain × ℕ))
          → ((p : Chain × ℕ)
              → replay p.0 p.1 (calls ++ call ∷ [])
                ≡ bind (replay p.0 p.1 calls) (λ (after, _). one_call after call))
          → bind m (λ (after, measured). replay after measured (calls ++ call ∷ []))
            ≡ bind
                (bind m (λ (after, measured). replay after measured calls))
                (λ (after, _). one_call after call)
      go (ok p) h = h p
      go (err e) h = refl

  pub IsSnapshot-snoc :
      (calls : List C) (value : ℕ) (chain : Chain) (call : C) (p : Chain × ℕ)
      → IsSnapshot calls value chain
      → one_call chain call ≡ ok p
      → replay ex.chain ex.initial_value (calls ++ call ∷ []) ≡ ok p
  IsSnapshot-snoc calls value chain call p h e =
      replay-snoc ex.chain ex.initial_value calls call
      ∙ ap (λ m. bind m (λ (after, _). one_call after call)) h
      ∙ e

  -- The fuzzer's measurement is that of the reference.
  pub measure_value-Leaves :
      (Inv : Campaign C Chain → Type 0)
      → ((s : Campaign C Chain) (rs : List ripfuzz.Evm.TransactionResult)
          → Inv s
          → Inv (record_gas rs s))
      → (chain : Chain) (s : Campaign C Chain) → Inv s
      → Leaves Inv
          (λ (measured, after). value_after chain ≡ ok (after, or_zero r ex measured))
          (measure_value r ex chain s)
  unfolding measure_value value_after
  measure_value-Leaves Inv gas chain s h =
      Leaves-bind Inv (lift (engine.exec chain (ex.value_tx ∷ []))) _ s _ _
        (Leaves-lift Inv (engine.exec chain (ex.value_tx ∷ [])) s h)
        (λ (after, output) s1 h1 e.
          Leaves-bind Inv (lift (context missing_result (first output.results))) _
            (record_gas output.results s1) _ _
            (Leaves-lift Inv (context missing_result (first output.results))
              (record_gas output.results s1) (gas s1 output.results h1))
            (λ result s2 h2 f.
              Leaves-bind Inv (lift (measured_value ex.abi_decode result)) _ s2 _ _
                (Leaves-lift Inv (measured_value ex.abi_decode result) s2 h2)
                (λ measured s3 h3 g. (h3, rw e (rw f (rw g refl))))))
