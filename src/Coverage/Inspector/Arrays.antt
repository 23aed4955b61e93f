-- ===== src/Coverage/Inspector/Arrays.antt =====
-- The arrays of every contract and their lists of hits (`src/evm/coverage/inspector.rs`).
use ripfuzz.Prelude.{
  ℕ, ◌+◌, ◌-◌, ◌/◌, min, refl, inl, inr, Bool, true, false, not, ◌&&◌, Option, none, some, List, [],
  ◌∷◌, ◌==◌, Bool-cases, length, is_empty, All,
}
use ripfuzz.Coverage.Exec.{
  CoverageId, same_id, ExecutionContractCoverage, new, step, record_revert, depth_tracked_pcs,
}
use ripfuzz.Coverage.Inspector.{
  Inspector, Code, update, insert, on_contract, initialize_interp, step_at, call, create, popped,
  left, call_end, create_end, Body, done, instruction, calling, creating, started, run,
}
use ripfuzz.Coverage.Exec.Recorded.{
  Recorded, step-Recorded, record_revert-Recorded, nothing-Recorded,
}

abbrev pub AllRecorded : Inspector → Type 0
AllRecorded i = All (λ (_, c). Recorded c) i.contracts

update-AllRecorded :
    (id : CoverageId) (f : ExecutionContractCoverage → ExecutionContractCoverage)
    (m : List (CoverageId × ExecutionContractCoverage))
    → ((c : ExecutionContractCoverage) → Recorded c → Recorded (f c))
    → All (λ (_, c). Recorded c) m
    → All (λ (_, c). Recorded c) (update id f m)
unfolding update
update-AllRecorded id f [] keep h = tt
update-AllRecorded id f ((k, c) ∷ m) keep h = elim (Bool-cases (same_id k id)) [
  | inl z ↦ rw z (keep c h.0, h.1)
  | inr z ↦ rw z (h.0, update-AllRecorded id f m keep h.1)
]

insert-AllRecorded :
    (id : CoverageId) (c : ExecutionContractCoverage)
    (m : List (CoverageId × ExecutionContractCoverage))
    → Recorded c
    → All (λ (_, c). Recorded c) m
    → All (λ (_, c). Recorded c) (insert id c m)
unfolding insert
insert-AllRecorded id c [] k h = (k, tt)
insert-AllRecorded id c ((j, d) ∷ m) k h = elim (Bool-cases (same_id j id)) [
  | inl z ↦ rw z h
  | inr z ↦ rw z (h.0, insert-AllRecorded id c m k h.1)
]

on_contract-AllRecorded :
    (o : Option CoverageId) (f : ExecutionContractCoverage → ExecutionContractCoverage)
    (i : Inspector)
    → ((c : ExecutionContractCoverage) → Recorded c → Recorded (f c))
    → AllRecorded i
    → AllRecorded (on_contract o f i)
on_contract-AllRecorded none f i keep h = h
on_contract-AllRecorded (some x) f i keep h = update-AllRecorded x f i.contracts keep h

new-Recorded :
    (len : ℕ) (bytes : List ℕ) (creates : Bool)
    → Recorded (record (new len) { bytecode = bytes; is_initcode = creates })
unfolding new
new-Recorded len bytes creates =
    nothing-Recorded (record (new len) { bytecode = bytes; is_initcode = creates }) len
      (min len depth_tracked_pcs) ((len + 63) / 64) refl refl refl refl refl refl

jumps-Recorded :
    (c : ExecutionContractCoverage) (jumps : List (ℕ × ℕ))
    → Recorded c
    → Recorded (record c { jump_edges = jumps })
jumps-Recorded c jumps r = record {
  pcs = r.pcs;
  at_depths = r.at_depths;
  at_reverts = r.at_reverts;
}

started-AllRecorded :
    (code : Option Code) (i : Inspector) → AllRecorded i → AllRecorded (started code i)
unfolding initialize_interp
started-AllRecorded none i h = h
started-AllRecorded (some code) i h =
    elim (Bool-cases (not (code.hash == 0) && not (is_empty code.bytes))) [
      | inl z ↦ rw z (
          insert-AllRecorded _ _ i.contracts
            (new-Recorded (length code.bytes) code.bytes i.is_initcode) h)
      | inr z ↦ rw z h
    ]

popped-AllRecorded :
    (frames : List (Option CoverageId)) (i : Inspector)
    → AllRecorded i
    → AllRecorded (popped frames i)
popped-AllRecorded [] i h = h
popped-AllRecorded (x ∷ xs) i h = h

left-AllRecorded : (reverted : Bool) (i : Inspector) → AllRecorded i → AllRecorded (left reverted i)
left-AllRecorded true i h =
    let j = on_contract i.current_contract (record_revert i.last_pc) i in
    popped-AllRecorded j.contract_stack (record j { current_call_depth = j.current_call_depth - 1 })
      (on_contract-AllRecorded i.current_contract (record_revert i.last_pc) i
        (record_revert-Recorded i.last_pc) h)
left-AllRecorded false i h =
    popped-AllRecorded i.contract_stack (record i { current_call_depth = i.current_call_depth - 1 })
      h

pub run-AllRecorded : (b : Body) (i : Inspector) → AllRecorded i → AllRecorded (run b i)
unfolding run step_at call create call_end create_end
run-AllRecorded done i h = h
run-AllRecorded (instruction pc jump rest) i h = run-AllRecorded rest (step_at pc jump i) (
    on_contract-AllRecorded i.current_contract (step i.current_call_depth pc jump)
      (record i { last_pc = pc }) (step-Recorded i.current_call_depth pc jump) h)
run-AllRecorded (calling target code body reverted rest) i h =
    let i2 = started code (call target i) in
    run-AllRecorded rest (call_end reverted (run body i2)) (
      left-AllRecorded reverted (run body i2) (
        run-AllRecorded body i2 (
          started-AllRecorded code (call target i)
            (on_contract-AllRecorded i.current_contract _ i (λ c r. jumps-Recorded c _ r) h))))
run-AllRecorded (creating code body reverted rest) i h =
    let i2 = started code (create i) in
    run-AllRecorded rest (create_end reverted (run body i2)) (
      left-AllRecorded reverted (run body i2)
        (run-AllRecorded body i2 (started-AllRecorded code (create i) h)))
