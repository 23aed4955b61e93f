-- ===== src/Coverage/Inspector/Frames.antt =====
-- The frames of an execution, as the coverage inspector sees them (`src/evm/coverage/inspector.rs`).
use ripfuzz.Prelude.{
  ℕ, ◌+◌, ◌-◌, ◌^◌, ◌<◌, max, ◌≡◌, refl, ap, ◌∙◌, inl, inr, Bool, true, false, not, ◌&&◌, Option,
  none, some, List, [], ◌∷◌, arith, ◌==◌, Bool-cases, is_empty,
}
use ripfuzz.Coverage.Exec.{CoverageId, ExecutionContractCoverage, step, record_revert}
use ripfuzz.Coverage.Inspector.{
  Inspector, Code, on_contract, initialize_interp, step_at, entered, call, create, popped, left,
  call_end, create_end, Body, done, instruction, calling, creating, started, run,
}
use ripfuzz.Coverage.Inspector.Arrays.{AllRecorded, run-AllRecorded}

-- How deep the frames of a body are nested.
unfoldable pub height : Body → ℕ
height done = 0
height (instruction pc jump rest) = height rest
height (calling target code body reverted rest) = max (height body + 1) (height rest)
height (creating code body reverted rest) = max (height body + 1) (height rest)

-- The frames that are open, the contract of the innermost, and their number.
pub record Open (stack : List (Option CoverageId)) (id : Option CoverageId) (depth : ℕ)
    (i : Inspector) : Type 0 where
  pub stack_is : i.contract_stack ≡ stack
  pub contract_is : i.current_contract ≡ id
  pub depth_is : i.current_call_depth ≡ depth

-- A change of the contract that runs.
on_contract-Open :
    (o : Option CoverageId) (f : ExecutionContractCoverage → ExecutionContractCoverage)
    (i : Inspector) (stack : List (Option CoverageId)) (id : Option CoverageId) (depth : ℕ)
    → Open stack id depth i
    → Open stack id depth (on_contract o f i)
on_contract-Open none f i stack id depth h = h
on_contract-Open (some x) f i stack id depth h = record {
  stack_is = h.stack_is;
  contract_is = h.contract_is;
  depth_is = h.depth_is;
}

started-Open :
    (code : Option Code) (i : Inspector) (stack : List (Option CoverageId)) (id : Option CoverageId)
    (depth : ℕ)
    → Open stack id depth i
    → Open stack (started code i).current_contract depth (started code i)
unfolding initialize_interp
started-Open none i stack id depth h = record {
  stack_is = h.stack_is;
  contract_is = refl;
  depth_is = h.depth_is;
}
started-Open (some code) i stack id depth h =
    elim (Bool-cases (not (code.hash == 0) && not (is_empty code.bytes))) [
      | inl z ↦ rw z (record { stack_is = h.stack_is; contract_is = refl; depth_is = h.depth_is })
      | inr z ↦ rw z (record { stack_is = h.stack_is; contract_is = refl; depth_is = h.depth_is })
    ]

entered-Open :
    (i : Inspector) (stack : List (Option CoverageId)) (id : Option CoverageId) (depth : ℕ)
    → depth + 1 < 2 ^ 64
    → Open stack id depth i
    → Open (id ∷ stack) id (depth + 1) (entered i)
entered-Open i stack id depth lt h = record {
  stack_is = ap (λ st. i.current_contract ∷ st) h.stack_is ∙ ap (λ c. c ∷ stack) h.contract_is;
  contract_is = h.contract_is;
  depth_is = omega (arith, h.depth_is);
}

popped-Open :
    (frames : List (Option CoverageId)) (i : Inspector) (stack : List (Option CoverageId))
    (id : Option CoverageId) (depth : ℕ)
    → frames ≡ id ∷ stack
    → i.contract_stack ≡ frames
    → i.current_call_depth ≡ depth
    → Open stack id depth (popped frames i)
popped-Open [] i stack id depth e same d = cc
popped-Open (x ∷ xs) i stack id depth e same d = record {
  stack_is = cc;
  contract_is = cc;
  depth_is = d;
}

-- The end of a frame gives the frame around it back.
left-Open :
    (reverted : Bool) (i : Inspector) (stack : List (Option CoverageId))
    (id inner : Option CoverageId) (depth : ℕ)
    → Open (id ∷ stack) inner (depth + 1) i
    → Open stack id depth (left reverted i)
left-Open true i stack id inner depth h =
    let j = on_contract i.current_contract (record_revert i.last_pc) i in
    let k =
      on_contract-Open i.current_contract (record_revert i.last_pc) i (id ∷ stack) inner (depth + 1)
        h in
    popped-Open j.contract_stack (record j { current_call_depth = j.current_call_depth - 1 }) stack
      id depth k.stack_is refl (omega (arith, k.depth_is))
left-Open false i stack id inner depth h =
    popped-Open i.contract_stack (record i { current_call_depth = i.current_call_depth - 1 }) stack
      id depth h.stack_is refl (omega (arith, h.depth_is))

run-Open :
    (b : Body) (i : Inspector) (stack : List (Option CoverageId)) (id : Option CoverageId)
    (depth : ℕ)
    → depth + height b < 2 ^ 64
    → Open stack id depth i
    → Open stack id depth (run b i)
unfolding run height step_at call create call_end create_end
run-Open done i stack id depth lt h = h
run-Open (instruction pc jump rest) i stack id depth lt h =
    run-Open rest (step_at pc jump i) stack id depth lt (
      on_contract-Open i.current_contract (step i.current_call_depth pc jump)
        (record i { last_pc = pc }) stack id depth
        (record { stack_is = h.stack_is; contract_is = h.contract_is; depth_is = h.depth_is }))
run-Open (calling target code body reverted rest) i stack id depth lt h =
    let i1 = call target i in
    let h1 =
      entered-Open _ stack id depth (omega (arith, lt))
        (on_contract-Open i.current_contract _ i stack id depth h) in
    let i2 = started code i1 in
    let h2 = started-Open code i1 (id ∷ stack) id (depth + 1) h1 in
    let h3 = run-Open body i2 (id ∷ stack) i2.current_contract (depth + 1) (omega (arith, lt)) h2 in
    run-Open rest (call_end reverted (run body i2)) stack id depth (omega (arith, lt))
      (left-Open reverted (run body i2) stack id i2.current_contract depth h3)
run-Open (creating code body reverted rest) i stack id depth lt h =
    let i1 = create i in
    let e = entered-Open i stack id depth (omega (arith, lt)) h in
    let h1 : Open (id ∷ stack) id (depth + 1) i1 = record {
      stack_is = e.stack_is;
      contract_is = e.contract_is;
      depth_is = e.depth_is;
    } in
    let i2 = started code i1 in
    let h2 = started-Open code i1 (id ∷ stack) id (depth + 1) h1 in
    let h3 = run-Open body i2 (id ∷ stack) i2.current_contract (depth + 1) (omega (arith, lt)) h2 in
    let l = left-Open reverted (run body i2) stack id i2.current_contract depth h3 in
    run-Open rest (create_end reverted (run body i2)) stack id depth (omega (arith, lt))
      (record { stack_is = l.stack_is; contract_is = l.contract_is; depth_is = l.depth_is })

-- When all frames of a body have ended, reverted or not, and whatever code they started, the contract
-- that coverage is recorded for, the stack of the open ones and the call depth are those from before
-- (while the depth fits 64 bits), and the lists of hits of every contract are still exactly the
-- entries of its arrays that are not zero, each listed once and an entry of the depths once for each
-- bit.
pub run-resumes :
    (b : Body) (i : Inspector)
    → i.current_call_depth + height b < 2 ^ 64
    → AllRecorded i
    → Open i.contract_stack i.current_contract i.current_call_depth (run b i)
      × AllRecorded (run b i)
run-resumes b i lt h = (
  run-Open b i i.contract_stack i.current_contract i.current_call_depth lt
      (record { stack_is = refl; contract_is = refl; depth_is = refl }),
  run-AllRecorded b i h,
)
