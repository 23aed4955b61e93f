-- ===== src/Coverage/Inspector.antt =====
-- src/evm/coverage/inspector.rs: the inspector that records an execution's coverage, with the stack of
-- the contracts whose frames are open. The interpreter of the revm crate calls it; here a frame is a
-- tree of what is executed in it. A hash map is an association list.
pub mod Arrays
pub mod Frames
use ripfuzz.Prelude.{
  ℕ, zero, suc, ◌+◌, ◌-◌, ◌*◌, ◌/◌, ◌%◌, ◌^◌, ◌≤◌, ◌<◌, min, max, compare, Ordering, ◌≡◌, refl, sym,
  ap, ◌∙◌, subst, ◌≢◌, ◌↔◌, ◌⊎◌, inl, inr, Bool, true, false, not, ◌&&◌, ◌||◌, Option, none, some,
  List, [], ◌∷◌, ◌++◌, map, arith, dec_lt, dec_le, ℕ_discrete, ltb, leb, ◌==◌, if◌then◌else◌,
  ltb→lt, lt→ltb, ltb-false→le, ==_iff, Bool-cases, Option-cases, is_some, u64_max, saturating_add,
  length, get_elem?, set, take, drop, is_empty, remove, length-append, length-take, length-drop,
  length-remove, length-set, All, All-append, All-remove, All-set, All-get_elem?, sum_of,
  sum_of-set, sum_of-get_elem?,
}
use ripfuzz.Coverage.Edge.{call_edge_marker}
use ripfuzz.Coverage.Exec.{
  CoverageId, initcode, runtime, same_id, ExecutionContractCoverage, new, step, record_revert,
  count_jump,
}

pub record Inspector : Type 0 where
  pub contracts : List (CoverageId × ExecutionContractCoverage)
  pub current_call_depth : ℕ
  pub current_contract : Option CoverageId
  pub contract_stack : List (Option CoverageId)
  pub last_pc : ℕ
  pub is_initcode : Bool

-- The code that a frame starts with: its hash, its bytes and the address it runs at.
pub record Code : Type 0 where
  pub hash : ℕ
  pub bytes : List ℕ
  pub address : ℕ

-- `get_mut` of the contract, if it is known.
unfoldable pub update :
    CoverageId
    → (ExecutionContractCoverage → ExecutionContractCoverage)
    → List (CoverageId × ExecutionContractCoverage)
    → List (CoverageId × ExecutionContractCoverage)
update id f [] = []
update id f ((k, c) ∷ m) = if same_id k id then (k, f c) ∷ m else (k, c) ∷ update id f m

-- `entry(..).or_insert_with(..)`.
unfoldable pub insert :
    CoverageId
    → ExecutionContractCoverage
    → List (CoverageId × ExecutionContractCoverage)
    → List (CoverageId × ExecutionContractCoverage)
insert id c [] = (id, c) ∷ []
insert id c ((k, d) ∷ m) = if same_id k id then (k, d) ∷ m else (k, d) ∷ insert id c m

abbrev pub on_contract :
    Option CoverageId
    → (ExecutionContractCoverage → ExecutionContractCoverage)
    → Inspector
    → Inspector
on_contract none f i = i
on_contract (some id) f i = record i { contracts = update id f i.contracts }

-- `initialize_interp`; empty code, or code without a hash, starts no contract.
unfoldable pub initialize_interp : Code → Inspector → Inspector
unfolding insert
initialize_interp code i =
    if not (code.hash == 0) && not (is_empty code.bytes)
    then (let id = if i.is_initcode then initcode code.hash else runtime code.address code.hash in
        record i {
          contracts =
              insert id
                (record (new (length code.bytes)) {
                  bytecode = code.bytes;
                  is_initcode = i.is_initcode;
                })
                i.contracts;
          current_contract = some id;
          is_initcode = false;
        })
    else i

-- `step`, with the destination of a jump that is taken.
unfoldable pub step_at : ℕ → Option ℕ → Inspector → Inspector
step_at pc jump i =
    let j = record i { last_pc = pc } in
    on_contract i.current_contract (step i.current_call_depth pc jump) j

abbrev pub entered : Inspector → Inspector
entered i = record i {
  contract_stack = i.current_contract ∷ i.contract_stack;
  current_call_depth = (i.current_call_depth + 1) % 2 ^ 64;
}

unfoldable pub call : List ℕ → Inspector → Inspector
call target i = entered (
    on_contract i.current_contract
      (λ c. record c { jump_edges = count_jump (call_edge_marker i.last_pc target) c.jump_edges })
      i)

unfoldable pub create : Inspector → Inspector
create i = record (entered i) { is_initcode = true }

-- `contract_stack.pop().flatten()`.
abbrev pub popped : List (Option CoverageId) → Inspector → Inspector
popped [] i = record i { current_contract = none }
popped (id ∷ ids) i = record i { current_contract = id; contract_stack = ids }

abbrev pub left : Bool → Inspector → Inspector
left reverted i =
    let j = if reverted then on_contract i.current_contract (record_revert i.last_pc) i else i in
    popped j.contract_stack (record j { current_call_depth = j.current_call_depth - 1 })

unfoldable pub call_end : Bool → Inspector → Inspector
call_end reverted i = left reverted i

unfoldable pub create_end : Bool → Inspector → Inspector
create_end reverted i = record (left reverted i) { is_initcode = false }

-- What a frame executes: instructions, and frames of calls and creations with the code that they
-- start, if they start any, and whether they revert.
pub data Body : Type 0 where
  done : Body
  instruction : ℕ → Option ℕ → Body → Body
  calling : List ℕ → Option Code → Body → Bool → Body → Body
  creating : Option Code → Body → Bool → Body → Body

abbrev pub started : Option Code → Inspector → Inspector
started none i = i
started (some code) i = initialize_interp code i

-- The callbacks of the interpreter.
unfoldable pub run : Body → Inspector → Inspector
unfolding step_at call create call_end create_end initialize_interp
run done i = i
run (instruction pc jump rest) i = run rest (step_at pc jump i)
run (calling target code body reverted rest) i =
    run rest (call_end reverted (run body (started code (call target i))))
run (creating code body reverted rest) i =
    run rest (create_end reverted (run body (started code (create i))))
