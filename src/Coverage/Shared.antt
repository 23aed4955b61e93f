-- ===== src/Coverage/Shared.antt =====
-- The coverage that all workers share (`src/evm/coverage/shared.rs`).
--
-- The concurrent maps are association lists, and a merge runs by itself: each of its atomic
-- operations is a plain one. An index out of bounds panics, which is an error.
pub mod Contracts
pub mod Hits
pub mod Loop
pub mod Remembered
pub mod Workers
pub mod Counts
use Prim.Native.Nat.{bit_and, bit_or}
use ripfuzz.Outcome.{Result, ok, context, panicked, ◌>>=◌}
use ripfuzz.Bitsets.{new_bits}
use ripfuzz.Coverage.Exec.{CoverageId, same_id, zeros, depth_tracked_pcs, ExecutionContractCoverage}
use ripfuzz.Prelude.{
  ℕ, zero, suc, ◌+◌, ◌-◌, ◌*◌, ◌/◌, ◌%◌, ◌^◌, ◌≤◌, ◌<◌, min, max, compare, Ordering, ◌≡◌, refl, sym,
  ap, ◌∙◌, subst, ◌≢◌, ◌↔◌, ◌⊎◌, inl, inr, Bool, true, false, not, ◌&&◌, ◌||◌, Option, none, some,
  List, [], ◌∷◌, ◌++◌, map, arith, dec_lt, dec_le, ℕ_discrete, ltb, leb, ◌==◌, if◌then◌else◌,
  ltb→lt, lt→ltb, ltb-false→le, ==_iff, Bool-cases, Option-cases, is_some, u64_max, saturating_add,
  length, get_elem?, set, take, drop, is_empty, remove, length-append, length-take, length-drop,
  length-remove, length-set, All, All-append, All-remove, All-set, All-get_elem?, sum_of,
  sum_of-set,
}

pub record CoverageUpdate : Type 0 where
  pub new_edges : ℕ
  pub new_depths : ℕ
  pub new_reverts : ℕ
  pub new_jump_edges : ℕ

unfoldable pub is_interesting : CoverageUpdate → Bool
is_interesting u =
    ltb 0 u.new_edges || ltb 0 u.new_depths || ltb 0 u.new_reverts || ltb 0 u.new_jump_edges

abbrev pub no_update : CoverageUpdate
no_update = record { new_edges = 0; new_depths = 0; new_reverts = 0; new_jump_edges = 0 }

pub record ContractCoverage : Type 0 where
  pub edges : List ℕ
  pub raw_edges : List ℕ
  pub depths : List ℕ
  pub reverts : List ℕ
  pub jump_edges : List (ℕ × ℕ)
  pub is_initcode : Bool

pub new_with_initcode : ℕ → Bool → ContractCoverage
new_with_initcode bytecode_len is_initcode = record {
  edges = zeros bytecode_len;
  raw_edges = zeros bytecode_len;
  depths = zeros (min bytecode_len depth_tracked_pcs);
  reverts = zeros ((bytecode_len + 63) / 64);
  jump_edges = [];
  is_initcode = is_initcode;
}

-- `xs[i]`.
pub index : List ℕ → ℕ → Result ℕ
index xs i = context panicked (get_elem? xs i)

-- The four loops: each visits its hits in turn, and counts those that are new.
module _ {S : Type 0} {H : Type 0} (one : S → H → Result (Bool × S)) where
  pub merge_hits : List H → S → Result (ℕ × S)
  merge_hits [] s = ok (0, s)
  merge_hits (h ∷ hs) s = do
    (novel, t) ← one s h
    (n, u) ← merge_hits hs t
    ok ((if novel then 1 else 0) + n, u)

-- `fetch_max(1)` of the bucket, `fetch_add` of the raw count.
pub one_edge : List ℕ → List ℕ × List ℕ → ℕ → Result (Bool × (List ℕ × List ℕ))
one_edge local_edges (edges, raw_edges) pc = do
  local_raw ← index local_edges pc
  prev ← index edges pc
  raw ← index raw_edges pc
  ok (prev == 0, (set edges pc (max prev 1), set raw_edges pc ((raw + local_raw) % 2 ^ 64)))

-- `fetch_or`, and whether it brought new bits.
pub or_word : List ℕ → ℕ → ℕ → ℕ → Bool × List ℕ
or_word words i prev word = (not (new_bits word prev == 0), set words i (bit_or prev word))

pub one_depth : List ℕ → List ℕ → ℕ → Result (Bool × List ℕ)
one_depth local_depths depths pc = do
  local_depth ← index local_depths pc
  prev ← index depths pc
  ok (or_word depths pc prev local_depth)

-- A word index beyond the shared array is passed over.
pub revert_at : List ℕ → List ℕ → ℕ → Option ℕ → Result (Bool × List ℕ)
revert_at local_reverts reverts i none = ok (false, reverts)
revert_at local_reverts reverts i (some prev) = do
  local_rev ← index local_reverts i
  ok (if local_rev == 0 then (false, reverts) else or_word reverts i prev local_rev)

pub one_revert : List ℕ → List ℕ → ℕ → Result (Bool × List ℕ)
one_revert local_reverts reverts i = revert_at local_reverts reverts i (get_elem? reverts i)

-- `get_or_insert_with` of a zero, then `fetch_max(1)`.
pub raise_jump : ℕ → List (ℕ × ℕ) → Bool × List (ℕ × ℕ)
raise_jump marker [] = (true, (marker, 1) ∷ [])
raise_jump marker ((m, n) ∷ es) =
    let (novel, rest) = raise_jump marker es in
    if m == marker then (n == 0, (m, max n 1) ∷ es) else (novel, (m, n) ∷ rest)

pub one_jump : List (ℕ × ℕ) → ℕ × ℕ → Result (Bool × List (ℕ × ℕ))
one_jump jump_edges (marker, local_raw) =
    ok (if local_raw == 0 then (false, jump_edges) else raise_jump marker jump_edges)

-- The body of the loop over the contracts; initcode is merged, but nothing of it is counted.
pub merge_contract :
    ExecutionContractCoverage → ContractCoverage → Result (CoverageUpdate × ContractCoverage)
merge_contract l g = do
  (edges, (bits, raw)) ← merge_hits (one_edge l.edges) l.hit_pcs (g.edges, g.raw_edges)
  (depths, seen) ← merge_hits (one_depth l.depths) l.hit_depths g.depths
  (reverts, reverted) ← merge_hits (one_revert l.reverts) l.hit_reverts g.reverts
  (jumps, jumped) ← merge_hits one_jump l.jump_edges g.jump_edges
  let counted = λ (n : ℕ). if l.is_initcode then 0 else n in
      ok (
        record {
          new_edges = counted edges;
          new_depths = counted depths;
          new_reverts = counted reverts;
          new_jump_edges = counted jumps;
        },
        record g {
          edges = bits;
          raw_edges = raw;
          depths = seen;
          reverts = reverted;
          jump_edges = jumped;
        },
      )

pub record SharedCoverage : Type 0 where
  pub contracts : List (CoverageId × ContractCoverage)
  pub bytecodes : List (CoverageId × List ℕ)

module _ {A : Type 0} where
  unfoldable pub find : CoverageId → List (CoverageId × A) → Option A
  find id [] = none
  find id ((k, a) ∷ m) = if same_id k id then some a else find id m

  pub store : CoverageId → A → List (CoverageId × A) → List (CoverageId × A)
  store id a [] = (id, a) ∷ []
  store id a ((k, b) ∷ m) = if same_id k id then (k, a) ∷ m else (k, b) ∷ store id a m

-- `entry(..).or_insert_with(..)`.
abbrev pub or_new : ExecutionContractCoverage → Option ContractCoverage → ContractCoverage
or_new l none = new_with_initcode (length l.edges) l.is_initcode
or_new l (some g) = g

pub get_or_new : CoverageId → ExecutionContractCoverage → SharedCoverage → ContractCoverage
get_or_new id l shared = or_new l (find id shared.contracts)

abbrev pub store_bytecode :
    CoverageId → List ℕ → List (CoverageId × List ℕ) → List (CoverageId × List ℕ)
store_bytecode id bytecode m =
    if is_empty bytecode || is_some (find id m) then m else store id bytecode m

pub add_updates : CoverageUpdate → CoverageUpdate → CoverageUpdate
add_updates u v = record {
  new_edges = u.new_edges + v.new_edges;
  new_depths = u.new_depths + v.new_depths;
  new_reverts = u.new_reverts + v.new_reverts;
  new_jump_edges = u.new_jump_edges + v.new_jump_edges;
}

unfoldable pub merge :
    List (CoverageId × ExecutionContractCoverage)
    → SharedCoverage
    → Result (CoverageUpdate × SharedCoverage)
merge [] shared = ok (no_update, shared)
merge ((id, l) ∷ local) shared = do
  (u, g) ← merge_contract l (get_or_new id l shared)
  (v, merged) ← merge local (record {
    contracts = store id g shared.contracts;
    bytecodes = store_bytecode id l.bytecode shared.bytecodes;
  })
  ok (add_updates u v, merged)

-- The edges of a contract that were hit; initcode is left out.
abbrev pub covered : ContractCoverage → ℕ
covered c = if c.is_initcode then 0 else sum_of (λ (n : ℕ). if n == 0 then 0 else 1) c.edges

unfoldable pub edge_count : SharedCoverage → ℕ
edge_count s = sum_of (λ ((_, c) : CoverageId × ContractCoverage). covered c) s.contracts
