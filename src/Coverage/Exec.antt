-- ===== src/Coverage/Exec.antt =====
-- The coverage of one execution (`src/evm/coverage/exec.rs`, `id.rs`) and how `inspector.rs` records
-- it in the map of the contract that runs. A hash map is an association list.
pub mod Hits
pub mod Recorded
use Prim.Native.Nat.{bit_and, bit_or}
use ripfuzz.Coverage.Edge.{edge_marker}
use ripfuzz.Prelude.{
  ℕ, zero, suc, ◌+◌, ◌-◌, ◌*◌, ◌/◌, ◌%◌, ◌^◌, ◌≤◌, ◌<◌, min, max, compare, Ordering, ◌≡◌, refl, sym,
  ap, ◌∙◌, subst, ◌≢◌, ◌↔◌, ◌⊎◌, inl, inr, Bool, true, false, not, ◌&&◌, ◌||◌, Option, none, some,
  List, [], ◌∷◌, ◌++◌, map, arith, dec_lt, dec_le, ℕ_discrete, ltb, leb, ◌==◌, if◌then◌else◌,
  ltb→lt, lt→ltb, ltb-false→le, ==_iff, Bool-cases, Option-cases, is_some, u64_max, saturating_add,
  length, get_elem?, set, take, drop, is_empty, remove, length-append, length-take, length-drop,
  length-remove, length-set, All, All-append, All-remove, All-set, All-get_elem?, sum_of,
  sum_of-set, sum_of-get_elem?,
}

-- `CoverageId`; hashes and addresses are their numbers.
pub data CoverageId : Type 0 where
  initcode : ℕ → CoverageId
  runtime : ℕ → ℕ → CoverageId

-- The derived `Eq`.
unfoldable pub same_id : CoverageId → CoverageId → Bool
same_id (initcode h) (initcode k) = h == k
same_id (runtime a h) (runtime b k) = a == b && h == k
same_id _ _ = false

-- `DEPTH_TRACKED_PCS`.
abbrev pub depth_tracked_pcs : ℕ
depth_tracked_pcs = 1024

unfoldable pub zeros : ℕ → List ℕ
zeros zero = []
zeros (suc n) = 0 ∷ zeros n

pub record ExecutionContractCoverage : Type 0 where
  pub edges : List ℕ
  pub depths : List ℕ
  pub reverts : List ℕ
  pub jump_edges : List (ℕ × ℕ)
  pub hit_pcs : List ℕ
  pub hit_depths : List ℕ
  pub hit_reverts : List ℕ
  pub bytecode : List ℕ
  pub is_initcode : Bool

unfoldable pub new : ℕ → ExecutionContractCoverage
new bytecode_len = record {
  edges = zeros bytecode_len;
  depths = zeros (min bytecode_len depth_tracked_pcs);
  reverts = zeros ((bytecode_len + 63) / 64);
  jump_edges = [];
  hit_pcs = [];
  hit_depths = [];
  hit_reverts = [];
  bytecode = [];
  is_initcode = false;
}

-- `fill(0)`.
pub clear : ExecutionContractCoverage → ExecutionContractCoverage
clear c = record c {
  edges = zeros (length c.edges);
  depths = zeros (length c.depths);
  reverts = zeros (length c.reverts);
  jump_edges = [];
  hit_pcs = [];
  hit_depths = [];
  hit_reverts = [];
}

-- `saturating_add` of `u8`.
abbrev pub bump : ℕ → ℕ
bump n = min (n + 1) 255

-- The entry of a marker is counted up, or set to one.
pub count_jump : ℕ → List (ℕ × ℕ) → List (ℕ × ℕ)
count_jump marker [] = (marker, 1) ∷ []
count_jump marker ((m, n) ∷ es) =
    if m == marker then (m, bump n) ∷ es else (m, n) ∷ count_jump marker es

-- The first part of `step`: an instruction is executed. It is passed over beyond the array's end.
edge_at : ℕ → ExecutionContractCoverage → Option ℕ → ExecutionContractCoverage
edge_at pc c none = c
edge_at pc c (some n) = record c {
  edges = set c.edges pc (bump n);
  hit_pcs = if n == 0 then c.hit_pcs ++ (pc ∷ []) else c.hit_pcs;
}

pub hit_edge : ℕ → ExecutionContractCoverage → ExecutionContractCoverage
hit_edge pc c = edge_at pc c (get_elem? c.edges pc)

-- The second part: the depth at which it is executed.
depth_at : ℕ → ℕ → ExecutionContractCoverage → Option ℕ → ExecutionContractCoverage
depth_at call_depth pc c none = c
depth_at call_depth pc c (some d) =
    let depth_mask = 2 ^ min call_depth 63 in
    record c {
      depths = set c.depths pc (bit_or d depth_mask);
      hit_depths = if bit_and d depth_mask == 0 then c.hit_depths ++ (pc ∷ []) else c.hit_depths;
    }

pub hit_depth : ℕ → ℕ → ExecutionContractCoverage → ExecutionContractCoverage
hit_depth call_depth pc c = depth_at call_depth pc c (get_elem? c.depths pc)

-- The third part: the destination of a jump that is taken, when the instruction is one.
pub hit_jump : ℕ → Option ℕ → ExecutionContractCoverage → ExecutionContractCoverage
hit_jump pc none c = c
hit_jump pc (some dst) c = record c { jump_edges = count_jump (edge_marker pc dst) c.jump_edges }

pub step : ℕ → ℕ → Option ℕ → ExecutionContractCoverage → ExecutionContractCoverage
step call_depth pc jump c = hit_jump pc jump (hit_depth call_depth pc (hit_edge pc c))

revert_at : ℕ → ℕ → ExecutionContractCoverage → Option ℕ → ExecutionContractCoverage
revert_at word bit c none = c
revert_at word bit c (some prev) = record c {
  reverts = set c.reverts word (bit_or prev (2 ^ bit));
  hit_reverts = if prev == 0 then c.hit_reverts ++ (word ∷ []) else c.hit_reverts;
}

pub record_revert : ℕ → ExecutionContractCoverage → ExecutionContractCoverage
record_revert last_pc c =
    revert_at (last_pc / 64) (last_pc % 64) c (get_elem? c.reverts (last_pc / 64))
