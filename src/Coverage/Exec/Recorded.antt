-- ===== src/Coverage/Exec/Recorded.antt =====
-- The arrays of an execution and their lists of hits along what is recorded
-- (`src/evm/coverage/exec.rs`).
use native.Mathlib.Nat.{one-le-pow}
use Prim.Native.Nat.{bit_and, bit_or, bit_and-bitwise}
use ripfuzz.Bits.{bit_or_right}
use ripfuzz.Coverage.Exec.{
  ExecutionContractCoverage, zeros, edge_at, depth_at, revert_at, hit_jump, step, record_revert,
  clear, new, bump, hit_edge, depth_tracked_pcs, hit_depth,
}
use ripfuzz.Coverage.Exec.Hits.{Exact, once, ones, ones-zero, ones-bit_or, Exact-set, Exact-zeros}
use ripfuzz.Prelude.{
  ℕ, ◌+◌, ◌/◌, ◌%◌, ◌^◌, ◌≤◌, min, ◌≡◌, refl, true, Option, none, some, List, [], ◌∷◌, arith, ◌==◌,
  length, get_elem?,
}

-- All three arrays: a merge visits an instruction and a word of reverts once, and an entry of the
-- depths once for each of its bits.
pub record Recorded (c : ExecutionContractCoverage) : Type 0 where
  pub pcs : Exact once c.edges c.hit_pcs
  pub at_depths : Exact (ones 64) c.depths c.hit_depths
  pub at_reverts : Exact once c.reverts c.hit_reverts

pub nothing-Recorded :
    (c : ExecutionContractCoverage) (edges depths reverts : ℕ)
    → c.edges ≡ zeros edges
    → c.depths ≡ zeros depths
    → c.reverts ≡ zeros reverts
    → c.hit_pcs ≡ []
    → c.hit_depths ≡ []
    → c.hit_reverts ≡ []
    → Recorded c
nothing-Recorded c edges depths reverts e d r p q w = record {
  pcs = rw (e, p) (Exact-zeros once edges refl);
  at_depths = rw (d, q) (Exact-zeros (ones 64) depths (ones-zero 64));
  at_reverts = rw (r, w) (Exact-zeros once reverts refl);
}

edge_at-Recorded :
    (pc : ℕ) (c : ExecutionContractCoverage) (o : Option ℕ)
    → get_elem? c.edges pc ≡ o
    → Recorded c
    → Recorded (edge_at pc c o)
unfolding edge_at
edge_at-Recorded pc c none e r = r
edge_at-Recorded pc c (some n) e r = record {
  pcs =
      Exact-set once c.edges c.hit_pcs pc n (bump n) (n == 0) r.pcs e (omega arith)
        (λ z. ground arith) (ground arith);
  at_depths = r.at_depths;
  at_reverts = r.at_reverts;
}

-- A mask is positive, and no bit of it is in an empty word.
or_mask-pos : (d k : ℕ) → 1 ≤ bit_or d (2 ^ k)
or_mask-pos d k = omega (arith, bit_or_right d (2 ^ k), one-le-pow k 2)

and_zero : (d m : ℕ) → d ≡ 0 → (bit_and d m == 0) ≡ true
and_zero d m z = rw z (ground (arith, bit_and-bitwise 0 m))

depth_at-Recorded :
    (call_depth pc : ℕ) (c : ExecutionContractCoverage) (o : Option ℕ)
    → get_elem? c.depths pc ≡ o
    → Recorded c
    → Recorded (depth_at call_depth pc c o)
unfolding depth_at
depth_at-Recorded call_depth pc c none e r = r
depth_at-Recorded call_depth pc c (some d) e r =
    let mask = 2 ^ min call_depth 63 in
    record {
      pcs = r.pcs;
      at_depths =
          Exact-set (ones 64) c.depths c.hit_depths pc d (bit_or d mask) (bit_and d mask == 0)
            r.at_depths e (or_mask-pos d (min call_depth 63)) (and_zero d mask)
            (ones-bit_or 64 (min call_depth 63) d (omega arith));
      at_reverts = r.at_reverts;
    }

revert_at-Recorded :
    (word bit : ℕ) (c : ExecutionContractCoverage) (o : Option ℕ)
    → get_elem? c.reverts word ≡ o
    → Recorded c
    → Recorded (revert_at word bit c o)
unfolding revert_at
revert_at-Recorded word bit c none e r = r
revert_at-Recorded word bit c (some p) e r = record {
  pcs = r.pcs;
  at_depths = r.at_depths;
  at_reverts =
      Exact-set once c.reverts c.hit_reverts word p (bit_or p (2 ^ bit)) (p == 0) r.at_reverts e
        (or_mask-pos p bit) (λ z. ground arith) (ground (arith, or_mask-pos p bit));
}

hit_jump-Recorded :
    (pc : ℕ) (jump : Option ℕ) (c : ExecutionContractCoverage)
    → Recorded c
    → Recorded (hit_jump pc jump c)
unfolding hit_jump
hit_jump-Recorded pc none c r = r
hit_jump-Recorded pc (some dst) c r = record {
  pcs = r.pcs;
  at_depths = r.at_depths;
  at_reverts = r.at_reverts;
}

pub step-Recorded :
    (call_depth pc : ℕ) (jump : Option ℕ) (c : ExecutionContractCoverage)
    → Recorded c
    → Recorded (step call_depth pc jump c)
unfolding step hit_edge hit_depth
step-Recorded call_depth pc jump c r =
    let e = edge_at pc c (get_elem? c.edges pc) in
    let re = edge_at-Recorded pc c (get_elem? c.edges pc) refl r in
    hit_jump-Recorded pc jump (depth_at call_depth pc e (get_elem? e.depths pc))
      (depth_at-Recorded call_depth pc e (get_elem? e.depths pc) refl re)

pub record_revert-Recorded :
    (last_pc : ℕ) (c : ExecutionContractCoverage) → Recorded c → Recorded (record_revert last_pc c)
unfolding record_revert
record_revert-Recorded last_pc c r =
    revert_at-Recorded (last_pc / 64) (last_pc % 64) c (get_elem? c.reverts (last_pc / 64)) refl r

-- What the inspector sees of one contract.
pub data Seen : Type 0 where
  stepped : ℕ → ℕ → Option ℕ → Seen
  reverted : ℕ → Seen
  cleared : Seen

pub record_all : List Seen → ExecutionContractCoverage → ExecutionContractCoverage
record_all [] c = c
record_all (stepped call_depth pc jump ∷ es) c = record_all es (step call_depth pc jump c)
record_all (reverted last_pc ∷ es) c = record_all es (record_revert last_pc c)
record_all (cleared ∷ es) c = record_all es (clear c)

record_all-keeps :
    (es : List Seen) (c : ExecutionContractCoverage) → Recorded c → Recorded (record_all es c)
unfolding record_all clear
record_all-keeps [] c r = r
record_all-keeps (stepped call_depth pc jump ∷ es) c r =
    record_all-keeps es (step call_depth pc jump c) (step-Recorded call_depth pc jump c r)
record_all-keeps (reverted last_pc ∷ es) c r =
    record_all-keeps es (record_revert last_pc c) (record_revert-Recorded last_pc c r)
record_all-keeps (cleared ∷ es) c r = record_all-keeps es (clear c) (
    nothing-Recorded (clear c) (length c.edges) (length c.depths) (length c.reverts) refl refl refl
      refl refl refl)

-- Whatever instructions a contract executes, how often, and wherever it reverts, at any program
-- counters, the lists of hits that a merge visits are exactly the entries of its arrays that are not
-- zero, and each is visited once; an entry of the depths once for each bit that is set in it.
pub record_all-Recorded :
    (len : ℕ) (es : List Seen)
    → let c = record_all es (new len) in
      Exact once c.edges c.hit_pcs
      × Exact (ones 64) c.depths c.hit_depths
      × Exact once c.reverts c.hit_reverts
unfolding new
record_all-Recorded len es =
    let r = record_all-keeps es (new len) (
      nothing-Recorded (new len) len (min len depth_tracked_pcs) ((len + 63) / 64) refl refl refl
        refl refl refl) in
    (r.pcs, r.at_depths, r.at_reverts)
