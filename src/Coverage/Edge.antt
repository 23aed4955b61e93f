-- ===== src/Coverage/Edge.antt =====
-- The markers of jump and call edges (`src/evm/coverage/edge.rs`); `usize` has 64 bits.
pub mod Distinct
use Prim.Native.Nat.{bit_or, bit_xor}
use ripfuzz.Prelude.{
  ℕ, zero, suc, ◌+◌, ◌-◌, ◌*◌, ◌/◌, ◌%◌, ◌^◌, ◌≤◌, ◌<◌, min, max, compare, Ordering, ◌≡◌, refl, sym,
  ap, ◌∙◌, subst, ◌≢◌, ◌↔◌, ◌⊎◌, inl, inr, Bool, true, false, not, ◌&&◌, ◌||◌, Option, none, some,
  List, [], ◌∷◌, ◌++◌, map, arith, dec_lt, dec_le, ℕ_discrete, ltb, leb, ◌==◌, if◌then◌else◌,
  ltb→lt, lt→ltb, ltb-false→le, ==_iff, Bool-cases, Option-cases, is_some, u64_max, saturating_add,
  length, get_elem?, set, take, drop, is_empty, remove, length-append, length-take, length-drop,
  length-remove, length-set, All, All-append, All-remove, All-set, All-get_elem?, sum_of,
  sum_of-set,
}

-- `u64::rotate_left`.
pub rotate_left : ℕ → ℕ → ℕ
rotate_left x n = bit_or (x * 2 ^ n % 2 ^ 64) (x / 2 ^ (64 - n))

pub edge_marker : ℕ → ℕ → ℕ
edge_marker src_pc dst_pc = bit_xor (rotate_left src_pc 32) dst_pc

-- `u64::from_be_bytes`.
unfoldable pub from_be_bytes : ℕ → List ℕ → ℕ
from_be_bytes acc [] = acc
from_be_bytes acc (b ∷ bs) = from_be_bytes (acc * 256 + b) bs

-- The loop over the address's first twelve bytes.
pub hash_bytes : ℕ → List ℕ → ℕ
hash_bytes high [] = high
hash_bytes high (b ∷ bs) = hash_bytes ((high * 131 + b) % 2 ^ 64) bs

-- `callee` is the address's twenty bytes.
pub call_edge_marker : ℕ → List ℕ → ℕ
call_edge_marker caller_pc callee =
    let low = from_be_bytes 0 (drop 12 callee) in
    let high = hash_bytes 0 (take 12 callee) in
    let marker = bit_xor (rotate_left caller_pc 32) low in
    let marker' = bit_xor marker (rotate_left high 16) in bit_or marker' (2 ^ 63)
