-- ===== src/Coverage/Edge/Distinct.antt =====
-- When the markers of two edges are the same (`src/evm/coverage/edge.rs`).
use ripfuzz.Coverage.Edge.{edge_marker, call_edge_marker, rotate_left}
use ripfuzz.Bits.{bit_or_disjoint, bit_xor_disjoint, bit_or_right}
use ripfuzz.Prelude.{ℕ, ◌+◌, ◌*◌, ◌/◌, ◌%◌, ◌^◌, ◌≤◌, ◌<◌, ◌≡◌, ◌≢◌, List, arith}

edge_marker-fields :
    (src dst : ℕ) → src < 2 ^ 32 → dst < 2 ^ 32 → edge_marker src dst ≡ src * 2 ^ 32 + dst
unfolding edge_marker rotate_left
edge_marker-fields src dst hs hd =
    let low : src * 4294967296 % 18446744073709551616 ≡ src * 4294967296 = omega arith in
    let high : src / 4294967296 ≡ 0 = omega arith in
    let one = bit_or_disjoint 32 src 0 (omega arith) in
    let two : src * 2 ^ 32 + 0 ≡ src * 2 ^ 32 = omega arith in
    rw low (rw high (rw one (rw two (bit_xor_disjoint 32 src dst hd))))

call_edge_marker-high : (pc : ℕ) (callee : List ℕ) → 2 ^ 63 ≤ call_edge_marker pc callee
unfolding call_edge_marker
call_edge_marker-high pc callee = bit_or_right _ (2 ^ 63)

-- Two jumps, from program counters below 2^31 to ones below 2^32, have the same marker only if they
-- are the same jump, and the first never has the marker of a call.
pub edge_marker_distinct :
    (src dst src' dst' : ℕ)
    → src < 2 ^ 31
    → dst < 2 ^ 32
    → src' < 2 ^ 31
    → dst' < 2 ^ 32
    → (edge_marker src dst ≡ edge_marker src' dst' → (src ≡ src') × (dst ≡ dst'))
      × ((pc : ℕ) (callee : List ℕ) → edge_marker src dst ≢ call_edge_marker pc callee)
edge_marker_distinct src dst src' dst' hs hd hs' hd' =
    let p = edge_marker-fields src dst (omega arith) hd in
    let q = edge_marker-fields src' dst' (omega arith) hd' in
    (
      λ e. (omega (arith, p, q, e), omega (arith, p, q, e)),
      λ pc callee e. omega (arith, p, e, call_edge_marker-high pc callee),
    )
