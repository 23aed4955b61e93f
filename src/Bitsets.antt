-- ===== src/Bitsets.antt =====
-- Sets of bits in a word: what a word adds to another.
use Prim.Native.Nat.{bit_and, bit_or, bit_and-bitwise}
use native.Mathlib.Nat.{two-pow-succ}
use ripfuzz.Bits.{bit_and_step, bit_or_step, bit_or-lt, bit_or_left, bit_or_right, bit_and-zero_le}
use ripfuzz.Prelude.{ℕ, zero, suc, ◌-◌, ◌/◌, ◌%◌, ◌^◌, ◌≤◌, ◌<◌, min, ◌≡◌, ap, arith, dec_lt}

-- The complement of a word of `k` digits.
abbrev pub complement : ℕ → ℕ → ℕ
complement k a = 2 ^ k - 1 - a

-- What was added to a word is no longer new to it.
bit_and-complement-bit_or :
    (k a p : ℕ) → a < 2 ^ k → p < 2 ^ k → bit_and a (complement k (bit_or p a)) ≡ 0
bit_and-complement-bit_or zero a p ha hp =
    let za : a ≡ 0 = omega arith in rw za (bit_and-bitwise 0 (0 - bit_or p 0))
bit_and-complement-bit_or (suc k) a p ha hp =
    let s = two-pow-succ k in
    let o = bit_or-lt k (p / 2) (a / 2) (omega (arith, s)) (omega (arith, s)) in
    let os = bit_or_step p a in
    let c = complement (suc k) (bit_or p a) in
    let low : min (a % 2) (c % 2) ≡ 0 = ground (arith, s, o, os) in
    let high : c / 2 ≡ complement k (bit_or (p / 2) (a / 2)) = ground (arith, s, o, os) in
    omega (
      arith,
      low,
      bit_and_step a c,
      ap (bit_and (a / 2)) high,
      bit_and-complement-bit_or k (a / 2) (p / 2) (omega (arith, s)) (omega (arith, s)),
    )

-- What is not new to a word is not new to a larger one.
bit_and-complement_mono :
    (k a p q : ℕ)
    → p < 2 ^ k
    → q < 2 ^ k
    → bit_and a (complement k p) ≡ 0
    → bit_and a (complement k (bit_or p q)) ≡ 0
bit_and-complement_mono zero a p q hp hq e =
    let z : 0 - bit_or p q ≡ 0 = omega arith in rw z (bit_and-zero_le a a (omega arith))
bit_and-complement_mono (suc k) a p q hp hq e =
    let s = two-pow-succ k in
    let o = bit_or-lt k (p / 2) (q / 2) (omega (arith, s)) (omega (arith, s)) in
    let os = bit_or_step p q in
    let c = complement (suc k) (bit_or p q) in
    let d = complement (suc k) p in
    let was : d / 2 ≡ complement k (p / 2) = ground (arith, s) in
    let high : c / 2 ≡ complement k (bit_or (p / 2) (q / 2)) = ground (arith, s, o, os) in
    let before = bit_and_step a d in
    let less : min (a % 2) (c % 2) ≤ min (a % 2) (d % 2) = ground (arith, s, o, os) in
    omega (
      arith,
      less,
      before,
      e,
      bit_and_step a c,
      ap (bit_and (a / 2)) high,
      bit_and-complement_mono k (a / 2) (p / 2) (q / 2) (omega (arith, s)) (omega (arith, s))
          (omega (arith, e, before, ap (bit_and (a / 2)) was)),
    )

-- The digits of `a` that `p` has not, within a word of 64.
abbrev pub new_bits : ℕ → ℕ → ℕ
new_bits a p = bit_and a (complement 64 p)

full : (a p : ℕ) → 2 ^ 64 ≤ p → new_bits a p ≡ 0
full a p h =
    let z : 18446744073709551615 - p ≡ 0 = omega arith in rw z (bit_and-zero_le a a (omega arith))

-- What was added to a word is not new to it, and stays so when more is added.
pub new_bits-bit_or : (a p : ℕ) → new_bits a (bit_or p a) ≡ 0
new_bits-bit_or a p = elim (dec_lt p (2 ^ 64)) [
  | no ge ↦ full a (bit_or p a) (omega (arith, ge, bit_or_left p a))
  | yes lt ↦ elim (dec_lt a (2 ^ 64)) [
    | no ge ↦ full a (bit_or p a) (omega (arith, ge, bit_or_right p a))
    | yes lt' ↦ bit_and-complement-bit_or 64 a p lt' lt
  ]
]

pub new_bits_mono : (a p q : ℕ) → new_bits a p ≡ 0 → new_bits a (bit_or p q) ≡ 0
new_bits_mono a p q e = elim (dec_lt p (2 ^ 64)) [
  | no ge ↦ full a (bit_or p q) (omega (arith, ge, bit_or_left p q))
  | yes lt ↦ elim (dec_lt q (2 ^ 64)) [
    | no ge ↦ full a (bit_or p q) (omega (arith, ge, bit_or_right p q))
    | yes lt' ↦ bit_and-complement_mono 64 a p q lt lt' e
  ]
]

-- No bits are new to no word.
pub new_bits-zero : (p : ℕ) → new_bits 0 p ≡ 0
new_bits-zero p = bit_and-bitwise 0 (complement 64 p)
