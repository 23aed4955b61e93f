-- ===== src/Bits/Masks.antt =====
-- Masks and sign bits of a word, as numbers.
use Prim.Native.Nat.{bit_and, bit_or, bit_xor}
use native.Mathlib.Nat.{two-pow-succ, one-le-pow}
use ripfuzz.Prelude.{
  ℕ, zero, suc, ◌+◌, ◌-◌, ◌*◌, ◌/◌, ◌^◌, ◌≤◌, ◌<◌, ◌≡◌, refl, ap, ◌∙◌, arith, dec_lt, ltb,
  if◌then◌else◌,
}
use ripfuzz.Bits.{
  bit_and_step, bit_or_step, bit_xor_step, bit_or_disjoint, bit_xor-zero_le, bit_and-zero_le,
}

pub two_pow_add : (d k : ℕ) → 2 ^ (d + k) ≡ 2 ^ d * 2 ^ k
two_pow_add zero k = let s : 0 + k ≡ k = omega arith in rw s (omega arith)
two_pow_add (suc d) k =
    let e = two-pow-succ d in
    let f = two-pow-succ (d + k) in
    let s : suc d + k ≡ suc (d + k) = omega arith in rw s (grind (arith, e, f, two_pow_add d k))

pub two_pow_mono : (k n : ℕ) → k ≤ n → 2 ^ k ≤ 2 ^ n
two_pow_mono k n h =
    let e = two_pow_add (n - k) k in
    let s : n - k + k ≡ n = omega arith in
    let one = one-le-pow (n - k) 2 in
    let f : 2 ^ n ≡ 2 ^ (n - k) * 2 ^ k = rw s at e in grind (arith, f, one)

-- The bit `k` of a number below `2 ^ (k + 1)`.
pub bit_and-power :
    (k x : ℕ) → x < 2 ^ suc k → bit_and x (2 ^ k) ≡ (if ltb x (2 ^ k) then 0 else 2 ^ k)
bit_and-power zero x h = ground (arith, bit_and_step x 1, bit_and-zero_le (x / 2) (x / 2))
bit_and-power (suc k) x h =
    let p = two-pow-succ k in
    let q = two-pow-succ (suc k) in
    let half : 2 ^ suc k / 2 ≡ 2 ^ k = omega arith in
    let ih = bit_and-power k (x / 2) (omega (arith, q)) in
    ground (arith, p, q, bit_and_step x (2 ^ suc k), ap (bit_and (x / 2)) half, ih)

pub bit_xor-mask : (d k : ℕ) → bit_xor (2 ^ (k + d) - 1) (2 ^ k - 1) ≡ 2 ^ (k + d) - 2 ^ k
bit_xor-mask d zero = bit_xor-zero_le (2 ^ (0 + d) - 1) (2 ^ (0 + d) - 1) (omega arith)
bit_xor-mask d (suc k) =
    let s : suc k + d ≡ suc (k + d) = omega arith in
    let p = two-pow-succ (k + d) in
    let q = two-pow-succ k in
    let one = one-le-pow (k + d) 2 in
    let one' = one-le-pow k 2 in
    let left : (2 ^ suc (k + d) - 1) / 2 ≡ 2 ^ (k + d) - 1 = omega arith in
    let right : (2 ^ suc k - 1) / 2 ≡ 2 ^ k - 1 = omega arith in
    let step = bit_xor_step (2 ^ suc (k + d) - 1) (2 ^ suc k - 1) in
    let halves =
      ap (λ x. bit_xor x ((2 ^ suc k - 1) / 2)) left ∙ ap (bit_xor (2 ^ (k + d) - 1)) right in
    rw s (ground (arith, p, q, one, one', step, halves, bit_xor-mask d k))

bit_or_comm_le : (n a b : ℕ) → a + b ≤ n → bit_or a b ≡ bit_or b a
bit_or_comm_le zero a b h =
    let za : a ≡ 0 = omega arith in let zb : b ≡ 0 = omega arith in rw (za, zb) refl
bit_or_comm_le (suc n) a b h = elim (dec_lt 0 (a + b)) [
  | yes pos ↦
      let ih = bit_or_comm_le n (a / 2) (b / 2) (omega arith) in
      omega (arith, bit_or_step a b, bit_or_step b a, ih)
  | no none_left ↦ let za : a ≡ 0 = omega arith in let zb : b ≡ 0 = omega arith in rw (za, zb) refl
]

-- A field is put above the low digits.
pub bit_or-high : (k q r : ℕ) → r < 2 ^ k → bit_or r (q * 2 ^ k) ≡ q * 2 ^ k + r
bit_or-high k q r h =
    bit_or_comm_le (r + q * 2 ^ k) r (q * 2 ^ k) (omega arith) ∙ bit_or_disjoint k q r h
