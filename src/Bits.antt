-- ===== src/Bits.antt =====
-- Laws of the bit operations of machine words, from the recursion on binary digits.
pub mod Masks
use Prim.Native.Nat.{
  digits, bitwise, differ, bit_and, bit_or, bit_xor, bit_and-bitwise, bit_or-bitwise,
  bit_xor-bitwise,
}
use native.Mathlib.Nat.{two-pow-succ, one-le-pow, add-mul-mod_self_right, mod-eq_of_lt}
use ripfuzz.Prelude.{
  ℕ, zero, suc, ◌+◌, ◌-◌, ◌*◌, ◌/◌, ◌%◌, ◌^◌, ◌≤◌, ◌<◌, min, max, ◌≡◌, refl, ap, ◌∙◌, arith,
}

-- An operation `one` on digits, and what `past` makes of the second number when the first has run
-- out: with `n` for fuel, every number up to `n` is read to its end.
module _ (past : ℕ → ℕ) (one : ℕ → ℕ → ℕ) where
  plenty : (k n b a : ℕ) → n ≤ k → a ≤ n → digits past one n a b ≡ bitwise past one a b
  plenty k zero b zero short enough = refl
  plenty k (suc n) b zero short enough = refl
  plenty k zero b (suc a) short enough = absurd (omega arith)
  plenty zero (suc n) b (suc a) short enough = absurd (omega arith)
  plenty (suc k) (suc n) b (suc a) short enough =
      let half = plenty k n (b / 2) (suc a / 2) (omega arith) (omega arith) in
      let own = plenty k a (b / 2) (suc a / 2) (omega arith) (omega arith) in
      omega (arith, half, own)

  -- The lowest digit of the result, and the rest.
  lowest :
      ((b : ℕ) → past b ≡ past (b / 2) * 2 + one 0 (b % 2))
      → (a b : ℕ)
      → bitwise past one a b ≡ bitwise past one (a / 2) (b / 2) * 2 + one (a % 2) (b % 2)
  lowest runs_on zero b = runs_on b
  lowest runs_on (suc a) b =
      omega (arith, plenty a a (b / 2) (suc a / 2) (omega arith) (omega arith))

pub bit_and_step : (a b : ℕ) → bit_and a b ≡ bit_and (a / 2) (b / 2) * 2 + min (a % 2) (b % 2)
bit_and_step a b = omega (
  arith,
  bit_and-bitwise a b,
  bit_and-bitwise (a / 2) (b / 2),
  lowest (λ _. 0) min (λ b. omega arith) a b,
)

pub bit_or_step : (a b : ℕ) → bit_or a b ≡ bit_or (a / 2) (b / 2) * 2 + max (a % 2) (b % 2)
bit_or_step a b = omega (
  arith,
  bit_or-bitwise a b,
  bit_or-bitwise (a / 2) (b / 2),
  lowest (λ b. b) max (λ b. omega arith) a b,
)

pub bit_xor_step : (a b : ℕ) → bit_xor a b ≡ bit_xor (a / 2) (b / 2) * 2 + differ (a % 2) (b % 2)
bit_xor_step a b = omega (
  arith,
  bit_xor-bitwise a b,
  bit_xor-bitwise (a / 2) (b / 2),
  lowest (λ b. b) differ (λ b. omega arith) a b,
)

times_half : (q k : ℕ) → q * 2 ^ suc k ≡ 2 * (q * 2 ^ k)
times_half q k = omega (arith, ap (λ (t : ℕ). q * t) (two-pow-succ k))

-- Within `k` digits the operations stay within `k` digits.
pub bit_or-lt : (k a b : ℕ) → a < 2 ^ k → b < 2 ^ k → bit_or a b < 2 ^ k
bit_or-lt zero a b ha hb =
    let za : a ≡ 0 = omega arith in let zb : b ≡ 0 = omega arith in rw (za, zb) (omega arith)
bit_or-lt (suc k) a b ha hb =
    let p = two-pow-succ k in
    omega
      (arith, p, bit_or_step a b, bit_or-lt k (a / 2) (b / 2) (omega (arith, p)) (omega (arith, p)))

pub bit_or-zero_le : (n a : ℕ) → a ≤ n → bit_or a 0 ≡ a
bit_or-zero_le n zero h = refl
bit_or-zero_le zero (suc a) h = absurd (omega arith)
bit_or-zero_le (suc n) (suc a) h =
    omega (arith, bit_or_step (suc a) 0, bit_or-zero_le n (suc a / 2) (omega arith))

differ-zero : (d : ℕ) → differ d 0 ≡ d
differ-zero zero = refl
differ-zero (suc d) = refl

bit_xor-zero_le : (n a : ℕ) → a ≤ n → bit_xor a 0 ≡ a
bit_xor-zero_le n zero h = refl
bit_xor-zero_le zero (suc a) h = absurd (omega arith)
bit_xor-zero_le (suc n) (suc a) h = omega (
  arith,
  differ-zero (suc a % 2),
  bit_xor_step (suc a) 0,
  bit_xor-zero_le n (suc a / 2) (omega arith),
)

pub bit_and-zero_le : (n a : ℕ) → a ≤ n → bit_and a 0 ≡ 0
bit_and-zero_le n zero h = refl
bit_and-zero_le zero (suc a) h = absurd (omega arith)
bit_and-zero_le (suc n) (suc a) h =
    omega (arith, bit_and_step (suc a) 0, bit_and-zero_le n (suc a / 2) (omega arith))

-- Fields that do not overlap are added.
pub bit_or_disjoint : (k q r : ℕ) → r < 2 ^ k → bit_or (q * 2 ^ k) r ≡ q * 2 ^ k + r
bit_or_disjoint zero q r h =
    let z : r ≡ 0 = omega arith in
    rw z (omega (arith, bit_or-zero_le (q * 1) (q * 1) (omega arith)))
bit_or_disjoint (suc k) q r h = ground (
  arith,
  times_half q k,
  two-pow-succ k,
  bit_or_step (q * 2 ^ suc k) r,
  bit_or_disjoint k q (r / 2) (omega (arith, two-pow-succ k)),
)

pub bit_xor_disjoint : (k q r : ℕ) → r < 2 ^ k → bit_xor (q * 2 ^ k) r ≡ q * 2 ^ k + r
bit_xor_disjoint zero q r h =
    let z : r ≡ 0 = omega arith in
    rw z (omega (arith, bit_xor-zero_le (q * 1) (q * 1) (omega arith)))
bit_xor_disjoint (suc k) q r h = ground (
  arith,
  times_half q k,
  two-pow-succ k,
  bit_xor_step (q * 2 ^ suc k) r,
  bit_xor_disjoint k q (r / 2) (omega (arith, two-pow-succ k)),
)

mod_two-pow-suc : (k a : ℕ) → a % 2 ^ suc k ≡ (a / 2) % 2 ^ k * 2 + a % 2
mod_two-pow-suc k a =
    let s = two-pow-succ k in
    let t = one-le-pow k 2 in
    let r = (a / 2) % 2 ^ k * 2 + a % 2 in
    let q = a / 2 / 2 ^ k in
    let low : (a / 2) % 2 ^ k < 2 ^ k = omega (arith, t) in
    let split : a ≡ r + q * 2 ^ suc k = ground (arith, t, times_half q k) in
    ap (λ (x : ℕ). x % 2 ^ suc k) split
    ∙ add-mul-mod_self_right r q (2 ^ suc k)
    ∙ mod-eq_of_lt (omega (arith, low, s))

-- A mask of the lowest digits is a remainder.
pub bit_and_mask : (k a : ℕ) → bit_and a (2 ^ k - 1) ≡ a % 2 ^ k
bit_and_mask zero a = omega (arith, bit_and-zero_le a a (omega arith))
bit_and_mask (suc k) a =
    let p = two-pow-succ k in
    let q = one-le-pow k 2 in
    let half : (2 ^ suc k - 1) / 2 ≡ 2 ^ k - 1 = omega arith in
    ground (
      arith,
      p,
      q,
      bit_and_step a (2 ^ suc k - 1),
      ap (bit_and (a / 2)) half,
      bit_and_mask k (a / 2),
      mod_two-pow-suc k a,
    )

bit_or_right_le : (n a b : ℕ) → b ≤ n → b ≤ bit_or a b
bit_or_right_le n a zero h = omega arith
bit_or_right_le zero a (suc b) h = absurd (omega arith)
bit_or_right_le (suc n) a (suc b) h =
    omega (arith, bit_or_step a (suc b), bit_or_right_le n (a / 2) (suc b / 2) (omega arith))

-- An operand's digits stay.
pub bit_or_right : (a b : ℕ) → b ≤ bit_or a b
bit_or_right a b = bit_or_right_le b a b (omega arith)

bit_or_left_le : (n a b : ℕ) → a ≤ n → a ≤ bit_or a b
bit_or_left_le n zero b h = omega arith
bit_or_left_le zero (suc a) b h = absurd (omega arith)
bit_or_left_le (suc n) (suc a) b h =
    omega (arith, bit_or_step (suc a) b, bit_or_left_le n (suc a / 2) (b / 2) (omega arith))

pub bit_or_left : (a b : ℕ) → a ≤ bit_or a b
bit_or_left a b = bit_or_left_le a a b (omega arith)
