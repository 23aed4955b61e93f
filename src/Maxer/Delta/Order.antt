-- ===== src/Maxer/Delta/Order.antt =====
-- What a delta says of the two values, and how the order of deltas ranks changes.
use ripfuzz.Prelude.{ℕ, ◌+◌, ◌^◌, ◌≤◌, ◌<◌, compare, ◌≡◌, ◌↔◌, true, false, arith, if◌then◌else◌}
use ripfuzz.Maxer.Delta.{Delta, between, is_zero, is_negative, is_positive, activity, cmp}

-- The sign and magnitude of the delta between two values give the later value back from the
-- earlier one, and a zero delta is never negative.
pub between_exact :
    (before after : ℕ)
    → let d = between before after in
      (if is_negative d then before ≡ after + d.magnitude else after ≡ before + d.magnitude)
      × (is_zero d ≡ true → is_negative d ≡ false)
unfolding between is_negative is_zero
between_exact before after = ground arith

-- A delta is positive, negative or zero as its values rise, fall or stay.
pub between_signs :
    (before after : ℕ)
    → ((is_positive (between before after) ≡ true) ↔ (before < after))
      × ((is_negative (between before after) ≡ true) ↔ (after < before))
      × ((is_zero (between before after) ≡ true) ↔ (before ≡ after))
unfolding between is_positive is_negative is_zero
between_signs before after = ground arith

-- Deltas are ordered as the signed differences that they stand for.
pub cmp-between : (b a b' a' : ℕ) → cmp (between b a) (between b' a') ≡ compare (a + b') (a' + b)
unfolding cmp between
cmp-between b a b' a' = ground arith

-- What the integer crate documents of a bit length, as far as the weights rely on it.
pub record IsBitLength (bit_len : ℕ → ℕ) : Type 0 where
  pub mono : (m n : ℕ) → m ≤ n → bit_len m ≤ bit_len n
  pub bounded : (n : ℕ) → n < 2 ^ 256 → bit_len n ≤ 256

module _ (bit_len : ℕ → ℕ) (laws : IsBitLength bit_len) where
  -- Only a flat delta has no weight, a larger change never weighs less, and a weight of a `uint256`
  -- change is at most 2056, so that the saturating operations never saturate.
  pub activity_ranks :
      (d e : Delta)
      → d.magnitude ≤ e.magnitude
      → e.magnitude < 2 ^ 256
      → ((activity bit_len d ≡ 0) ↔ (is_zero d ≡ true))
        × (activity bit_len d ≤ activity bit_len e)
        × (activity bit_len e ≤ 2056)
  unfolding activity is_zero
  activity_ranks d e le fits =
      ground (arith, laws.mono d.magnitude e.magnitude le, laws.bounded e.magnitude fits)
