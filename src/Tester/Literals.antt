-- ===== src/Tester/Literals.antt =====
-- The pools of literals from the harness sources, and how a literal enters them
-- (`src/tester/corpus/literal.rs`). A `uint256` is its number, an `int256` its 256-bit pattern, bytes
-- are numbers; a hash map is an association list.
pub mod Widths
use ripfuzz.Prelude.{
  ℕ, zero, suc, ◌+◌, ◌-◌, ◌*◌, ◌/◌, ◌%◌, ◌^◌, ◌≤◌, ◌<◌, min, max, compare, Ordering, ◌≡◌, refl, sym,
  ap, ◌∙◌, subst, ◌≢◌, ◌↔◌, ◌⊎◌, inl, inr, Bool, true, false, not, ◌&&◌, ◌||◌, Option, none, some,
  List, [], ◌∷◌, ◌++◌, map, arith, dec_lt, dec_le, ℕ_discrete, ltb, leb, ◌==◌, if◌then◌else◌,
  ltb→lt, lt→ltb, ltb-false→le, ==_iff, Bool-cases, Option-cases, is_some, u64_max, saturating_add,
  length, get_elem?, set, take, drop, is_empty, remove, length-append, length-take, length-drop,
  length-remove, length-set, All, All-append, All-remove, All-set, All-get_elem?, sum_of,
  sum_of-set, sum_of-get_elem?,
}

pub record LiteralExtractor : Type 0 where
  pub bools : List Bool
  pub uints : List (ℕ × List ℕ)
  pub ints : List (ℕ × List ℕ)
  pub fixed : List (ℕ × List ℕ)
  pub addresses : List (List ℕ)
  pub byte_strings : List (List ℕ)
  pub strings : List (List ℕ)

-- `get(..)`, or no literals.
unfoldable pub group : ℕ → List (ℕ × List ℕ) → List ℕ
group key [] = []
group key ((k, vs) ∷ m) = if k == key then vs else group key m

-- `entry(..).or_default().push(..)`.
unfoldable pub push : ℕ → ℕ → List (ℕ × List ℕ) → List (ℕ × List ℕ)
push key v [] = (key, v ∷ []) ∷ []
push key v ((k, vs) ∷ m) = if k == key then (k, vs ++ v ∷ []) ∷ m else (k, vs) ∷ push key v m

unfoldable pub uint : LiteralExtractor → ℕ → List ℕ
uint e bits = group bits e.uints

unfoldable pub int : LiteralExtractor → ℕ → List ℕ
int e bits = group bits e.ints

unfoldable pub fixed_bytes : LiteralExtractor → ℕ → List ℕ
fixed_bytes e size = group size e.fixed

-- The bits up to the highest set one: what `256 - leading_zeros` is.
unfoldable pub magnitude_bits : ℕ → ℕ → ℕ
magnitude_bits zero v = 0
magnitude_bits (suc n) v = if v == 0 then 0 else suc (magnitude_bits n (v / 2))

-- `div_ceil(8) * 8`.
abbrev pub whole_bytes : ℕ → ℕ
whole_bytes n = (n + 7) / 8 * 8

-- `(from..=to).step_by(step)`, for `n` further rounds.
unfoldable pub push_from : ℕ → ℕ → ℕ → ℕ → List (ℕ × List ℕ) → List (ℕ × List ℕ)
push_from step key v zero m = m
push_from step key v (suc n) m = push_from step (key + step) v n (push key v m)

-- The rounds of the steps of `step` from `from` up to `to`.
abbrev pub rounds : ℕ → ℕ → ℕ → ℕ
rounds step from to = if leb from to then (to - from) / step + 1 else 0

abbrev pub uint_width : ℕ → ℕ
uint_width v = max (whole_bytes (magnitude_bits 256 v)) 8

unfoldable pub push_uint : ℕ → List (ℕ × List ℕ) → List (ℕ × List ℕ)
push_uint v m = push_from 8 (uint_width v) v (rounds 8 (uint_width v) 256) m

-- `is_negative`, and the absolute value `(!raw).wrapping_add(1)`.
abbrev pub is_negative : ℕ → Bool
is_negative raw = leb (2 ^ 255) raw

abbrev pub negated : ℕ → ℕ
negated raw = (2 ^ 256 - 1 - raw + 1) % 2 ^ 256

unfoldable pub count_ones : ℕ → ℕ → ℕ
count_ones zero v = 0
count_ones (suc n) v = v % 2 + count_ones n (v / 2)

abbrev pub absolute : ℕ → ℕ
absolute raw = if is_negative raw then negated raw else raw

-- The branches for zero, a positive value, the negative of a power of two, and the others.
abbrev pub signed_bits : ℕ → ℕ
signed_bits raw =
    let bits = magnitude_bits 256 (absolute raw) in
    if raw == 0
    then 8
    else if not (is_negative raw)
    then whole_bytes (bits + 1)
    else if count_ones 256 (absolute raw) == 1
    then whole_bytes bits
    else whole_bytes (bits + 1)

-- `clamp(8, 256)`.
abbrev pub int_width : ℕ → ℕ
int_width raw = min (max (signed_bits raw) 8) 256

unfoldable pub push_int : ℕ → List (ℕ × List ℕ) → List (ℕ × List ℕ)
push_int raw m = push_from 8 (int_width raw) raw (rounds 8 (int_width raw) 256) m

unfoldable pub push_fixed_bytes : ℕ → ℕ → List (ℕ × List ℕ) → List (ℕ × List ℕ)
push_fixed_bytes v min_size m = push_from 1 min_size v (rounds 1 min_size 32) m
