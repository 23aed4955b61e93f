-- ===== src/Maxer/Delta.antt =====
-- src/maxer/delta.rs: signed changes of a harness value. A `uint256` is a native number; its bit
-- length comes from the integer crate, and is a parameter of `activity`.
pub mod Order
use ripfuzz.Prelude.{
  ℕ, ◌-◌, ◌*◌, Bool, true, false, not, ◌&&◌, Ordering, compare, leb, ◌==◌, saturating_add, u64_max,
  ltb, if◌then◌else◌,
}

pub record Delta : Type 0 where
  pub negative : Bool
  pub magnitude : ℕ

unfoldable pub new : Bool → ℕ → Delta
new negative magnitude =
    if magnitude == 0
    then record { negative = false; magnitude = magnitude }
    else record { negative = negative; magnitude = magnitude }

unfoldable pub between : ℕ → ℕ → Delta
unfolding new
between before after =
    if leb before after then new false (after - before) else new true (before - after)

pub zero_delta : Delta
unfolding new
zero_delta = new false 0

unfoldable pub is_zero : Delta → Bool
is_zero d = d.magnitude == 0

unfoldable pub is_negative : Delta → Bool
is_negative d = d.negative

unfoldable pub is_positive : Delta → Bool
is_positive d = not d.negative && not (d.magnitude == 0)

-- `u64::saturating_mul`.
abbrev saturating_mul : ℕ → ℕ → ℕ
saturating_mul a b = if ltb u64_max (a * b) then u64_max else a * b

unfoldable pub activity : (ℕ → ℕ) → Delta → ℕ
unfolding is_zero
activity bit_len d =
    if is_zero d then 0 else saturating_mul (saturating_add (bit_len d.magnitude) 1) 8

abbrev by_sign : Bool → Bool → ℕ → ℕ → Ordering
by_sign true false m n = Ordering.lt
by_sign false true m n = Ordering.gt
by_sign true true m n = compare n m
by_sign false false m n = compare m n

unfoldable pub cmp : Delta → Delta → Ordering
cmp a b = by_sign a.negative b.negative a.magnitude b.magnitude

-- `<` and `>` of the derived comparison operators.
abbrev pub lt_delta : Delta → Delta → Bool
lt_delta a b = elim (cmp a b) [ Ordering.lt ↦ true | _ ↦ false ]
