-- ===== src/Tester/Values.antt =====
-- Random argument values (`src/tester/corpus/rvg.rs`): the integers. A `uint256` is its number, and an
-- `int256` its 256-bit pattern.
pub mod Sources
pub mod Ranges
pub mod Integers
pub mod Bytes
pub mod Types
pub mod Sizes
pub mod Padding
pub mod Typed
use Prim.Native.Nat.{bit_and, bit_or, bit_xor}
use ripfuzz.Prelude.{
  ℕ, zero, suc, ◌+◌, ◌-◌, ◌%◌, ◌^◌, Bool, ◌&&◌, Option, none, some, List, [], ◌∷◌, ltb, leb, ◌==◌,
  if◌then◌else◌, length, get_elem?,
}
use ripfuzz.Outcome.{ok, Result, panicked, context}
use ripfuzz.Rng.{Rng}
use ripfuzz.Rng.Draw.{Draw, pure, lift, draw, ◌>>=◌}
use ripfuzz.Coverage.Edge.{from_be_bytes}
use ripfuzz.Tester.Literals as Literals
use ripfuzz.Tester.Literals.{LiteralExtractor}

-- `U256::MAX`.
abbrev pub u256_max : ℕ
u256_max = 2 ^ 256 - 1

unfoldable pub max_for_bits : ℕ → ℕ
max_for_bits bits = if bits == 0 then 0 else if leb 256 bits then u256_max else 2 ^ bits - 1

unfoldable pub max_positive_for_bits : ℕ → ℕ
max_positive_for_bits bits =
    if bits == 0 then 0 else if leb 256 bits then 2 ^ 255 - 1 else 2 ^ (bits - 1) - 1

unfoldable pub sign_bit : ℕ → ℕ
sign_bit bits = if bits == 0 then 0 else if leb 256 bits then 2 ^ 255 else 2 ^ (bits - 1)

unfoldable pub mask : ℕ → ℕ
mask bits = if bits == 0 then 0 else if leb 256 bits then u256_max else 2 ^ bits - 1

unfoldable pub sign_extend : ℕ → ℕ → ℕ
sign_extend raw bits =
    if bits == 0
    then 0
    else (let m = mask bits in
        let value = bit_and raw m in
        if leb 256 bits
        then value
        else if bit_and value (sign_bit bits) == 0
        then value
        else bit_or value (bit_xor u256_max m))

-- `<=` of two patterns, as signed integers.
abbrev pub signed_le : ℕ → ℕ → Bool
signed_le a b = leb ((a + 2 ^ 255) % 2 ^ 256) ((b + 2 ^ 255) % 2 ^ 256)

-- The edge cases; the subtractions saturate.
abbrev pub uint_edge : ℕ → ℕ → ℕ
uint_edge most zero = 0
uint_edge most (suc zero) = 1
uint_edge most (suc (suc zero)) = most
uint_edge most (suc (suc (suc zero))) = most - 1
uint_edge most (suc (suc (suc (suc zero)))) = most - 2
uint_edge most _ = most - 3

-- The operators on `U256` wrap.
abbrev pub int_edge : ℕ → ℕ → ℕ
int_edge bits zero = sign_bit bits
int_edge bits (suc zero) = (sign_bit bits + 1) % 2 ^ 256
int_edge bits (suc (suc zero)) = mask bits
int_edge bits (suc (suc (suc zero))) = 0
int_edge bits (suc (suc (suc (suc zero)))) = 1
int_edge bits (suc (suc (suc (suc (suc zero))))) =
    (max_positive_for_bits bits + 2 ^ 256 - 1) % 2 ^ 256
int_edge bits _ = max_positive_for_bits bits

module _ (r : Rng) where
  -- A random item, or none of an empty slice.
  unfoldable pub pick : {A : Type 0} → List A → Draw r.Gen (Option A)
  pick [] = pure none
  pick (x ∷ xs) = do
    i ← draw (r.below (length (x ∷ xs)))
    item ← lift (context panicked (get_elem? (x ∷ xs) i))
    pure (some item)

-- The three sources of a value: a literal in a fifth of the draws, which falls back to the random
-- value if there is none that is accepted, an edge case in three tenths, and else a random value.
module _ (r : Rng) {A B : Type 0} (pool : List A) (accept : A → Result (Option B)) (edges : ℕ)
    (edge : ℕ → Result B) (random : Draw r.Gen B) where
  abbrev pub or_random : Option B → Draw r.Gen B
  or_random none = random
  or_random (some b) = pure b

  abbrev pub accepted : Option A → Draw r.Gen B
  accepted none = random
  accepted (some a) = do b ← lift (accept a); or_random b

  unfoldable pub literal : Draw r.Gen B
  literal = do a ← pick r pool; accepted a

  unfoldable pub edge_case : Draw r.Gen B
  edge_case = do e ← draw (r.below edges); lift (edge e)

  unfoldable pub mixed : Draw r.Gen B
  unfolding literal edge_case pick
  mixed = do
    roll ← draw (r.below 100)
    if ltb roll 20 then literal else if ltb roll 50 then edge_case else random

module _ (r : Rng) (literals : LiteralExtractor) where
  -- `from_be_bytes` of 32 random bytes.
  unfoldable pub random_word : Draw r.Gen ℕ
  random_word = do bytes ← draw (r.fill 32); pure (from_be_bytes 0 bytes)

  unfoldable pub random_uint : ℕ → Draw r.Gen ℕ
  unfolding random_word
  random_uint bits = do
    raw ← random_word
    pure (if bits == 256 then raw else bit_and raw (max_for_bits bits))

  unfoldable pub random_int : ℕ → Draw r.Gen ℕ
  unfolding random_word
  random_int bits = do raw ← random_word; pure (sign_extend raw bits)

  abbrev pub accept_uint : ℕ → ℕ → Result (Option ℕ)
  accept_uint bits v = ok (if leb v (max_for_bits bits) then some v else none)

  abbrev pub accept_int : ℕ → ℕ → Result (Option ℕ)
  accept_int bits v = ok (
      if signed_le (sign_extend (sign_bit bits) bits) v && signed_le v (max_positive_for_bits bits)
      then some v
      else none)

  unfoldable pub uint : ℕ → Draw r.Gen ℕ
  uint bits =
      mixed r (Literals.uint literals bits) (accept_uint bits) 6
        (λ e. ok (uint_edge (max_for_bits bits) e)) (random_uint bits)

  unfoldable pub int : ℕ → Draw r.Gen ℕ
  int bits =
      mixed r (Literals.int literals bits) (accept_int bits) 7
        (λ e. ok (sign_extend (int_edge bits e) bits)) (random_int bits)
