-- ===== src/Tests/Values.antt =====
-- Runs of the random values.
use ripfuzz.Prelude.{ℕ, ◌-◌, ◌^◌, ◌≡◌, inl, inr, List, [], ◌∷◌, arith, ltb, ◌==◌, Bool-cases}
use ripfuzz.Rng.{tape}
use ripfuzz.Rng.Draw.{Gives}
use ripfuzz.Tester.Literals as Literals
use ripfuzz.Tester.Literals.{LiteralExtractor, group, push_uint, push_int}
use ripfuzz.Tester.Literals.Widths.{pushed, fits, push_uint-group, push_int-group}
use ripfuzz.Tester.Values.Types.{
  SolType, uint, int, array, tuple, bytes, fixed_bytes, none_left, type, value,
}
use ripfuzz.Tester.Values.Typed.{AreLiterals, HasType, value-HasType}

-- The literal of type `int8` is -1.
abbrev pool : LiteralExtractor
pool = record {
  bools = [];
  uints = (8, 7 ∷ []) ∷ [];
  ints = (8, (2 ^ 256 - 1) ∷ []) ∷ [];
  fixed = [];
  addresses = [];
  byte_strings = (1 ∷ 2 ∷ []) ∷ [];
  strings = [];
}

pool-AreLiterals : AreLiterals pool
unfolding Literals.int group
pool-AreLiterals = record {
  words =
      λ bits. elim (Bool-cases (8 == bits)) [ inl z ↦ rw z (omega arith, tt) | inr z ↦ rw z tt ];
  addresses = tt;
  byte_strings = ((omega arith, (omega arith, tt)), tt);
}

abbrev shape : SolType
shape = tuple (type (array (uint 8)) (type (int 8) (type bytes (type (fixed_bytes 4) none_left))))

-- An array of a literal and an edge case, then a literal, then two random bytes, and an edge case.
abbrev draws : List ℕ
draws = 2 ∷ 0 ∷ 0 ∷ 30 ∷ 2 ∷ 0 ∷ 0 ∷ 60 ∷ 2 ∷ 300 ∷ 4 ∷ 30 ∷ 3 ∷ []

value-HasType_example : Gives (HasType tape shape) (value tape pool shape draws)
value-HasType_example = value-HasType tape pool shape draws pool-AreLiterals (
  (omega arith, omega arith),
  ((omega arith, omega arith), (tt, ((omega arith, omega arith), tt))),
)

-- 300 takes two bytes.
push_uint-group_example :
    group 16 (push_uint 300 ((16, 7 ∷ []) ∷ []))
    ≡ pushed (ltb 300 (2 ^ 16)) 300 (group 16 ((16, 7 ∷ []) ∷ []))
push_uint-group_example =
    push_uint-group 300 2 ((16, 7 ∷ []) ∷ []) (omega arith) (omega arith) (omega arith)

-- -128 fits one byte.
push_int-group_example :
    group 8 (push_int (2 ^ 256 - 128) [])
    ≡ pushed (fits 8 (2 ^ 256 - 128)) (2 ^ 256 - 128) (group 8 [])
push_int-group_example =
    push_int-group (2 ^ 256 - 128) 1 [] (omega arith) (omega arith) (omega arith)
