-- ===== src/Tester/Values/Typed.antt =====
-- The types of the random values (`value` of src/tester/corpus/rvg.rs).
use ripfuzz.Prelude.{ℕ, zero, suc, ◌^◌, ◌≤◌, ◌<◌, ◌≡◌, ◌⊎◌, inl, inr, refl, ap, List, arith, All}
use ripfuzz.Tester.Values.Padding.{Padded, Padded-Sized, left_aligned-Padded, fixed_edge-Padded}
use ripfuzz.Outcome.{Returns-map}
use ripfuzz.Rng.{Rng}
use ripfuzz.Rng.Draw.{Draw, draw, Gives, Gives-bind}
use ripfuzz.Tester.Literals.{LiteralExtractor}
use ripfuzz.Tester.Literals as Literals
use ripfuzz.Tester.Values as Values
use ripfuzz.Tester.Values.{mixed}
use ripfuzz.Tester.Values.Sources.{mixed-Gives}
use ripfuzz.Tester.Values.Ranges.{IsSigned}
use ripfuzz.Tester.Values.Integers.{uint-lt, int-IsSigned, All-always}
use ripfuzz.Tester.Values.Bytes as Bytes
use ripfuzz.Tester.Values.Bytes.{
  replicate, to_be_bytes, left_aligned, fill_first, write_last, below_max, fixed_edge, address_edge,
  bytes_edge, random_bytes, random_string,
}
use ripfuzz.Tester.Values.Types.{
  SolType, SolTypes, bool, address, bytes, string, function, uint, int, fixed_bytes, array,
  fixed_array, tuple, none_left, type, SolValue, SolValues, bool_value, uint_value, int_value,
  fixed_bytes_value, address_value, bytes_value, string_value, function_value, array_value,
  fixed_array_value, tuple_value, no_values, value_of, repeat, value, values,
}
use ripfuzz.Tester.Values.Sizes.{
  AreBytes, Sized, Sized-to_be_bytes, address_edge-Sized, bytes_edge-AreBytes,
}

abbrev pub IsWidth : ℕ → Type 0
IsWidth bits = (1 ≤ bits) × (bits ≤ 256)

-- The types whose widths and sizes Solidity has.
abbrev mutual
  pub IsType : SolType → Type 0
  IsType (uint bits) = IsWidth bits
  IsType (int bits) = IsWidth bits
  IsType (fixed_bytes size) = (1 ≤ size) × (size ≤ 32)
  IsType (array t) = IsType t
  IsType (fixed_array t n) = IsType t
  IsType (tuple ts) = AreTypes ts
  IsType _ = Unit {0}

  pub AreTypes : SolTypes → Type 0
  AreTypes none_left = Unit {0}
  AreTypes (type t ts) = IsType t × AreTypes ts

abbrev pub count : SolValues → ℕ
count no_values = 0
count (value_of v vs) = suc (count vs)

abbrev pub Every : (SolValue → Type 0) → SolValues → Type 0
Every P no_values = Unit {0}
Every P (value_of v vs) = P v × Every P vs

module _ (r : Rng) where
  -- The 32 random bytes that a `bytesN` of any size is drawn as, those beyond its size included.
  abbrev pub IsDrawn : List ℕ → Type 0
  IsDrawn word = (g : r.Gen) × (word ≡ (r.fill 32 g).0)

  abbrev pub IsFixedBytes : ℕ → List ℕ → Type 0
  IsFixedBytes size word = Sized 32 word × (Padded size word ⊎ IsDrawn word)

  abbrev mutual
    pub HasType : SolType → SolValue → Type 0
    HasType bool (bool_value b) = Unit {0}
    HasType (uint bits) (uint_value v n) = (n ≡ bits) × (v < 2 ^ bits)
    HasType (int bits) (int_value v n) = (n ≡ bits) × IsSigned bits v
    HasType (fixed_bytes size) (fixed_bytes_value b n) = (n ≡ size) × IsFixedBytes size b
    HasType address (address_value a) = Sized 20 a
    HasType bytes (bytes_value b) = AreBytes b
    HasType string (string_value s) = Unit {0}
    HasType function (function_value f) = Sized 24 f
    HasType (array t) (array_value vs) = Every (HasType t) vs × (count vs ≤ 4)
    HasType (fixed_array t n) (fixed_array_value vs) = Every (HasType t) vs × (count vs ≡ n)
    HasType (tuple ts) (tuple_value vs) = HaveTypes ts vs
    HasType _ _ = ⊥

    pub HaveTypes : SolTypes → SolValues → Type 0
    HaveTypes none_left no_values = Unit {0}
    HaveTypes (type t ts) (value_of v vs) = HasType t v × HaveTypes ts vs
    HaveTypes _ _ = ⊥

-- What the extractor's pools hold.
pub record AreLiterals (e : LiteralExtractor) : Type 0 where
  pub words : (bits : ℕ) → All (λ v. v < 2 ^ 256) (Literals.int e bits)
  pub addresses : All (Sized 20) e.addresses
  pub byte_strings : All AreBytes e.byte_strings

module _ (r : Rng) (literals : LiteralExtractor) (pools : AreLiterals literals) where
  fixed_bytes-IsFixedBytes :
      (size : ℕ) (g : r.Gen)
      → 1 ≤ size
      → size ≤ 32
      → Gives (IsFixedBytes r size) (Bytes.fixed_bytes r literals size g)
  unfolding Bytes.fixed_bytes
  fixed_bytes-IsFixedBytes size g pos le =
      mixed-Gives r (IsFixedBytes r size) (Literals.fixed_bytes literals size) _ 6 (fixed_edge size)
        (draw (r.fill 32))
        (All-always _ (Literals.fixed_bytes literals size)
          (λ v. (Sized-to_be_bytes 32 _, inl (left_aligned-Padded size v le))))
        (omega arith)
        (λ e h.
          Returns-map (fixed_edge size e) (Padded size) (IsFixedBytes r size)
            (λ w p. (Padded-Sized size w le p, inl p)) (fixed_edge-Padded size e pos le))
        (λ g1. (r.fill-bytes 32 g1, inr (g1, refl))) g

  address-Sized : (g : r.Gen) → Gives (Sized 20) (Bytes.address r literals g)
  unfolding Bytes.address
  address-Sized g =
      mixed-Gives r (Sized 20) literals.addresses _ 6 _ (draw (r.fill 20)) pools.addresses
        (omega arith) (λ e h. address_edge-Sized e) (λ g1. r.fill-bytes 20 g1) g

  bytes-AreBytes : (g : r.Gen) → Gives AreBytes (Bytes.bytes r literals g)
  unfolding Bytes.bytes random_bytes
  bytes-AreBytes g =
      mixed-Gives r AreBytes literals.byte_strings _ 6 _ (random_bytes r) pools.byte_strings
        (omega arith) (λ e h. bytes_edge-AreBytes e)
        (λ g1. (r.fill-bytes (r.within 0 64 g1).0 (r.within 0 64 g1).1).1) g

  letters-Gives : (n : ℕ) (g : r.Gen) → Gives (λ _. Unit {0}) (Bytes.letters r n g)
  unfolding Bytes.letters
  letters-Gives zero g = tt
  letters-Gives (suc n) g =
      Gives-bind (Bytes.letters r n) _ (r.alphabetic g).1 (λ _. Unit {0}) (λ _. Unit {0})
        (letters-Gives n (r.alphabetic g).1) (λ cs g1 u. tt)

  string-Gives : (g : r.Gen) → Gives (λ _. Unit {0}) (Bytes.string r literals g)
  unfolding Bytes.string random_string
  string-Gives g =
      mixed-Gives r (λ _. Unit {0}) literals.strings _ 6 _ (random_string r)
        (All-always _ literals.strings (λ s. tt)) (omega arith) (λ e h. tt)
        (λ g1. letters-Gives (r.within 0 32 g1).0 (r.within 0 32 g1).1) g

  repeat-Every :
      (P : SolValue → Type 0) (one : Draw r.Gen SolValue)
      → ((g : r.Gen) → Gives P (one g))
      → (n : ℕ) (g : r.Gen) → Gives (λ vs. Every P vs × (count vs ≡ n)) (repeat r literals n one g)
  unfolding repeat
  repeat-Every P one h zero g = (tt, refl)
  repeat-Every P one h (suc n) g = Gives-bind one _ g P _ (h g) (λ v g1 hv.
      Gives-bind (repeat r literals n one) _ g1 (λ vs. Every P vs × (count vs ≡ n)) _
        (repeat-Every P one h n g1) (λ vs g2 hs. ((hv, hs.0), ap suc hs.1)))

  mutual
    unfolding value

    value-HasType-of :
        (t : SolType) (g : r.Gen) → IsType t → Gives (HasType r t) (value r literals t g)
    value-HasType-of bool g h = tt
    value-HasType-of (uint size) g h =
        Gives-bind (Values.uint r literals size) _ g _ (HasType r (uint size))
          (uint-lt r literals size g h.0 h.1) (λ v g1 lt. (refl, lt))
    value-HasType-of (int size) g h =
        Gives-bind (Values.int r literals size) _ g _ (HasType r (int size))
          (int-IsSigned r literals size g h.0 h.1 (pools.words size)) (λ v g1 s. (refl, s))
    value-HasType-of (fixed_bytes size) g h =
        Gives-bind (Bytes.fixed_bytes r literals size) _ g _ (HasType r (fixed_bytes size))
          (fixed_bytes-IsFixedBytes size g h.0 h.1) (λ b g1 s. (refl, s))
    value-HasType-of address g h =
        Gives-bind (Bytes.address r literals) _ g _ (HasType r address) (address-Sized g)
          (λ a g1 s. s)
    value-HasType-of bytes g h =
        Gives-bind (Bytes.bytes r literals) _ g _ (HasType r bytes) (bytes-AreBytes g) (λ a g1 s. s)
    value-HasType-of string g h =
        Gives-bind (Bytes.string r literals) _ g _ (HasType r string) (string-Gives g) (λ a g1 s. s)
    value-HasType-of function g h = r.fill-bytes 24 g
    value-HasType-of (array t) g h =
        let (len, g1) = r.within 0 4 g in
        Gives-bind (repeat r literals len (value r literals t)) _ g1
          (λ vs. Every (HasType r t) vs × (count vs ≡ len)) (HasType r (array t))
          (repeat-Every (HasType r t) (value r literals t) (λ g2. value-HasType-of t g2 h) len g1)
          (λ vs g2 s. (s.0, omega (arith, s.1, r.within-le 0 4 g (omega arith))))
    value-HasType-of (fixed_array t n) g h =
        Gives-bind (repeat r literals n (value r literals t)) _ g
          (λ vs. Every (HasType r t) vs × (count vs ≡ n)) (HasType r (fixed_array t n))
          (repeat-Every (HasType r t) (value r literals t) (λ g2. value-HasType-of t g2 h) n g)
          (λ vs g2 s. s)
    value-HasType-of (tuple ts) g h =
        Gives-bind (values r literals ts) _ g (HaveTypes r ts) (HasType r (tuple ts))
          (values-HaveTypes ts g h) (λ vs g1 s. s)

    values-HaveTypes :
        (ts : SolTypes) (g : r.Gen) → AreTypes ts → Gives (HaveTypes r ts) (values r literals ts g)
    values-HaveTypes none_left g h = tt
    values-HaveTypes (type t ts) g h =
        Gives-bind (value r literals t) _ g (HasType r t) (HaveTypes r (type t ts))
          (value-HasType-of t g h.0)
          (λ v g1 hv.
            Gives-bind (values r literals ts) _ g1 (HaveTypes r ts) (HaveTypes r (type t ts))
              (values-HaveTypes ts g1 h.1) (λ vs g2 hs. (hv, hs)))

-- Whatever is drawn, a value is returned for every type of Solidity, nested ones too, and it has that
-- type: integers are in the range of their width, addresses and functions have their sizes, arrays their
-- lengths, and tuples a value for each component. A `bytesN` is N bytes followed by zeros, or one of the
-- draws of 32 random bytes. The pools hold words, addresses and bytes, and the widths and sizes are
-- those of Solidity.
pub value-HasType :
    (r : Rng) (literals : LiteralExtractor) (t : SolType) (g : r.Gen)
    → AreLiterals literals
    → IsType t
    → Gives (HasType r t) (value r literals t g)
value-HasType r literals t g pools h = value-HasType-of r literals pools t g h
