-- ===== src/Tester/Values/Ranges.antt =====
-- The ranges of the random integers (`src/tester/corpus/rvg.rs`).
use Prim.Native.Nat.{bit_and, bit_or, bit_xor}
use native.Mathlib.Nat.{mod-eq_of_lt, two-pow-succ, one-le-pow}
use ripfuzz.Prelude.{
  ℕ, zero, suc, ◌+◌, ◌-◌, ◌*◌, ◌%◌, ◌^◌, ◌≤◌, ◌<◌, ◌≡◌, refl, ap, ◌∙◌, ◌⊎◌, inl, inr, arith, dec_lt,
  ltb, ◌==◌, if◌then◌else◌, Bool-cases,
}
use ripfuzz.Bits.{bit_and_mask}
use ripfuzz.Bits.Masks.{two_pow_add, two_pow_mono, bit_and-power, bit_xor-mask, bit_or-high}
use ripfuzz.Tester.Values.{
  max_for_bits, max_positive_for_bits, sign_bit, mask, sign_extend, u256_max,
}

-- The patterns of the signed integers of `bits` bits, in a word of 256.
abbrev pub IsSigned : ℕ → ℕ → Type 0
IsSigned bits v = (v < 2 ^ (bits - 1)) ⊎ ((2 ^ 256 - 2 ^ (bits - 1) ≤ v) × (v < 2 ^ 256))

pub max_for_bits-eq : (bits : ℕ) → 1 ≤ bits → bits ≤ 256 → max_for_bits bits ≡ 2 ^ bits - 1
unfolding max_for_bits
max_for_bits-eq bits pos le = elim (dec_lt bits 256) [
  | yes lt ↦ ground arith
  | no ge ↦ let e : bits ≡ 256 = omega arith in rw e refl
]

-- A width with the powers that its words are made of: `low` is 2 ^ (bits - 1).
record Width (bits low : ℕ) : Type 0 where
  half : 2 ^ (bits - 1) ≡ low
  whole : 2 ^ bits ≡ 2 * low
  some_bits : 1 ≤ low
  fits : low ≤ 2 ^ 255

width : (bits : ℕ) → 1 ≤ bits → bits ≤ 256 → Width bits (2 ^ (bits - 1))
width bits pos le =
    let s : bits ≡ suc (bits - 1) = omega arith in
    record {
      half = refl;
      whole = ap (λ n. 2 ^ n) s ∙ omega (arith, two-pow-succ (bits - 1));
      some_bits = one-le-pow (bits - 1) 2 (omega arith);
      fits = two_pow_mono (bits - 1) 255 (omega arith);
    }

pub mask-eq : (bits : ℕ) → 1 ≤ bits → bits ≤ 256 → mask bits ≡ 2 ^ bits - 1
unfolding mask
mask-eq bits pos le = elim (dec_lt bits 256) [
  | yes lt ↦ ground arith
  | no ge ↦ let e : bits ≡ 256 = omega arith in rw e refl
]

pub sign_bit-eq : (bits : ℕ) → 1 ≤ bits → bits ≤ 256 → sign_bit bits ≡ 2 ^ (bits - 1)
unfolding sign_bit
sign_bit-eq bits pos le = elim (dec_lt bits 256) [
  | yes lt ↦ ground arith
  | no ge ↦ let e : bits ≡ 256 = omega arith in rw e refl
]

pub max_positive_for_bits-eq :
    (bits : ℕ) → 1 ≤ bits → bits ≤ 256 → max_positive_for_bits bits ≡ 2 ^ (bits - 1) - 1
unfolding max_positive_for_bits
max_positive_for_bits-eq bits pos le = elim (dec_lt bits 256) [
  | yes lt ↦ ground arith
  | no ge ↦ let e : bits ≡ 256 = omega arith in rw e refl
]

pred_mul : (q b : ℕ) → 1 ≤ q → (q - 1) * b ≡ q * b - b
pred_mul zero b h = absurd (omega arith)
pred_mul (suc q) b h =
    let e : suc q - 1 ≡ q = omega arith in
    let f : suc q * b ≡ q * b + b = grind arith in rw e (omega (arith, f))

-- The bits above the mask.
above_mask :
    (bits : ℕ) → bits ≤ 256 → bit_xor u256_max (2 ^ bits - 1) ≡ (2 ^ (256 - bits) - 1) * 2 ^ bits
above_mask bits le =
    let s : bits + (256 - bits) ≡ 256 = omega arith in
    let t : 256 - bits + bits ≡ 256 = omega arith in
    let x : bit_xor (2 ^ 256 - 1) (2 ^ bits - 1) ≡ 2 ^ 256 - 2 ^ bits =
      rw s at (bit_xor-mask (256 - bits) bits) in
    let y : 2 ^ 256 ≡ 2 ^ (256 - bits) * 2 ^ bits = rw t at (two_pow_add (256 - bits) bits) in
    let p = pred_mul (2 ^ (256 - bits)) (2 ^ bits) (one-le-pow (256 - bits) 2 (omega arith)) in
    x ∙ omega (arith, y, p)

sign_extend-unfold :
    (raw bits : ℕ)
    → 1 ≤ bits
    → bits < 256
    → sign_extend raw bits ≡ (
        let v = bit_and raw (mask bits) in
        if bit_and v (sign_bit bits) == 0 then v else bit_or v (bit_xor u256_max (mask bits)))
unfolding sign_extend
sign_extend-unfold raw bits pos lt = ground arith

-- The low bits, with the sign bit copied upwards.
pub sign_extend-eq :
    (raw bits : ℕ)
    → 1 ≤ bits
    → bits < 256
    → let v = raw % 2 ^ bits in
      sign_extend raw bits
      ≡ (if ltb v (2 ^ (bits - 1)) then v else (2 ^ (256 - bits) - 1) * 2 ^ bits + v)
sign_extend-eq raw bits pos lt =
    let w = width bits pos (omega arith) in
    let v = raw % 2 ^ bits in
    let s : suc (bits - 1) ≡ bits = omega arith in
    let small : v < 2 ^ bits = grind (arith, w.whole, w.some_bits) in
    let sb : bit_and v (2 ^ (bits - 1)) ≡ (if ltb v (2 ^ (bits - 1)) then 0 else 2 ^ (bits - 1)) =
      bit_and-power (bits - 1) v (rw s small) in
    sign_extend-unfold raw bits pos lt
    ∙ rw
        (
          mask-eq bits pos (omega arith),
          sign_bit-eq bits pos (omega arith),
          bit_and_mask bits raw,
          sb,
        )
        (elim (Bool-cases (ltb v (2 ^ (bits - 1)))) [
          | inl z ↦ rw z refl
          | inr z ↦ rw z (
              rw (above_mask bits (omega arith), bit_or-high bits (2 ^ (256 - bits) - 1) v small)
                (ground (arith, w.some_bits)))
        ])

pub sign_extend_full : (raw : ℕ) → sign_extend raw 256 ≡ raw % 2 ^ 256
unfolding sign_extend mask
sign_extend_full raw = bit_and_mask 256 raw

pub sign_extend-IsSigned :
    (raw bits : ℕ) → 1 ≤ bits → bits ≤ 256 → IsSigned bits (sign_extend raw bits)
sign_extend-IsSigned raw bits pos le = elim (dec_lt bits 256) [
  | yes lt ↦
      let w = width bits pos le in
      let v = raw % 2 ^ bits in
      let small : v < 2 ^ bits = grind (arith, w.whole, w.some_bits) in
      let t : 256 - bits + bits ≡ 256 = omega arith in
      let y : 2 ^ 256 ≡ 2 ^ (256 - bits) * 2 ^ bits = rw t at (two_pow_add (256 - bits) bits) in
      let p = pred_mul (2 ^ (256 - bits)) (2 ^ bits) (one-le-pow (256 - bits) 2 (omega arith)) in
      rw (sign_extend-eq raw bits pos lt) (elim (dec_lt v (2 ^ (bits - 1))) [
        | yes low ↦ inl (ground arith)
        | no high ↦ inr (ground (arith, y, p, w.whole, small), ground (arith, y, p, small))
      ])
  | no ge ↦
      let e : bits ≡ 256 = omega arith in
      rw e (
        let f = sign_extend_full raw in
        elim (dec_lt (sign_extend raw 256) (2 ^ 255)) [
          | yes low ↦ inl low
          | no high ↦ inr (omega arith, omega (arith, f))
        ])
]

-- The least signed integer.
pub sign_extend-sign_bit :
    (bits : ℕ) → 1 ≤ bits → bits ≤ 256 → sign_extend (sign_bit bits) bits ≡ 2 ^ 256 - 2 ^ (bits - 1)
sign_extend-sign_bit bits pos le = rw (sign_bit-eq bits pos le) (elim (dec_lt bits 256) [
  | yes lt ↦
      let w = width bits pos le in
      let low = 2 ^ (bits - 1) in
      let t : 256 - bits + bits ≡ 256 = omega arith in
      let y : 2 ^ 256 ≡ 2 ^ (256 - bits) * 2 ^ bits = rw t at (two_pow_add (256 - bits) bits) in
      let p = pred_mul (2 ^ (256 - bits)) (2 ^ bits) (one-le-pow (256 - bits) 2 (omega arith)) in
      let one = one-le-pow (256 - bits) 2 (omega arith) in
      let big : 2 ^ bits ≤ 2 ^ 256 = two_pow_mono bits 256 le in
      let v : low % 2 ^ bits ≡ low = mod-eq_of_lt (omega (arith, w.whole, w.some_bits)) in
      rw (sign_extend-eq low bits pos lt, v)
        (ground (arith, y, p, w.whole, w.some_bits, w.fits, big))
  | no ge ↦ let e : bits ≡ 256 = omega arith in rw e (sign_extend_full (2 ^ 255))
])
