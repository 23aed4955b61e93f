-- ===== src/Tester/Values/Integers.antt =====
-- The random integers and their widths (`uint` and `int` of `src/tester/corpus/rvg.rs`).
use native.Mathlib.Nat.{pow-succ', mul-le-mul_right, one-le-pow}
use Prim.Native.Nat.{bit_and}
use ripfuzz.Prelude.{
  ℕ, zero, suc, ◌+◌, ◌-◌, ◌*◌, ◌^◌, ◌≤◌, ◌<◌, ◌≡◌, inl, inr, true, ◌&&◌, List, [], ◌∷◌, arith, leb,
  ◌==◌, if◌then◌else◌, Bool-cases, length, All,
}
use ripfuzz.Outcome.{ok, Returns}
use ripfuzz.Rng.{Rng}
use ripfuzz.Rng.Draw.{pure, Gives, Gives-bind}
use ripfuzz.Bits.{bit_and_mask}
use ripfuzz.Bits.Masks.{two_pow_mono}
use ripfuzz.Coverage.Edge.{from_be_bytes}
use ripfuzz.Tester.Literals.{LiteralExtractor}
use ripfuzz.Tester.Literals as Literals
use ripfuzz.Tester.Values.{
  max_for_bits, max_positive_for_bits, sign_bit, sign_extend, signed_le, uint_edge, int_edge,
  accept_uint, accept_int, random_word, random_uint, random_int, uint, int,
}
use ripfuzz.Tester.Values.Sources.{mixed-Gives, FromPool}
use ripfuzz.Tester.Values.Ranges.{
  sign_extend-sign_bit, IsSigned, max_for_bits-eq, max_positive_for_bits-eq, sign_extend-IsSigned,
}

pub All-always {ℓ} : {A : Type ℓ} (P : A → Type 0) (xs : List A) → ((x : A) → P x) → All P xs
All-always P [] h = tt
All-always P (x ∷ xs) h = (h x, All-always P xs h)

from_be_bytes-lt :
    (acc : ℕ) (bs : List ℕ)
    → All (λ b. b < 256) bs
    → from_be_bytes acc bs < (acc + 1) * 256 ^ length bs
unfolding from_be_bytes
from_be_bytes-lt acc [] h = omega arith
from_be_bytes-lt acc (b ∷ bs) h =
    let p = pow-succ' 256 (length bs) in
    let ih = from_be_bytes-lt (acc * 256 + b) bs h.1 in
    let m : (acc * 256 + b + 1) * 256 ^ length bs ≤ (acc * 256 + 256) * 256 ^ length bs =
      mul-le-mul_right (256 ^ length bs) (omega (arith, h.0)) in
    let e : (acc * 256 + 256) * 256 ^ length bs ≡ (acc + 1) * (256 * 256 ^ length bs) =
      grind arith in
    rw p (omega (arith, ih, m, e))

module _ (r : Rng) (literals : LiteralExtractor) where
  random_word-lt : (g : r.Gen) → Gives (λ v. v < 2 ^ 256) (random_word r literals g)
  unfolding random_word
  random_word-lt g =
      let (len, small) = r.fill-bytes 32 g in
      let h = from_be_bytes-lt 0 (r.fill 32 g).0 small in omega (arith, rw len at h)

  uint_edge-le : (most e : ℕ) → 1 ≤ most → uint_edge most e ≤ most
  uint_edge-le most zero h = omega arith
  uint_edge-le most (suc zero) h = omega arith
  uint_edge-le most (suc (suc zero)) h = omega arith
  uint_edge-le most (suc (suc (suc zero))) h = omega arith
  uint_edge-le most (suc (suc (suc (suc zero)))) h = omega arith
  uint_edge-le most (suc (suc (suc (suc (suc e))))) h = omega arith

  random_uint-lt :
      (bits : ℕ) (g : r.Gen)
      → 1 ≤ bits
      → bits ≤ 256
      → Gives (λ v. v < 2 ^ bits) (random_uint r literals bits g)
  unfolding random_uint
  random_uint-lt bits g pos le =
      Gives-bind (random_word r literals)
        (λ raw. pure (if bits == 256 then raw else bit_and raw (max_for_bits bits))) g
        (λ v. v < 2 ^ 256) (λ v. v < 2 ^ bits) (random_word-lt g)
        (λ raw g1 h. elim (Bool-cases (bits == 256)) [
          | inl z ↦ rw z (let e : bits ≡ 256 = ground (arith, z) in rw e h)
          | inr z ↦ rw z (
              rw (max_for_bits-eq bits pos le) (
                rw (bit_and_mask bits raw)
                  (let one = one-le-pow bits 2 (omega arith) in grind (arith, one))))
        ])

  -- Whatever the literals, a random unsigned integer is returned, and it fits its width.
  pub uint-lt :
      (bits : ℕ) (g : r.Gen)
      → 1 ≤ bits
      → bits ≤ 256
      → Gives (λ v. v < 2 ^ bits) (uint r literals bits g)
  unfolding uint
  uint-lt bits g pos le =
      let two : 2 ≤ 2 ^ bits = two_pow_mono 1 bits pos in
      let e = max_for_bits-eq bits pos le in
      mixed-Gives r (λ v. v < 2 ^ bits) (Literals.uint literals bits) (accept_uint r literals bits)
        6 _ (random_uint r literals bits)
        (All-always _ (Literals.uint literals bits) (λ v.
          elim (Bool-cases (leb v (max_for_bits bits))) [
            | inl z ↦ rw z (ground (arith, z, e, two))
            | inr z ↦ rw z tt
          ]))
        (omega arith)
        (λ i h.
          let le' = uint_edge-le (max_for_bits bits) i (omega (arith, e, two)) in
          omega (arith, le', e, two))
        (λ g1. random_uint-lt bits g1 pos le) g

  IsSigned-literal :
      (bits v : ℕ)
      → 1 ≤ bits
      → bits ≤ 256
      → v < 2 ^ 256
      → (signed_le (sign_extend (sign_bit bits) bits) v && signed_le v (max_positive_for_bits bits))
        ≡ true
      → IsSigned bits v
  IsSigned-literal bits v pos le small h =
      let low = two_pow_mono (bits - 1) 255 (omega arith) in
      let some_bits = one-le-pow (bits - 1) 2 (omega arith) in
      let e = max_positive_for_bits-eq bits pos le in
      let least = sign_extend-sign_bit bits pos le in
      ground (arith, h, small, low, some_bits, e, least)

  -- Whatever the literals, a random signed integer is returned, and it fits its width, when the
  -- literals are words.
  pub int-IsSigned :
      (bits : ℕ) (g : r.Gen)
      → 1 ≤ bits
      → bits ≤ 256
      → All (λ v. v < 2 ^ 256) (Literals.int literals bits)
      → Gives (IsSigned bits) (int r literals bits g)
  unfolding int random_int
  int-IsSigned bits g pos le words =
      mixed-Gives r (IsSigned bits) (Literals.int literals bits) (accept_int r literals bits) 7
        (λ e. ok (sign_extend (int_edge bits e) bits)) (random_int r literals bits)
        (accepts (Literals.int literals bits) words) (omega arith)
        (λ e h. sign_extend-IsSigned (int_edge bits e) bits pos le)
        (λ g1.
          Gives-bind (random_word r literals) (λ raw. pure (sign_extend raw bits)) g1
            (λ v. v < 2 ^ 256) (IsSigned bits) (random_word-lt g1)
            (λ raw g2 h. sign_extend-IsSigned raw bits pos le))
        g
    where
      accepts :
          (vs : List ℕ)
          → All (λ v. v < 2 ^ 256) vs
          → All (λ v. Returns (accept_int r literals bits v) (FromPool r (IsSigned bits))) vs
      accepts [] h = tt
      accepts (v ∷ vs) h = (
        elim (Bool-cases (
            signed_le (sign_extend (sign_bit bits) bits) v
            && signed_le v (max_positive_for_bits bits))) [
              | inl z ↦ rw z (IsSigned-literal bits v pos le h.0 z)
              | inr z ↦ rw z tt
            ],
        accepts vs h.1,
      )
