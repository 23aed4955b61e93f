-- ===== src/Tester/Literals/Widths.antt =====
-- The widths under which a literal is kept (`push_uint`, `push_int` of src/tester/corpus/literal.rs).
use native.Mathlib.Nat.{two-pow-succ, one-le-pow, pow-le-pow_right}
use ripfuzz.Prelude.{
  ℕ, zero, suc, ◌+◌, ◌-◌, ◌*◌, ◌/◌, ◌%◌, ◌^◌, ◌≤◌, ◌<◌, min, max, ◌≡◌, refl, ap, ◌∙◌, ◌≢◌, ◌↔◌,
  Bool, true, false, ◌&&◌, ◌||◌, List, [], ◌∷◌, ◌++◌, arith, dec_lt, dec_le, ℕ_discrete, ltb, leb,
  ◌==◌,
}
use ripfuzz.Tester.Literals.{
  group, push, push_from, push_uint, push_int, magnitude_bits, count_ones, whole_bytes, rounds,
  uint_width, int_width, signed_bits, absolute,
}

-- What a push does to a group.
abbrev pub pushed : Bool → ℕ → List ℕ → List ℕ
pushed true v vs = vs ++ v ∷ []
pushed false v vs = vs

group-push :
    (k key v : ℕ) (m : List (ℕ × List ℕ)) → group k (push key v m) ≡ pushed (key == k) v (group k m)
unfolding group push
group-push k key v [] = ground arith
group-push k key v ((k1, vs) ∷ m) = ground (arith, group-push k key v m)

-- Whether one of the `n` steps from `key` is `k`.
abbrev meets : ℕ → ℕ → ℕ → ℕ → Bool
meets step key zero k = false
meets step key (suc n) k = key == k || meets step (key + step) n k

meets-le : (step key n k : ℕ) → meets step key n k ≡ true → key ≤ k
meets-le step key zero k h = cc
meets-le step key (suc n) k h = ground (arith, meets-le step (key + step) n k)

group-push_from :
    (step key v n k : ℕ) (m : List (ℕ × List ℕ))
    → 0 < step
    → group k (push_from step key v n m) ≡ pushed (meets step key n k) v (group k m)
unfolding push_from
group-push_from step key v zero k m pos = refl
group-push_from step key v (suc n) k m pos =
    group-push_from step (key + step) v n k (push key v m) pos
    ∙ ap (pushed (meets step (key + step) n k) v) (group-push k key v m)
    ∙ ground (arith, meets-le step (key + step) n k)

-- The steps of 8 bits from a width of whole bytes up to 256 meet the widths of whole bytes above.
meets-eight : (a n w : ℕ) → meets 8 (8 * a) n (8 * w) ≡ (leb a w && ltb w (a + n))
meets-eight a zero w = ground arith
meets-eight a (suc n) w =
    let e : 8 * a + 8 ≡ 8 * (a + 1) = omega arith in rw e (ground (arith, meets-eight (a + 1) n w))

from_width :
    (a w v : ℕ) (m : List (ℕ × List ℕ))
    → a ≤ 32
    → w ≤ 32
    → group (8 * w) (push_from 8 (8 * a) v (rounds 8 (8 * a) 256) m)
      ≡ pushed (leb a w) v (group (8 * w) m)
from_width a w v m la lw =
    group-push_from 8 (8 * a) v (rounds 8 (8 * a) 256) (8 * w) m (omega arith)
    ∙ rw (meets-eight a (rounds 8 (8 * a) 256) w) (ground arith)

-- The bits that a number takes are the least that hold it.
magnitude_bits-le : (n v b : ℕ) → v < 2 ^ n → (magnitude_bits n v ≤ b) ↔ (v < 2 ^ b)
unfolding magnitude_bits
magnitude_bits-le zero v b h = ((λ _. omega (arith, one-le-pow b 2)), (λ _. omega arith))
magnitude_bits-le (suc n) v zero h = ground arith
magnitude_bits-le (suc n) v (suc b) h = ground (
  arith,
  one-le-pow (suc b) 2,
  two-pow-succ b,
  two-pow-succ n,
  magnitude_bits-le n (v / 2) b (omega (arith, two-pow-succ n)),
)

ltb-of : (a b c d : ℕ) → (a ≤ b) ↔ (c < d) → leb a b ≡ ltb c d
ltb-of a b c d h = ground arith

-- A number below 2^256 is pushed to the group of each width of whole bytes that holds it, and to no other.
pub push_uint-group :
    (v w : ℕ) (m : List (ℕ × List ℕ))
    → v < 2 ^ 256
    → 1 ≤ w
    → w ≤ 32
    → group (8 * w) (push_uint v m) ≡ pushed (ltb v (2 ^ (8 * w))) v (group (8 * w) m)
unfolding push_uint
push_uint-group v w m lt pos le =
    let k = magnitude_bits 256 v in
    let most : k ≤ 256 = (magnitude_bits-le 256 v 256 lt).1 lt in
    let a = max ((k + 7) / 8) 1 in
    let e : uint_width v ≡ 8 * a = omega arith in
    rw e (
      from_width a w v m (omega arith) le
      ∙ ap (λ b. pushed b v (group (8 * w) m))
          (grind (arith, ltb-of k (8 * w) v (2 ^ (8 * w)) (magnitude_bits-le 256 v (8 * w) lt))))

count_ones-zero : (n v : ℕ) → v < 2 ^ n → count_ones n v ≡ 0 → v ≡ 0
unfolding count_ones
count_ones-zero zero v h c = omega arith
count_ones-zero (suc n) v h c =
    omega (arith, count_ones-zero n (v / 2) (omega (arith, two-pow-succ n)) (omega arith), c)

count_ones-two-pow : (n j : ℕ) → j < n → count_ones n (2 ^ j) ≡ 1
unfolding count_ones
count_ones-two-pow zero j h = absurd (omega arith)
count_ones-two-pow (suc n) zero h = ones_of_zero n
  where
    ones_of_zero : (n : ℕ) → 1 + count_ones n 0 ≡ 1
    ones_of_zero zero = refl
    ones_of_zero (suc n) = omega (arith, ones_of_zero n)
count_ones-two-pow (suc n) (suc j) h =
    let p : 2 ^ suc j % 2 ≡ 0 = omega (arith, two-pow-succ j) in
    let q : 2 ^ suc j / 2 ≡ 2 ^ j = omega (arith, two-pow-succ j) in
    rw (p, q) (omega (arith, count_ones-two-pow n j (omega arith)))

-- A power of two that takes one bit more than `b` is at most the power of `b`.
one_bit-le : (n v b : ℕ) → v < 2 ^ n → count_ones n v ≡ 1 → magnitude_bits n v ≤ b + 1 → v ≤ 2 ^ b
unfolding count_ones magnitude_bits
one_bit-le zero v b h c k = omega arith
one_bit-le (suc n) v zero h c k =
    ground (arith, magnitude_bits-le n (v / 2) 0 (omega (arith, h, two-pow-succ n)))
one_bit-le (suc n) v (suc b) h c k =
    let small : v / 2 < 2 ^ n = omega (arith, h, two-pow-succ n) in
    elim (dec_lt 0 (v % 2)) [
      | yes odd ↦
          let z = count_ones-zero n (v / 2) small (omega (arith, c, odd)) in
          omega (arith, one-le-pow (suc b) 2, z)
      | no even ↦ elim (dec_lt 0 v) [
        | yes pos_v ↦
            let half =
              one_bit-le n (v / 2) b small (omega (arith, c, even)) (ground (arith, k, pos_v)) in
            omega (arith, two-pow-succ b, half, even)
        | no zero_v ↦ omega (arith, zero_v)
      ]
    ]

-- Whether a pattern of 256 bits is that of a signed number of `bits` bits.
abbrev pub fits : ℕ → ℕ → Bool
fits bits v = ltb v (2 ^ (bits - 1)) || leb (2 ^ 256 - 2 ^ (bits - 1)) v

rounded :
    (n w : ℕ)
    → 1 ≤ w
    → n ≤ 256
    → (a : ℕ) × (min (max (whole_bytes n) 8) 256 ≡ 8 * a) × (a ≤ 32) × (leb a w ≡ leb n (8 * w))
rounded n w pos le = (max ((n + 7) / 8) 1, omega arith, omega arith, ground arith)

half_range : (w : ℕ) → 1 ≤ w → w ≤ 32 → (0 < 2 ^ (8 * w - 1)) × (2 ^ (8 * w - 1) ≤ 2 ^ 255)
half_range w pos le = (
  omega (arith, one-le-pow (8 * w - 1) 2),
  pow-le-pow_right {n = 2} (omega arith) {i = 8 * w - 1} {j = 255} (omega arith),
)

module _ (w : ℕ) (pos : 1 ≤ w) (le : w ≤ 32) where
  abbrev Bounded : ℕ → ℕ → Type 0
  Bounded v n = (n ≤ 256) × (leb n (8 * w) ≡ fits (8 * w) v)

  positive-Bounded : (v : ℕ) → v < 2 ^ 255 → Bounded v (magnitude_bits 256 v + 1)
  positive-Bounded v small =
      let at = magnitude_bits-le 256 v (8 * w - 1) (omega arith) in
      let most = (magnitude_bits-le 256 v 255 (omega arith)).1 small in
      let h = half_range w pos le in (omega (arith, most), ground (arith, at, h.0, h.1))

  power-Bounded :
      (v a : ℕ)
      → v + a ≡ 2 ^ 256
      → a ≤ 2 ^ 255
      → count_ones 256 a ≡ 1
      → Bounded v (magnitude_bits 256 a)
  power-Bounded v a e small one =
      let at = one_bit-le 256 a (8 * w - 1) (omega arith) one in
      let above = magnitude_bits-le 256 a (8 * w) (omega arith) in
      let most = (magnitude_bits-le 256 a 256 (omega arith)).1 (omega arith) in
      let h = half_range w pos le in
      let next : suc (8 * w - 1) ≡ 8 * w = omega arith in
      let twice : 2 ^ (8 * w) ≡ 2 ^ (8 * w - 1) + 2 ^ (8 * w - 1) =
        rw next at (two-pow-succ (8 * w - 1)) in
      (omega (arith, most), ground (arith, at, above, twice, h.0, h.1))

  mixed-Bounded :
      (v a : ℕ)
      → v + a ≡ 2 ^ 256
      → a ≤ 2 ^ 255
      → count_ones 256 a ≢ 1
      → Bounded v (magnitude_bits 256 a + 1)
  mixed-Bounded v a e small more =
      let no_power : (j : ℕ) → j < 256 → a ≢ 2 ^ j =
        λ j lt eq. more (ap (count_ones 256) eq ∙ count_ones-two-pow 256 j lt) in
      let at = magnitude_bits-le 256 a (8 * w - 1) (omega arith) in
      let below : a < 2 ^ 255 = omega (arith, no_power 255 (omega arith)) in
      let most = (magnitude_bits-le 256 a 255 (omega arith)).1 below in
      let h = half_range w pos le in
      (omega (arith, most), ground (arith, at, no_power (8 * w - 1) (omega arith), h.0, h.1))

  -- The bits that a signed number takes are at most those of a width exactly if it fits it.
  signed_bits-fits : (v : ℕ) → v < 2 ^ 256 → (n : ℕ) × (whole_bytes n ≡ signed_bits v) × Bounded v n
  signed_bits-fits v lt = elim (dec_lt 0 v) [
    | no zero_v ↦ (
      8,
      ground (arith, zero_v),
      (omega arith, ground (arith, zero_v, (half_range w pos le).0, pos)),
    )
    | yes pos_v ↦ elim (dec_le (2 ^ 255) v) [
      | no positive ↦ (
        magnitude_bits 256 v + 1,
        ground (arith, pos_v, positive),
        positive-Bounded v (omega arith),
      )
      | yes negative ↦
          let a = 2 ^ 256 - v in
          let e : absolute v ≡ a = ground arith in
          elim (ℕ_discrete (count_ones 256 a) 1) [
            | yes one ↦ (
              magnitude_bits 256 a,
              rw e (ground (arith, pos_v, negative, one)),
              power-Bounded v a (omega arith) (omega arith) one,
            )
            | no more ↦ (
              magnitude_bits 256 a + 1,
              rw e (ground (arith, pos_v, negative, more)),
              mixed-Bounded v a (omega arith) (omega arith) more,
            )
          ]
    ]
  ]

-- A pattern of 256 bits is pushed to the group of each width of whole bytes that its signed number
-- fits, and to no other.
pub push_int-group :
    (v w : ℕ) (m : List (ℕ × List ℕ))
    → v < 2 ^ 256
    → 1 ≤ w
    → w ≤ 32
    → group (8 * w) (push_int v m) ≡ pushed (fits (8 * w) v) v (group (8 * w) m)
unfolding push_int
push_int-group v w m lt pos le =
    let (n, e, (small, same)) = signed_bits-fits w pos le v lt in
    let (a, width, low, at) = rounded n w pos small in
    let e8 : int_width v ≡ 8 * a = rw e at width in
    rw e8 (from_width a w v m low le ∙ ap (λ b. pushed b v (group (8 * w) m)) (at ∙ same))
