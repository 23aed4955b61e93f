-- ===== src/Tester/Values/Padding.antt =====
-- Where the bytes of a `bytesN` stand in its word (`fixed_bytes` of src/tester/corpus/rvg.rs).
use mathlib.Core.List.{append_assoc, append-nil}
use native.Mathlib.Nat.{mod_def, mul-sub, mul_comm, mul_assoc}
use ripfuzz.Bits.Masks.{two_pow_add}
use ripfuzz.Prelude.{
  ℕ, zero, suc, ◌+◌, ◌-◌, ◌*◌, ◌/◌, ◌%◌, ◌^◌, ◌≤◌, ◌<◌, ◌≡◌, refl, sym, ap, ◌∙◌, subst, true, List,
  [], ◌∷◌, ◌++◌, arith, ltb, leb, length, set, drop, All-set, length-set, length-append,
}
use ripfuzz.Outcome.{Returns, ok}
use ripfuzz.Tester.Values.Bytes.{
  replicate, to_be_bytes, left_aligned, fill_first, below_max, fixed_edge,
}
use ripfuzz.Tester.Values.Sizes.{Sized, Sized-append, Sized-replicate, Sized-to_be_bytes}

-- `size` bytes, and zeros up to the word's 32.
abbrev pub Padded : ℕ → List ℕ → Type 0
Padded size word = (front : List ℕ) × Sized size front × (word ≡ front ++ replicate (32 - size) 0)

pub Padded-Sized : (size : ℕ) (word : List ℕ) → size ≤ 32 → Padded size word → Sized 32 word
Padded-Sized size word le (front, sized, same) =
    let zeros = Sized-replicate (32 - size) 0 (omega arith) in
    let s = Sized-append size (32 - size) front (replicate (32 - size) 0) sized zeros in
    rw same (s.0 ∙ omega (arith, le), s.1)

replicate-append : (m n b : ℕ) → replicate m b ++ replicate n b ≡ replicate (m + n) b
replicate-append zero n b = let s : 0 + n ≡ n = omega arith in rw s refl
replicate-append (suc m) n b =
    let s : suc m + n ≡ suc (m + n) = omega arith in
    rw s (ap (λ xs. b ∷ xs) (replicate-append m n b))

drop-replicate : (m n b : ℕ) → drop m (replicate (m + n) b) ≡ replicate n b
drop-replicate zero n b = let s : 0 + n ≡ n = omega arith in rw s refl
drop-replicate (suc m) n b =
    let s : suc m + n ≡ suc (m + n) = omega arith in rw s (drop-replicate m n b)

set-append : (xs ys : List ℕ) (i b : ℕ) → i < length xs → set (xs ++ ys) i b ≡ set xs i b ++ ys
set-append [] ys i b h = absurd (omega arith)
set-append (x ∷ xs) ys zero b h = refl
set-append (x ∷ xs) ys (suc i) b h = ap (λ t. x ∷ t) (set-append xs ys i b (omega arith))

snoc_zero : (k : ℕ) → ◌++◌ {A = ℕ} (replicate k 0) (0 ∷ []) ≡ replicate (suc k) 0
snoc_zero zero = refl
snoc_zero (suc k) = ap (λ xs. 0 ∷ xs) (snoc_zero k)

-- A number times 256 to the power of `k` ends in `k` zeros.
to_be_bytes-shifted :
    (n k v : ℕ) → to_be_bytes (k + n) (v * 2 ^ (8 * k)) ≡ to_be_bytes n v ++ replicate k 0
to_be_bytes-shifted n zero v =
    let s : 0 + n ≡ n = omega arith in
    let t : v * 2 ^ (8 * 0) ≡ v = omega arith in rw (s, t) (sym (append-nil (to_be_bytes n v)))
to_be_bytes-shifted n (suc k) v =
    let s : suc k + n ≡ suc (k + n) = omega arith in
    let e : 8 * suc k ≡ 8 + 8 * k = omega arith in
    let p : v * 2 ^ (8 * suc k) ≡ 256 * (v * 2 ^ (8 * k)) =
      let power = 2 ^ (8 * k) in
      ap (λ t. v * 2 ^ t) e
      ∙ ap (λ t. v * t) (two_pow_add 8 (8 * k))
      ∙ mul_comm v (256 * power)
      ∙ mul_assoc 256 power v
      ∙ ap (λ t. 256 * t) (mul_comm power v) in
    let low : v * 2 ^ (8 * suc k) % 256 ≡ 0 = omega (arith, p) in
    let high : v * 2 ^ (8 * suc k) / 256 ≡ v * 2 ^ (8 * k) = omega (arith, p) in
    rw s (
      rw low (
        rw high (
          ap (λ xs. xs ++ (0 ∷ [])) (to_be_bytes-shifted n k v)
          ∙ append_assoc (to_be_bytes n v) (replicate k 0) (0 ∷ [])
          ∙ ap (λ xs. to_be_bytes n v ++ xs) (snoc_zero k))))

-- What the shift drops are the digits beyond the word.
shifted-mod : (s v : ℕ) → s ≤ 256 → (w : ℕ) × (v * 2 ^ (256 - s) % 2 ^ 256 ≡ w * 2 ^ (256 - s))
shifted-mod s v le =
    let m = 2 ^ (256 - s) in
    let all : 256 - s + s ≡ 256 = omega arith in
    let split : 2 ^ 256 ≡ m * 2 ^ s = ap (λ t. 2 ^ t) (sym all) ∙ two_pow_add (256 - s) s in
    let q = v * m / 2 ^ 256 in
    (
      v - 2 ^ s * q,
      mod_def (v * m) (2 ^ 256)
          ∙ ap (λ t. v * m - t * q) split
          ∙ ap (λ t. v * m - t) (mul_assoc m (2 ^ s) q)
          ∙ ap (λ t. t - m * (2 ^ s * q)) (mul_comm v m)
          ∙ sym (mul-sub m v (2 ^ s * q))
          ∙ mul_comm m (v - 2 ^ s * q),
    )

pub left_aligned-Padded : (size v : ℕ) → size ≤ 32 → Padded size (left_aligned size v)
left_aligned-Padded size v le =
    let fits : leb (8 * size) 256 ≡ true = ground arith in
    let (w, e) = shifted-mod (8 * size) v (omega arith) in
    let k : 256 - 8 * size ≡ 8 * (32 - size) = omega arith in
    let n : 32 ≡ 32 - size + size = omega arith in
    (
      to_be_bytes size w,
      Sized-to_be_bytes size w,
      rw fits (
          rw e (
            ap (λ t. to_be_bytes 32 (w * 2 ^ t)) k
            ∙ ap (λ t. to_be_bytes t (w * 2 ^ (8 * (32 - size)))) n
            ∙ to_be_bytes-shifted size (32 - size) w)),
    )

zeros-Padded : (size : ℕ) → size ≤ 32 → Padded size (replicate 32 0)
zeros-Padded size le =
    let s : size + (32 - size) ≡ 32 = omega arith in
    (
      replicate size 0,
      Sized-replicate size 0 (omega arith),
      sym (replicate-append size (32 - size) 0 ∙ ap (λ t. replicate t 0) s),
    )

one_first-Padded : (size : ℕ) → 1 ≤ size → size ≤ 32 → Padded size (1 ∷ replicate 31 0)
one_first-Padded zero pos le = absurd (omega arith)
one_first-Padded (suc n) pos le =
    let s : n + (31 - n) ≡ 31 = omega arith in
    let t : 32 - suc n ≡ 31 - n = omega arith in
    let z = Sized-replicate n 0 (omega arith) in
    (
      1 ∷ replicate n 0,
      (ap suc z.0, (omega arith, z.1)),
      rw t (ap (λ xs. 1 ∷ xs) (sym (replicate-append n (31 - n) 0 ∙ ap (λ t. replicate t 0) s))),
    )

-- The word whose first `size` bytes are 0xFF.
filled : ℕ → List ℕ
filled size = replicate size 255 ++ replicate (32 - size) 0

fill_first-filled : (size : ℕ) → size ≤ 32 → fill_first size (replicate 32 0) ≡ ok (filled size)
unfolding filled
fill_first-filled size le =
    let fits : leb size 32 ≡ true = ground arith in
    let s : size + (32 - size) ≡ 32 = omega arith in
    let rest : drop {A = ℕ} size (replicate 32 0) ≡ replicate (32 - size) 0 =
      subst (λ t. drop {A = ℕ} size (replicate t 0) ≡ replicate (32 - size) 0) s
        (drop-replicate size (32 - size) 0) in
    rw fits (ap (λ (xs : List ℕ). ok (replicate size 255 ++ xs)) rest)

below_max-Padded :
    (size b : ℕ) → 1 ≤ size → size ≤ 32 → b < 256 → Returns (below_max size b) (Padded size)
unfolding filled
below_max-Padded zero b pos le small = absurd (omega arith)
below_max-Padded (suc n) b pos le small =
    let f = Sized-replicate (suc n) 255 (omega arith) in
    let inside : n < length (replicate {A = ℕ} (suc n) 255) = omega (arith, f.0) in
    let z = Sized-replicate (32 - suc n) 0 (omega arith) in
    let long : ltb n (length (filled (suc n))) ≡ true =
      ground
        (arith, f.0, length-append (replicate {A = ℕ} (suc n) 255) (replicate (32 - suc n) 0)) in
    rw (fill_first-filled (suc n) le) (
      rw long (
        set (replicate (suc n) 255) n b,
        (
          length-set (replicate (suc n) 255) n b ∙ f.0,
          All-set (λ c. c < 256) (replicate (suc n) 255) n b f.1 small,
        ),
        set-append (replicate (suc n) 255) (replicate (32 - suc n) 0) n b inside,
      ))

-- Every edge case has its bytes in front.
pub fixed_edge-Padded :
    (size e : ℕ) → 1 ≤ size → size ≤ 32 → Returns (fixed_edge size e) (Padded size)
unfolding filled
fixed_edge-Padded size zero pos le = zeros-Padded size le
fixed_edge-Padded size (suc zero) pos le = one_first-Padded size pos le
fixed_edge-Padded size (suc (suc zero)) pos le =
    rw (fill_first-filled size le)
      (replicate size 255, Sized-replicate size 255 (omega arith), refl)
fixed_edge-Padded size (suc (suc (suc zero))) pos le =
    below_max-Padded size 0xFE pos le (omega arith)
fixed_edge-Padded size (suc (suc (suc (suc zero)))) pos le =
    below_max-Padded size 0xFD pos le (omega arith)
fixed_edge-Padded size (suc (suc (suc (suc (suc e))))) pos le =
    below_max-Padded size 0xFC pos le (omega arith)
