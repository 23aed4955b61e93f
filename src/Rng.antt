-- ===== src/Rng.antt =====
-- The generator of the `fastrand` crate: its draws, and the ranges that its documentation states.
-- `below n` is a draw from `..n`, `within lo hi` one from `lo..=hi`.
pub mod Draw
use ripfuzz.Prelude.{
  ℕ, zero, suc, ◌+◌, ◌-◌, ◌*◌, ◌/◌, ◌%◌, ◌^◌, ◌≤◌, ◌<◌, min, max, compare, Ordering, ◌≡◌, refl, sym,
  ap, ◌∙◌, subst, ◌≢◌, ◌↔◌, ◌⊎◌, inl, inr, Bool, true, false, not, ◌&&◌, ◌||◌, Option, none, some,
  List, [], ◌∷◌, ◌++◌, map, arith, dec_lt, dec_le, ℕ_discrete, ltb, leb, ◌==◌, if◌then◌else◌,
  ltb→lt, lt→ltb, ltb-false→le, ==_iff, Bool-cases, Option-cases, is_some, u64_max, saturating_add,
  length, get_elem?, set, take, drop, is_empty, remove, length-append, length-take, length-drop,
  length-remove, length-set, All, All-append, All-remove, All-set, All-get_elem?, sum_of,
  sum_of-set, sum_of-get_elem?,
}

pub record Rng : Type 1 where
  pub Gen : Type 0
  pub below : ℕ → Gen → ℕ × Gen
  pub within : ℕ → ℕ → Gen → ℕ × Gen
  pub flip : Gen → Bool × Gen
  -- `fill` of an array of bytes, and a letter's code.
  pub fill : ℕ → Gen → List ℕ × Gen
  pub alphabetic : Gen → ℕ × Gen
  pub below-lt : (n : ℕ) (g : Gen) → 0 < n → (below n g).0 < n
  pub within-le :
      (lo hi : ℕ) (g : Gen) → lo ≤ hi → (lo ≤ (within lo hi g).0) × ((within lo hi g).0 ≤ hi)
  pub fill-bytes : (n : ℕ) (g : Gen) → (length (fill n g).0 ≡ n) × All (λ b. b < 256) (fill n g).0

-- A generator that replays a list of numbers, each brought into the range that is asked for.
abbrev pub tape_below : ℕ → List ℕ → ℕ × List ℕ
tape_below n [] = (0, [])
tape_below n (x ∷ xs) = (if ltb x n then x else 0, xs)

abbrev pub tape_within : ℕ → ℕ → List ℕ → ℕ × List ℕ
tape_within lo hi [] = (lo, [])
tape_within lo hi (x ∷ xs) = (if leb lo x && leb x hi then x else lo, xs)

abbrev pub tape_flip : List ℕ → Bool × List ℕ
tape_flip [] = (false, [])
tape_flip (x ∷ xs) = (x == 1, xs)

pub tape_below-lt : (n : ℕ) (g : List ℕ) → 0 < n → (tape_below n g).0 < n
tape_below-lt n [] h = h
tape_below-lt n (x ∷ xs) h = ground arith

pub tape_within-le :
    (lo hi : ℕ) (g : List ℕ)
    → lo ≤ hi
    → (lo ≤ (tape_within lo hi g).0) × ((tape_within lo hi g).0 ≤ hi)
tape_within-le lo hi [] h = omega arith
tape_within-le lo hi (x ∷ xs) h = ground arith

abbrev pub tape_fill : ℕ → List ℕ → List ℕ × List ℕ
tape_fill zero g = ([], g)
tape_fill (suc n) [] = let (bs, g) = tape_fill n [] in (0 ∷ bs, g)
tape_fill (suc n) (x ∷ xs) = let (bs, g) = tape_fill n xs in ((x % 256) ∷ bs, g)

pub tape_fill-bytes :
    (n : ℕ) (g : List ℕ) → (length (tape_fill n g).0 ≡ n) × All (λ b. b < 256) (tape_fill n g).0
tape_fill-bytes zero g = (refl, tt)
tape_fill-bytes (suc n) [] = let h = tape_fill-bytes n [] in (ap suc h.0, (omega arith, h.1))
tape_fill-bytes (suc n) (x ∷ xs) = let h = tape_fill-bytes n xs in (ap suc h.0, (omega arith, h.1))

abbrev pub tape : Rng
tape = record {
  Gen = List ℕ;
  below = tape_below;
  within = tape_within;
  flip = tape_flip;
  fill = tape_fill;
  alphabetic = λ g. (97, g);
  below-lt = tape_below-lt;
  within-le = tape_within-le;
  fill-bytes = tape_fill-bytes;
}
