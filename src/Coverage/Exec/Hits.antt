-- ===== src/Coverage/Exec/Hits.antt =====
-- The lists of hits and the arrays of an execution (`src/evm/coverage/exec.rs`): how often an index is
-- listed.
use native.Mathlib.Nat.{two-pow-succ}
use Prim.Native.Nat.{bit_and, bit_or}
use ripfuzz.Bits.{bit_or_step, bit_and_step, bit_or-zero_le, bit_and-zero_le}
use ripfuzz.Coverage.Exec.{zeros}
use ripfuzz.Prelude.{
  ℕ, zero, suc, ◌+◌, ◌*◌, ◌/◌, ◌%◌, ◌^◌, ◌≤◌, ◌<◌, ◌≡◌, refl, sym, ap, ◌∙◌, subst, ◌↔◌, ◌⊎◌, Bool,
  true, Option, none, some, List, [], ◌∷◌, ◌++◌, arith, ℕ_discrete, ◌==◌, if◌then◌else◌, get_elem?,
  set,
}

abbrev pub Listed : ℕ → List ℕ → Type 0
Listed i [] = ⊥
Listed i (x ∷ xs) = (x ≡ i) ⊎ Listed i xs

abbrev or_zero : Option ℕ → ℕ
or_zero none = 0
or_zero (some n) = n

-- The hits are the indices of the entries that are not zero.
abbrev pub Tracked : List ℕ → List ℕ → Type 0
Tracked xs hits = (i : ℕ) → (1 ≤ or_zero (get_elem? xs i)) ↔ Listed i hits

abbrev pub times : ℕ → List ℕ → ℕ
times i [] = 0
times i (x ∷ xs) = (if x == i then 1 else 0) + times i xs

-- What an entry of the instructions or the reverts counts, and one of the depths, whose bits are
-- counted up to `n`.
abbrev pub once : ℕ → ℕ
once n = if n == 0 then 0 else 1

unfoldable pub ones : ℕ → ℕ → ℕ
ones zero x = 0
ones (suc n) x = x % 2 + ones n (x / 2)

-- Every index is listed as often as its entry counts.
abbrev pub Counted : (ℕ → ℕ) → List ℕ → List ℕ → Type 0
Counted count xs hits = (i : ℕ) → times i hits ≡ count (or_zero (get_elem? xs i))

abbrev pub Exact : (ℕ → ℕ) → List ℕ → List ℕ → Type 0
Exact count xs hits = Tracked xs hits × Counted count xs hits

times-snoc :
    (i j : ℕ) (xs : List ℕ) → times i (xs ++ (j ∷ [])) ≡ times i xs + (if j == i then 1 else 0)
times-snoc i j [] = omega arith
times-snoc i j (x ∷ xs) = omega (arith, times-snoc i j xs)

-- The bits of a word with a mask of one bit put in.
pub ones-bit_or :
    (n k d : ℕ)
    → k < n
    → ones n (bit_or d (2 ^ k)) ≡ ones n d + (if bit_and d (2 ^ k) == 0 then 1 else 0)
unfolding ones
ones-bit_or zero k d h = absurd (omega arith)
ones-bit_or (suc n) zero d h =
    let o : bit_or d 1 ≡ d / 2 * 2 + 1 =
      omega (arith, bit_or_step d 1, bit_or-zero_le (d / 2) (d / 2) (omega arith)) in
    let a : bit_and d 1 ≡ d % 2 =
      omega (arith, bit_and_step d 1, bit_and-zero_le (d / 2) (d / 2) (omega arith)) in
    let half : bit_or d 1 / 2 ≡ d / 2 = omega (arith, o) in ground (arith, o, a, ap (ones n) half)
ones-bit_or (suc n) (suc k) d h =
    let p = two-pow-succ k in
    let down : 2 ^ suc k / 2 ≡ 2 ^ k = omega (arith, p) in
    let o : bit_or d (2 ^ suc k) ≡ bit_or (d / 2) (2 ^ k) * 2 + d % 2 =
      omega (arith, p, bit_or_step d (2 ^ suc k), ap (bit_or (d / 2)) down) in
    let a : bit_and d (2 ^ suc k) ≡ bit_and (d / 2) (2 ^ k) * 2 =
      omega (arith, p, bit_and_step d (2 ^ suc k), ap (bit_and (d / 2)) down) in
    let half : bit_or d (2 ^ suc k) / 2 ≡ bit_or (d / 2) (2 ^ k) = omega (arith, o) in
    ground (arith, o, a, ap (ones n) half, ones-bit_or n k (d / 2) (omega arith))

pub ones-zero : (n : ℕ) → ones n 0 ≡ 0
unfolding ones
ones-zero zero = refl
ones-zero (suc n) = omega (arith, ones-zero n)

Listed-snoc : (i j : ℕ) (xs : List ℕ) → Listed i (xs ++ (j ∷ [])) ↔ (Listed i xs ⊎ (j ≡ i))
Listed-snoc i j [] = ground arith
Listed-snoc i j (x ∷ xs) = ground (arith, Listed-snoc i j xs)

get_elem?-set :
    (xs : List ℕ) (i j : ℕ) {old : ℕ} (v : ℕ)
    → get_elem? xs i ≡ some old
    → or_zero (get_elem? (set xs i v) j) ≡ (if i == j then v else or_zero (get_elem? xs j))
get_elem?-set [] i j v e = cc
get_elem?-set (x ∷ xs) zero zero v e = refl
get_elem?-set (x ∷ xs) zero (suc j) v e = ground arith
get_elem?-set (x ∷ xs) (suc i) zero v e = ground arith
get_elem?-set (x ∷ xs) (suc i) (suc j) v e = ground (arith, get_elem?-set xs i j v e)

pub Tracked-set :
    (xs hits : List ℕ) (i old v : ℕ) (b : Bool)
    → Tracked xs hits
    → get_elem? xs i ≡ some old
    → 1 ≤ v
    → (old ≡ 0 → b ≡ true)
    → Tracked (set xs i v) (if b then hits ++ (i ∷ []) else hits)
Tracked-set xs hits i old v b t e pos fresh j =
    let was : or_zero (get_elem? xs i) ≡ old = ap or_zero e in
    ground (arith, get_elem?-set xs i j v e, Listed-snoc j i hits, t j, t i, was, fresh)

pub Exact-set :
    (count : ℕ → ℕ) (xs hits : List ℕ) (i old v : ℕ) (b : Bool)
    → Exact count xs hits
    → get_elem? xs i ≡ some old
    → 1 ≤ v
    → (old ≡ 0 → b ≡ true)
    → count v ≡ count old + (if b then 1 else 0)
    → Exact count (set xs i v) (if b then hits ++ (i ∷ []) else hits)
Exact-set count xs hits i old v b t e pos fresh more = (
  Tracked-set xs hits i old v b t.0 e pos fresh,
  λ j.
      let set_to = ap count (get_elem?-set xs i j v e) in
      let was : count (or_zero (get_elem? xs i)) ≡ count old = ap (λ o. count (or_zero o)) e in
      elim (ℕ_discrete i j) [
        | yes same ↦
            let at : times j hits ≡ count old =
              subst (λ k. times k hits ≡ count old) same (t.1 i ∙ was) in
            ground (arith, set_to, times-snoc j i hits, at, more)
        | no apart ↦ ground (arith, set_to, times-snoc j i hits, t.1 j)
      ],
)

get_elem?-zeros : (n i : ℕ) → or_zero (get_elem? (zeros n) i) ≡ 0
unfolding zeros
get_elem?-zeros zero i = refl
get_elem?-zeros (suc n) zero = refl
get_elem?-zeros (suc n) (suc i) = get_elem?-zeros n i

pub Tracked-zeros : (n : ℕ) → Tracked (zeros n) []
Tracked-zeros n i = (λ h. absurd (omega (arith, h, get_elem?-zeros n i)), λ h. absurd h)

pub Exact-zeros : (count : ℕ → ℕ) (n : ℕ) → count 0 ≡ 0 → Exact count (zeros n) []
Exact-zeros count n none_yet =
    (Tracked-zeros n, λ i. sym (ap count (get_elem?-zeros n i) ∙ none_yet))
