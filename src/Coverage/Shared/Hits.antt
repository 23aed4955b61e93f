-- ===== src/Coverage/Shared/Hits.antt =====
-- What the atomic operation of each of the four loops does to its array.
use mathlib.Core.Option.{some-injective}
use ripfuzz.Coverage.Shared.{
  one_edge, one_depth, index, or_word, one_revert, one_jump, raise_jump, bit_or, revert_at,
}
use ripfuzz.Outcome.{Returns}
use ripfuzz.Bitsets.{new_bits, new_bits-bit_or, new_bits_mono, new_bits-zero}
use ripfuzz.Coverage.Shared.Loop.{Merged}
use ripfuzz.Prelude.{
  ℕ, zero, suc, ◌+◌, ◌%◌, ◌^◌, ◌≤◌, ◌<◌, max, ◌≡◌, refl, sym, ap, ◌∙◌, subst, inl, inr, Bool, false,
  not, Option, none, some, List, [], ◌∷◌, arith, ◌==◌, if◌then◌else◌, ==_iff, Bool-cases, length,
  get_elem?, set, length-set,
}

-- A property of the entry at an index; `out` says whether there must be one.
abbrev pub Holds : Type 0 → (ℕ → Type 0) → Option ℕ → Type 0
Holds out P none = out
Holds out P (some n) = P n

get_elem?-lt : (xs : List ℕ) (i : ℕ) → i < length xs → (n : ℕ) × (get_elem? xs i ≡ some n)
get_elem?-lt [] i h = absurd (omega arith)
get_elem?-lt (x ∷ xs) zero h = (x, refl)
get_elem?-lt (x ∷ xs) (suc i) h = get_elem?-lt xs i (omega arith)

Holds-set :
    (out : Type 0) (P : ℕ → Type 0) (xs : List ℕ) (i k old v : ℕ)
    → get_elem? xs i ≡ some old
    → (P old → P v)
    → Holds out P (get_elem? xs k)
    → Holds out P (get_elem? (set xs i v) k)
Holds-set out P [] i k old v e f h = h
Holds-set out P (x ∷ xs) zero zero old v e f h = f (subst P (some-injective x old e) h)
Holds-set out P (x ∷ xs) zero (suc k) old v e f h = h
Holds-set out P (x ∷ xs) (suc i) zero old v e f h = h
Holds-set out P (x ∷ xs) (suc i) (suc k) old v e f h = Holds-set out P xs i k old v e f h

Holds-set_same :
    (out : Type 0) (P : ℕ → Type 0) (xs : List ℕ) (i old v : ℕ)
    → get_elem? xs i ≡ some old
    → P v
    → Holds out P (get_elem? (set xs i v) i)
Holds-set_same out P [] i old v e p = cc
Holds-set_same out P (x ∷ xs) zero old v e p = p
Holds-set_same out P (x ∷ xs) (suc i) old v e p = Holds-set_same out P xs i old v e p

positive : (p : ℕ) → 1 ≤ p → (p == 0) ≡ false
positive p h = ground arith

nothing_new : (w p : ℕ) → new_bits w p ≡ 0 → not (new_bits w p == 0) ≡ false
nothing_new w p h = ground arith

-- An instruction is covered.
abbrev pub Covered : List ℕ × List ℕ → ℕ → Type 0
Covered (edges, raw) pc = Holds ⊥ (λ n. 1 ≤ n) (get_elem? edges pc)

abbrev pub EdgesFit : ℕ → List ℕ × List ℕ → Type 0
EdgesFit len (edges, raw) = (length edges ≡ len) × (length raw ≡ len)

pub one_edge-Merged :
    (local_edges : List ℕ) (len : ℕ) (s : List ℕ × List ℕ) (pc : ℕ)
    → EdgesFit len s
    → (pc < len) × (pc < length local_edges)
    → Returns (one_edge local_edges s pc) (
        Merged
          (one_edge local_edges)
          (EdgesFit len)
          (λ p. (p < len) × (p < length local_edges))
          Covered
          (λ p. p)
          s
          pc)
unfolding one_edge index
one_edge-Merged local_edges len (edges, raw) pc fit lt =
    let (l, el) = get_elem?-lt local_edges pc lt.1 in
    let (p, ep) = get_elem?-lt edges pc (omega (arith, fit.0, lt.0)) in
    let (r, er) = get_elem?-lt raw pc (omega (arith, fit.1, lt.0)) in
    rw el (
      rw ep (
        rw er (
          (length-set edges pc (max p 1) ∙ fit.0, length-set raw pc ((r + l) % 2 ^ 64) ∙ fit.1),
          Holds-set_same ⊥ (λ n. 1 ≤ n) edges pc p (max p 1) ep (omega arith),
          λ k z. Holds-set ⊥ (λ n. 1 ≤ n) edges pc k p (max p 1) ep (λ _. omega arith) z,
          λ z. positive p (subst (Holds ⊥ (λ n. 1 ≤ n)) ep z),
        )))

-- A word's bits are known at an index.
abbrev pub Known : Type 0 → List ℕ → ℕ × ℕ → Type 0
Known out words (i, w) = Holds out (λ p. new_bits w p ≡ 0) (get_elem? words i)

abbrev pub or_zero : Option ℕ → ℕ
or_zero none = 0
or_zero (some w) = w

abbrev pub word_at : List ℕ → ℕ → ℕ
word_at words i = or_zero (get_elem? words i)

abbrev pub WordsFit : ℕ → List ℕ → Type 0
WordsFit len words = length words ≡ len

word_at_lem : (words : List ℕ) (i : ℕ) {w : ℕ} → get_elem? words i ≡ some w → word_at words i ≡ w
word_at_lem words i e = ap or_zero e

-- What `fetch_or` of a word at `i` does, for an array that has an entry there.
abbrev pub Ored : Type 0 → List ℕ → ℕ → ℕ → Bool × List ℕ → Type 0
Ored out words i w (b, after) =
    (length after ≡ length words)
    × Known out after (i, w)
    × ((k : ℕ × ℕ) → Known out words k → Known out after k)
    × (Known out words (i, w) → b ≡ false)

or_word-Ored :
    (out : Type 0) (words : List ℕ) (i p w : ℕ)
    → get_elem? words i ≡ some p
    → Ored out words i w (or_word words i p w)
unfolding or_word
or_word-Ored out words i p w e = (
  length-set words i (bit_or p w),
  Holds-set_same out (λ q. new_bits w q ≡ 0) words i p (bit_or p w) e (new_bits-bit_or w p),
  λ (j, v) z.
      Holds-set out (λ q. new_bits v q ≡ 0) words i j p (bit_or p w) e (new_bits_mono v p w) z,
  λ z. nothing_new w p (subst (Holds out (λ q. new_bits w q ≡ 0)) e z),
)

pub one_depth-Merged :
    (local_depths : List ℕ) (len : ℕ) (s : List ℕ) (pc : ℕ)
    → WordsFit len s
    → (pc < len) × (pc < length local_depths)
    → Returns (one_depth local_depths s pc) (
        Merged
          (one_depth local_depths)
          (WordsFit len)
          (λ p. (p < len) × (p < length local_depths))
          (Known ⊥)
          (λ p. (p, word_at local_depths p))
          s
          pc)
unfolding one_depth index or_word
one_depth-Merged local_depths len s pc fit lt =
    let (l, el) = get_elem?-lt local_depths pc lt.1 in
    let (p, ep) = get_elem?-lt s pc (omega (arith, fit, lt.0)) in
    let (same, known, keep, old) = or_word-Ored ⊥ s pc p l ep in
    let at = word_at_lem local_depths pc el in
    rw el (
      rw ep (
        same ∙ fit,
        subst (λ w. Known ⊥ ((or_word s pc p l).1) (pc, w)) (sym at) known,
        keep,
        λ z. old (subst (λ w. Known ⊥ s (pc, w)) at z),
      ))

-- A revert beyond the shared array is passed over, and is never new.
abbrev RevertMerged : List ℕ → List ℕ → ℕ → Bool × List ℕ → Type 0
RevertMerged local_reverts s i =
    Merged (one_revert local_reverts) (λ _. Unit) (λ j. j < length local_reverts) (Known Unit)
      (λ j. (j, word_at local_reverts j)) s i

revert_at-Merged :
    (local_reverts : List ℕ) (s : List ℕ) (i : ℕ)
    → i < length local_reverts
    → (o : Option ℕ) → get_elem? s i ≡ o
    → Returns (revert_at local_reverts s i o) (RevertMerged local_reverts s i)
unfolding revert_at index
revert_at-Merged local_reverts s i lt none e = (
  tt,
  subst (Holds Unit (λ q. new_bits (word_at local_reverts i) q ≡ 0)) (sym e) tt,
  λ k z. z,
  λ _. refl,
)
revert_at-Merged local_reverts s i lt (some p) e =
    let (l, el) = get_elem?-lt local_reverts i lt in
    let at = word_at_lem local_reverts i el in
    let (same, known, keep, old) = or_word-Ored Unit s i p l e in
    rw el (elim (Bool-cases (l == 0)) [
      | inl z ↦ rw z (
        tt,
        subst (λ w. Known Unit s (i, w)) (sym (at ∙ (==_iff l 0).0 z))
            (subst (Holds Unit (λ q. new_bits 0 q ≡ 0)) (sym e) (new_bits-zero p)),
        λ k w. w,
        λ _. refl,
      )
      | inr z ↦ rw z (
        tt,
        subst (λ w. Known Unit ((or_word s i p l).1) (i, w)) (sym at) known,
        keep,
        λ h. old (subst (λ w. Known Unit s (i, w)) at h),
      )
    ])

pub one_revert-Merged :
    (local_reverts : List ℕ) (s : List ℕ) (i : ℕ)
    → i < length local_reverts
    → Returns (one_revert local_reverts s i) (RevertMerged local_reverts s i)
unfolding one_revert
one_revert-Merged local_reverts s i lt = revert_at-Merged local_reverts s i lt (get_elem? s i) refl

-- The count of a marker in the map.
abbrev pub count_of : ℕ → List (ℕ × ℕ) → ℕ
count_of marker [] = 0
count_of marker ((m, n) ∷ es) = if m == marker then n else count_of marker es

abbrev pub Jumped : List (ℕ × ℕ) → ℕ × ℕ → Type 0
Jumped es (marker, raw) = 1 ≤ raw → 1 ≤ count_of marker es

raise_jump-count_of :
    (marker k : ℕ) (es : List (ℕ × ℕ))
    → (1 ≤ count_of marker ((raise_jump marker es).1))
      × (count_of k es ≤ count_of k ((raise_jump marker es).1))
      × (1 ≤ count_of marker es → (raise_jump marker es).0 ≡ false)
unfolding raise_jump
raise_jump-count_of marker k [] = ground arith
raise_jump-count_of marker k ((m, n) ∷ es) = ground (arith, raise_jump-count_of marker k es)

pub one_jump-Merged :
    (s : List (ℕ × ℕ)) (h : ℕ × ℕ)
    → Returns (one_jump s h) (Merged one_jump (λ _. Unit) (λ _. Unit) Jumped (λ j. j) s h)
unfolding one_jump
one_jump-Merged s (marker, raw) = elim (Bool-cases (raw == 0)) [
  | inl z ↦ rw z (tt, λ h. ground (arith, z, h), λ k j. j, λ _. refl)
  | inr z ↦ rw z (
    tt,
    λ h. (raise_jump-count_of marker 0 s).0,
    λ (k, r) j h. omega (arith, j h, (raise_jump-count_of marker k s).1),
    λ j. (raise_jump-count_of marker 0 s).2 (j (ground (arith, z))),
  )
]
