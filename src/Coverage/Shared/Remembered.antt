-- ===== src/Coverage/Shared/Remembered.antt =====
-- A merge of an execution into the entry of one contract (`src/evm/coverage/shared.rs`).
use ripfuzz.Outcome.{Returns, Returns-bind}
use ripfuzz.Coverage.Exec.{ExecutionContractCoverage, depth_tracked_pcs}
use ripfuzz.Coverage.Shared.{
  merge_contract, ContractCoverage, CoverageUpdate, is_interesting, one_edge, one_depth, one_revert,
  one_jump, merge_hits,
}
use ripfuzz.Coverage.Shared.Loop.{merge_hits-AllMerged}
use ripfuzz.Coverage.Shared.Hits.{
  Covered, Known, Jumped, EdgesFit, WordsFit, word_at, one_edge-Merged, one_depth-Merged,
  one_revert-Merged, one_jump-Merged,
}
use ripfuzz.Prelude.{ℕ, ◌<◌, min, ◌≡◌, false, List, [], ◌∷◌, arith, length, All}

-- The arrays of a contract of `len` bytes.
abbrev pub Fits : ℕ → ContractCoverage → Type 0
Fits len g = EdgesFit len (g.edges, g.raw_edges) × WordsFit (min len depth_tracked_pcs) g.depths

-- The hits of an execution are in the bounds of its arrays, and of those of `len` bytes.
abbrev pub InBounds : ℕ → ExecutionContractCoverage → Type 0
InBounds len l =
    All (λ p. (p < len) × (p < length l.edges)) l.hit_pcs
    × All (λ p. (p < min len depth_tracked_pcs) × (p < length l.depths)) l.hit_depths
    × All (λ i. i < length l.reverts) l.hit_reverts

-- Everything that an execution hit is in the shared map.
abbrev pub Remembers : ExecutionContractCoverage → ContractCoverage → Type 0
Remembers l g =
    All (λ p. Covered (g.edges, g.raw_edges) p) l.hit_pcs
    × All (λ p. Known ⊥ g.depths (p, word_at l.depths p)) l.hit_depths
    × All (λ i. Known Unit g.reverts (i, word_at l.reverts i)) l.hit_reverts
    × All (λ j. Jumped g.jump_edges j) l.jump_edges

All-map {ℓ} :
    {A : Type ℓ} (P Q : A → Type 0) (xs : List A) → ((x : A) → P x → Q x) → All P xs → All Q xs
All-map P Q [] f a = tt
All-map P Q (x ∷ xs) f a = (f x a.0, All-map P Q xs f a.1)

All-unit {ℓ} : {A : Type ℓ} (xs : List A) → All {ℓ, 0} (λ (_ : A). Unit) xs
All-unit [] = tt
All-unit (x ∷ xs) = (tt, All-unit xs)

-- What a merge of `l` does to the entry of its contract.
abbrev pub MergedInto :
    ℕ → ExecutionContractCoverage → ContractCoverage → CoverageUpdate × ContractCoverage → Type 0
MergedInto len l g (u, h) =
    Fits len h
    × Remembers l h
    × ((k : ExecutionContractCoverage) → Remembers k g → Remembers k h)
    × (Remembers l g → is_interesting u ≡ false)

pub merge_contract-MergedInto :
    (len : ℕ) (l : ExecutionContractCoverage) (g : ContractCoverage)
    → Fits len g
    → InBounds len l
    → Returns (merge_contract l g) (MergedInto len l g)
unfolding merge_contract is_interesting
merge_contract-MergedInto len l g fits sized =
    Returns-bind (merge_hits (one_edge l.edges) l.hit_pcs (g.edges, g.raw_edges)) _ _
      (MergedInto len l g)
      (merge_hits-AllMerged (one_edge l.edges) (EdgesFit len)
        (λ p. (p < len) × (p < length l.edges)) Covered (λ p. p) (one_edge-Merged l.edges len)
        l.hit_pcs (g.edges, g.raw_edges) fits.0 sized.0)
      (λ (a, (bits, raw)) e.
        Returns-bind (merge_hits (one_depth l.depths) l.hit_depths g.depths) _ _
          (MergedInto len l g)
          (merge_hits-AllMerged (one_depth l.depths) (WordsFit (min len depth_tracked_pcs))
            (λ p. (p < min len depth_tracked_pcs) × (p < length l.depths)) (Known ⊥)
            (λ p. (p, word_at l.depths p)) (one_depth-Merged l.depths (min len depth_tracked_pcs))
            l.hit_depths g.depths fits.1 sized.1)
          (λ (b, seen) d.
            Returns-bind (merge_hits (one_revert l.reverts) l.hit_reverts g.reverts) _ _
              (MergedInto len l g)
              (merge_hits-AllMerged (one_revert l.reverts) (λ _. Unit) (λ j. j < length l.reverts)
                (Known Unit) (λ j. (j, word_at l.reverts j))
                (λ s i _. one_revert-Merged l.reverts s i) l.hit_reverts g.reverts tt sized.2)
              (λ (c, reverted) r.
                Returns-bind (merge_hits one_jump l.jump_edges g.jump_edges) _ _
                  (MergedInto len l g)
                  (merge_hits-AllMerged one_jump (λ _. Unit) (λ _. Unit) Jumped (λ j. j)
                    (λ s h _ _. one_jump-Merged s h) l.jump_edges g.jump_edges tt
                    (All-unit l.jump_edges))
                  (λ (n, jumped) j. (
                    (e.0, d.0),
                    (e.1, d.1, r.1, j.1),
                    (λ k m. (
                      All-map _ _ k.hit_pcs (λ p. e.2 p) m.0,
                      All-map _ _ k.hit_depths (λ p. d.2 (p, word_at k.depths p)) m.1,
                      All-map _ _ k.hit_reverts (λ i. r.2 (i, word_at k.reverts i)) m.2,
                      All-map _ _ k.jump_edges (λ i. j.2 i) m.3,
                    )),
                    λ m. ground (arith, e.3 m.0, d.3 m.1, r.3 m.2, j.3 m.3),
                  )))))
