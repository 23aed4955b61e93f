-- ===== src/Coverage/Shared/Workers.antt =====
-- The merges of several workers into the shared maps (`src/evm/coverage/shared.rs`).
use ripfuzz.Prelude.{
  ℕ, zero, suc, min, ◌≡◌, refl, sym, ap, subst, Bool, false, Option, none, some, List, [], ◌∷◌,
  arith, length, All,
}
use ripfuzz.Outcome.{Result, ◌>>=◌, Returns, Returns-map, Returns-bind, ok}
use ripfuzz.Coverage.Exec.{CoverageId, ExecutionContractCoverage, depth_tracked_pcs, zeros}
use ripfuzz.Coverage.Shared.{
  merge, get_or_new, find, store, ContractCoverage, CoverageUpdate, SharedCoverage, is_interesting,
  merge_contract, new_with_initcode, add_updates, store_bytecode, or_new,
}
use ripfuzz.Coverage.Shared.Contracts.{find-store, find-stored}
use ripfuzz.Coverage.Shared.Remembered.{
  Fits, InBounds, Remembers, MergedInto, merge_contract-MergedInto,
}

-- What an execution recorded, by contract.
abbrev pub Local : Type 0
Local = List (CoverageId × ExecutionContractCoverage)

abbrev FitsIfAny : ℕ → Option ContractCoverage → Type 0
FitsIfAny len none = Unit
FitsIfAny len (some g) = Fits len g

abbrev pub Seen : ExecutionContractCoverage → Option ContractCoverage → Type 0
Seen l none = ⊥
Seen l (some g) = Remembers l g

length-zeros : (n : ℕ) → length (zeros n) ≡ n
unfolding zeros
length-zeros zero = refl
length-zeros (suc n) = ap suc (length-zeros n)

new_with_initcode-Fits : (n : ℕ) (b : Bool) → Fits n (new_with_initcode n b)
unfolding new_with_initcode
new_with_initcode-Fits n b =
    ((length-zeros n, length-zeros n), length-zeros (min n depth_tracked_pcs))

or_new-Fits :
    (n : ℕ) (l : ExecutionContractCoverage) (o : Option ContractCoverage)
    → FitsIfAny n o
    → length l.edges ≡ n
    → Fits n (or_new l o)
or_new-Fits n l none fits e =
    subst (λ m. Fits m (new_with_initcode (length l.edges) l.is_initcode)) e
      (new_with_initcode-Fits (length l.edges) l.is_initcode)
or_new-Fits n l (some g) fits e = fits

or_new-Remembers :
    (k l : ExecutionContractCoverage) (o : Option ContractCoverage)
    → Seen k o
    → Remembers k (or_new l o)
or_new-Remembers k l none z = absurd z
or_new-Remembers k l (some g) z = z

-- `len id` is the length of the code of `id`.
module _ (len : CoverageId → ℕ) where
  abbrev pub SharedFits : SharedCoverage → Type 0
  SharedFits shared = (id : CoverageId) → FitsIfAny (len id) (find id shared.contracts)

  abbrev pub LocalFits : Local → Type 0
  LocalFits local = All (λ (id, l). InBounds (len id) l × (length l.edges ≡ len id)) local

  abbrev AllSeen : Local → SharedCoverage → Type 0
  AllSeen local shared = All (λ (id, l). Seen l (find id shared.contracts)) local

  abbrev Keeps : SharedCoverage → SharedCoverage → Type 0
  Keeps s t =
      (id : CoverageId) (l : ExecutionContractCoverage)
      → Seen l (find id s.contracts)
      → Seen l (find id t.contracts)

  abbrev pub MapMerged : Local → SharedCoverage → CoverageUpdate × SharedCoverage → Type 0
  MapMerged local s (u, t) =
      SharedFits t × AllSeen local t × Keeps s t × (AllSeen local s → is_interesting u ≡ false)

  AllSeen-Keeps :
      (s t : SharedCoverage) (local : Local) → Keeps s t → AllSeen local s → AllSeen local t
  AllSeen-Keeps s t [] keep a = tt
  AllSeen-Keeps s t ((id, l) ∷ local) keep a = (keep id l a.0, AllSeen-Keeps s t local keep a.1)

  pub merge-MapMerged :
      (local : Local) (s : SharedCoverage)
      → SharedFits s
      → LocalFits local
      → Returns (merge local s) (MapMerged local s)
  unfolding merge get_or_new add_updates is_interesting
  merge-MapMerged [] s fits sized = (fits, tt, λ id l z. z, λ _. refl)
  merge-MapMerged ((id, l) ∷ local) s fits sized =
      Returns-bind (merge_contract l (get_or_new id l s)) _
        (MergedInto (len id) l (get_or_new id l s)) (MapMerged ((id, l) ∷ local) s)
        (merge_contract-MergedInto (len id) l (get_or_new id l s)
          (or_new-Fits (len id) l (find id s.contracts) (fits id) sized.0.1) sized.0.0)
        (λ (u, g) (fit, seen, keep, old).
          let t : SharedCoverage = record {
            contracts = store id g s.contracts;
            bytecodes = store_bytecode id l.bytecode s.bytecodes;
          } in
          let kept : Keeps s t = λ k m z.
            find-store (Seen m) id k g s.contracts
              (λ e. keep m (
                or_new-Remembers m l (find id s.contracts)
                  (subst (λ j. Seen m (find j s.contracts)) (sym e) z)))
              z in
          Returns-bind (merge local t) _ (MapMerged local t) (MapMerged ((id, l) ∷ local) s)
            (merge-MapMerged local t
              (λ k.
                find-store (FitsIfAny (len k)) id k g s.contracts
                  (λ e. subst (λ j. Fits (len j) g) e fit) (fits k))
              sized.1)
            (λ (v, h) (fits', all, keep', old'). (
              fits',
              (keep' id l (rw (find-stored id g s.contracts) seen), all),
              λ k m z. keep' k m (kept k m z),
              λ a. ground (
                arith,
                old (or_new-Remembers l l (find id s.contracts) a.0),
                old' (AllSeen-Keeps s t local kept a.1),
              ),
            )))

-- The merges of several workers, in the order they happen.
pub merge_all : List Local → SharedCoverage → Result SharedCoverage
merge_all [] s = ok s
merge_all (l ∷ ls) s = do (_, t) ← merge l s; merge_all ls t

module _ (len : CoverageId → ℕ) where
  merge_all-AllSeen :
      (local : Local) (ls : List Local) (s : SharedCoverage)
      → SharedFits len s
      → AllSeen len local s
      → All (LocalFits len) ls
      → Returns (merge_all ls s) (λ t. SharedFits len t × AllSeen len local t)
  unfolding merge_all
  merge_all-AllSeen local [] s fits m sized = (fits, m)
  merge_all-AllSeen local (k ∷ ks) s fits m sized =
      Returns-bind (merge k s) _ (MapMerged len k s) (λ t. SharedFits len t × AllSeen len local t)
        (merge-MapMerged len k s fits sized.0)
        (λ (u, t) (f, _, keep, _).
          merge_all-AllSeen local ks t f (AllSeen-Keeps len s t local keep m) sized.1)

  -- However many workers merge their coverage in between, into whichever contracts, merging an
  -- execution's coverage again reports nothing new, and none of the merges panics, when the arrays of
  -- every contract have the length of its code and all hits are within them.
  pub merge-remembered :
      (local : Local) (ls : List Local) (s : SharedCoverage)
      → SharedFits len s
      → LocalFits len local
      → All (LocalFits len) ls
      → Returns (merge_all (local ∷ ls) s >>= merge local) (λ (u, _). is_interesting u ≡ false)
  unfolding merge_all
  merge-remembered local ls s fits sized all =
      Returns-bind (merge_all (local ∷ ls) s) (merge local)
        (λ t. SharedFits len t × AllSeen len local t) (λ (u, _). is_interesting u ≡ false)
        (Returns-bind (merge local s) _ (MapMerged len local s)
          (λ t. SharedFits len t × AllSeen len local t) (merge-MapMerged len local s fits sized)
          (λ (u, t) (f, m, _, _). merge_all-AllSeen local ls t f m all))
        (λ t (f, m).
          Returns-map (merge local t) (MapMerged len local t) (λ (u, _). is_interesting u ≡ false)
            (λ r q. q.3 m) (merge-MapMerged len local t f sized))
