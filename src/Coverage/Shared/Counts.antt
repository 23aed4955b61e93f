-- ===== src/Coverage/Shared/Counts.antt =====
-- The count of edges and what a merge reports (`src/evm/coverage/shared.rs`).
use ripfuzz.Prelude.{
  ℕ, zero, suc, ◌+◌, max, ◌≡◌, refl, sym, ◌∙◌, subst, inl, inr, Bool, Option, none, some, List, [],
  ◌∷◌, arith, ◌==◌, if◌then◌else◌, Bool-cases, Option-cases, length, get_elem?, All, sum_of,
  sum_of-set,
}
use ripfuzz.Outcome.{Result, ok, err, ◌>>=◌, Returns}
use ripfuzz.Coverage.Exec.{CoverageId, ExecutionContractCoverage, zeros, same_id}
use ripfuzz.Coverage.Shared.{
  merge, get_or_new, or_new, find, store, covered, edge_count, index, one_edge, merge_hits,
  ContractCoverage, CoverageUpdate, SharedCoverage, merge_contract, new_with_initcode, add_updates,
  store_bytecode, one_depth, one_revert, one_jump,
}
use ripfuzz.Coverage.Shared.Workers.{Local, SharedFits, LocalFits, MapMerged, merge-MapMerged}
use ripfuzz.Coverage.Shared.Contracts.{find-store}

-- Of whatever value a computation returns, `P` holds.
abbrev IfReturns : {A : Type 0} → Result A → (A → Type 0) → Type 0
IfReturns (ok a) P = P a
IfReturns (err e) P = Unit

IfReturns-bind :
    {A B : Type 0} (m : Result A) (f : A → Result B) (P : A → Type 0) (Q : B → Type 0)
    → IfReturns m P
    → ((a : A) → P a → IfReturns (f a) Q)
    → IfReturns (m >>= f) Q
IfReturns-bind (ok a) f P Q p g = g a p
IfReturns-bind (err e) f P Q p g = tt

any : {A : Type 0} (m : Result A) → IfReturns m (λ _. Unit)
any (ok a) = tt
any (err e) = tt

both : {A : Type 0} (m : Result A) (P Q : A → Type 0) → Returns m P → IfReturns m Q → Returns m Q
both (ok a) P Q p q = q
both (err e) P Q p q = p

abbrev hit : ℕ → ℕ
hit n = if n == 0 then 0 else 1

abbrev one : Bool → ℕ
one b = if b then 1 else 0

abbrev hits : List ℕ → ℕ
hits = sum_of hit

one_edge-hits :
    (local : List ℕ) (edges raw : List ℕ) (pc : ℕ)
    → IfReturns
        (one_edge local (edges, raw) pc)
        (λ (b, (after, _)). one b + hits edges ≡ hits after)
unfolding one_edge index
one_edge-hits local edges raw pc = elim (Option-cases (get_elem? local pc)) [
  | inl e ↦ rw e tt
  | inr (l, e) ↦ rw e (elim (Option-cases (get_elem? edges pc)) [
    | inl f ↦ rw f tt
    | inr (p, f) ↦ rw f (elim (Option-cases (get_elem? raw pc)) [
      | inl g ↦ rw g tt
      | inr (r, g) ↦ rw g (ground (arith, sum_of-set hit edges pc (max p 1) f))
    ])
  ])
]

merge_hits-hits :
    (local : List ℕ) (pcs : List ℕ) (edges raw : List ℕ)
    → IfReturns
        (merge_hits (one_edge local) pcs (edges, raw))
        (λ (n, (after, _)). n + hits edges ≡ hits after)
unfolding merge_hits
merge_hits-hits local [] edges raw = omega arith
merge_hits-hits local (pc ∷ pcs) edges raw =
    IfReturns-bind (one_edge local (edges, raw) pc) _
      (λ (b, (after, _)). one b + hits edges ≡ hits after)
      (λ (n, (after, _)). n + hits edges ≡ hits after) (one_edge-hits local edges raw pc)
      (λ (b, (mid, raw')) e.
        IfReturns-bind (merge_hits (one_edge local) pcs (mid, raw')) _
          (λ (n, (after, _)). n + hits mid ≡ hits after)
          (λ (n, (after, _)). n + hits edges ≡ hits after) (merge_hits-hits local pcs mid raw')
          (λ (n, (after, _)) e'. omega (arith, e, e')))

abbrev Grown : ContractCoverage → CoverageUpdate × ContractCoverage → Type 0
Grown g (u, h) = (u.new_edges + covered g ≡ covered h) × (h.is_initcode ≡ g.is_initcode)

merge_contract-Grown :
    (l : ExecutionContractCoverage) (g : ContractCoverage)
    → l.is_initcode ≡ g.is_initcode
    → IfReturns (merge_contract l g) (Grown g)
unfolding merge_contract
merge_contract-Grown l g same =
    IfReturns-bind (merge_hits (one_edge l.edges) l.hit_pcs (g.edges, g.raw_edges)) _
      (λ (n, (after, _)). n + hits g.edges ≡ hits after) (Grown g)
      (merge_hits-hits l.edges l.hit_pcs g.edges g.raw_edges)
      (λ (n, (bits, raw)) e.
        IfReturns-bind (merge_hits (one_depth l.depths) l.hit_depths g.depths) _ (λ _. Unit)
          (Grown g) (any (merge_hits (one_depth l.depths) l.hit_depths g.depths))
          (λ (b, seen) _.
            IfReturns-bind (merge_hits (one_revert l.reverts) l.hit_reverts g.reverts) _ (λ _. Unit)
              (Grown g) (any (merge_hits (one_revert l.reverts) l.hit_reverts g.reverts))
              (λ (c, reverted) _.
                IfReturns-bind (merge_hits one_jump l.jump_edges g.jump_edges) _ (λ _. Unit)
                  (Grown g) (any (merge_hits one_jump l.jump_edges g.jump_edges))
                  (λ (d, jumped) _. (
                    elim (Bool-cases g.is_initcode) [
                      | inl t ↦ rw (same, t) refl
                      | inr t ↦ rw (same, t) e
                    ],
                    refl,
                  )))))

abbrev old : Option ContractCoverage → ℕ
old none = 0
old (some g) = covered g

abbrev total : List (CoverageId × ContractCoverage) → ℕ
total = sum_of (λ ((_, c) : CoverageId × ContractCoverage). covered c)

total-store :
    (id : CoverageId) (g : ContractCoverage) (m : List (CoverageId × ContractCoverage))
    → total (store id g m) + old (find id m) ≡ total m + covered g
unfolding store find
total-store id g [] = omega arith
total-store id g ((j, b) ∷ m) = elim (Bool-cases (same_id j id)) [
  | inl e ↦ rw e (omega arith)
  | inr e ↦ rw e (let rec = total-store id g m in omega (arith, rec))
]

hits-zeros : (n : ℕ) → hits (zeros n) ≡ 0
unfolding zeros
hits-zeros zero = refl
hits-zeros (suc n) = let rec = hits-zeros n in omega (arith, rec)

covered-or_new :
    (l : ExecutionContractCoverage) (o : Option ContractCoverage) → covered (or_new l o) ≡ old o
unfolding new_with_initcode
covered-or_new l none = elim (Bool-cases l.is_initcode) [
  | inl e ↦ rw e refl
  | inr e ↦ rw e (hits-zeros (length l.edges))
]
covered-or_new l (some g) = refl

abbrev IsKind : Bool → Option ContractCoverage → Type 0
IsKind b none = Unit
IsKind b (some g) = g.is_initcode ≡ b

or_new-IsKind :
    (b : Bool) (l : ExecutionContractCoverage) (o : Option ContractCoverage)
    → l.is_initcode ≡ b
    → IsKind b o
    → (or_new l o).is_initcode ≡ b
unfolding new_with_initcode
or_new-IsKind b l none e k = e
or_new-IsKind b l (some g) e k = k

-- `kind id` says whether `id` is initcode.
module _ (kind : CoverageId → Bool) where
  abbrev pub SharedKinds : SharedCoverage → Type 0
  SharedKinds s = (id : CoverageId) → IsKind (kind id) (find id s.contracts)

  abbrev pub LocalKinds : Local → Type 0
  LocalKinds local = All (λ (id, l). l.is_initcode ≡ kind id) local

  merge-grown :
      (local : Local) (s : SharedCoverage)
      → SharedKinds s
      → LocalKinds local
      → IfReturns (merge local s) (λ (u, t). u.new_edges + edge_count s ≡ edge_count t)
  unfolding merge get_or_new add_updates edge_count
  merge-grown [] s kinds same = omega arith
  merge-grown ((id, l) ∷ local) s kinds same =
      let g = or_new l (find id s.contracts) in
      let is = or_new-IsKind (kind id) l (find id s.contracts) same.0 (kinds id) in
      IfReturns-bind (merge_contract l g) _ (Grown g)
        (λ (u, t). u.new_edges + edge_count s ≡ edge_count t)
        (merge_contract-Grown l g (same.0 ∙ sym is))
        (λ (u, h) (e, i).
          let t : SharedCoverage = record {
            contracts = store id h s.contracts;
            bytecodes = store_bytecode id l.bytecode s.bytecodes;
          } in
          IfReturns-bind (merge local t) _ (λ (v, r). v.new_edges + edge_count t ≡ edge_count r)
            (λ (v, r). v.new_edges + edge_count s ≡ edge_count r)
            (merge-grown local t
              (λ k.
                find-store (IsKind (kind k)) id k h s.contracts
                  (λ p. subst (λ j. h.is_initcode ≡ kind j) p (i ∙ is)) (kinds k))
              same.1)
            (λ (v, r) e'.
              let c = total-store id h s.contracts in
              let o = covered-or_new l (find id s.contracts) in omega (arith, e, e', c, o)))

  -- A merge reports exactly as many new edges as the count of hit edges grows by, and does not panic,
  -- when the arrays of every contract have the length of its code, all hits are within them, and
  -- executions agree on which contracts are initcode.
  pub merge-edge_count :
      (len : CoverageId → ℕ) (local : Local) (s : SharedCoverage)
      → SharedFits len s
      → LocalFits len local
      → SharedKinds s
      → LocalKinds local
      → Returns (merge local s) (λ (u, t). u.new_edges + edge_count s ≡ edge_count t)
  merge-edge_count len local s fits sized kinds same =
      both (merge local s) (MapMerged len local s)
        (λ (u, t). u.new_edges + edge_count s ≡ edge_count t)
        (merge-MapMerged len local s fits sized) (merge-grown local s kinds same)
