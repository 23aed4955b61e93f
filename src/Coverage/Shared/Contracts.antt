-- ===== src/Coverage/Shared/Contracts.antt =====
-- The entries of the shared maps, by contract.
use ripfuzz.Prelude.{
  ◌≡◌, refl, sym, ap, ◌∙◌, subst, inl, inr, Bool, true, false, ◌&&◌, Option, some, List, [], ◌∷◌,
  arith, ◌==◌, if◌then◌else◌, ==_iff, Bool-cases,
}
use ripfuzz.Coverage.Exec.{CoverageId, initcode, runtime, same_id}
use ripfuzz.Coverage.Shared.{find, store}

and-true : (a b : Bool) → (a && b) ≡ true → (a ≡ true) × (b ≡ true)
and-true true b e = (refl, e)
and-true false b e = ground (arith, e)

pub same_id→≡ : (a b : CoverageId) → same_id a b ≡ true → a ≡ b
unfolding same_id
same_id→≡ (initcode h) (initcode k) e = ap initcode ((==_iff h k).0 e)
same_id→≡ (runtime a h) (runtime b k) e =
    let (p, q) = and-true (a == b) (h == k) e in
    ap (λ x. runtime x h) ((==_iff a b).0 p) ∙ ap (runtime b) ((==_iff h k).0 q)
same_id→≡ (initcode h) (runtime b k) e = ground (arith, e)
same_id→≡ (runtime a h) (initcode k) e = ground (arith, e)

pub same_id_refl : (a : CoverageId) → same_id a a ≡ true
unfolding same_id
same_id_refl (initcode h) = (==_iff h h).1 refl
same_id_refl (runtime a h) = rw ((==_iff a a).1 refl) ((==_iff h h).1 refl)

module _ {A : Type 0} where
  -- What is found after a store: the stored entry, or what was found before.
  pub find-store :
      (P : Option A → Type 0) (id k : CoverageId) (a : A) (m : List (CoverageId × A))
      → (id ≡ k → P (some a))
      → P (find k m)
      → P (find k (store id a m))
  unfolding find store
  find-store P id k a [] new old = elim (Bool-cases (same_id id k)) [
    | inl e ↦ rw e (new (same_id→≡ id k e))
    | inr e ↦ rw e old
  ]
  find-store P id k a ((j, b) ∷ m) new old = elim (Bool-cases (same_id j id)) [
    | inl e ↦ rw e (elim (Bool-cases (same_id j k)) [
      | inl f ↦ rw f (new (sym (same_id→≡ j id e) ∙ same_id→≡ j k f))
      | inr f ↦ rw f (subst (λ c. P (if c then some b else find k m)) f old)
    ])
    | inr e ↦ rw e (elim (Bool-cases (same_id j k)) [
      | inl f ↦ rw f (subst (λ c. P (if c then some b else find k m)) f old)
      | inr f ↦
          rw f (find-store P id k a m new (subst (λ c. P (if c then some b else find k m)) f old))
    ])
  ]

  pub find-stored :
      (id : CoverageId) (a : A) (m : List (CoverageId × A)) → find id (store id a m) ≡ some a
  unfolding find store
  find-stored id a [] = rw (same_id_refl id) refl
  find-stored id a ((j, b) ∷ m) = elim (Bool-cases (same_id j id)) [
    | inl e ↦ rw e (rw e refl)
    | inr e ↦ rw e (rw e (find-stored id a m))
  ]
