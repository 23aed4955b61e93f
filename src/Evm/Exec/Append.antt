-- ===== src/Evm/Exec/Append.antt =====
-- Executing transactions at once, and in two parts (`exec` of src/evm/chain/mod.rs).
use ripfuzz.Prelude.{ℕ, ◌≡◌, refl, sym, ap, ◌∙◌, subst, Option, List, [], ◌∷◌, ◌++◌, map}
use ripfuzz.Outcome.{Result, ok, ok-injective, bind-eq-ok}
use ripfuzz.Evm.{TransactionResult, Report, ExecOutput}
use ripfuzz.Evm.Exec.{Revm, Chain, broken_invariant, as_list, End, execute, output, exec}

pub map-append {ℓ} :
    {A B : Type ℓ} (f : A → B) (xs ys : List A) → map f (xs ++ ys) ≡ map f xs ++ map f ys
map-append f [] ys = refl
map-append f (x ∷ xs) ys = ap (λ zs. f x ∷ zs) (map-append f xs ys)

module _ (revm : Revm) (from_revert : List ℕ → Option Report) where
  open revm use {World, Cheats, Transaction, Hits, Coverage, transact}

  -- No transaction changes the cheatcode state: none leaves a prank in force, say.
  abbrev pub LeavesCheats : Cheats → Type 0
  LeavesCheats c =
      (w : World) (tx : Transaction) (out : World × Cheats × Hits × TransactionResult)
      → transact w c tx ≡ ok out
      → out.1 ≡ c

  abbrev Run : Type 0
  Run = End revm from_revert × List TransactionResult

  abbrev from : Run → List Transaction → Result Run
  from ((w, c, k), _) ys = execute revm from_revert w c k ys

  execute-cons :
      (w : World) (c : Cheats) (k : List Hits) (x : Transaction) (xs : List Transaction)
      (a : World × Cheats × Hits × TransactionResult) (b : Run)
      → transact w c x ≡ ok a
      → execute revm from_revert a.0 a.1 (k ++ a.2 ∷ []) xs ≡ ok b
      → execute revm from_revert w c k (x ∷ xs) ≡ ok (b.0, a.3 ∷ b.1)
  unfolding execute
  execute-cons w c k x xs a b e f = rw e (rw f refl)

  execute-append :
      (w : World) (c : Cheats) (k : List Hits) (xs ys : List Transaction) (p q : Run)
      → execute revm from_revert w c k xs ≡ ok p
      → from p ys ≡ ok q
      → execute revm from_revert w c k (xs ++ ys) ≡ ok (q.0, p.1 ++ q.1)
  unfolding execute
  execute-append w c k [] ys p q e f =
      subst
        (λ (p : Run). from p ys ≡ ok q → execute revm from_revert w c k ys ≡ ok (q.0, p.1 ++ q.1))
        (ok-injective e) (λ f. f) f
  execute-append w c k (x ∷ xs) ys p q e f =
      let (a, at_a, e1) = bind-eq-ok (transact w c x) _ e in
      let (b, at_b, e2) = bind-eq-ok (execute revm from_revert a.0 a.1 (k ++ a.2 ∷ []) xs) _ e1 in
      subst
        (λ (p : Run).
          from p ys ≡ ok q → execute revm from_revert w c k (x ∷ xs ++ ys) ≡ ok (q.0, p.1 ++ q.1))
        (ok-injective e2)
        (λ f.
          execute-cons w c k x (xs ++ ys) a (q.0, b.1 ++ q.1) at_a
            (execute-append a.0 a.1 (k ++ a.2 ∷ []) xs ys b q at_b f))
        f

  -- What was hit before has no part in what is executed.
  execute-any_hits :
      (w : World) (c : Cheats) (k k' : List Hits) (xs : List Transaction) (p : Run)
      → execute revm from_revert w c k xs ≡ ok p
      → (hits : List Hits) × (execute revm from_revert w c k' xs ≡ ok ((p.0.0, p.0.1, hits), p.1))
  unfolding execute
  execute-any_hits w c k k' [] p e =
      let start : Run = ((w, c, k'), []) in
      let same : ok start ≡ ok ((p.0.0, p.0.1, k'), p.1) =
        ap (λ (p : Run). let end : Run = ((p.0.0, p.0.1, k'), p.1) in ok end) (ok-injective e) in
      (k', same)
  execute-any_hits w c k k' (x ∷ xs) p e =
      let (a, at_a, e1) = bind-eq-ok (transact w c x) _ e in
      let (b, at_b, e2) = bind-eq-ok (execute revm from_revert a.0 a.1 (k ++ a.2 ∷ []) xs) _ e1 in
      let (hits, same) = execute-any_hits a.0 a.1 (k ++ a.2 ∷ []) (k' ++ a.2 ∷ []) xs b at_b in
      (
        hits,
        subst
            (λ (p : Run). execute revm from_revert w c k' (x ∷ xs) ≡ ok ((p.0.0, p.0.1, hits), p.1))
            (ok-injective e2) (execute-cons w c k' x xs a ((b.0.0, b.0.1, hits), b.1) at_a same),
      )

  execute-LeavesCheats :
      (w : World) (c : Cheats) (k : List Hits) (xs : List Transaction) (p : Run)
      → LeavesCheats c
      → execute revm from_revert w c k xs ≡ ok p
      → p.0.1 ≡ c
  unfolding execute
  execute-LeavesCheats w c k [] p leaves e = ap (λ (p : Run). p.0.1) (sym (ok-injective e))
  execute-LeavesCheats w c k (x ∷ xs) p leaves e =
      let (a, at_a, e1) = bind-eq-ok (transact w c x) _ e in
      let (b, at_b, e2) = bind-eq-ok (execute revm from_revert a.0 a.1 (k ++ a.2 ∷ []) xs) _ e1 in
      let kept = leaves w x a at_a in
      let step =
        subst (λ c'. execute revm from_revert a.0 c' (k ++ a.2 ∷ []) xs ≡ ok b) kept at_b in
      ap (λ (p : Run). p.0.1) (sym (ok-injective e2))
      ∙ execute-LeavesCheats a.0 c (k ++ a.2 ∷ []) xs b leaves step

  abbrev pub Executed : Type 0
  Executed = Chain World Cheats × ExecOutput Coverage

  abbrev ended : Chain World Cheats → Run → Executed
  ended chain ((w, _, k), results) =
      (record chain { world = w }, output revm from_revert chain.coverage_enabled k results)

  exec-inv :
      (chain : Chain World Cheats) (xs : List Transaction) (out : Executed)
      → exec revm from_revert chain xs ≡ ok out
      → (p : Run) × (execute revm from_revert chain.world chain.cheatcode_state [] xs ≡ ok p)
        × (out ≡ ended chain p)
  unfolding exec
  exec-inv chain xs out e =
      let (p, at_p, e1) =
        bind-eq-ok (execute revm from_revert chain.world chain.cheatcode_state [] xs) _ e in
      (p, at_p, sym (ok-injective e1))

  exec-ended :
      (chain : Chain World Cheats) (xs : List Transaction) (p : Run)
      → execute revm from_revert chain.world chain.cheatcode_state [] xs ≡ ok p
      → exec revm from_revert chain xs ≡ ok (ended chain p)
  unfolding exec
  exec-ended chain xs p e = rw e refl

  -- The chain keeps its own cheatcode state.
  pub exec-cheatcode_state :
      (chain : Chain World Cheats) (xs : List Transaction) (out : Executed)
      → exec revm from_revert chain xs ≡ ok out
      → chain.cheatcode_state ≡ out.0.cheatcode_state
  exec-cheatcode_state chain xs out e =
      let (p, at_p, g) = exec-inv chain xs out e in
      ap (λ (a : Executed). a.0.cheatcode_state) (sym g)

  pub exec-nil :
      (chain : Chain World Cheats)
      → (out : ExecOutput Coverage) × (exec revm from_revert chain [] ≡ ok (chain, out))
  unfolding exec execute
  exec-nil chain = (_, refl)

  -- One transaction has one result.
  pub exec-one :
      (chain : Chain World Cheats) (x : Transaction) (out : Executed)
      → exec revm from_revert chain (x ∷ []) ≡ ok out
      → (result : TransactionResult) × (out.1.results ≡ result ∷ [])
  unfolding execute
  exec-one chain x out e =
      let (p, at_p, g) = exec-inv chain (x ∷ []) out e in
      let (a, at_a, e1) = bind-eq-ok (transact chain.world chain.cheatcode_state x) _ at_p in
      (a.3, ap (λ (o : Executed). o.1.results) g ∙ ap (λ (p : Run). p.1) (sym (ok-injective e1)))

  -- If no transaction changes the cheatcode state, transactions that are executed in two parts, which
  -- is how a campaign extends a state, are executed all at once, which is how a sequence is replayed,
  -- with the same end, the same results and the same reports.
  pub exec-append :
      (chain : Chain World Cheats) (xs ys : List Transaction) (first second : Executed)
      → LeavesCheats chain.cheatcode_state
      → exec revm from_revert chain xs ≡ ok first
      → exec revm from_revert first.0 ys ≡ ok second
      → (out : ExecOutput Coverage) × (exec revm from_revert chain (xs ++ ys) ≡ ok (second.0, out))
        × (out.results ≡ first.1.results ++ second.1.results)
        × (out.broken_invariants ≡ first.1.broken_invariants ++ second.1.broken_invariants)
  exec-append chain xs ys first second leaves e f =
      let c = chain.cheatcode_state in
      let (p, at_p, g) = exec-inv chain xs first e in
      let f1 = subst (λ (a : Executed). exec revm from_revert a.0 ys ≡ ok second) g f in
      let (q, at_q, g1) = exec-inv (ended chain p).0 ys second f1 in
      let (hits, same) = execute-any_hits p.0.0 c [] p.0.2 ys q at_q in
      let kept = execute-LeavesCheats chain.world c [] xs p leaves at_p in
      let end : Run = ((q.0.0, q.0.1, hits), q.1) in
      let later =
        subst (λ c'. execute revm from_revert p.0.0 c' p.0.2 ys ≡ ok end) (sym kept) same in
      let all = execute-append chain.world c [] xs ys p end at_p later in
      let joined : Run = ((q.0.0, q.0.1, hits), p.1 ++ q.1) in
      (
        (ended chain joined).1,
        rw g1 (exec-ended chain (xs ++ ys) joined all),
        rw (g, g1) refl,
        rw (g, g1)
            (map-append
              (λ result. as_list revm from_revert (broken_invariant revm from_revert result)) p.1
              q.1),
      )
