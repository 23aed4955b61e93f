-- ===== src/Maxer/Fuzzer/Runs.antt =====
-- The budget of runs (`src/maxer/fuzzer.rs`).
use ripfuzz.Prelude.{
  ℕ, zero, suc, ◌+◌, ◌-◌, ◌*◌, ◌/◌, ◌%◌, ◌^◌, ◌≤◌, ◌<◌, min, ◌≡◌, refl, sym, ap, ◌∙◌, subst, inl,
  inr, Bool, ◌&&◌, ◌||◌, Option, none, some, List, [], ◌∷◌, arith, ◌==◌, Bool-cases, length, All,
  sum_of,
}
use ripfuzz.Outcome.{Result, ok, err}
use ripfuzz.Rng.{Rng}
use ripfuzz.Rng.Draw.{Leaves}
use ripfuzz.Threads.{run-total}
use ripfuzz.Evm.{Engine, last}
use ripfuzz.Coverage.Shared.{SharedCoverage}
use ripfuzz.Maxer.Corpus.{Entry}
use ripfuzz.Maxer.Fuzzer.{
  Campaign, MeasuredPrefix, Running, Phase, idle, running, considering, admitting, finished, failed,
  Thread, Execution, record_run, record_call, record_gas, consider_shared, admit, execute_call,
}
use ripfuzz.Maxer.Fuzzer.Execute.{execute_call-Leaves}
use ripfuzz.Maxer.Fuzzer.Bases.{RunHolds, Started}
use ripfuzz.Maxer.Fuzzer.Worker.{
  choose, worker_phase, worker, chosen, called, advance, offer, seeded, spawn, played, shares,
  split_runs,
}

sum : List ℕ → ℕ
sum = sum_of (λ n. n)

sum-shares :
    (base remainder index n : ℕ)
    → sum (shares base remainder index n) + min index remainder
      ≡ n * base + min (index + n) remainder
unfolding sum
sum-shares base remainder index zero = omega arith
sum-shares base remainder index (suc n) =
    let ih = sum-shares base remainder (index + 1) n in ground (arith, ih)

shares-even :
    (base remainder index n : ℕ)
    → All (λ b. (base ≤ b) × (b ≤ base + 1)) (shares base remainder index n)
shares-even base remainder index zero = tt
shares-even base remainder index (suc n) = (ground arith, shares-even base remainder (index + 1) n)

length-shares : (base remainder index n : ℕ) → length (shares base remainder index n) ≡ n
length-shares base remainder index zero = refl
length-shares base remainder index (suc n) = ap suc (length-shares base remainder (index + 1) n)

-- The runs are split among any number of threads but none: each thread has a budget, the budgets
-- add up to the runs, and any two of them differ by one at most.
pub split_runs-sum :
    (runs threads : ℕ)
    → 0 < threads
    → (budgets : List ℕ) × (split_runs runs threads ≡ ok budgets)
      × (length budgets ≡ threads)
      × (sum_of (λ n. n) budgets ≡ runs)
      × All (λ b. (runs / threads ≤ b) × (b ≤ runs / threads + 1)) budgets
unfolding split_runs sum
split_runs-sum runs threads h =
    let s = sum-shares (runs / threads) (runs % threads) 0 threads in
    (
      shares (runs / threads) (runs % threads) 0 threads,
      ground arith,
      length-shares (runs / threads) (runs % threads) 0 threads,
      grind (arith, s),
      shares-even (runs / threads) (runs % threads) 0 threads,
    )

ok-injective : {A : Type 0} {a b : A} → ok a ≡ ok b → a ≡ b
ok-injective e = cc

split_runs-inv :
    (runs threads : ℕ) (budgets : List ℕ)
    → split_runs runs threads ≡ ok budgets
    → (length budgets ≡ threads) × (sum_of (λ n. n) budgets ≡ runs)
unfolding split_runs
split_runs-inv runs zero budgets h = absurd (none_started h)
  where
    none_started : split_runs runs 0 ≡ ok budgets → ⊥
    none_started e = cc
split_runs-inv runs (suc n) budgets h =
    let (bs, e, len, all, _) = split_runs-sum runs (suc n) (omega arith) in
    let same : bs ≡ budgets = ok-injective (sym e ∙ h) in
    (subst (λ x. length x ≡ suc n) same len, subst (λ x. sum_of (λ n. n) x ≡ runs) same all)

module _ {engine : Engine} {C H : Type 0} (r : Rng) (ex : Execution engine C H r.Gen) where
  open engine use {Chain}

  abbrev Same : ℕ → Campaign C Chain → Type 0
  Same n s = s.runs ≡ n

  abbrev Balanced : ℕ → ℕ → Campaign C Chain × Thread C Chain r.Gen → Type 0
  Balanced runs left (s, t) = s.runs + t.left ≡ runs + left

  execute_call-runs :
      (best_known : ℕ) (q : Running C Chain) (call : C) (pending : List C) (s : Campaign C Chain)
      → Leaves
          (Same s.runs)
          (λ (_, q'). RunHolds r ex (call ∷ pending) q → Started r ex q')
          (execute_call r ex best_known q call pending s)
  unfolding record_gas record_call
  execute_call-runs best_known q call pending s =
      execute_call-Leaves r ex (Same s.runs) (λ u rs h. h) (λ u h. h) (λ u c h. h) (λ u m h. h)
        best_known q call pending s refl

  called-Balanced :
      (t : Thread C Chain r.Gen) (n : ℕ) (P : ℕ × Running C Chain → Type 0)
      (p : Result (ℕ × Running C Chain) × Campaign C Chain)
      → Leaves (Same n) P p
      → Balanced n t.left (called r ex t p)
  called-Balanced t n P (ok (b, q), s) h = omega (arith, h.0)
  called-Balanced t n P (err e, s) h = omega (arith, h)

  chosen-Balanced :
      (s : Campaign C Chain) (t : Thread C Chain r.Gen) (p : Result (Running C Chain) × r.Gen)
      → Balanced s.runs (t.left - 1) (chosen r ex s t p)
  chosen-Balanced s t (ok q, g) = refl
  chosen-Balanced s t (err e, g) = refl

  advance-Balanced :
      (s : Campaign C Chain) (t : Thread C Chain r.Gen) (q : Running C Chain) (pending : List C)
      → Balanced s.runs t.left (advance r ex s t q pending)
  advance-Balanced s t q [] = refl
  advance-Balanced s t q (c ∷ cs) =
      called-Balanced t s.runs (λ (_, q'). RunHolds r ex (c ∷ cs) q → Started r ex q')
        (execute_call r ex t.best_known q c cs s) (execute_call-runs t.best_known q c cs s)

  offer-Balanced :
      (s : Campaign C Chain) (t : Thread C Chain r.Gen) (ps : List (MeasuredPrefix C Chain))
      (o : Option (MeasuredPrefix C Chain))
      → Balanced s.runs t.left (offer r ex s t ps o)
  unfolding consider_shared
  offer-Balanced s t ps none = refl
  offer-Balanced s t ps (some p) = elim (Bool-cases p.measured) [
    | inl z ↦ rw z refl
    | inr z ↦ rw z refl
  ]

  admit-runs :
      (improved : Bool) (p : MeasuredPrefix C Chain) (s : Campaign C Chain)
      → (admit improved p s).runs ≡ s.runs
  unfolding admit
  admit-runs improved p s = elim (Bool-cases (p.measured && (improved || p.interesting))) [
    | inl z ↦ rw z refl
    | inr z ↦ rw z refl
  ]

  worker-Balanced :
      (timed_out : Bool) (s : Campaign C Chain) (t : Thread C Chain r.Gen) (p : Phase C Chain)
      → s.runs + t.left < 2 ^ 64
      → Balanced s.runs t.left (worker_phase r ex timed_out s t p)
  unfolding record_run
  worker-Balanced timed_out s t idle fits =
      elim (Bool-cases (t.left == 0 || (s.stop || timed_out))) [
        | inl z ↦ rw z refl
        | inr z ↦ rw z (
            let b = chosen-Balanced (record_run s) t (choose r ex (record_run s) t.gen) in
            ground (arith, b, z, fits))
      ]
  worker-Balanced timed_out s t (running q) fits = advance-Balanced s t q q.pending
  worker-Balanced timed_out s t (considering ps) fits = offer-Balanced s t ps (last ps)
  worker-Balanced timed_out s t (admitting improved []) fits = refl
  worker-Balanced timed_out s t (admitting improved (p ∷ ps)) fits =
      ap (λ n. n + t.left) (admit-runs improved p s)
  worker-Balanced timed_out s t finished fits = refl
  worker-Balanced timed_out s t (failed e) fits = refl

  step-Balanced :
      (timed_out : Bool) (s : Campaign C Chain) (t : Thread C Chain r.Gen)
      → s.runs + t.left < 2 ^ 64
      → Balanced s.runs t.left (worker r ex timed_out s t)
  unfolding worker
  step-Balanced timed_out s t fits = worker-Balanced timed_out s t t.phase fits

  left_of_spawn :
      (gens : List r.Gen) (budgets : List ℕ)
      → length budgets ≡ length gens
      → sum_of (λ (t : Thread C Chain r.Gen). t.left) (spawn r ex gens budgets)
        ≡ sum_of (λ n. n) budgets
  unfolding spawn
  left_of_spawn [] [] e = refl
  left_of_spawn [] (b ∷ bs) e = absurd (omega arith)
  left_of_spawn (g ∷ gs) [] e = absurd (omega arith)
  left_of_spawn (g ∷ gs) (b ∷ bs) e = omega (arith, left_of_spawn gs bs (omega (arith, e)))

  -- Under every schedule, the runs started and those left of the threads' budgets are together
  -- exactly the runs of the campaign (while their number fits 64 bits), so that no more are started.
  pub played-runs :
      (corpus : List (Entry C Chain)) (coverage : SharedCoverage) (max_runs : ℕ) (gens : List r.Gen)
      (budgets : List ℕ) (steps : List (ℕ × Bool))
      → max_runs < 2 ^ 64
      → split_runs max_runs (length gens) ≡ ok budgets
      → let final = played r ex (seeded r ex corpus coverage) gens budgets steps in
        final.shared.runs + sum_of (λ t. t.left) final.threads ≡ max_runs
  played-runs corpus coverage max_runs gens budgets steps fits split =
      let (len, all) = split_runs-inv max_runs (length gens) budgets split in
      let lefts = left_of_spawn gens budgets len in
      run-total (worker r ex) (λ s. s.runs) (λ t. t.left) max_runs
        (λ timed_out s t le. step-Balanced timed_out s t (omega (arith, le, fits)))
        (record { shared = seeded r ex corpus coverage; threads = spawn r ex gens budgets }) steps
        (omega (arith, lefts, all))
      ∙ omega (arith, lefts, all)
