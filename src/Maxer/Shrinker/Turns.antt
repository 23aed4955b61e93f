-- ===== src/Maxer/Shrinker/Turns.antt =====
-- How many turns a thread takes until it ends (`shrink_worker` of src/maxer/shrinker.rs). A chunk that
-- is the whole sequence is drawn again and not counted as an attempt.
use ripfuzz.Prelude.{
  ℕ, zero, suc, ◌+◌, ◌-◌, ◌*◌, ◌^◌, ◌≤◌, ◌<◌, ◌≡◌, refl, sym, ◌∙◌, ap, subst, ◌≢◌, ◌⊎◌, inl, inr,
  Bool, true, false, Option, none, some, List, [], ◌∷◌, map, arith, ℕ_discrete, ◌==◌, Bool-cases,
  Option-cases, if◌then◌else◌, length, get_elem?, set, get_elem?-set_same, get_elem?-set_other,
  get_elem?-set_past,
}
use ripfuzz.Rng.{Rng}
use ripfuzz.Threads.{System, move, run}
use ripfuzz.Evm.{Engine}
use ripfuzz.Maxer.Shrinker.{
  SharedShrink, new, update, record_attempt, exhausted, Phase, top, looking, counting, replaying,
  accepting, finished, failed, Thread, Execution, choose_chunk, worker_phase, shrink_worker, start,
}

abbrev pub ended : {C : Type 0} → Phase C → Bool
ended finished = true
ended (failed _) = true
ended _ = false

-- The turns that a phase is from the end when no attempt is left.
abbrev weight : {C : Type 0} → Phase C → ℕ
weight top = 3
weight looking = 2
weight (counting _) = 1
weight (replaying _) = 5
weight (accepting _) = 4
weight _ = 0

-- A turn that draws the whole sequence.
abbrev pub redrawn : {C : Type 0} → Phase C → Phase C → ℕ
redrawn looking top = 1
redrawn _ _ = 0

abbrev pub turns : ℕ → List (ℕ × Bool) → ℕ
turns i [] = 0
turns i ((j, _) ∷ steps) = (if j == i then 1 else 0) + turns i steps

abbrev left : {C : Type 0} → SharedShrink C → ℕ
left s = 5 * (s.max_runs - s.attempts)

module _ {engine : Engine} {C : Type 0} (ex : Execution engine C) (r : Rng) where
  abbrev redrawn_now : SharedShrink C → Bool → Option (Thread C r.Gen) → ℕ
  redrawn_now s timed_out none = 0
  redrawn_now s timed_out (some t) = redrawn t.phase (shrink_worker ex r timed_out s t).1.phase

  -- How often the thread `i` draws the whole sequence along a schedule.
  unfoldable pub redraws : ℕ → System (SharedShrink C) (Thread C r.Gen) → List (ℕ × Bool) → ℕ
  redraws i s [] = 0
  redraws i s ((j, timed_out) ∷ steps) =
      (if j == i then redrawn_now s.shared timed_out (get_elem? s.threads j) else 0)
      + redraws i (move (shrink_worker ex r) s j timed_out (get_elem? s.threads j)) steps

  -- One turn: it ends the thread or brings its end nearer, and never takes an attempt back.
  worker-turn :
      (timed_out : Bool) (s : SharedShrink C) (g : r.Gen) (p : Phase C)
      → s.attempts + 1 < 2 ^ 64
      → let (s', t') = worker_phase ex r timed_out s g p in
        (s'.max_runs ≡ s.max_runs)
        × (s.attempts ≤ s'.attempts)
        × (s'.attempts ≤ s.attempts + 1)
        × (ended p ≡ true → ended t'.phase ≡ true)
        × (ended p ≡ false
            → left s' + weight t'.phase + 1 ≤ left s + weight p + 2 * redrawn p t'.phase)
  unfolding exhausted record_attempt update choose_chunk
  worker-turn timed_out s g top fits = ground arith
  worker-turn timed_out s g looking fits = ground arith
  worker-turn timed_out s g (counting c) fits = ground arith
  worker-turn timed_out s g (replaying c) fits = ground arith
  worker-turn timed_out s g (accepting c) fits = ground arith
  worker-turn timed_out s g finished fits = ground arith
  worker-turn timed_out s g (failed e) fits = ground arith

  -- The thread `i` has ended, or was still running at first and has taken fewer turns than it could.
  abbrev Settled :
      ℕ → System (SharedShrink C) (Thread C r.Gen) → List (ℕ × Bool) → Thread C r.Gen → Type 0
  Settled i s steps t =
      (t' : Thread C r.Gen) × (get_elem? (run (shrink_worker ex r) s steps).threads i ≡ some t')
      × ((ended t'.phase ≡ true)
          ⊎ ((ended t.phase ≡ false)
              × (turns i steps + 1 ≤ left s.shared + weight t.phase + 2 * redraws i s steps)))

  weight-pos : (p : Phase C) → ended p ≡ false → 1 ≤ weight p
  weight-pos p e = ground arith

  -- The next turn is the one of the thread `j`, which `o` is.
  module _ (i j : ℕ) (timed_out : Bool) (s : System (SharedShrink C) (Thread C r.Gen))
      (steps : List (ℕ × Bool)) (t : Thread C r.Gen) (at : get_elem? s.threads i ≡ some t)
      (fits : s.shared.attempts + suc (length steps) < 2 ^ 64) where
    abbrev next : Option (Thread C r.Gen) → System (SharedShrink C) (Thread C r.Gen)
    next o = move (shrink_worker ex r) s j timed_out o

    abbrev Later : Option (Thread C r.Gen) → Type 0
    Later o =
        (t1 : Thread C r.Gen)
        → get_elem? (next o).threads i ≡ some t1
        → (next o).shared.attempts + length steps < 2 ^ 64
        → Settled i (next o) steps t1

    abbrev Now : Option (Thread C r.Gen) → Type 0
    Now o =
        (t' : Thread C r.Gen) × (get_elem? (run (shrink_worker ex r) (next o) steps).threads i
          ≡ some t')
        × ((ended t'.phase ≡ true)
            ⊎ ((ended t.phase ≡ false)
                × ((if j == i then 1 else 0) + turns i steps + 1
                    ≤ left s.shared
                      + weight t.phase
                      + 2
                        * ((if j == i then redrawn_now s.shared timed_out o else 0)
                            + redraws i (next o) steps))))

    own_turn : j ≡ i → Later (some t) → Now (some t)
    unfolding shrink_worker
    own_turn same later =
        let (s1, t1) = worker_phase ex r timed_out s.shared t.gen t.phase in
        let w = worker-turn timed_out s.shared t.gen t.phase (omega (arith, fits)) in
        let there = get_elem?-set_same s.threads i t1 at in
        let (t', at', h) =
          later t1 (subst (λ k. get_elem? (set s.threads k t1) i ≡ some t1) (sym same) there)
            (omega (arith, fits, w.2)) in
        (
          t',
          at',
          elim h [
            | inl over ↦ inl over
            | inr (runs, le) ↦ elim (Bool-cases (ended t.phase)) [
              | inl z ↦ absurd (ground (arith, w.3 z, runs))
              | inr z ↦ inr (z, ground (arith, same, le, w.4 z))
            ]
          ],
        )

    other_turn : (u : Thread C r.Gen) → j ≢ i → Later (some u) → Now (some u)
    unfolding shrink_worker
    other_turn u apart later =
        let (s1, u1) = worker_phase ex r timed_out s.shared u.gen u.phase in
        let w = worker-turn timed_out s.shared u.gen u.phase (omega (arith, fits)) in
        let (t', at', h) =
          later t (get_elem?-set_other s.threads j i u1 apart ∙ at) (omega (arith, fits, w.2)) in
        (
          t',
          at',
          elim h [
            | inl over ↦ inl over
            | inr (runs, le) ↦ inr (runs, ground (arith, apart, le, w.0, w.1))
          ],
        )

    next-Settled : (o : Option (Thread C r.Gen)) → get_elem? s.threads j ≡ o → Later o → Now o
    next-Settled none here later =
        let (t', at', h) = later t at (omega (arith, fits)) in
        elim (ℕ_discrete j i) [
          | yes same ↦ absurd (cc (here, at, ap (get_elem? s.threads) same))
          | no apart ↦ (
            t',
            at',
            elim h [ inl over ↦ inl over | inr (runs, le) ↦ inr (runs, ground (arith, apart, le)) ],
          )
        ]
    next-Settled (some u) here later = elim (ℕ_discrete j i) [
      | yes same ↦
          let one : some u ≡ some t = sym here ∙ ap (get_elem? s.threads) same ∙ at in
          subst Now (sym one) (own_turn same (subst Later one later))
      | no apart ↦ other_turn u apart later
    ]

  run-Settled :
      (i : ℕ) (s : System (SharedShrink C) (Thread C r.Gen)) (steps : List (ℕ × Bool))
      (t : Thread C r.Gen)
      → get_elem? s.threads i ≡ some t
      → s.shared.attempts + length steps < 2 ^ 64
      → Settled i s steps t
  unfolding run redraws
  run-Settled i s [] t at fits = (
    t,
    at,
    elim (Bool-cases (ended t.phase)) [
      | inl z ↦ inl z
      | inr z ↦ inr (z, omega (arith, weight-pos t.phase z))
    ],
  )
  run-Settled i s ((j, timed_out) ∷ steps) t at fits =
      next-Settled i j timed_out s steps t at fits (get_elem? s.threads j) refl (λ t1 at1 fits1.
        run-Settled i (move (shrink_worker ex r) s j timed_out (get_elem? s.threads j)) steps t1 at1
          fits1)

  run-absent :
      (i : ℕ) (s : System (SharedShrink C) (Thread C r.Gen)) (steps : List (ℕ × Bool))
      → get_elem? s.threads i ≡ none
      → get_elem? (run (shrink_worker ex r) s steps).threads i ≡ none
  unfolding run
  run-absent i s [] at = at
  run-absent i s ((j, timed_out) ∷ steps) at =
      run-absent i (move (shrink_worker ex r) s j timed_out (get_elem? s.threads j)) steps
        (moved (get_elem? s.threads j))
    where
      moved :
          (o : Option (Thread C r.Gen))
          → get_elem? (move (shrink_worker ex r) s j timed_out o).threads i ≡ none
      moved none = at
      moved (some u) = get_elem?-set_past s.threads j i _ at

  abbrev phase_of : Option (Thread C r.Gen) → Phase C
  phase_of none = finished
  phase_of (some t) = t.phase

  started-top :
      (gens : List r.Gen) (i : ℕ) (t : Thread C r.Gen)
      → get_elem? (map (λ g. record { phase = top; gen = g }) gens) i ≡ some t
      → (t.phase ≡ top) × (i < length gens)
  started-top [] i t at = cc
  started-top (g ∷ gs) zero t at = (sym (ap phase_of at), omega arith)
  started-top (g ∷ gs) (suc i) t at = let (p, lt) = started-top gs i t at in (p, omega (arith, lt))

  -- Every thread that is given five turns for each run of the budget and three more, and two for each
  -- time it draws the whole sequence, has ended.
  pub run-ended :
      (original : List C) (max_runs : ℕ) (gens : List r.Gen) (steps : List (ℕ × Bool))
      → length steps < 2 ^ 64
      → ((i : ℕ)
          → i < length gens
          → 5 * max_runs + 3 + 2 * redraws i (start ex r original max_runs gens) steps
            ≤ turns i steps)
      → (i : ℕ) (t : Thread C r.Gen)
      → get_elem? (run (shrink_worker ex r) (start ex r original max_runs gens) steps).threads i
        ≡ some t
      → ended t.phase ≡ true
  unfolding new
  run-ended original max_runs gens steps fits enough i t at =
      let s = start ex r original max_runs gens in
      elim (Option-cases (get_elem? s.threads i)) [
        | inl gone ↦ absurd (cc (run-absent i s steps gone, at))
        | inr (t0, at0) ↦
            let (t', at', h) = run-Settled i s steps t0 at0 (omega (arith, fits)) in
            let (at_top, lt) = started-top gens i t0 at0 in
            elim h [
              | inl over ↦ subst (λ o. ended (phase_of o) ≡ true) (sym at' ∙ at) over
              | inr (runs, le) ↦
                  absurd (omega (arith, le, enough i lt, ap (λ (p : Phase C). weight p) at_top))
            ]
      ]
