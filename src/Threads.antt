-- ===== src/Threads.antt =====
-- Threads that share a state (`src/maxer/shrinker.rs`, `src/tester/shrinker.rs`): each step of a thread
-- is one access of the shared state, so that a schedule of steps is an interleaving.
use ripfuzz.Prelude.{
  ℕ, ◌+◌, ◌≤◌, ◌≡◌, refl, ◌∙◌, Option, none, some, List, [], ◌∷◌, arith, get_elem?, set, All,
  All-set, All-get_elem?, sum_of, sum_of-set, sum_of-get_elem?,
}

pub record System (S T : Type 0) : Type 0 where
  pub shared : S
  pub threads : List T

-- A step of a thread, whose input is what it reads of the outside.
module _ {S T I : Type 0} (step : I → S → T → S × T) where
  abbrev pub move : System S T → ℕ → I → Option T → System S T
  move s i input none = s
  move s i input (some t) =
      let (shared, t') = step input s.shared t in
      record { shared = shared; threads = set s.threads i t' }

  -- A schedule names the thread that moves next, and its input.
  unfoldable pub run : System S T → List (ℕ × I) → System S T
  run s [] = s
  run s ((i, input) ∷ steps) = run (move s i input (get_elem? s.threads i)) steps

  module _ (Shared : S → Type 0) (Local : T → Type 0) where
    -- A fact of the shared state, and one of every thread.
    abbrev pub Holds : System S T → Type 0
    Holds s = Shared s.shared × All Local s.threads

    abbrev pub HoldsOf : S × T → Type 0
    HoldsOf (s, t) = Shared s × Local t

    -- Facts that each step of a thread keeps are kept by every schedule.
    pub run-Holds :
        ((i : I) (s : S) (t : T) → Shared s → Local t → HoldsOf (step i s t))
        → (s : System S T) (steps : List (ℕ × I)) → Holds s
        → Holds (run s steps)
    unfolding run
    run-Holds keep s [] h = h
    run-Holds keep s ((i, input) ∷ steps) h =
        run-Holds keep (move s i input (get_elem? s.threads i)) steps
          (go (get_elem? s.threads i) refl)
      where
        go : (o : Option T) → get_elem? s.threads i ≡ o → Holds (move s i input o)
        go none at = h
        go (some t) at =
            let k = keep input s.shared t h.0 (All-get_elem? Local s.threads i h.1 at) in
            (k.0, All-set Local s.threads i _ h.1 k.1)

  -- A sum over the shared state and the threads that each step keeps, while it is at most `most`, is
  -- kept by every schedule.
  module _ (w : S → ℕ) (v : T → ℕ) (most : ℕ) where
    abbrev pub total : System S T → ℕ
    total s = w s.shared + sum_of v s.threads

    pub run-total :
        ((i : I) (s : S) (t : T)
          → w s + v t ≤ most
          → let (s', t') = step i s t in w s' + v t' ≡ w s + v t)
        → (s : System S T) (steps : List (ℕ × I)) → total s ≤ most
        → total (run s steps) ≡ total s
    unfolding run
    run-total keep s [] h = refl
    run-total keep s ((i, input) ∷ steps) h =
        let e = go (get_elem? s.threads i) refl in
        run-total keep (move s i input (get_elem? s.threads i)) steps (omega (arith, e, h)) ∙ e
      where
        go : (o : Option T) → get_elem? s.threads i ≡ o → total (move s i input o) ≡ total s
        go none at = refl
        go (some t) at =
            let t' = (step input s.shared t).1 in
            let e = sum_of-set v s.threads i t' at in
            let le = sum_of-get_elem? v s.threads i at in
            omega (arith, e, le, h, keep input s.shared t (omega (arith, le, h)))
