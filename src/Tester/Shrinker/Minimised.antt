-- ===== src/Tester/Shrinker/Minimised.antt =====
-- The findings that shrinking returns (`src/tester/shrinker.rs`).
use Prim.Native.String.{String}
use mathlib.Core.List.{Sublist}
use mathlib.Core.List.Sublist
use ripfuzz.Prelude.{
  ℕ, ◌≤◌, ◌≡◌, refl, subst, ◌⊎◌, inl, inr, Bool, true, false, List, [], ◌∷◌, map, arith, leb,
  Bool-cases, length, is_empty, All,
}
use ripfuzz.Outcome.{Result, ok, err, Returns, Returns-bind}
use ripfuzz.Rng.{Rng}
use ripfuzz.Threads.{run, run-Holds}
use ripfuzz.Evm.{Engine, ExecOutput}
use ripfuzz.Sequence.{without, without_lem, pick_chunk, pick_chunk_fits}
use ripfuzz.Tester.BrokenInvariants.{BrokenInvariant, with_calls}
use ripfuzz.Tester.Stop.{Codecs, is_revert_finding, is_panic_finding}
use ripfuzz.Tester.Shrinker.{
  SharedShrink, update, record_attempt, exhausted, Phase, top, looking, counting, replaying,
  accepting, finished, failed, Thread, Execution, replay_last, reproduces, judge, choose_chunk,
  candidate_phase, worker_phase, new, shrink_worker, join, shrink_one, shrink, start,
}

module _ {engine : Engine} {C : Type 0} (ex : Execution engine C) (codecs : Codecs) where
  -- Every sequence is executed on the clean chain without an error of the engine.
  abbrev pub Executes : Type 0
  Executes =
      (c : List C)
      → (out : engine.Chain × ExecOutput engine.Coverage) × (engine.exec ex.chain
            (map ex.transaction c)
          ≡ ok out)

  replay_last_returns : Executes → (c : List C) → Returns (replay_last ex codecs c) (λ _. Unit {0})
  unfolding replay_last
  replay_last_returns executes c = elim (Bool-cases (is_empty c)) [
    | inl e ↦ rw e tt
    | inr e ↦ rw e (rw (executes c).1 tt)
  ]

  reproduces_returns :
      Executes → (c : List C) (id : String) → Returns (reproduces ex codecs c id) (λ _. Unit {0})
  unfolding reproduces
  reproduces_returns executes c id = elim (Bool-cases (is_revert_finding id)) [
    | inl e ↦ rw e (
        Returns-bind (replay_last ex codecs c) _ (λ _. Unit {0}) (λ _. Unit {0})
          (replay_last_returns executes c) (λ a u. tt))
    | inr e ↦ rw e (elim (Bool-cases (is_panic_finding id)) [
      | inl f ↦ rw f (
          Returns-bind (replay_last ex codecs c) _ (λ _. Unit {0}) (λ _. Unit {0})
            (replay_last_returns executes c) (λ a u. tt))
      | inr f ↦ rw f (rw (executes c).1 tt)
    ])
  ]

  -- A finding of the same id and text, whose sequence has some of the original's calls in their
  -- order, and still makes the finding.
  pub record Minimised (original b : BrokenInvariant C) : Type 0 where
    pub same_id : b.id ≡ original.id
    pub same_description : b.description ≡ original.description
    pub order : Sublist b.sequence original.sequence
    pub shorter : length b.sequence ≤ length original.sequence
    pub kept : (b ≡ original) ⊎ (reproduces ex codecs b.sequence original.id ≡ ok true)

  module _ (original : BrokenInvariant C) where
    abbrev Part : List C → Type 0
    Part c = Sublist c original.sequence × (length c ≤ length original.sequence)

    abbrev PhaseHolds : Phase C → Type 0
    PhaseHolds (counting b c) = Minimised original b × Part c
    PhaseHolds (replaying b c) = Minimised original b × Part c
    PhaseHolds (accepting b) = Minimised original b
    PhaseHolds (failed e) = ⊥
    PhaseHolds _ = Unit {0}

    abbrev SharedHolds : SharedShrink C → Type 0
    SharedHolds s = Minimised original s.current

    original-Minimised : Minimised original original
    original-Minimised = record {
      same_id = refl;
      same_description = refl;
      order = Sublist.refl original.sequence;
      shorter = omega arith;
      kept = inl refl;
    }

    candidate-Holds :
        (b : BrokenInvariant C) (from to : ℕ)
        → Minimised original b
        → from ≤ to
        → to ≤ length b.sequence
        → PhaseHolds (candidate_phase b (without b.sequence from to))
    candidate-Holds b from to h le fits =
        let (rest, returned, order, len) = without_lem b.sequence from to le fits in
        rw returned (h, (Sublist.trans order h.order, omega (arith, len, h.shorter)))

    judge-Holds :
        (b : BrokenInvariant C) (c : List C) (m : Result Bool)
        → reproduces ex codecs c b.id ≡ m
        → Returns m (λ _. Unit {0})
        → Minimised original b
        → Part c
        → PhaseHolds (judge b c m)
    unfolding with_calls
    judge-Holds b c (err e) same r h part = r
    judge-Holds b c (ok false) same r h part = tt
    judge-Holds b c (ok true) same r h part = record {
      same_id = h.same_id;
      same_description = h.same_description;
      order = part.0;
      shorter = part.1;
      kept = inr (subst (λ id. reproduces ex codecs c id ≡ ok true) h.same_id same);
    }

    module _ (r : Rng) (executes : Executes) where
      choose_chunk-Holds :
          (b : BrokenInvariant C) (g : r.Gen)
          → Minimised original b
          → 1 ≤ length b.sequence
          → PhaseHolds (choose_chunk r b g).0
      unfolding choose_chunk
      choose_chunk-Holds b g h some_call =
          let (from, to) = (pick_chunk r (length b.sequence) g).0 in
          let fits = pick_chunk_fits r (length b.sequence) g some_call in
          candidate-Holds b from to h fits.0 fits.1

      looking-Holds :
          (timed_out : Bool) (s : SharedShrink C) (g : r.Gen)
          → SharedHolds s
          → let (s', t) = worker_phase ex codecs r timed_out s g looking in
            SharedHolds s' × PhaseHolds t.phase
      looking-Holds timed_out s g hs = elim (Bool-cases (is_empty s.current.sequence)) [
        | inl e ↦ rw e (hs, tt)
        | inr e ↦ rw e (hs, choose_chunk-Holds s.current g hs (ground arith))
      ]

      worker-Holds :
          (timed_out : Bool) (s : SharedShrink C) (g : r.Gen) (p : Phase C)
          → SharedHolds s
          → PhaseHolds p
          → let (s', t) = worker_phase ex codecs r timed_out s g p in
            SharedHolds s' × PhaseHolds t.phase
      unfolding exhausted record_attempt update
      worker-Holds timed_out s g top hs hp = ground arith
      worker-Holds timed_out s g looking hs hp = looking-Holds timed_out s g hs
      worker-Holds timed_out s g (counting b c) hs hp = ground arith
      worker-Holds timed_out s g (replaying b c) hs hp = (
        hs,
        judge-Holds b c (reproduces ex codecs c b.id) refl (reproduces_returns executes c b.id) hp.0
            hp.1,
      )
      worker-Holds timed_out s g (accepting b) hs hp = ground arith
      worker-Holds timed_out s g finished hs hp = (hs, tt)
      worker-Holds timed_out s g (failed e) hs hp = absurd hp

      shrink_worker-Holds :
          (timed_out : Bool) (s : SharedShrink C) (t : Thread C r.Gen)
          → SharedHolds s
          → PhaseHolds t.phase
          → let (s', t') = shrink_worker ex codecs r timed_out s t in
            SharedHolds s' × PhaseHolds t'.phase
      unfolding shrink_worker
      shrink_worker-Holds timed_out s t hs ht = worker-Holds timed_out s t.gen t.phase hs ht

      idle :
          (gens : List r.Gen)
          → All
              (λ (t : Thread C r.Gen). PhaseHolds t.phase)
              (map (λ g. record { phase = top; gen = g }) gens)
      idle [] = tt
      idle (g ∷ gs) = (tt, idle gs)

      join_returns :
          (ts : List (Thread C r.Gen)) (b : BrokenInvariant C)
          → All (λ t. PhaseHolds t.phase) ts
          → join ex codecs r ts b ≡ ok b
      unfolding join
      join_returns [] b h = refl
      join_returns (t ∷ ts) b h = ground (arith, h.0, join_returns ts b h.1)

      shrink_one-Minimised :
          (max_runs : ℕ) (gens : List r.Gen) (steps : List (ℕ × Bool))
          → Returns (shrink_one ex codecs r max_runs gens original steps) (Minimised original)
      unfolding shrink_one new
      shrink_one-Minimised max_runs gens steps =
          elim (Bool-cases (leb (length original.sequence) 1)) [
            | inl short ↦ rw short original-Minimised
            | inr long ↦ rw long (
                let final =
                  run (shrink_worker ex codecs r) (start ex codecs r original max_runs gens)
                    steps in
                let held =
                  run-Holds (shrink_worker ex codecs r) SharedHolds (λ t. PhaseHolds t.phase)
                    shrink_worker-Holds (start ex codecs r original max_runs gens) steps
                    (original-Minimised, idle gens) in
                rw (join_returns final.threads final.shared.current held.1) held.0)
          ]

  -- The findings that were given, each with its schedule, and those that came out.
  abbrev pub AllMinimised :
      List (BrokenInvariant C × List (ℕ × Bool)) → List (BrokenInvariant C) → Type 0
  AllMinimised [] [] = Unit {0}
  AllMinimised ((original, _) ∷ rest) (b ∷ bs) = Minimised original b × AllMinimised rest bs
  AllMinimised _ _ = ⊥

  -- When the engine executes every sequence on the clean chain, shrinking returns for every list of
  -- findings, under every schedule of any number of threads, and the findings come out in the order
  -- given: each has the id and text of the one given, some of its calls in their order, and is it or
  -- still makes exactly its id on a clean replay.
  pub shrink-AllMinimised :
      (r : Rng) (max_runs : ℕ) (gens : List r.Gen)
      → Executes
      → (findings : List (BrokenInvariant C × List (ℕ × Bool)))
      → Returns (shrink ex codecs r max_runs gens findings) (AllMinimised findings)
  unfolding shrink
  shrink-AllMinimised r max_runs gens executes [] = tt
  shrink-AllMinimised r max_runs gens executes ((original, steps) ∷ rest) =
      Returns-bind (shrink_one ex codecs r max_runs gens original steps) _ (Minimised original)
        (AllMinimised ((original, steps) ∷ rest))
        (shrink_one-Minimised original r executes max_runs gens steps)
        (λ b h.
          Returns-bind (shrink ex codecs r max_runs gens rest) _ (AllMinimised rest)
            (AllMinimised ((original, steps) ∷ rest))
            (shrink-AllMinimised r max_runs gens executes rest) (λ bs hs. (h, hs)))
