-- ===== src/Tester/Fuzzer/Bases.antt =====
-- The base that a run starts from (`worker` of src/tester/fuzzer.rs).
use ripfuzz.Prelude.{
  ℕ, ◌+◌, ◌-◌, ◌≤◌, max, inl, inr, Option, none, some, List, [], ◌∷◌, arith, ltb, leb, ◌==◌,
  Bool-cases, length, get_elem?, set, length-set, All,
}
use ripfuzz.Outcome.{panicked, context}
use ripfuzz.Rng.{Rng}
use ripfuzz.Rng.Draw.{lift, Leaves, Leaves-bind, Leaves-any}
use ripfuzz.Evm.{Engine}
use ripfuzz.Sequence.{random}
use ripfuzz.Sequence.Random.{random-length}
use ripfuzz.Tester.Stop.{Codecs}
use ripfuzz.Tester.BrokenInvariants.{BrokenInvariant}
use ripfuzz.Tester.Corpus.{
  Entry, random_base, pick_entry, last_replayed, try_entry, or_entry, or_else, weight, total_from,
}
use ripfuzz.Tester.Fuzzer.{Campaign, Running, Execution}
use ripfuzz.Tester.Fuzzer.Observed.{Observed, IsSnapshot, IsSnapshot-initial, OfState, OfEntry}
use ripfuzz.Tester.Fuzzer.Worker.{from_start, handler_call, mutate, extend, fresh_run, choose}

module _ {C Chain : Type 0} (P : List C → Chain → Type 0) where
  abbrev pub OfBase : Option (List C × Chain) → Type 0
  OfBase none = Unit {0}
  OfBase (some (sequence, chain)) = P sequence chain

  pick_entry-OfBase :
      (es : List (Entry C Chain)) (pick : ℕ) → All (OfEntry P) es → OfBase (pick_entry es pick)
  unfolding pick_entry
  pick_entry-OfBase [] pick h = tt
  pick_entry-OfBase (e ∷ es) pick h = go e.chain h.0 (λ p. pick_entry-OfBase es p h.1)
    where
      go :
          (o : Option Chain)
          → OfState P e.sequence o
          → ((p : ℕ) → OfBase (pick_entry es p))
          → OfBase (try_entry e o pick (pick_entry es))
      go none k rest = rest pick
      go (some c) k rest = elim (Bool-cases (ltb pick (weight e))) [
        | inl z ↦ rw z k
        | inr z ↦ rw z (rest (pick - weight e))
      ]

  last_replayed-OfBase :
      (es : List (Entry C Chain)) → All (OfEntry P) es → OfBase (last_replayed es)
  unfolding last_replayed
  last_replayed-OfBase [] h = tt
  last_replayed-OfBase (e ∷ es) h = go (last_replayed es) e.chain (last_replayed-OfBase es h.1) h.0
    where
      go :
          (x : Option (List C × Chain)) (o : Option Chain)
          → OfBase x
          → OfState P e.sequence o
          → OfBase (or_entry e o x)
      go (some x) o hx k = hx
      go none none hx k = tt
      go none (some c) hx k = k

  pub random_base-OfBase :
      (r : Rng) (es : List (Entry C Chain)) (g : r.Gen)
      → All (OfEntry P) es
      → OfBase (random_base r es g).0
  unfolding random_base
  random_base-OfBase r es g h =
      let total = total_from 0 es in
      elim (Bool-cases (total == 0)) [
        | inl z ↦ rw z tt
        | inr z ↦ rw z (
            let pick = (r.below total g).0 in
            go (pick_entry es pick) (last_replayed es) (pick_entry-OfBase es pick h)
              (last_replayed-OfBase es h))
      ]
    where
      go : (x y : Option (List C × Chain)) → OfBase x → OfBase y → OfBase (or_else x y)
      go none y hx hy = hy
      go (some x) y hx hy = hx

module _ {engine : Engine} {C H : Type 0} (r : Rng) (codecs : Codecs)
    (ex : Execution engine C H r.Gen) where
  open engine use {Chain}

  -- The most calls of handlers in a sequence.
  abbrev pub limit : ℕ
  limit = max ex.max_calls 1

  abbrev pub Kept : List C → Chain → Type 0
  Kept sequence chain = IsSnapshot r codecs ex sequence chain × (length sequence ≤ limit)

  abbrev pub FindingHolds : BrokenInvariant C → Type 0
  FindingHolds b = Observed r codecs ex b.sequence b.id

  abbrev pub StateHolds : Campaign C Chain → Type 0
  StateHolds s = All FindingHolds s.findings.broken_invariants × All (OfEntry Kept) s.corpus

  abbrev pub RunHolds : List C → Running C Chain → Type 0
  RunHolds pending q =
      IsSnapshot r codecs ex q.executed q.chain × (length q.executed + length pending ≤ limit)

  abbrev pub Started : Running C Chain → Type 0
  Started q = RunHolds q.pending q

  abbrev pub Any : r.Gen → Type 0
  Any _ = Unit {0}

  start-Started : (cs : List C) → length cs ≤ limit → Started (from_start r codecs ex cs)
  start-Started cs h = (IsSnapshot-initial r codecs ex, omega (arith, h))

  fresh_run-Started : (g : r.Gen) → Leaves Any Started (fresh_run r codecs ex g)
  unfolding fresh_run
  fresh_run-Started g =
      Leaves-bind Any (random r ex.random_call ex.handlers ex.max_calls) _ g
        (λ cs. length cs ≤ limit) Started
        (random-length r ex.random_call ex.handlers ex.max_calls g)
        (λ cs g1 u le. (tt, start-Started cs le))

  mutate-Started :
      (calls : List C) (g : r.Gen)
      → length calls ≤ limit
      → Leaves Any Started (mutate r codecs ex calls g)
  unfolding mutate
  mutate-Started calls g h =
      Leaves-bind Any (handler_call r codecs ex) _ g (λ _. Unit {0}) Started
        (Leaves-any (handler_call r codecs ex g))
        (λ call g1 u1 u2.
          let (pos, g2) = r.below (length calls) g1 in
          Leaves-bind Any (lift (context panicked (get_elem? calls pos))) _ g2 (λ _. Unit {0})
            Started (Leaves-any (lift (context panicked (get_elem? calls pos)) g2))
            (λ old g3 u3 u4. (
              tt,
              start-Started (set calls pos call) (omega (arith, h, length-set calls pos call)),
            )))

  extend-Started :
      (base : Option (List C × Chain)) (g : r.Gen)
      → OfBase Kept base
      → Leaves Any Started (extend r codecs ex base g)
  extend-Started none g h = fresh_run-Started g
  extend-Started (some (sequence, chain)) g h =
      elim (Bool-cases (leb ex.max_calls (length sequence))) [
        | inl z ↦ rw z (mutate-Started sequence g h.1)
        | inr z ↦ rw z (
            Leaves-bind Any (handler_call r codecs ex) _ g (λ _. Unit {0}) Started
              (Leaves-any (handler_call r codecs ex g))
              (λ call g1 u1 u2. (tt, (h.0, ground (arith, z)))))
      ]

  pub choose-Started :
      (s : Campaign C Chain) (g : r.Gen)
      → StateHolds s
      → Leaves Any Started (choose r codecs ex s g)
  unfolding choose
  choose-Started s g h =
      let (eighth, g1) = r.below 8 g in
      elim (Bool-cases (eighth == 0)) [
        | inl z ↦ rw z (fresh_run-Started g1)
        | inr z ↦ rw z (
            let (base, g2) = random_base r s.corpus g1 in
            extend-Started base g2 (random_base-OfBase Kept r s.corpus g1 h.1))
      ]
