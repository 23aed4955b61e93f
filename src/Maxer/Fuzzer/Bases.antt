-- ===== src/Maxer/Fuzzer/Bases.antt =====
-- The base that a run starts from (`worker` of src/maxer/fuzzer.rs).
use ripfuzz.Prelude.{
  ℕ, ◌+◌, ◌≤◌, max, inl, inr, Option, none, some, List, arith, leb, ◌==◌, Bool-cases, length,
  get_elem?, set, is_empty, length-set, All,
}
use ripfuzz.Outcome.{panicked, context}
use ripfuzz.Rng.{Rng}
use ripfuzz.Rng.Draw.{lift, Leaves, Leaves-bind, Leaves-any}
use ripfuzz.Evm.{Engine}
use ripfuzz.Sequence.{random}
use ripfuzz.Sequence.Random.{random-length}
use ripfuzz.Maxer.Best.{Best}
use ripfuzz.Maxer.Corpus.{random_base}
use ripfuzz.Maxer.Corpus.Entries.{OfState, OfEntry, OfBase, random_base-OfBase}
use ripfuzz.Maxer.Fuzzer.{Campaign, MeasuredPrefix, Running, Execution, best_base, base_of}
use ripfuzz.Maxer.Fuzzer.Replay.{IsSnapshot, IsSnapshot-initial}
use ripfuzz.Maxer.Fuzzer.Worker.{
  from_start, or_initial, handler_call, mutate, extend, fresh_run, pick_base, extend_run, choose,
}

module _ {engine : Engine} {C H : Type 0} (r : Rng) (ex : Execution engine C H r.Gen) where
  open engine use {Chain}

  -- The most calls of a sequence.
  abbrev pub limit : ℕ
  limit = max ex.max_calls 1

  abbrev pub Kept : List C → ℕ → Chain → Type 0
  Kept s v c = IsSnapshot r ex s v c × (length s ≤ limit)

  abbrev pub StateHolds : Campaign C Chain → Type 0
  StateHolds s =
      OfState Kept s.best.sequence s.best.value s.best.chain × All (OfEntry Kept) s.corpus

  abbrev pub PrefixHolds : MeasuredPrefix C Chain → Type 0
  PrefixHolds p = Kept p.sequence p.value p.chain

  abbrev pub RunHolds : List C → Running C Chain → Type 0
  RunHolds pending q =
      IsSnapshot r ex q.executed q.prev_value q.chain
      × (length q.executed + length pending ≤ limit)
      × All PrefixHolds q.prefixes

  abbrev pub Started : Running C Chain → Type 0
  Started q = RunHolds q.pending q

  abbrev pub Any : r.Gen → Type 0
  Any _ = Unit {0}

  start-Started : (cs : List C) → length cs ≤ limit → Started (from_start r ex cs)
  start-Started cs h = (IsSnapshot-initial r ex, omega (arith, h), tt)

  fresh_run-Started : (g : r.Gen) → Leaves Any Started (fresh_run r ex g)
  unfolding fresh_run
  fresh_run-Started g =
      Leaves-bind Any (random r ex.random_call ex.handlers ex.max_calls) _ g
        (λ cs. length cs ≤ limit) Started
        (random-length r ex.random_call ex.handlers ex.max_calls g)
        (λ cs g1 u le. (tt, start-Started cs le))

  mutate-Started :
      (calls : List C) (g : r.Gen) → length calls ≤ limit → Leaves Any Started (mutate r ex calls g)
  unfolding mutate
  mutate-Started calls g h =
      Leaves-bind Any (handler_call r ex) _ g (λ _. Unit {0}) Started
        (Leaves-any (handler_call r ex g))
        (λ call g1 u1 u2.
          let (pos, g2) = r.below (length calls) g1 in
          Leaves-bind Any (lift (context panicked (get_elem? calls pos))) _ g2 (λ _. Unit {0})
            Started (Leaves-any (lift (context panicked (get_elem? calls pos)) g2))
            (λ old g3 u3 u4. (
              tt,
              start-Started (set calls pos call) (omega (arith, h, length-set calls pos call)),
            )))

  extend-Started :
      (s : List C) (v : ℕ) (c : Chain) (g : r.Gen)
      → Kept s v c
      → Leaves Any Started (extend r ex (s, v, c) g)
  unfolding extend
  extend-Started s v c g h = elim (Bool-cases (leb ex.max_calls (length s))) [
    | inl z ↦ rw z (mutate-Started s g h.1)
    | inr z ↦ rw z (
        Leaves-bind Any (handler_call r ex) _ g (λ _. Unit {0}) Started
          (Leaves-any (handler_call r ex g)) (λ call g1 u1 u2. (tt, (h.0, ground (arith, z), tt))))
  ]

  initial-Kept :
      (o : Option (List C × ℕ × Chain))
      → OfBase Kept o
      → let (s, v, c) = or_initial r ex o in Kept s v c
  initial-Kept none h = (IsSnapshot-initial r ex, omega arith)
  initial-Kept (some (s, v, c)) h = h

  best_base-OfBase :
      (b : Best C Chain) → OfState Kept b.sequence b.value b.chain → OfBase Kept (best_base b)
  unfolding best_base
  best_base-OfBase b h = go b.chain h
    where
      go : (o : Option Chain) → OfState Kept b.sequence b.value o → OfBase Kept (base_of b o)
      go none h = tt
      go (some c) h = elim (Bool-cases (is_empty b.sequence)) [ inl z ↦ rw z tt | inr z ↦ rw z h ]

  pick_base-Kept :
      (s : Campaign C Chain) (quarter : ℕ) (g : r.Gen)
      → StateHolds s
      → Leaves Any (λ (q, v, c). Kept q v c) (pick_base r ex s quarter g)
  unfolding pick_base
  pick_base-Kept s quarter g h = elim (Bool-cases (quarter == 0)) [
    | inl z ↦ rw z (
      tt,
      initial-Kept (random_base ex.bit_len r s.corpus g).0
          (random_base-OfBase Kept ex.bit_len r s.corpus g h.1),
    )
    | inr z ↦ rw z (tt, initial-Kept (best_base s.best) (best_base-OfBase s.best h.0))
  ]

  pub choose-Started :
      (s : Campaign C Chain) (g : r.Gen) → StateHolds s → Leaves Any Started (choose r ex s g)
  unfolding choose extend_run
  choose-Started s g h =
      let (eighth, g1) = r.below 8 g in
      elim (Bool-cases (eighth == 0)) [
        | inl z ↦ rw z (fresh_run-Started g1)
        | inr z ↦ rw z (
            let (quarter, g2) = r.below 4 g1 in
            Leaves-bind Any (pick_base r ex s quarter) _ g2 (λ (q, v, c). Kept q v c) Started
              (pick_base-Kept s quarter g2 h) (λ (q, v, c) g3 u k. extend-Started q v c g3 k))
      ]
