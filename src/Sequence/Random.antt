-- ===== src/Sequence/Random.antt =====
-- The length of a random sequence, and the handlers that its calls have.
use ripfuzz.Prelude.{
  ℕ, zero, suc, ◌≤◌, ◌<◌, max, ◌≡◌, refl, ◌≢◌, some, List, [], ◌∷◌, arith, length, get_elem?,
}
use ripfuzz.Outcome.{ok, err, panicked, no_handlers, context}
use ripfuzz.Rng.{Rng}
use ripfuzz.Rng.Draw.{Leaves, Leaves-bind, Leaves-map, Leaves-any, Draw, lift, bind-ok}
use ripfuzz.Sequence.{random_calls, random}

module _ {C H : Type 0} (r : Rng) (random_call : H → Draw r.Gen C) where
  abbrev CallsSucceed : Type 0
  CallsSucceed = (h : H) (g : r.Gen) → (c : C) × ((random_call h g).0 ≡ ok c)

  index-get_elem? :
      {A : Type 0} (xs : List A) (i : ℕ) → i < length xs → (x : A) × (get_elem? xs i ≡ some x)
  index-get_elem? [] i h = absurd (omega arith)
  index-get_elem? (x ∷ xs) zero h = (x, refl)
  index-get_elem? (x ∷ xs) (suc i) h = index-get_elem? xs i (omega arith)

  random_calls_total :
      CallsSucceed
      → (handlers : List H) (n : ℕ) (g : r.Gen) → 0 < length handlers
      → (cs : List C) × ((random_calls r random_call handlers n g).0 ≡ ok cs) × (length cs ≡ n)
  unfolding random_calls
  random_calls_total all handlers zero g some_handler = ([], refl, refl)
  random_calls_total all handlers (suc n) g some_handler =
      let i = (r.below (length handlers) g).0 in
      let g1 = (r.below (length handlers) g).1 in
      let (f, at) = index-get_elem? handlers i (r.below-lt (length handlers) g some_handler) in
      let found : context panicked (get_elem? handlers i) ≡ ok f = rw at in
      let (c, called) = all f g1 in
      let (cs, rest, len) = random_calls_total all handlers n (random_call f g1).1 some_handler in
      (
        c ∷ cs,
        rw (bind-ok (lift (context panicked (get_elem? handlers i))) _ g1 found) (
            rw (bind-ok (random_call f) _ g1 called)
              (rw (bind-ok (random_calls r random_call handlers n) _ (random_call f g1).1 rest))),
        omega (arith, len),
      )

  -- If the arguments of every handler can be drawn, a random sequence is never an error for a
  -- harness with handlers, and has between one call and the limit of calls (at least one); with no
  -- handler it is the error that says so.
  pub random_total :
      CallsSucceed
      → (handlers : List H) (max_calls : ℕ) (g : r.Gen)
      → ((random r random_call [] max_calls g).0 ≡ err no_handlers)
        × (handlers ≢ []
            → (cs : List C) × ((random r random_call handlers max_calls g).0 ≡ ok cs)
              × (1 ≤ length cs)
              × (length cs ≤ max max_calls 1))
  unfolding random
  random_total all [] max_calls g = (refl, λ h. absurd (h refl))
  random_total all (f ∷ fs) max_calls g = (
    refl,
    λ _.
        let len = (r.within 1 (max max_calls 1) g).0 in
        let (cs, drawn, measured) =
          random_calls_total all (f ∷ fs) len (r.within 1 (max max_calls 1) g).1 (omega arith) in
        let bounds = r.within-le 1 (max max_calls 1) g (omega arith) in
        (cs, drawn, omega (arith, measured, bounds.0), omega (arith, measured, bounds.1)),
  )

  random_calls-length :
      (hs : List H) (n : ℕ) (g : r.Gen)
      → Leaves (λ _. Unit {0}) (λ cs. length cs ≤ n) (random_calls r random_call hs n g)
  unfolding random_calls
  random_calls-length hs zero g = (tt, omega arith)
  random_calls-length hs (suc n) g =
      let (i, g1) = r.below (length hs) g in
      Leaves-bind (λ _. Unit {0}) (lift (context panicked (get_elem? hs i))) _ g1 (λ _. Unit {0}) _
        (Leaves-any (lift (context panicked (get_elem? hs i)) g1))
        (λ f g2 u1 u2.
          Leaves-bind (λ _. Unit {0}) (random_call f) _ g2 (λ _. Unit {0}) _
            (Leaves-any (random_call f g2))
            (λ c g3 u3 u4.
              Leaves-bind (λ _. Unit {0}) (random_calls r random_call hs n) _ g3
                (λ cs. length cs ≤ n) _ (random_calls-length hs n g3)
                (λ cs g4 u5 le. (tt, omega (arith, le)))))

  -- Whatever the handlers, and whether or not a draw fails, no sequence is longer than the limit.
  pub random-length :
      (hs : List H) (max_calls : ℕ) (g : r.Gen)
      → Leaves
          (λ _. Unit {0})
          (λ cs. length cs ≤ max max_calls 1)
          (random r random_call hs max_calls g)
  unfolding random
  random-length [] max_calls g = tt
  random-length (h ∷ hs) max_calls g =
      let (n, g1) = r.within 1 (max max_calls 1) g in
      Leaves-map (λ _. Unit {0}) (λ cs. length cs ≤ n) (λ cs. length cs ≤ max max_calls 1)
        (random_calls r random_call (h ∷ hs) n g1)
        (λ cs le. omega (arith, le, r.within-le 1 (max max_calls 1) g (omega arith)))
        (random_calls-length (h ∷ hs) n g1)
