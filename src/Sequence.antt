-- ===== src/Sequence.antt =====
-- src/maxer/sequence.rs and src/tester/corpus/sequence.rs, which hold the same operations; a
-- sequence is its list of calls.
pub mod Random
use mathlib.Core.List.{Sublist, nil-sublist}
use mathlib.Core.List.Sublist
use ripfuzz.Prelude.{
  ℕ, zero, suc, ◌+◌, ◌-◌, ◌*◌, ◌/◌, ◌%◌, ◌^◌, ◌≤◌, ◌<◌, min, max, compare, Ordering, ◌≡◌, refl, sym,
  ap, ◌∙◌, subst, ◌≢◌, ◌↔◌, ◌⊎◌, inl, inr, Bool, true, false, not, ◌&&◌, ◌||◌, Option, none, some,
  List, [], ◌∷◌, ◌++◌, map, arith, dec_lt, dec_le, ℕ_discrete, ltb, leb, ◌==◌, if◌then◌else◌,
  ltb→lt, lt→ltb, ltb-false→le, ==_iff, Bool-cases, Option-cases, is_some, u64_max, saturating_add,
  length, get_elem?, set, take, drop, is_empty, remove, length-append, length-take, length-drop,
  length-remove, length-set, All, All-append, All-remove, All-set, All-get_elem?, sum_of,
  sum_of-set,
}
use ripfuzz.Outcome.{Result, ok, err, panicked, no_handlers, context}
use ripfuzz.Rng.{Rng}
use ripfuzz.Rng.Draw.{Draw, pure, lift, draw, ◌>>=◌}

module _ {C : Type 0} where
  -- `drain` panics on a range that is reversed or that ends past the calls.
  unfoldable pub without : List C → ℕ → ℕ → Result (List C)
  without calls start end =
      if leb start end && leb end (length calls)
      then ok (take start calls ++ drop end calls)
      else err panicked

  pub prefix : List C → ℕ → List C
  prefix calls len = take (min len (length calls)) calls

  take-Sublist : (n : ℕ) (xs : List C) → Sublist (take n xs) xs
  take-Sublist zero xs = nil-sublist xs
  take-Sublist (suc n) [] = nil-sublist []
  take-Sublist (suc n) (x ∷ xs) = Sublist.cons-cons x (take-Sublist n xs)

  drop-Sublist : (n : ℕ) (xs : List C) → Sublist (drop n xs) xs
  drop-Sublist zero xs = Sublist.refl xs
  drop-Sublist (suc n) [] = nil-sublist []
  drop-Sublist (suc n) (x ∷ xs) = Sublist.cons x (drop-Sublist n xs)

  take-drop-Sublist : (s e : ℕ) (xs : List C) → s ≤ e → Sublist (take s xs ++ drop e xs) xs
  take-drop-Sublist zero e xs h = drop-Sublist e xs
  take-drop-Sublist (suc s) zero xs h = absurd (omega arith)
  take-drop-Sublist (suc s) (suc e) [] h = nil-sublist []
  take-drop-Sublist (suc s) (suc e) (x ∷ xs) h =
      Sublist.cons-cons x (take-drop-Sublist s e xs (omega arith))

  -- Deleting a range within the calls does not panic, keeps the order of the other calls, and
  -- shortens the sequence by exactly the length of the range.
  pub without_lem :
      (calls : List C) (start end : ℕ)
      → start ≤ end
      → end ≤ length calls
      → (rest : List C) × (without calls start end ≡ ok rest)
        × Sublist rest calls
        × (length rest + (end - start) ≡ length calls)
  unfolding without
  without_lem calls start end le fits = (
    take start calls ++ drop end calls,
    ground arith,
    take-drop-Sublist start end calls le,
    omega (
      arith,
      length-append (take start calls) (drop end calls),
      length-take start calls,
      length-drop end calls,
    ),
  )

-- The calls of `random`: each of a handler that a draw picks. `random_call` draws the arguments.
module _ {C H : Type 0} (r : Rng) (random_call : H → Draw r.Gen C) where
  unfoldable pub random_calls : List H → ℕ → Draw r.Gen (List C)
  random_calls handlers zero = pure []
  random_calls handlers (suc n) = do
    i ← draw (r.below (length handlers))
    function ← lift (context panicked (get_elem? handlers i))
    call ← random_call function
    calls ← random_calls handlers n
    pure (call ∷ calls)

  unfoldable pub random : List H → ℕ → Draw r.Gen (List C)
  random [] max_calls = lift (err no_handlers)
  random (h ∷ hs) max_calls = do
    len ← draw (r.within 1 (max max_calls 1))
    random_calls (h ∷ hs) len

-- The chunk that both shrinkers delete: one call, or a random number of calls, from a random
-- position up to the end of the sequence at most.
module _ (r : Rng) where
  unfoldable pub pick_chunk : ℕ → r.Gen → (ℕ × ℕ) × r.Gen
  pick_chunk len g =
      let (single, g1) = r.flip g in
      let (chunk_len, g2) = if single then (1, g1) else r.within 1 len g1 in
      let (start_pos, g3) = r.below len g2 in
      let end_pos = min (start_pos + chunk_len) len in ((start_pos, end_pos), g3)

  pub pick_chunk_fits :
      (len : ℕ) (g : r.Gen)
      → 1 ≤ len
      → let ((from, to), _) = pick_chunk len g in (from ≤ to) × (to ≤ len)
  unfolding pick_chunk
  pick_chunk_fits len g some_call =
      let (chunk_len, g2) =
        if (r.flip g).0 then (1, (r.flip g).1) else r.within 1 len (r.flip g).1 in
      let lt = r.below-lt len g2 some_call in (omega arith, omega arith)
