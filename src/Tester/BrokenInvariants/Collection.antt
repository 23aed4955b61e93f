-- ===== src/Tester/BrokenInvariants/Collection.antt =====
-- The collection of findings against the history of the findings offered to it.
use Prim.Native.String.{String}
use text.Mathlib.Text.{◌==◌ as str_eq}
use text.Mathlib.TextEquality.{eq_iff}
use ripfuzz.Prelude.{
  ℕ, ◌+◌, ◌≤◌, ◌≡◌, refl, ◌↔◌, inl, inr, Bool, true, false, Option, none, some, List, [], ◌∷◌, ◌++◌,
  arith, ltb, leb, if◌then◌else◌, Option-cases, length, length-append, All,
}
use ripfuzz.Tester.BrokenInvariants.{BrokenInvariant, Inner, find, replace, try_add}

module _ {C : Type 0} where
  find-replace :
      (b : BrokenInvariant C) (id : String) (bs : List (BrokenInvariant C))
      (old : BrokenInvariant C)
      → find b.id bs ≡ some old
      → find id (replace b bs) ≡ (if str_eq b.id id then some b else find id bs)
  unfolding find replace
  find-replace b id [] old h = cc
  find-replace b id (x ∷ xs) old h =
      ground (arith, eq_iff x.id id, eq_iff x.id b.id, eq_iff b.id id, find-replace b id xs old)

  find-append :
      (b : BrokenInvariant C) (id : String) (bs : List (BrokenInvariant C))
      → find b.id bs ≡ none
      → find id (bs ++ b ∷ []) ≡ (if str_eq b.id id then some b else find id bs)
  unfolding find
  find-append b id [] h = refl
  find-append b id (x ∷ xs) h =
      ground (arith, eq_iff x.id id, eq_iff x.id b.id, eq_iff b.id id, find-append b id xs)

  length-replace :
      (b : BrokenInvariant C) (bs : List (BrokenInvariant C)) → length (replace b bs) ≡ length bs
  unfolding replace
  length-replace b [] = refl
  length-replace b (x ∷ xs) = ground (arith, length-replace b xs)

  -- The finding that the collection holds for an id after one more is offered.
  abbrev pub keep_shorter :
      Bool → BrokenInvariant C → Option (BrokenInvariant C) → Option (BrokenInvariant C)
  keep_shorter full b none = if full then none else some b
  keep_shorter full b (some old) =
      if ltb (length b.sequence) (length old.sequence) then some b else some old

  -- An offer changes the finding of its own id alone: a known one is replaced by a strictly shorter
  -- one, an unknown one is added while there is room. It is reported as new exactly if it was
  -- unknown and there was room, and the collection never outgrows its limit.
  pub try_add_lem :
      (limit : ℕ) (inner : Inner C) (b : BrokenInvariant C) (id : String)
      → let (after, added) = try_add limit inner b in
        let known = find b.id inner.broken_invariants in
        let full = leb limit (length inner.broken_invariants) in
        (find id after.broken_invariants
          ≡ (if str_eq b.id id then keep_shorter full b known else find id inner.broken_invariants))
        × ((added ≡ true) ↔ ((known ≡ none) × (full ≡ false)))
        × (length after.broken_invariants
            ≡ length inner.broken_invariants + (if added then 1 else 0))
        × (length inner.broken_invariants ≤ limit → length after.broken_invariants ≤ limit)
  unfolding try_add
  try_add_lem limit inner b id = elim (Option-cases (find b.id inner.broken_invariants)) [
    | inl unknown ↦ ground (
      arith,
      eq_iff b.id id,
      find-append b id inner.broken_invariants unknown,
      length-append inner.broken_invariants (b ∷ []),
    )
    | inr (old, known) ↦ ground (
      arith,
      eq_iff b.id id,
      find-replace b id inner.broken_invariants old known,
      length-replace b inner.broken_invariants,
    )
  ]

  -- The offers of a campaign, in the order in which they take the lock.
  pub add_all : ℕ → Inner C → List (BrokenInvariant C) → Inner C
  add_all limit inner [] = inner
  add_all limit inner (b ∷ bs) = add_all limit (try_add limit inner b).0 bs

  -- The collection holds a finding of the id that has no more calls than this one, or it is full
  -- and holds none of the id.
  abbrev pub Answers : ℕ → Option (BrokenInvariant C) → Inner C → BrokenInvariant C → Type 0
  Answers limit none inner b = limit ≤ length inner.broken_invariants
  Answers limit (some held) inner b = length held.sequence ≤ length b.sequence

  abbrev pub IsAnswered : ℕ → Inner C → BrokenInvariant C → Type 0
  IsAnswered limit inner b = Answers limit (find b.id inner.broken_invariants) inner b

  try_add-IsAnswered :
      (limit : ℕ) (inner : Inner C) (b : BrokenInvariant C)
      → IsAnswered limit (try_add limit inner b).0 b
  try_add-IsAnswered limit inner b =
      ground (arith, try_add_lem limit inner b b.id, eq_iff b.id b.id)

  IsAnswered-try_add :
      (limit : ℕ) (inner : Inner C) (b c : BrokenInvariant C)
      → IsAnswered limit inner c
      → IsAnswered limit (try_add limit inner b).0 c
  IsAnswered-try_add limit inner b c h =
      ground (arith, try_add_lem limit inner b c.id, eq_iff b.id c.id)

  IsAnswered-add_all :
      (limit : ℕ) (inner : Inner C) (bs : List (BrokenInvariant C)) (c : BrokenInvariant C)
      → IsAnswered limit inner c
      → IsAnswered limit (add_all limit inner bs) c
  unfolding add_all
  IsAnswered-add_all limit inner [] c h = h
  IsAnswered-add_all limit inner (b ∷ bs) c h =
      IsAnswered-add_all limit (try_add limit inner b).0 bs c (IsAnswered-try_add limit inner b c h)

  -- After a campaign, every finding that was offered is answered: its id is held with a sequence
  -- that has no more calls, unless the collection is full without that id.
  pub add_all-IsAnswered :
      (limit : ℕ) (inner : Inner C) (bs : List (BrokenInvariant C))
      → All (IsAnswered limit (add_all limit inner bs)) bs
  unfolding add_all
  add_all-IsAnswered limit inner [] = tt
  add_all-IsAnswered limit inner (b ∷ bs) =
      let next = (try_add limit inner b).0 in
      (
        IsAnswered-add_all limit next bs b (try_add-IsAnswered limit inner b),
        add_all-IsAnswered limit next bs,
      )
