-- ===== src/Coverage/Shared/Loop.antt =====
-- What carries over from one hit to a whole loop of a merge.
use ripfuzz.Outcome.{Result, Returns, Returns-bind}
use ripfuzz.Coverage.Shared.{merge_hits}
use ripfuzz.Prelude.{ℕ, ◌≡◌, refl, Bool, false, List, [], ◌∷◌, arith, All}

-- `Fit` is what the arrays need, `Sized` what a hit needs, and `fact h` what is `Seen` once `h` was
-- merged.
module _ {S H K : Type 0} (one : S → H → Result (Bool × S)) (Fit : S → Type 0) (Sized : H → Type 0)
    (Seen : S → K → Type 0) (fact : H → K) where
  -- One hit is merged: its fact holds after it, no fact is lost, and it is not new if its fact held.
  abbrev pub Merged : S → H → Bool × S → Type 0
  Merged s h (b, t) =
      Fit t × Seen t (fact h) × ((k : K) → Seen s k → Seen t k) × (Seen s (fact h) → b ≡ false)

  abbrev pub AllMerged : S → List H → ℕ × S → Type 0
  AllMerged s hs (n, t) =
      Fit t
      × All (λ h. Seen t (fact h)) hs
      × ((k : K) → Seen s k → Seen t k)
      × (All (λ h. Seen s (fact h)) hs → n ≡ 0)

  All-keeps :
      (s t : S) (hs : List H)
      → ((k : K) → Seen s k → Seen t k)
      → All (λ h. Seen s (fact h)) hs
      → All (λ h. Seen t (fact h)) hs
  All-keeps s t [] keep a = tt
  All-keeps s t (h ∷ hs) keep a = (keep (fact h) a.0, All-keeps s t hs keep a.1)

  pub merge_hits-AllMerged :
      ((s : S) (h : H) → Fit s → Sized h → Returns (one s h) (Merged s h))
      → (hs : List H) (s : S) → Fit s
      → All Sized hs
      → Returns (merge_hits one hs s) (AllMerged s hs)
  unfolding merge_hits
  merge_hits-AllMerged step [] s fit sized = (fit, tt, λ k z. z, λ _. refl)
  merge_hits-AllMerged step (h ∷ hs) s fit sized =
      Returns-bind (one s h) _ (Merged s h) (AllMerged s (h ∷ hs)) (step s h fit sized.0)
        (λ (b, t) (fit_t, seen, keep, old).
          Returns-bind (merge_hits one hs t) _ (AllMerged t hs) (AllMerged s (h ∷ hs))
            (merge_hits-AllMerged step hs t fit_t sized.1)
            (λ (n, u) (fit_u, all, keep', none_new). (
              fit_u,
              (keep' (fact h) seen, all),
              λ k z. keep' k (keep k z),
              λ a. ground (arith, old a.0, none_new (All-keeps s t hs keep a.1)),
            )))
