-- ===== src/Tests/Shrinker.antt =====
-- Runs of the test campaign's shrinker.
use ripfuzz.Prelude.{ℕ, ◌≡◌, refl, Bool, false, List, [], ◌∷◌}
use ripfuzz.Outcome.{ok, Returns}
use ripfuzz.Rng.{tape}
use ripfuzz.Threads.{run}
use ripfuzz.Sequence.{without}
use ripfuzz.Tests.Engine.{engine}
use ripfuzz.Tests.Stop.{codecs}
use ripfuzz.Tester.BrokenInvariants.{BrokenInvariant, with_calls}
use ripfuzz.Tester.Stop.{is_revert_finding, is_panic_finding}
use ripfuzz.Tester.Shrinker.{Execution, shrink, shrink_one, shrink_worker}
use ripfuzz.Tester.Shrinker.Minimised.{Executes, AllMinimised, shrink-AllMinimised}

abbrev ex : Execution engine ℕ
ex = record { chain = 0; transaction = λ c. c }

ex-Executes : Executes ex codecs
ex-Executes c = (_, refl)

abbrev finding : List ℕ → BrokenInvariant ℕ
finding sequence = record { sequence = sequence; id = "big"; description = "" }

-- One thread deletes the second call of three, and is then out of budget.
abbrev one_thread : List (ℕ × Bool)
one_thread = (0, false) ∷ (0, false) ∷ (0, false) ∷ (0, false) ∷ (0, false) ∷ (0, false) ∷ []

abbrev given : List (BrokenInvariant ℕ × List (ℕ × Bool))
given = (finding (5 ∷ 1 ∷ 2 ∷ []), one_thread) ∷ (finding (9 ∷ []), []) ∷ []

two_calls :
    shrink ex codecs tape 1 ((1 ∷ 1 ∷ []) ∷ []) given
    ≡ ok (finding (5 ∷ 2 ∷ []) ∷ finding (9 ∷ []) ∷ [])
unfolding shrink shrink_one run shrink_worker without with_calls is_revert_finding is_panic_finding
two_calls = refl

shrink-AllMinimised_example :
    Returns (shrink ex codecs tape 1 ((1 ∷ 1 ∷ []) ∷ []) given) (AllMinimised ex codecs given)
shrink-AllMinimised_example =
    shrink-AllMinimised ex codecs tape 1 ((1 ∷ 1 ∷ []) ∷ []) ex-Executes given
