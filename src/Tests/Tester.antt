-- ===== src/Tests/Tester.antt =====
-- The test campaign, and the sequences of both campaigns.
use Prim.Native.String.{String}
use text.Mathlib.Text.{◌==◌ as str_eq}
use ripfuzz.Rng.{tape}
use ripfuzz.Rng.Draw.{Draw, pure}
use ripfuzz.Outcome.{ok, err, no_handlers}
use ripfuzz.Sequence.{random}
use ripfuzz.Sequence.Random.{random_total}
use ripfuzz.Tester.BrokenInvariants.{BrokenInvariant, Inner, find, try_add}
use ripfuzz.Tester.BrokenInvariants.Collection.{
  keep_shorter, add_all, IsAnswered, try_add_lem, add_all-IsAnswered,
}
use ripfuzz.Tester.Corpus.{Entry, add_with_chain}
use ripfuzz.Tester.Corpus.Eviction.{IsWeakest, add_with_chain_lem}
use ripfuzz.Prelude.{
  ℕ, zero, suc, ◌+◌, ◌≤◌, ◌<◌, max, ◌≡◌, refl, ◌≢◌, ◌↔◌, true, false, none, some, List, [], ◌∷◌,
  ◌++◌, leb, if◌then◌else◌, length, remove, All,
}

abbrev call_of : ℕ → Draw (List ℕ) ℕ
call_of h = pure (h + 100)

random_total_example :
    ((random tape call_of [] 3 (2 ∷ 1 ∷ [])).0 ≡ err no_handlers)
    × (◌≢◌ {A = List ℕ} (1 ∷ 2 ∷ []) []
        → (cs : List ℕ) × ((random tape call_of (1 ∷ 2 ∷ []) 3 (2 ∷ 1 ∷ [])).0 ≡ ok cs)
          × (1 ≤ length cs)
          × (length cs ≤ max 3 1))
random_total_example =
    random_total tape call_of (λ h g. (h + 100, refl)) (1 ∷ 2 ∷ []) 3 (2 ∷ 1 ∷ [])

abbrev finding : String → List ℕ → BrokenInvariant ℕ
finding id sequence = record { sequence = sequence; id = id; description = "" }

abbrev held : Inner ℕ
held = record { broken_invariants = finding "a" (1 ∷ 2 ∷ []) ∷ []; keys = "a" ∷ [] }

try_add_lem_example :
    let (after, added) = try_add 2 held (finding "a" (1 ∷ [])) in
    let known = find "a" held.broken_invariants in
    let full = leb 2 1 in
    (find "a" after.broken_invariants ≡ (
      if str_eq "a" "a"
      then keep_shorter full (finding "a" (1 ∷ [])) known
      else find "a" held.broken_invariants))
    × ((added ≡ true) ↔ ((known ≡ none) × (full ≡ false)))
    × (length after.broken_invariants ≡ 1 + (if added then 1 else 0))
    × (1 ≤ 2 → length after.broken_invariants ≤ 2)
try_add_lem_example = try_add_lem 2 held (finding "a" (1 ∷ [])) "a"

abbrev offered : List (BrokenInvariant ℕ)
offered = finding "b" (3 ∷ 4 ∷ []) ∷ finding "b" (3 ∷ []) ∷ finding "c" [] ∷ []

add_all-IsAnswered_example : All (IsAnswered 2 (add_all 2 held offered)) offered
add_all-IsAnswered_example = add_all-IsAnswered 2 held offered

abbrev entry : List ℕ → ℕ → Entry ℕ ℕ
entry sequence new_edges = record { sequence = sequence; new_edges = new_edges; chain = some 5 }

abbrev copies : ℕ → List (Entry ℕ ℕ)
copies zero = []
copies (suc n) = entry (8 ∷ []) 3 ∷ copies n

add_with_chain_lem_example :
    let full = copies 256 in
    let e = entry (9 ∷ []) 4 in
    (length full < 256 → add_with_chain full e ≡ full ++ e ∷ [])
    × (256 ≤ length full
        → (i : ℕ) × ((x : Entry ℕ ℕ) × IsWeakest full i x
            × (add_with_chain full e
                ≡ (if leb x.new_edges e.new_edges then remove full i ++ e ∷ [] else full))))
    × (length full ≤ 256 → length (add_with_chain full e) ≤ 256)
add_with_chain_lem_example = add_with_chain_lem (copies 256) (entry (9 ∷ []) 4)
