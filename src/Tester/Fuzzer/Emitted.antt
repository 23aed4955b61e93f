-- ===== src/Tester/Fuzzer/Emitted.antt =====
-- The reports that a replay looks through, and the two reserved prefixes of ids
-- (src/tester/shrinker.rs, src/tester/stop.rs).
use ripfuzz.Prelude.{
  ◌≡◌, refl, ap, inl, inr, Bool, true, false, some, List, [], ◌∷◌, ◌++◌, arith, ◌==◌, Bool-cases,
}
use Prim.Native.String.{String, ◌++◌ as str_append, [] as str_nil, ◌∷◌ as str_cons}
use text.Mathlib.Text.{starts_with}
use text.Mathlib.TextEquality.{eq_iff, starts_with_iff}
use Prim.Native.String.append
use Prim.Native.Char.{code}
use ripfuzz.Evm.{Report, first, last}
use ripfuzz.Tester.Stop.{revert_prefix, panic_prefix}
use ripfuzz.Tester.Fuzzer.Observed.{Has}
use ripfuzz.Tester.Shrinker.{among, emits}

among-Has : (id : String) (reports : List Report) → Has id reports → among id reports ≡ true
unfolding among
among-Has id [] h = absurd h
among-Has id (x ∷ xs) (inl e) = rw ((eq_iff x.id id).1 e) refl
among-Has id (x ∷ xs) (inr h) = ground (arith, among-Has id xs h)

pub emits-append :
    (id : String) (xs ys : List (List Report)) → emits id ys ≡ true → emits id (xs ++ ys) ≡ true
unfolding emits
emits-append id [] ys h = h
emits-append id (x ∷ xs) ys h = ground (arith, emits-append id xs ys h)

pub emits-first :
    (id : String) (reports : List Report) (xs : List (List Report))
    → first xs ≡ some reports
    → Has id reports
    → emits id xs ≡ true
unfolding emits
emits-first id reports [] e h = cc
emits-first id reports (x ∷ xs) e h =
    let same : x ≡ reports = cc in ground (arith, among-Has id x (rw same h))

pub last-snoc : {A : Type 0} (xs : List A) (x : A) → last (xs ++ x ∷ []) ≡ some x
last-snoc [] x = refl
last-snoc (y ∷ []) x = refl
last-snoc (y ∷ z ∷ zs) x = last-snoc (z ∷ zs) x

-- The letter R.
abbrev begins_r : String → Bool
begins_r str_nil = false
begins_r (str_cons c s) = code c == 82

pub no_panic_starts : (s : String) → starts_with (str_append panic_prefix s) revert_prefix ≡ false
no_panic_starts s = elim (Bool-cases (starts_with (str_append panic_prefix s) revert_prefix)) [
  | inr z ↦ z
  | inl z ↦
      let (rest, e) = (starts_with_iff (str_append panic_prefix s) revert_prefix).0 z in
      let right : begins_r (str_append panic_prefix s) ≡ false =
        ap begins_r (append.cons _ "ANIC:" s) in
      let left : begins_r (str_append revert_prefix rest) ≡ true =
        ap begins_r (append.cons _ "EVERT:" rest) in
      let same = ap begins_r e in cc
]
