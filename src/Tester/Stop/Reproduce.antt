-- ===== src/Tester/Stop/Reproduce.antt =====
-- Findings and the results that reproduce them (`src/tester/stop.rs`).
use Prim.Native.String.{String, ◌++◌ as str_append}
use text.Mathlib.Text.{◌==◌ as str_eq, starts_with}
use text.Mathlib.TextEquality.{eq_iff}
use text.Mathlib.TextPositions.{len-append, slice-append_right, starts_with-append}
use ripfuzz.Evm.{TransactionResult}
use ripfuzz.Tester.Stop.{
  StopOnRevert, StopOnPanic, any_revert, selector, revert_matches, panic_matches, is_code,
  is_empty_output, parses, same_code, Codecs, strip_prefix, same_bytes, revert_prefix, panic_prefix,
  revert_suffix, revert_expected, revert_matches_expected, revert_finding_id, is_output, panic_of,
  panic_matches_expected, panic_finding_id, panic_expected, panic_suffix, same_code, decodes,
  has_selector,
}
use ripfuzz.Prelude.{
  ℕ, ◌≡◌, refl, sym, ap, ◌∙◌, subst, ◌↔◌, inl, inr, true, false, not, Option, none, some, List, [],
  ◌∷◌, arith, leb, if◌then◌else◌, Bool-cases, is_some, length, take, length-take,
}

strip_prefix_append : (p s : String) → strip_prefix (str_append p s) p ≡ some s
strip_prefix_append p s =
    rw (starts_with-append p s) (ap some (rw (len-append p s) (slice-append_right p s)))

-- A word of hex digits is none of the markers.
not_marker :
    (s marker : String)
    → starts_with marker "0x" ≡ false
    → str_eq (str_append "0x" s) marker ≡ false
not_marker s marker h = elim (Bool-cases (str_eq (str_append "0x" s) marker)) [
  | inl e ↦
      let same : str_append "0x" s ≡ marker = (eq_iff (str_append "0x" s) marker).0 e in
      let begins : starts_with marker "0x" ≡ true =
        subst (λ t. starts_with t "0x" ≡ true) same (starts_with-append "0x" s) in
      cc
  | inr e ↦ e
]

same_bytes_iff : (xs ys : List ℕ) → (same_bytes xs ys ≡ true) ↔ (xs ≡ ys)
unfolding same_bytes
same_bytes_iff [] [] = ground arith
same_bytes_iff [] (y ∷ ys) = ground arith
same_bytes_iff (x ∷ xs) [] = ground arith
same_bytes_iff (x ∷ xs) (y ∷ ys) = ground (arith, same_bytes_iff xs ys)

-- What is kept of a failure: that there was no output, or the output, cut off after four bytes.
abbrev pub cut : List ℕ → List ℕ
cut output = if leb 4 (length output) then take 4 output else output

abbrev pub failure : Option (List ℕ) → Option (List ℕ)
failure none = none
failure (some output) = some (cut output)

is_output_iff :
    (out : Option (List ℕ)) (output : List ℕ)
    → (is_output out (cut output) ≡ true) ↔ (failure out ≡ some (cut output))
is_output_iff none output = ground arith
is_output_iff (some out) output = ground (
  arith,
  same_bytes_iff (take 4 out) (cut output),
  same_bytes_iff out (cut output),
  length-take 4 output,
  length-take 4 out,
)

halt_iff : (out : Option (List ℕ)) → (not (is_some out) ≡ true) ↔ (failure out ≡ none)
halt_iff none = ground arith
halt_iff (some out) = ground arith

empty_iff : (out : Option (List ℕ)) → (is_empty_output out ≡ true) ↔ (failure out ≡ some [])
empty_iff none = ground arith
empty_iff (some []) = ground arith
empty_iff (some (x ∷ xs)) = ground arith

same_code_iff : (o : Option ℕ) (c : ℕ) → (same_code o (some c) ≡ true) ↔ (o ≡ some c)
same_code_iff none c = ground arith
same_code_iff (some d) c = ground arith

module _ (codecs : Codecs) where
  revert_matches_expected_lem :
      (r q : TransactionResult)
      → revert_matches_expected codecs q (revert_finding_id codecs r)
        ≡ revert_expected codecs q (some (revert_suffix codecs r.output))
  unfolding revert_matches_expected revert_finding_id
  revert_matches_expected_lem r q =
      ap (revert_expected codecs q)
        (strip_prefix_append revert_prefix (revert_suffix codecs r.output))

  decodes_lem :
      (out : Option (List ℕ)) (bytes : List ℕ)
      → decodes codecs out (strip_prefix (str_append "0x" (codecs.hex_encode bytes)) "0x")
        ≡ is_output out bytes
  decodes_lem out bytes =
      ap (decodes codecs out) (strip_prefix_append "0x" (codecs.hex_encode bytes))
      ∙ ap (has_selector out) (codecs.hex_round bytes)

  hex_expected :
      (r : TransactionResult) (bytes : List ℕ)
      → r.success ≡ false
      → revert_expected codecs r (some (str_append "0x" (codecs.hex_encode bytes)))
        ≡ is_output r.output bytes
  hex_expected r bytes h = rw h (
      rw (not_marker (codecs.hex_encode bytes) "halt" refl)
        (rw (not_marker (codecs.hex_encode bytes) "empty" refl) (decodes_lem r.output bytes)))

  hex_suffix :
      (x : ℕ) (xs : List ℕ)
      → revert_suffix codecs (some (x ∷ xs)) ≡ str_append "0x" (codecs.hex_encode (cut (x ∷ xs)))
  hex_suffix x xs = elim (Bool-cases (leb 4 (length (x ∷ xs)))) [
    | inl z ↦ rw z refl
    | inr z ↦ rw z refl
  ]

  expected_iff :
      (r : TransactionResult) (out : Option (List ℕ))
      → r.success ≡ false
      → (revert_expected codecs r (some (revert_suffix codecs out)) ≡ true)
        ↔ (failure r.output ≡ failure out)
  expected_iff r none h = rw h (halt_iff r.output)
  expected_iff r (some []) h = rw h (empty_iff r.output)
  expected_iff r (some (x ∷ xs)) h =
      subst (λ b. (b ≡ true) ↔ (failure r.output ≡ some (cut (x ∷ xs))))
        (sym (
          ap (λ t. revert_expected codecs r (some t)) (hex_suffix x xs)
          ∙ hex_expected r (cut (x ∷ xs)) h))
        (is_output_iff r.output (x ∷ xs))

  -- A failing result reproduces the recorded revert of a failing result exactly if both halted
  -- without output, or both reverted with the same first four bytes of output (the same output,
  -- where one is shorter); a successful result never reproduces it.
  pub revert_reproduced_iff :
      (r q : TransactionResult)
      → (q.success ≡ false
          → (revert_matches_expected codecs q (revert_finding_id codecs r) ≡ true)
            ↔ (failure q.output ≡ failure r.output))
        × (q.success ≡ true → revert_matches_expected codecs q (revert_finding_id codecs r) ≡ false)
  revert_reproduced_iff r q = (
    λ h. rw (revert_matches_expected_lem r q) (expected_iff q r.output h),
    λ h. rw (revert_matches_expected_lem r q) (rw h refl),
  )

  panic_matches_expected_lem :
      (r q : TransactionResult) (c : ℕ)
      → panic_of codecs r.output ≡ some c
      → q.success ≡ false
      → panic_matches_expected codecs q (panic_finding_id codecs r)
        ≡ same_code (panic_of codecs q.output) (some c)
  unfolding panic_matches_expected panic_finding_id
  panic_matches_expected_lem r q c e h =
      let digits = codecs.format_radix c in
      ap
        (λ o.
          panic_expected codecs q
            (strip_prefix (str_append panic_prefix (panic_suffix codecs o)) panic_prefix))
        e
      ∙ ap (panic_expected codecs q) (strip_prefix_append panic_prefix (str_append "0x" digits))
      ∙ rw h (
          rw (not_marker digits "unknown" refl) (
            ap (λ o. same_code (panic_of codecs q.output) (parses codecs o))
              (strip_prefix_append "0x" digits)
            ∙ ap (same_code (panic_of codecs q.output)) (codecs.radix_round c)))

  -- A failing result reproduces the recorded panic of code `c` exactly if it is a panic of that code.
  pub panic_reproduced_iff :
      (r q : TransactionResult) (c : ℕ)
      → panic_of codecs r.output ≡ some c
      → q.success ≡ false
      → (panic_matches_expected codecs q (panic_finding_id codecs r) ≡ true)
        ↔ (panic_of codecs q.output ≡ some c)
  panic_reproduced_iff r q c e h =
      rw (panic_matches_expected_lem r q c e h) (same_code_iff (panic_of codecs q.output) c)

  revert_matches-fails :
      (f : StopOnRevert) (r : TransactionResult)
      → revert_matches codecs f r ≡ true
      → r.success ≡ false
  unfolding revert_matches
  revert_matches-fails any_revert r h = ground arith
  revert_matches-fails (selector sel) r h = ground arith

  is_code-some : (f : StopOnPanic) (o : Option ℕ) → is_code f o ≡ true → (c : ℕ) × (o ≡ some c)
  is_code-some f none h = cc
  is_code-some f (some c) h = (c, refl)

  panic_matches-panics :
      (f : StopOnPanic) (r : TransactionResult)
      → panic_matches codecs f r ≡ true
      → (r.success ≡ false) × ((c : ℕ) × (panic_of codecs r.output ≡ some c))
  unfolding panic_matches
  panic_matches-panics f r h = elim (Bool-cases r.success) [
    | inl z ↦ absurd (ground (arith, z, h))
    | inr z ↦ (z, is_code-some f (panic_of codecs r.output) (ground (arith, z, h)))
  ]

  -- Whatever filter stops a campaign on a result, the result reproduces the finding that is recorded
  -- for it, so that a shrinker can keep it.
  pub stopped_reproduces :
      (f : StopOnRevert) (p : StopOnPanic) (r : TransactionResult)
      → (revert_matches codecs f r ≡ true
          → revert_matches_expected codecs r (revert_finding_id codecs r) ≡ true)
        × (panic_matches codecs p r ≡ true
            → panic_matches_expected codecs r (panic_finding_id codecs r) ≡ true)
  stopped_reproduces f p r = (
    λ h. ((revert_reproduced_iff r r).0 (revert_matches-fails f r h)).1 refl,
    λ h.
        let (fails, (c, e)) = panic_matches-panics p r h in
        (panic_reproduced_iff r r c e fails).1 e,
  )
