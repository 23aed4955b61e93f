-- ===== src/Tester/Stop.antt =====
-- The filters that stop a test campaign on a revert or a panic, and the ids of the findings that
-- they make (`src/tester/stop.rs`). Hex digits, the ABI of `Panic` and the report of a broken
-- invariant come from other crates and are parameters. Bytes are numbers.
pub mod Reproduce
use Prim.Native.String.{String, ◌++◌ as str_append, slice, len}
use text.Mathlib.Text.{◌==◌ as str_eq, starts_with}
use ripfuzz.Evm.{TransactionResult, Report}
use ripfuzz.Prelude.{
  ℕ, zero, suc, ◌+◌, ◌-◌, ◌*◌, ◌/◌, ◌%◌, ◌^◌, ◌≤◌, ◌<◌, min, max, compare, Ordering, ◌≡◌, refl, sym,
  ap, ◌∙◌, subst, ◌≢◌, ◌↔◌, ◌⊎◌, inl, inr, Bool, true, false, not, ◌&&◌, ◌||◌, Option, none, some,
  List, [], ◌∷◌, ◌++◌, map, arith, dec_lt, dec_le, ℕ_discrete, ltb, leb, ◌==◌, if◌then◌else◌,
  ltb→lt, lt→ltb, ltb-false→le, ==_iff, Bool-cases, Option-cases, is_some, u64_max, saturating_add,
  length, get_elem?, set, take, drop, is_empty, remove, length-append, length-take, length-drop,
  length-remove, length-set, All, All-append, All-remove, All-set, All-get_elem?, sum_of,
  sum_of-set, sum_of-get_elem?,
}

-- `str::strip_prefix`.
abbrev pub strip_prefix : String → String → Option String
strip_prefix s p = if starts_with s p then some (slice s (len p) (len s)) else none

-- Equality of bytes.
pub same_bytes : List ℕ → List ℕ → Bool
same_bytes [] [] = true
same_bytes (x ∷ xs) (y ∷ ys) = x == y && same_bytes xs ys
same_bytes _ _ = false

-- `REVERT_PREFIX` and `PANIC_PREFIX`.
abbrev pub revert_prefix : String
revert_prefix = "REVERT:"

abbrev pub panic_prefix : String
panic_prefix = "PANIC:"

pub data StopOnRevert : Type 0 where
  any_revert : StopOnRevert
  selector : List ℕ → StopOnRevert

pub data StopOnPanic : Type 0 where
  any_panic : StopOnPanic
  code : ℕ → StopOnPanic

-- What the crates for hex digits and the ABI do; `parse_radix` reads hex digits of a number, and
-- `format_radix` writes at least two.
pub record Codecs : Type 0 where
  pub hex_encode : List ℕ → String
  pub hex_decode : String → Option (List ℕ)
  pub hex_round : (bytes : List ℕ) → hex_decode (hex_encode bytes) ≡ some bytes
  pub format_radix : ℕ → String
  pub parse_radix : String → Option ℕ
  pub radix_round : (n : ℕ) → parse_radix (format_radix n) ≡ some n
  pub decode_panic : List ℕ → Option ℕ
  pub from_revert : List ℕ → Option Report

-- `StopOnRevert::matches`.
abbrev starts : List ℕ → Option (List ℕ) → Bool
starts sel none = false
starts sel (some output) = leb 4 (length output) && same_bytes (take 4 output) sel

unfoldable pub is_revert_finding : String → Bool
is_revert_finding id = starts_with id revert_prefix

-- `StopOnRevert::matches_expected`.
abbrev pub is_output : Option (List ℕ) → List ℕ → Bool
is_output none sel = false
is_output (some output) sel =
    if length sel == 4
    then leb 4 (length output) && same_bytes (take 4 output) sel
    else same_bytes output sel

abbrev pub has_selector : Option (List ℕ) → Option (List ℕ) → Bool
has_selector output none = false
has_selector output (some sel) = is_output output sel

abbrev pub is_empty_output : Option (List ℕ) → Bool
is_empty_output none = false
is_empty_output (some output) = is_empty output

abbrev pub is_code : StopOnPanic → Option ℕ → Bool
is_code filter none = false
is_code any_panic (some c) = true
is_code (code d) (some c) = c == d

unfoldable pub is_panic_finding : String → Bool
is_panic_finding id = starts_with id panic_prefix

abbrev pub same_code : Option ℕ → Option ℕ → Bool
same_code (some c) (some d) = c == d
same_code _ _ = false

module _ (codecs : Codecs) where
  abbrev reported : Option (List ℕ) → Bool
  reported none = false
  reported (some output) = is_some (codecs.from_revert output)

  pub revert_matches : StopOnRevert → TransactionResult → Bool
  revert_matches any_revert r = if r.success then false else not (reported r.output)
  revert_matches (selector sel) r = if r.success then false else starts sel r.output

  -- `StopOnRevert::finding_id`.
  abbrev pub revert_suffix : Option (List ℕ) → String
  revert_suffix none = "halt"
  revert_suffix (some output) =
      if leb 4 (length output)
      then str_append "0x" (codecs.hex_encode (take 4 output))
      else if is_empty output
      then "empty"
      else str_append "0x" (codecs.hex_encode output)

  unfoldable pub revert_finding_id : TransactionResult → String
  revert_finding_id r = str_append revert_prefix (revert_suffix r.output)

  abbrev pub decodes : Option (List ℕ) → Option String → Bool
  decodes output none = false
  decodes output (some digits) = has_selector output (codecs.hex_decode digits)

  abbrev pub revert_expected : TransactionResult → Option String → Bool
  revert_expected r none = false
  revert_expected r (some suffix) =
      if r.success
      then false
      else if str_eq suffix "halt"
      then not (is_some r.output)
      else if str_eq suffix "empty"
      then is_empty_output r.output
      else decodes r.output (strip_prefix suffix "0x")

  pub revert_matches_expected : TransactionResult → String → Bool
  revert_matches_expected r expected_id = revert_expected r (strip_prefix expected_id revert_prefix)

  -- `Panic::abi_decode` of the output, if there is one.
  abbrev pub panic_of : Option (List ℕ) → Option ℕ
  panic_of none = none
  panic_of (some output) = codecs.decode_panic output

  -- `StopOnPanic::matches`.
  pub panic_matches : StopOnPanic → TransactionResult → Bool
  panic_matches filter r = if r.success then false else is_code filter (panic_of r.output)

  abbrev pub panic_suffix : Option ℕ → String
  panic_suffix none = "unknown"
  panic_suffix (some c) = str_append "0x" (codecs.format_radix c)

  -- `StopOnPanic::finding_id`.
  unfoldable pub panic_finding_id : TransactionResult → String
  panic_finding_id r = str_append panic_prefix (panic_suffix (panic_of r.output))

  abbrev pub parses : Option String → Option ℕ
  parses none = none
  parses (some digits) = codecs.parse_radix digits

  abbrev pub panic_expected : TransactionResult → Option String → Bool
  panic_expected r none = false
  panic_expected r (some suffix) =
      if r.success
      then false
      else if str_eq suffix "unknown"
      then is_some (panic_of r.output)
      else same_code (panic_of r.output) (parses (strip_prefix suffix "0x"))

  -- `StopOnPanic::matches_expected`.
  pub panic_matches_expected : TransactionResult → String → Bool
  panic_matches_expected r expected_id = panic_expected r (strip_prefix expected_id panic_prefix)
