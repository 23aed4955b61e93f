-- ===== src/Tests/Stop.antt =====
-- The stop filters, with a code that writes a number as so many ones and a zero.
use Prim.Native.String.{String, [] as str_nil, ◌∷◌ as str_cons}
use Prim.Native.Char.{code}
use ripfuzz.Evm.{TransactionResult, first}
use ripfuzz.Tester.Stop.{
  Codecs, any_revert, any_panic, revert_matches, panic_matches, revert_finding_id,
  revert_matches_expected, panic_finding_id, panic_matches_expected, panic_of,
}
use ripfuzz.Tester.Stop.Reproduce.{
  failure, revert_reproduced_iff, panic_reproduced_iff, stopped_reproduces,
}
use ripfuzz.Prelude.{
  ℕ, zero, suc, ◌+◌, ◌≡◌, refl, ap, ◌∙◌, ◌↔◌, true, false, none, some, List, [], ◌∷◌, arith, ◌==◌,
  if◌then◌else◌,
}

abbrev ones : ℕ → String → String
ones zero s = str_cons "0" s
ones (suc n) s = str_cons "1" (ones n s)

abbrev encode : List ℕ → String
encode [] = ""
encode (x ∷ xs) = ones x (encode xs)

abbrev decode : ℕ → String → List ℕ
decode n str_nil = []
decode n (str_cons c s) = if code c == 49 then decode (n + 1) s else n ∷ decode 0 s

pub decode-ones : (n x : ℕ) (s : String) → decode n (ones x s) ≡ (n + x) ∷ decode 0 s
decode-ones n zero s = ap (λ t. t ∷ decode 0 s) (omega arith)
decode-ones n (suc x) s = decode-ones (n + 1) x s ∙ ap (λ t. t ∷ decode 0 s) (omega arith)

pub decode-encode : (xs : List ℕ) → decode 0 (encode xs) ≡ xs
decode-encode [] = refl
decode-encode (x ∷ xs) =
    decode-ones 0 x (encode xs)
    ∙ ap (λ t. (0 + x) ∷ t) (decode-encode xs)
    ∙ ap (λ t. t ∷ xs) (omega arith)

abbrev pub codecs : Codecs
codecs = record {
  hex_encode = encode;
  hex_decode = λ s. some (decode 0 s);
  hex_round = λ bytes. ap some (decode-encode bytes);
  format_radix = λ n. ones n "";
  parse_radix = λ s. first (decode 0 s);
  radix_round = λ n. ap first (decode-ones 0 n "") ∙ ap some (omega arith);
  decode_panic = first;
  from_revert = λ _. none;
}

abbrev failed : List ℕ → TransactionResult
failed output = record { success = false; gas_used = 1; output = some output }

revert_reproduced_iff_example :
    ((failed (1 ∷ 2 ∷ 3 ∷ 4 ∷ 9 ∷ [])).success ≡ false
      → (revert_matches_expected codecs
            (failed (1 ∷ 2 ∷ 3 ∷ 4 ∷ 9 ∷ []))
            (revert_finding_id codecs (failed (1 ∷ 2 ∷ 3 ∷ 4 ∷ [])))
          ≡ true)
        ↔ (failure (some (1 ∷ 2 ∷ 3 ∷ 4 ∷ 9 ∷ [])) ≡ failure (some (1 ∷ 2 ∷ 3 ∷ 4 ∷ []))))
    × ((failed (1 ∷ 2 ∷ 3 ∷ 4 ∷ 9 ∷ [])).success ≡ true
        → revert_matches_expected codecs
            (failed (1 ∷ 2 ∷ 3 ∷ 4 ∷ 9 ∷ []))
            (revert_finding_id codecs (failed (1 ∷ 2 ∷ 3 ∷ 4 ∷ [])))
          ≡ false)
revert_reproduced_iff_example =
    revert_reproduced_iff codecs (failed (1 ∷ 2 ∷ 3 ∷ 4 ∷ [])) (failed (1 ∷ 2 ∷ 3 ∷ 4 ∷ 9 ∷ []))

panic_reproduced_iff_example :
    (panic_matches_expected codecs (failed (17 ∷ [])) (panic_finding_id codecs (failed (1 ∷ [])))
      ≡ true)
    ↔ (panic_of codecs (some (17 ∷ [])) ≡ some 1)
panic_reproduced_iff_example =
    panic_reproduced_iff codecs (failed (1 ∷ [])) (failed (17 ∷ [])) 1 refl refl

stopped_reproduces_example :
    (revert_matches codecs any_revert (failed (1 ∷ [])) ≡ true
      → revert_matches_expected codecs
          (failed (1 ∷ []))
          (revert_finding_id codecs (failed (1 ∷ [])))
        ≡ true)
    × (panic_matches codecs any_panic (failed (1 ∷ [])) ≡ true
        → panic_matches_expected codecs
            (failed (1 ∷ []))
            (panic_finding_id codecs (failed (1 ∷ [])))
          ≡ true)
stopped_reproduces_example = stopped_reproduces codecs any_revert any_panic (failed (1 ∷ []))
