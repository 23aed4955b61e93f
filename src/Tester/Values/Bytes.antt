-- ===== src/Tester/Values/Bytes.antt =====
-- The random bytes, addresses and strings of src/tester/corpus/rvg.rs. A text is its code points.
use ripfuzz.Prelude.{
  ℕ, zero, suc, ◌-◌, ◌*◌, ◌/◌, ◌%◌, ◌^◌, some, List, [], ◌∷◌, ◌++◌, ltb, leb, if◌then◌else◌, length,
  set, drop,
}
use ripfuzz.Outcome.{Result, ok, err, panicked, ◌>>=◌ as bind}
use ripfuzz.Rng.{Rng}
use ripfuzz.Rng.Draw.{Draw, pure, draw, ◌>>=◌}
use ripfuzz.Tester.Literals.{LiteralExtractor}
use ripfuzz.Tester.Literals as Literals
use ripfuzz.Tester.Values.{mixed}

module _ {ℓ} {A : Type ℓ} where
  abbrev pub replicate : ℕ → A → List A
  replicate zero x = []
  replicate (suc n) x = x ∷ replicate n x

-- `to_be_bytes`, of `n` bytes.
abbrev pub to_be_bytes : ℕ → ℕ → List ℕ
to_be_bytes zero v = []
to_be_bytes (suc n) v = to_be_bytes n (v / 256) ++ (v % 256) ∷ []

-- The value stands in the first `size` bytes of the word.
abbrev pub left_aligned : ℕ → ℕ → List ℕ
left_aligned size v =
    to_be_bytes 32 (if leb (8 * size) 256 then v * 2 ^ (256 - 8 * size) % 2 ^ 256 else 0)

-- `word[..size].fill(0xFF)`, which panics beyond the word.
abbrev pub fill_first : ℕ → List ℕ → Result (List ℕ)
fill_first size word =
    if leb size (length word) then ok (replicate size 255 ++ drop size word) else err panicked

-- `word[size - 1] = b`.
abbrev pub write_last : ℕ → ℕ → List ℕ → Result (List ℕ)
write_last zero b word = err panicked
write_last (suc n) b word = if ltb n (length word) then ok (set word n b) else err panicked

abbrev pub below_max : ℕ → ℕ → Result (List ℕ)
below_max size b = bind (fill_first size (replicate 32 0)) (write_last size b)

abbrev pub fixed_edge : ℕ → ℕ → Result (List ℕ)
fixed_edge size zero = ok (replicate 32 0)
fixed_edge size (suc zero) = ok (1 ∷ replicate 31 0)
fixed_edge size (suc (suc zero)) = fill_first size (replicate 32 0)
fixed_edge size (suc (suc (suc zero))) = below_max size 0xFE
fixed_edge size (suc (suc (suc (suc zero)))) = below_max size 0xFD
fixed_edge size _ = below_max size 0xFC

abbrev pub address_edge : ℕ → List ℕ
address_edge zero = replicate 20 0
address_edge (suc zero) = 1 ∷ replicate 19 0
address_edge (suc (suc zero)) = replicate 20 255
address_edge (suc (suc (suc zero))) = replicate 19 255 ++ 0xFE ∷ []
address_edge (suc (suc (suc (suc zero)))) = replicate 19 255 ++ 0xFD ∷ []
address_edge _ = replicate 19 255 ++ 0xFC ∷ []

abbrev pub bytes_edge : ℕ → List ℕ
bytes_edge zero = []
bytes_edge (suc zero) = 1 ∷ []
bytes_edge (suc (suc zero)) = 255 ∷ []
bytes_edge (suc (suc (suc zero))) = replicate 32 255
bytes_edge (suc (suc (suc (suc zero)))) = replicate 63 255
bytes_edge _ = replicate 64 255

abbrev pub string_edge : ℕ → List ℕ
string_edge zero = []
string_edge (suc zero) = b'a' ∷ []
string_edge (suc (suc zero)) = replicate 32 b' '
string_edge (suc (suc (suc zero))) = replicate 32 0
string_edge (suc (suc (suc (suc zero)))) = replicate 32 b'a'
string_edge _ = replicate 31 b'a'

module _ (r : Rng) where
  unfoldable pub letters : ℕ → Draw r.Gen (List ℕ)
  letters zero = pure []
  letters (suc n) = do c ← draw r.alphabetic; cs ← letters n; pure (c ∷ cs)

  unfoldable pub random_bytes : Draw r.Gen (List ℕ)
  random_bytes = do len ← draw (r.within 0 64); draw (r.fill len)

  unfoldable pub random_string : Draw r.Gen (List ℕ)
  unfolding letters
  random_string = do len ← draw (r.within 0 32); letters len

  module _ (literals : LiteralExtractor) where
    unfoldable pub fixed_bytes : ℕ → Draw r.Gen (List ℕ)
    fixed_bytes size =
        mixed r (Literals.fixed_bytes literals size) (λ v. ok (some (left_aligned size v))) 6
          (fixed_edge size) (draw (r.fill 32))

    unfoldable pub address : Draw r.Gen (List ℕ)
    address =
        mixed r literals.addresses (λ a. ok (some a)) 6 (λ e. ok (address_edge e))
          (draw (r.fill 20))

    unfoldable pub bytes : Draw r.Gen (List ℕ)
    bytes = mixed r literals.byte_strings (λ b. ok (some b)) 6 (λ e. ok (bytes_edge e)) random_bytes

    unfoldable pub string : Draw r.Gen (List ℕ)
    string = mixed r literals.strings (λ s. ok (some s)) 6 (λ e. ok (string_edge e)) random_string
