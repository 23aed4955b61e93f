-- ===== src/Tester/Values/Sizes.antt =====
-- The sizes of the edge cases of src/tester/corpus/rvg.rs.
use ripfuzz.Prelude.{
  ℕ, zero, suc, ◌+◌, ◌/◌, ◌%◌, ◌<◌, ◌≡◌, refl, ap, ◌∙◌, List, [], ◌∷◌, ◌++◌, arith, length,
  length-append, All, All-append,
}
use ripfuzz.Tester.Values.Bytes.{replicate, to_be_bytes, address_edge, bytes_edge}

abbrev pub AreBytes : List ℕ → Type 0
AreBytes = All (λ b. b < 256)

abbrev pub Sized : ℕ → List ℕ → Type 0
Sized n bs = (length bs ≡ n) × AreBytes bs

pub Sized-replicate : (n b : ℕ) → b < 256 → Sized n (replicate n b)
Sized-replicate zero b h = (refl, tt)
Sized-replicate (suc n) b h = let s = Sized-replicate n b h in (ap suc s.0, (h, s.1))

pub Sized-append : (m n : ℕ) (xs ys : List ℕ) → Sized m xs → Sized n ys → Sized (m + n) (xs ++ ys)
Sized-append m n xs ys h k =
    (omega (arith, length-append xs ys, h.0, k.0), All-append (λ b. b < 256) xs ys h.1 k.1)

pub Sized-to_be_bytes : (n v : ℕ) → Sized n (to_be_bytes n v)
Sized-to_be_bytes zero v = (refl, tt)
Sized-to_be_bytes (suc n) v =
    let s =
      Sized-append n 1 (to_be_bytes n (v / 256)) ((v % 256) ∷ []) (Sized-to_be_bytes n (v / 256))
        (refl, (omega arith, tt)) in
    (s.0 ∙ omega arith, s.1)

last_byte : (b : ℕ) → b < 256 → Sized 20 (replicate 19 255 ++ b ∷ [])
last_byte b h =
    Sized-append 19 1 (replicate 19 255) (b ∷ []) (Sized-replicate 19 255 (omega arith))
      (refl, (h, tt))

pub address_edge-Sized : (e : ℕ) → Sized 20 (address_edge e)
address_edge-Sized zero = Sized-replicate 20 0 (omega arith)
address_edge-Sized (suc zero) =
    Sized-append 1 19 (1 ∷ []) (replicate 19 0) (refl, (omega arith, tt))
      (Sized-replicate 19 0 (omega arith))
address_edge-Sized (suc (suc zero)) = Sized-replicate 20 255 (omega arith)
address_edge-Sized (suc (suc (suc zero))) = last_byte 0xFE (omega arith)
address_edge-Sized (suc (suc (suc (suc zero)))) = last_byte 0xFD (omega arith)
address_edge-Sized (suc (suc (suc (suc (suc e))))) = last_byte 0xFC (omega arith)

pub bytes_edge-AreBytes : (e : ℕ) → AreBytes (bytes_edge e)
bytes_edge-AreBytes zero = tt
bytes_edge-AreBytes (suc zero) = (omega arith, tt)
bytes_edge-AreBytes (suc (suc zero)) = (omega arith, tt)
bytes_edge-AreBytes (suc (suc (suc zero))) = (Sized-replicate 32 255 (omega arith)).1
bytes_edge-AreBytes (suc (suc (suc (suc zero)))) = (Sized-replicate 63 255 (omega arith)).1
bytes_edge-AreBytes (suc (suc (suc (suc (suc e))))) = (Sized-replicate 64 255 (omega arith)).1
