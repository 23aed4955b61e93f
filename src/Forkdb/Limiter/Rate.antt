-- ===== src/Forkdb/Limiter/Rate.antt =====
-- The packed word, and how many requests are let through (`src/evm/forkdb/limiter.rs`).
use ripfuzz.Forkdb.Limiter.{
  Attempt, unlimited, acquired, refused, pack, unpack, compute_refill, take_token, as_u32, bit_or,
  saturating_add_u32, RateLimiter, new, attempt, sleep_time, u32_max, settle,
}
use ripfuzz.Bits.{bit_or_disjoint, bit_and_mask}
use native.Mathlib.Nat.{mul-le-mul_right}
use ripfuzz.Prelude.{
  ℕ, zero, suc, ◌+◌, ◌-◌, ◌*◌, ◌%◌, ◌^◌, ◌≤◌, ◌<◌, min, ◌≡◌, refl, sym, ap, subst, inl, inr, true,
  false, Option, none, some, List, [], ◌∷◌, arith, ltb, leb, ◌==◌, if◌then◌else◌, Bool-cases,
}

-- Packing a time and a count of 32 bits each gives a word of 64 bits, and unpacking gives both back.
pub unpack-pack :
    (last tokens : ℕ)
    → last < 2 ^ 32
    → tokens < 2 ^ 32
    → (pack last tokens < 2 ^ 64) × (unpack (pack last tokens) ≡ (last, tokens))
unfolding pack unpack
unpack-pack last tokens hl ht =
    ground
      (arith, bit_or_disjoint 32 last tokens ht, bit_and_mask 32 (bit_or (last * 2 ^ 32) tokens))

-- What one closure run does to a bucket of `tokens` filled at `last`.
pub Taken : ℕ → ℕ → ℕ → ℕ → Option ℕ → Type 0
Taken limit last tokens e none = tokens ≡ 0
Taken limit last tokens e (some packed) =
    (d : ℕ) × (left : ℕ) × (packed ≡ pack (last + d) left)
    × (left ≤ limit)
    × (d ≤ e)
    × ((left + 1) * 1000 ≤ tokens * 1000 + d * limit)

abbrev pub refill : ℕ → ℕ → ℕ
refill e limit = as_u32 (compute_refill e limit 1000)

refill_le : (e limit : ℕ) → refill e limit * 1000 ≤ e * limit
unfolding compute_refill
refill_le e limit = omega arith

-- The closure without the casts, which change nothing within 32 bits.
unfoldable pub taken : ℕ → ℕ → ℕ → ℕ → Option ℕ
taken limit last tokens e =
    let add = refill e limit in
    let new_tokens = if ltb 0 add then min (saturating_add_u32 tokens add) limit else tokens in
    if leb 1 new_tokens
    then some (pack (if ltb 0 add then last + e else last) (new_tokens - 1))
    else none

pub take_token-taken :
    (limit last tokens e : ℕ)
    → limit < 2 ^ 32
    → last + e < 2 ^ 32
    → tokens < 2 ^ 32
    → take_token limit 1000 (last + e) (pack last tokens) ≡ taken limit last tokens e
unfolding take_token taken
take_token-taken limit last tokens e hl hc ht =
    let u = (unpack-pack last tokens (omega arith) ht).1 in
    let now : (last + e) % 4294967296 ≡ last + e = omega arith in
    let elapsed : (last + e + 4294967296 - last) % 4294967296 ≡ e = omega arith in
    let cap : limit % 4294967296 ≡ limit = omega arith in rw u (rw now (rw elapsed (rw cap refl)))

granted :
    (limit last tokens e d now n : ℕ)
    → now ≡ last + d
    → n ≤ limit
    → d ≤ e
    → n * 1000 ≤ tokens * 1000 + d * limit
    → (n ≡ 0 → tokens ≡ 0)
    → Taken limit last tokens e (if leb 1 n then some (pack now (n - 1)) else none)
unfolding Taken
granted limit last tokens e d now zero at top le paid empty = empty refl
granted limit last tokens e d now (suc n) at top le paid empty =
    let one : leb 1 (suc n) ≡ true = ground arith in
    rw one (d, suc n - 1, ap (λ t. pack t (suc n - 1)) at, omega arith, le, omega arith)

pub taken-Taken :
    (limit last tokens e : ℕ)
    → tokens ≤ limit
    → Taken limit last tokens e (taken limit last tokens e)
unfolding taken Taken
taken-Taken limit last tokens e ht = elim (Bool-cases (ltb 0 (refill e limit))) [
  | inl h ↦ rw h (
      granted limit last tokens e e (last + e)
        (min (saturating_add_u32 tokens (refill e limit)) limit) refl (omega arith) (omega arith)
        (omega (arith, refill_le e limit)) (λ z. ground (arith, z, h)))
  | inr h ↦ rw h (
      granted limit last tokens e 0 last tokens (omega arith) ht (omega arith) (omega arith)
        (λ z. z))
]

-- A limiter whose word is a bucket of `tokens` filled at `last`.
unfoldable pub bucket : ℕ → ℕ → ℕ → RateLimiter
bucket limit last tokens = record {
  inner = some (record { state = pack last tokens });
  max_tokens = limit;
  interval_ms = 1000;
}

-- The attempts of an outcome and of those after it.
pub count : Attempt → (RateLimiter → ℕ) → RateLimiter → ℕ
count unlimited again l = suc (again l)
count (acquired m) again l = suc (again m)
count (refused _) again l = again l

-- How many of the attempts that read these clocks, in this order, acquire.
pub acquired_by : RateLimiter → List ℕ → ℕ
acquired_by l [] = 0
acquired_by l (clock ∷ clocks) = count (attempt l clock clock) (λ m. acquired_by m clocks) l

-- Readings that do not go back, from `lo` to `hi`.
abbrev pub Rising : ℕ → ℕ → List ℕ → Type 0
Rising lo hi [] = lo ≤ hi
Rising lo hi (clock ∷ clocks) = (lo ≤ clock) × Rising clock hi clocks

Rising-lower :
    (lo lo' hi : ℕ) (clocks : List ℕ) → lo' ≤ lo → Rising lo hi clocks → Rising lo' hi clocks
Rising-lower lo lo' hi [] le r = omega arith
Rising-lower lo lo' hi (c ∷ cs) le r = (omega (arith, r.0), r.1)

Rising-le : (lo hi : ℕ) (clocks : List ℕ) → Rising lo hi clocks → lo ≤ hi
Rising-le lo hi [] r = r
Rising-le lo hi (c ∷ cs) r = omega (arith, r.0, Rising-le c hi cs r.1)

-- What a bucket still lets through before `hi`, one attempt at a time.
abbrev Within : ℕ → ℕ → List ℕ → Type 0
Within limit hi clocks =
    (last tokens : ℕ)
    → tokens ≤ limit
    → Rising last hi clocks
    → acquired_by (bucket limit last tokens) clocks * 1000 + last * limit
      ≤ tokens * 1000 + hi * limit

-- The two ways an attempt on a bucket goes.
abbrev counted : ℕ → ℕ → ℕ → ℕ → List ℕ → Option ℕ → ℕ
counted limit last tokens c clocks none = acquired_by (bucket limit last tokens) clocks
counted limit last tokens c clocks (some p) =
    suc (
      acquired_by (record (bucket limit last tokens) { inner = some (record { state = p }) })
        clocks)

count-settle :
    (limit last tokens c ms : ℕ) (clocks : List ℕ) (o : Option ℕ)
    → count
        (settle (bucket limit last tokens) ms o)
        (λ m. acquired_by m clocks)
        (bucket limit last tokens)
      ≡ counted limit last tokens c clocks o
unfolding count settle
count-settle limit last tokens c ms clocks none = refl
count-settle limit last tokens c ms clocks (some p) = refl

acquired_by-counted :
    (limit last tokens c : ℕ) (clocks : List ℕ)
    → acquired_by (bucket limit last tokens) (c ∷ clocks)
      ≡ counted limit last tokens c clocks (take_token limit 1000 c (pack last tokens))
unfolding acquired_by attempt bucket
acquired_by-counted limit last tokens c clocks =
    count-settle limit last tokens c (sleep_time limit 1000 c (pack last tokens)) clocks
      (take_token limit 1000 c (pack last tokens))

acquired_by-step :
    (limit hi last tokens e : ℕ) (clocks : List ℕ)
    → Within limit hi clocks
    → tokens ≤ limit
    → Rising (last + e) hi clocks
    → (o : Option ℕ) → Taken limit last tokens e o
    → counted limit last tokens (last + e) clocks o * 1000 + last * limit
      ≤ tokens * 1000 + hi * limit
unfolding Taken bucket
acquired_by-step limit hi last tokens e clocks ih ht r none t =
    ih last tokens ht (Rising-lower (last + e) last hi clocks (omega arith) r)
acquired_by-step limit hi last tokens e clocks ih ht r (some p) (d, left, at, le, early, paid) =
    let rest =
      ih (last + d) left le (Rising-lower (last + e) (last + d) hi clocks (omega arith) r) in
    rw at (omega (arith, rest, paid))

acquired_by-Within :
    (limit hi : ℕ) (clocks : List ℕ) → limit < 2 ^ 32 → hi < 2 ^ 32 → Within limit hi clocks
unfolding acquired_by
acquired_by-Within limit hi [] hl hh last tokens ht r = omega (arith, mul-le-mul_right limit r)
acquired_by-Within limit hi (c ∷ cs) hl hh last tokens ht r =
    let e = c - last in
    let at : last + e ≡ c = omega (arith, r.0) in
    let later = Rising-le c hi cs r.1 in
    let same = take_token-taken limit last tokens e hl (omega (arith, at, later)) (omega arith) in
    let step =
      acquired_by-step limit hi last tokens e cs (acquired_by-Within limit hi cs hl hh) ht
        (subst (λ x. Rising x hi cs) (sym at) r.1)
        (take_token limit 1000 (last + e) (pack last tokens))
        (subst (Taken limit last tokens e) (sym same) (taken-Taken limit last tokens e ht)) in
    subst
      (λ x.
        acquired_by (bucket limit last tokens) (x ∷ cs) * 1000 + last * limit
        ≤ tokens * 1000 + hi * limit)
      at (rw acquired_by-counted step)

new-bucket : (rate : ℕ) → 0 < rate → new rate ≡ bucket (min rate u32_max) 0 (min rate u32_max)
unfolding new bucket
new-bucket rate pos = let z : (rate == 0) ≡ false = ground arith in rw z refl

-- In the first `hi` milliseconds, within 49 days, at most one bucket and the refill of `hi`
-- milliseconds is acquired, however many callers attempt it and in whatever order.
pub acquired_by-le :
    (rate hi : ℕ) (clocks : List ℕ)
    → 0 < rate
    → hi < 2 ^ 32
    → Rising 0 hi clocks
    → acquired_by (new rate) clocks * 1000 ≤ (1000 + hi) * (new rate).max_tokens
unfolding new bucket
acquired_by-le rate hi clocks pos short rising =
    let m = min rate u32_max in
    let top : acquired_by (bucket m 0 m) clocks * 1000 ≤ (1000 + hi) * m =
      omega (arith, acquired_by-Within m hi clocks (omega arith) short 0 m (omega arith) rising) in
    subst (λ l. acquired_by l clocks * 1000 ≤ (1000 + hi) * l.max_tokens)
      (sym (new-bucket rate pos)) top
