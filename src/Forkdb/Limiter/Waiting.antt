-- ===== src/Forkdb/Limiter/Waiting.antt =====
-- The sleep of a refused caller and its next attempt (`src/evm/forkdb/limiter.rs`).
use ripfuzz.Forkdb.Limiter.{
  saturating_add_u32, take_token, RateLimiter, attempt, acquired, refused, sleep_time, pack,
  compute_refill, settle,
}
use ripfuzz.Forkdb.Limiter.Rate.{unpack-pack, taken, bucket, refill, take_token-taken}
use native.Mathlib.Nat.{mul-le-mul_right, mul-le-mul, div-add-mod, mod-lt}
use ripfuzz.Prelude.{
  ℕ, ◌+◌, ◌-◌, ◌*◌, ◌/◌, ◌%◌, ◌^◌, ◌≤◌, ◌<◌, min, max, ◌≡◌, refl, ◌∙◌, subst, true, Option, none,
  some, arith, ltb, leb,
}

-- A ceiling division covers what it divides.
ceil-le : (r limit : ℕ) → 0 < limit → r ≤ limit * ((r + limit - 1) / limit)
ceil-le r limit pos = omega (arith, div-add-mod (r + limit - 1) limit, mod-lt (r + limit - 1) pos)

sleep_time-covers :
    (limit last tokens e : ℕ)
    → 0 < limit
    → limit < 2 ^ 32
    → tokens < 2 ^ 32
    → last + e < 2 ^ 32
    → 1000 ≤ (e + sleep_time limit 1000 (last + e) (pack last tokens)) * limit
unfolding sleep_time
sleep_time-covers limit last tokens e pos hl ht hc =
    let u = (unpack-pack last tokens (omega arith) ht).1 in
    let now : (last + e) % 4294967296 ≡ last + e = omega arith in
    let elapsed : (last + e + 4294967296 - last) % 4294967296 ≡ e = omega arith in
    let top : e * limit ≤ 4294967296 * 4294967295 =
      mul-le-mul {n₂ = 4294967296} {m₂ = 4294967295} (omega arith) (omega arith) in
    let n : min (e * limit) 18446744073709551615 ≡ e * limit = omega (arith, top) in
    let q = (1000 - e * limit % 1000 + limit - 1) / limit in
    let more : e + q ≤ e + max q 1 = omega arith in
    rw u (
      rw now (
        rw elapsed (
          rw n (
            omega
              (arith, ceil-le (1000 - e * limit % 1000) limit pos, mul-le-mul_right limit more)))))

taken-acquires :
    (limit last tokens e : ℕ)
    → 0 < limit
    → 1000 ≤ e * limit
    → e * limit < 1000 * 2 ^ 32
    → (p : ℕ) × (taken limit last tokens e ≡ some p)
unfolding taken compute_refill
taken-acquires limit last tokens e pos enough small =
    let some_add : ltb 0 (refill e limit) ≡ true = ground arith in
    rw some_add
      let some_left : leb 1 (min (saturating_add_u32 tokens (refill e limit)) limit) ≡ true =
          ground arith in
        rw some_left (_, refl)

settle-acquires :
    (l : RateLimiter) (ms : ℕ) (o : Option ℕ)
    → (p : ℕ) × (o ≡ some p)
    → (m : RateLimiter) × (settle l ms o ≡ acquired m)
unfolding settle
settle-acquires l ms o (p, e) = (record l { inner = some (record { state = p }) }, rw e refl)

settle-refused :
    (l : RateLimiter) (ms ms' : ℕ) (o : Option ℕ) → settle l ms o ≡ refused ms' → ms ≡ ms'
unfolding settle
settle-refused l ms ms' none e = cc
settle-refused l ms ms' (some p) e = cc

-- A caller refused at `last + e`, whose sleep is computed `d` milliseconds later, when the clock is read again,
-- and that sleeps the time it was told from then on, and `late` milliseconds more, is let through if
-- no other caller came first: the next attempt acquires, whatever the clock reads after it. The clock
-- is within 49 days and the refill of the time since `last` fits 32 bits.
pub attempt-after_sleep :
    (limit last tokens e d late ms later : ℕ)
    → 0 < limit
    → limit < 2 ^ 32
    → tokens ≤ limit
    → attempt (bucket limit last tokens) (last + e) (last + e + d) ≡ refused ms
    → last + e + d + ms + late < 2 ^ 32
    → (e + d + ms + late) * limit < 1000 * 2 ^ 32
    → (l : RateLimiter) × (attempt (bucket limit last tokens) (last + e + d + ms + late) later
        ≡ acquired l)
unfolding attempt bucket settle
attempt-after_sleep limit last tokens e d late ms later pos hl ht told hc small =
    settle-acquires (bucket limit last tokens) _ _
      let word = pack last tokens in
        let read : last + e + d ≡ last + (e + d) = omega arith in
        let slept : sleep_time limit 1000 (last + e + d) word ≡ ms =
          settle-refused (bucket limit last tokens) _ _ (take_token limit 1000 (last + e) word)
            told in
        let slept' = subst (λ t. sleep_time limit 1000 t word ≡ ms) read slept in
        let enough =
          subst (λ t. 1000 ≤ (e + d + t) * limit) slept'
            (sleep_time-covers limit last tokens (e + d) pos hl (omega arith) (omega arith)) in
        let more : e + d + ms ≤ e + d + ms + late = omega arith in
        let (p, got) =
          taken-acquires limit last tokens (e + d + ms + late) pos
            (omega (arith, enough, mul-le-mul_right limit more)) small in
        let at : last + (e + d + ms + late) ≡ last + e + d + ms + late = omega arith in
        let now =
          take_token-taken limit last tokens (e + d + ms + late) hl (omega arith) (omega arith) in
        (p, subst (λ t. take_token limit 1000 t word ≡ some p) at (now ∙ got))
