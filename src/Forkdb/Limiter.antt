-- ===== src/Forkdb/Limiter.antt =====
-- The token bucket that limits RPC requests (`src/evm/forkdb/limiter.rs`).
--
-- `fetch_update` retries its closure until the state it read is the state it replaces, so an attempt
-- is one step on the packed word. Every reading of the clock is an argument, in milliseconds.
pub mod Rate
pub mod Waiting
use Prim.Native.Nat.{bit_and, bit_or}
use ripfuzz.Prelude.{
  ℕ, zero, suc, ◌+◌, ◌-◌, ◌*◌, ◌/◌, ◌%◌, ◌^◌, ◌≤◌, ◌<◌, min, max, compare, Ordering, ◌≡◌, refl, sym,
  ap, ◌∙◌, subst, ◌≢◌, ◌↔◌, ◌⊎◌, inl, inr, Bool, true, false, not, ◌&&◌, ◌||◌, Option, none, some,
  List, [], ◌∷◌, ◌++◌, map, arith, dec_lt, dec_le, ℕ_discrete, ltb, leb, ◌==◌, if◌then◌else◌,
  ltb→lt, lt→ltb, ltb-false→le, ==_iff, Bool-cases, Option-cases, is_some, u64_max, saturating_add,
  length, get_elem?, set, take, drop, is_empty, remove, length-append, length-take, length-drop,
  length-remove, length-set, All, All-append, All-remove, All-set, All-get_elem?, sum_of,
  sum_of-set,
}

-- `start` is the origin of the clock readings, and is not kept.
pub record RateLimiterInner : Type 0 where
  pub state : ℕ

pub record RateLimiter : Type 0 where
  pub inner : Option RateLimiterInner
  pub max_tokens : ℕ
  pub interval_ms : ℕ

abbrev pub u32_max : ℕ
u32_max = 2 ^ 32 - 1

-- `as u32` and `as u64`.
abbrev pub as_u32 : ℕ → ℕ
as_u32 n = n % 2 ^ 32

abbrev pub as_u64 : ℕ → ℕ
as_u64 n = n % 2 ^ 64

-- `wrapping_sub` and `saturating_add` of `u32`.
abbrev pub wrapping_sub : ℕ → ℕ → ℕ
wrapping_sub a b = (a + 2 ^ 32 - b) % 2 ^ 32

abbrev pub saturating_add_u32 : ℕ → ℕ → ℕ
saturating_add_u32 a b = min (a + b) u32_max

unfoldable pub pack : ℕ → ℕ → ℕ
pack last_refill_ms tokens = bit_or (last_refill_ms * 2 ^ 32) tokens

unfoldable pub unpack : ℕ → ℕ × ℕ
unpack packed = (packed / 2 ^ 32, bit_and packed (2 ^ 32 - 1))

pub new : ℕ → RateLimiter
new requests_per_second =
    if requests_per_second == 0
    then record { inner = none; max_tokens = 0; interval_ms = 1000 }
    else let max_tokens = min requests_per_second u32_max in
      record {
        inner = some (record { state = pack 0 max_tokens });
        max_tokens = max_tokens;
        interval_ms = 1000;
      }

-- The product is a saturating one of `u128`.
unfoldable pub compute_refill : ℕ → ℕ → ℕ → ℕ
compute_refill elapsed_ms max_tokens interval_ms =
    as_u64 (min (elapsed_ms * max_tokens) (2 ^ 128 - 1) / interval_ms)

-- The closure that `fetch_update` runs on the packed word, with the elapsed time it reads.
unfoldable pub take_token : ℕ → ℕ → ℕ → ℕ → Option ℕ
take_token limit interval_ms clock packed =
    let (last_refill_ms, tokens) = unpack packed in
    let max_tokens = as_u32 limit in
    let now_ms = as_u32 clock in
    let elapsed_ms = wrapping_sub now_ms last_refill_ms in
    let add = as_u32 (compute_refill elapsed_ms limit interval_ms) in
    let new_tokens = if ltb 0 add then min (saturating_add_u32 tokens add) max_tokens else tokens in
    if leb 1 new_tokens
    then some (pack (if ltb 0 add then now_ms else last_refill_ms) (new_tokens - 1))
    else none

-- How long a refused caller sleeps; the products and sums are those of `u64`.
unfoldable pub sleep_time : ℕ → ℕ → ℕ → ℕ → ℕ
sleep_time limit interval_ms clock packed =
    let (last_refill_ms, _) = unpack packed in
    let elapsed_ms = wrapping_sub (as_u32 clock) last_refill_ms in
    let n = min (elapsed_ms * limit) u64_max in
    let remainder = n % interval_ms in max ((interval_ms - remainder + limit - 1) / limit) 1

-- One round of the loop in `acquire`: the state it leaves, or how long it sleeps.
pub data Attempt : Type 0 where
  unlimited : Attempt
  acquired : RateLimiter → Attempt
  refused : ℕ → Attempt

-- The match on what `fetch_update` gives; `sleep_ms` is for the branch that sleeps.
unfoldable pub settle : RateLimiter → ℕ → Option ℕ → Attempt
settle l sleep_ms (some packed) = acquired (record l { inner = some (record { state = packed }) })
settle l sleep_ms none = refused sleep_ms

-- `clock` is what the closure reads, `later` what the branch after it reads.
unfoldable pub attempt : RateLimiter → ℕ → ℕ → Attempt
attempt l clock later = elim l.inner [
  | none ↦ unlimited
  | some inner ↦
      settle l (sleep_time l.max_tokens l.interval_ms later inner.state)
        (take_token l.max_tokens l.interval_ms clock inner.state)
]
