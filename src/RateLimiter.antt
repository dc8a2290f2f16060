-- ===== src/RateLimiter.antt =====
-- protocol/rate_limiter.py. The source counts tokens in floating point; here the arithmetic is
-- exact. A refill rate is a fraction of tokens per second, times are microseconds, and a bucket
-- counts in the unit 1 / (den * 1000000) of a token, so that one microsecond adds `num` units.
-- The capacity of a bucket and the tokens asked for are whole numbers; the source also takes fractions.
pub mod Bound
pub mod Registry
use qasp.Prelude.{ℕ, ◌+◌, ◌-◌, ◌*◌, ◌/◌, Bool, true, false, leb, ltb, ◌==◌, if◌then◌else◌}
use Prim.Native.Nat.{min}
use qasp.Prelude.Result.{Result, ok, err, value_error, rate_limit_exceeded}

abbrev pub second : ℕ
second = 1000000

-- `TokenBucketRateLimiter`: capacity in tokens, tokens in units.
pub record TokenBucket : Type 0 where
  pub capacity : ℕ
  pub num : ℕ
  pub den : ℕ
  pub tokens : ℕ
  pub last_refill : ℕ

-- The units of one token, and of a full bucket.
abbrev pub unit : TokenBucket → ℕ
unit b = b.den * second

abbrev pub full : TokenBucket → ℕ
full b = b.capacity * (b.den * second)

unfoldable pub new_bucket : ℕ → ℕ → ℕ → ℕ → Result TokenBucket
new_bucket capacity num den now =
    if capacity == 0
    then err value_error
    else if num == 0
    then err value_error
    else ok (record {
      capacity = capacity;
      num = num;
      den = den;
      tokens = capacity * (den * second);
      last_refill = now;
    })

-- `_refill`: nothing if the clock did not advance.
unfoldable pub refill : ℕ → TokenBucket → TokenBucket
refill now b =
    if ltb b.last_refill now
    then record b {
      tokens = min (full b) (b.tokens + (now - b.last_refill) * b.num);
      last_refill = now;
    }
    else b

-- `consume(n)`: the answer and the bucket. A refusal keeps the refill.
unfoldable pub take_tokens : ℕ → TokenBucket → Bool × TokenBucket
take_tokens n b =
    if leb (n * unit b) b.tokens
    then (true, record b { tokens = b.tokens - n * unit b })
    else (false, b)

unfoldable pub consume : ℕ → ℕ → TokenBucket → Result Bool × TokenBucket
consume now n b =
    if n == 0
    then (err value_error, b)
    else let (granted, b') = take_tokens n (refill now b) in (ok granted, b')

-- The microseconds after which enough tokens are there: deficit / refill_rate, rounded up.
unfoldable pub retry_after : ℕ → TokenBucket → ℕ
retry_after n b = (n * unit b - b.tokens + b.num - 1) / b.num

unfoldable pub consume_or_raise : ℕ → ℕ → TokenBucket → Result (Unit {0}) × TokenBucket
consume_or_raise now n b =
    if n == 0
    then (err value_error, b)
    else let (granted, b') = take_tokens n (refill now b) in
      (if granted then ok tt else err rate_limit_exceeded, b')
