-- ===== src/RateLimiter/Registry.antt =====
-- `RateLimiterRegistry`: one bucket for each token id.
use qasp.Prelude.{ℕ, zero, suc, ◌+◌, Bytes, none, some, Bool, [], ◌∷◌, ltb, if◌then◌else◌}
use qasp.Prelude.Int.{ℤ, pos, negsuc}
use qasp.Prelude.Dict.{Dict, bytes_Eq, lookup, insert, erase, has_key}
use qasp.Prelude.Result.{Result, ok, err, value_error, zero_division}
use qasp.RateLimiter.{TokenBucket, new_bucket}

-- `_LimiterEntry`
pub record LimiterEntry : Type 0 where
  pub limiter : TokenBucket
  pub created_at : ℕ
  pub rate_period_seconds : ℤ

abbrev pub RateLimiterRegistry : Type 0
RateLimiterRegistry = Dict Bytes LimiterEntry

-- rate_limit / rate_period_seconds, and the checks of the constructor.
unfoldable pub bucket_for : ℤ → ℤ → ℕ → Result TokenBucket
bucket_for rate_limit (pos zero) now = err zero_division
bucket_for (negsuc limit) period now = err value_error
bucket_for (pos limit) (negsuc period) now = err value_error
bucket_for (pos limit) (pos period) now = new_bucket limit limit period now

abbrev pub fresh_entry : TokenBucket → ℤ → ℕ → LimiterEntry
fresh_entry limiter period now = record {
  limiter = limiter;
  created_at = now;
  rate_period_seconds = period;
}

unfoldable pub get_or_create :
    ℕ → Bytes → ℤ → ℤ → RateLimiterRegistry → Result TokenBucket × RateLimiterRegistry
get_or_create now token_id rate_limit rate_period_seconds registry =
    elim (lookup token_id registry) [
      | some entry ↦ (ok entry.limiter, registry)
      | none ↦ elim (bucket_for rate_limit rate_period_seconds now) [
        | err e ↦ (err e, registry)
        | ok limiter ↦
            (ok limiter, insert token_id (fresh_entry limiter rate_period_seconds now) registry)
      ]
    ]

-- The limiter is an object that the registry shares: what a caller does to it is seen there.
unfoldable pub write_back : Bytes → TokenBucket → RateLimiterRegistry → RateLimiterRegistry
write_back token_id limiter registry = elim (lookup token_id registry) [
  | none ↦ registry
  | some entry ↦ insert token_id (record entry { limiter = limiter }) registry
]

unfoldable pub remove : Bytes → RateLimiterRegistry → Bool × RateLimiterRegistry
remove token_id registry = (has_key token_id registry, erase token_id registry)

abbrev pub is_old : ℕ → ℕ → LimiterEntry → Bool
is_old now max_age entry = ltb (entry.created_at + max_age) now

unfoldable pub cleanup_expired : ℕ → ℕ → RateLimiterRegistry → ℕ × RateLimiterRegistry
cleanup_expired now max_age [] = (0, [])
cleanup_expired now max_age ((k, entry) ∷ registry) =
    let (removed, rest) = cleanup_expired now max_age registry in
    if is_old now max_age entry then (suc removed, rest) else (removed, (k, entry) ∷ rest)
