-- ===== src/Capability/Usage/Allowed.antt =====
-- What a call of `verify_token` that returned has established.
use qasp.Prelude.{
  ℕ, Bytes, Option, none, some, ◌≡◌, refl, inl, inr, Bool, true, false, arith, has_text,
  is_nonempty, issubset,
}
use qasp.Prelude.Int.{ℤ, pos, ◌+ℤ◌, ◌*ℤ◌, ◌≤ℤ◌, ◌<ℤ◌}
use qasp.Prelude.Result.{Result, ok, err, invalid_signature, Result-cases}
use qasp.Platform.{Platform}
use qasp.RateLimiter.{TokenBucket, consume_or_raise}
use qasp.RateLimiter.Registry.{RateLimiterRegistry, get_or_create}
use qasp.Capability.Constraints.{Constraints}
use qasp.Capability.Temporal.{effective}
use qasp.Capability.Token.{CapabilityToken, token_to_cbor, is_expired, is_not_yet_valid}
use qasp.Capability.Usage.{TokenUsage, expected_tool, as_invalid_token, revoked_by, verify_claims}

-- What was used is within a limit, where there is one.
abbrev pub UsedWithin : ℤ → Option ℤ → Type 0
UsedWithin used none = Unit
UsedWithin used (some limit) = used ≤ℤ limit

pub record Allowed (position : ℤ) (usage : TokenUsage) (c : Constraints) : Type 0 where
  pub quantity : UsedWithin usage.quantity_consumed c.quantity_limit
  pub spend : UsedWithin usage.total_spend c.max_spend
  pub scope : is_nonempty c.data_scope ≡ true → issubset usage.data_accessed c.data_scope ≡ true
  pub purpose :
      has_text c.purpose ≡ true
      → has_text usage.declared_purpose ≡ true
      → usage.declared_purpose ≡ c.purpose
  pub tool :
      is_nonempty c.allowed_toolchain ≡ true
      → has_text usage.current_tool_class ≡ true
      → expected_tool c.allowed_toolchain position ≡ ok usage.current_tool_class

-- Where there is a rate limit: the bucket of the token gave one token, and while the declared period
-- lasts, the declared operations are within the limit.
pub record RateAllowed (clock now : ℕ) (token_id : Bytes) (usage : TokenUsage) (c : Constraints)
    (registry : RateLimiterRegistry) : Type 0 where
  pub bucket :
      (limit : ℤ)
      → c.rate_limit ≡ some limit
      → (b : TokenBucket) × ((get_or_create clock token_id limit c.rate_period_seconds registry).0
          ≡ ok b)
        × ((consume_or_raise clock 1 b).0 ≡ ok tt)
  pub declared :
      (limit : ℤ) (start : ℕ)
      → c.rate_limit ≡ some limit
      → usage.period_start ≡ some start
      → pos now <ℤ pos start +ℤ c.rate_period_seconds *ℤ pos 1000000
      → usage.operations_in_period ≤ℤ limit

-- The usage that was declared, where one was.
abbrev pub UsageAllowed : ℕ → CapabilityToken → ℕ → RateLimiterRegistry → Option TokenUsage → Type 0
UsageAllowed clock token now registry none = Unit
UsageAllowed clock token now registry (some u) =
    Allowed token.toolchain_position u
      (effective token.constraints token.temporal_attenuation token.issued_at now)
    × RateAllowed clock now token.token_id u
        (effective token.constraints token.temporal_attenuation token.issued_at now) registry

as_invalid_token-eq-ok : (m : Result (Unit {0})) → as_invalid_token m ≡ ok tt → m ≡ ok tt
as_invalid_token-eq-ok (ok x) h = refl
as_invalid_token-eq-ok (err invalid_signature) h = cc
as_invalid_token-eq-ok (err e) h = cc

-- The claims: not revoked, signed by the issuer, and within its times where these are checked.
pub record ClaimsHold (p : Platform) (now : ℕ) (token : CapabilityToken) (key : Bytes)
    (check_expiry : Bool) (crl : Option (Bytes → Bool)) : Type 0 where
  pub live : revoked_by crl token.token_id ≡ false
  pub signature : p.verify key (token_to_cbor p token) token.signature ≡ ok tt
  pub times :
      check_expiry ≡ true → (is_not_yet_valid token now ≡ false) × (is_expired token now ≡ false)

module _ (p : Platform) (now : ℕ) (token : CapabilityToken) (key : Bytes) (check_expiry : Bool)
    (crl : Option (Bytes → Bool)) where
  pub signature_verified :
      verify_claims p now token key check_expiry crl ≡ ok tt
      → p.verify key (token_to_cbor p token) token.signature ≡ ok tt
  unfolding verify_claims
  signature_verified h =
      elim (Result-cases (p.verify key (token_to_cbor p token) token.signature)) [
        | inl (x, e) ↦ e
        | inr (x, e) ↦ absurd (ground (arith, as_invalid_token-eq-ok (err x)))
      ]
