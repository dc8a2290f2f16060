-- ===== src/Capability/Usage.antt =====
-- `TokenUsage`, `_verify_usage_constraints` and `verify_token` of protocol/capability.py. The rate
-- limiters are the shared registry, which comes back changed beside the answer. One call reads the
-- wall clock (`now`) and the monotonic clock (`clock`) once.
pub mod Allowed
use qasp.Prelude.{
  ℕ, zero, suc, ◌+◌, ◌-◌, ◌*◌, String, Bytes, Option, none, some, Bool, true, false, not, ◌&&◌,
  List, [], ◌∷◌, ltb, length, get_elem?, if◌then◌else◌, str_eq, has_text, is_nonempty, issubset,
}
use qasp.Prelude.Int.{ℤ, pos, negsuc, ◌+ℤ◌, ◌*ℤ◌, ltb_ℤ, leb_ℤ}
use qasp.Prelude.Result.{
  Result, ok, err, raise_if, ◌>>=◌, ◌>>◌, invalid_signature, invalid_token, token_expired,
  token_not_yet_valid, token_constraint_violation, toolchain_violation, token_revoked,
  rate_limit_exceeded, index_error,
}
use qasp.Platform.{Platform}
use qasp.RateLimiter.{TokenBucket, consume_or_raise}
use qasp.RateLimiter.Registry.{RateLimiterRegistry, get_or_create, write_back}
use qasp.Capability.Constraints.{Constraints}
use qasp.Capability.Temporal.{second, effective}
use qasp.Capability.Token.{CapabilityToken, token_to_cbor, is_expired, is_not_yet_valid}

pub record TokenUsage : Type 0 where
  pub quantity_consumed : ℤ
  pub operations_in_period : ℤ
  pub period_start : Option ℕ
  pub total_spend : ℤ
  pub data_accessed : List String
  pub declared_purpose : String
  pub current_tool_class : String

-- `limit is not None and used > limit`.
abbrev pub over : ℤ → Option ℤ → Bool
over used none = false
over used (some limit) = ltb_ℤ limit used

-- `chain[i]`: a negative index counts from the end.
unfoldable pub index_at : List String → ℤ → Result String
index_at chain (pos i) = elim (get_elem? chain i) [ none ↦ err index_error | some tool ↦ ok tool ]
index_at chain (negsuc i) =
    if ltb i (length chain)
    then (elim (get_elem? chain (length chain - suc i)) [
      | none ↦ err index_error
      | some tool ↦ ok tool
    ])
    else err index_error

-- The step of the chain that a position names; past the end is a violation.
unfoldable pub expected_tool : List String → ℤ → Result String
expected_tool chain position = do
  raise_if (leb_ℤ (pos (length chain)) position) toolchain_violation
  index_at chain position

-- `period_elapsed < rate_period_seconds and operations_in_period > rate_limit`.
unfoldable pub passive_violation : ℕ → TokenUsage → Constraints → ℤ → Bool
passive_violation now usage c limit = elim usage.period_start [
  | none ↦ false
  | some start ↦
      ltb_ℤ (pos now) (pos start +ℤ c.rate_period_seconds *ℤ pos second)
      && ltb_ℤ limit usage.operations_in_period
]

-- A refusal of the bucket is reported as a violation; no other exception of it is caught.
abbrev pub as_violation : Result (Unit {0}) → Result (Unit {0})
as_violation (ok x) = ok x
as_violation (err rate_limit_exceeded) = err token_constraint_violation
as_violation (err e) = err e

-- The bucket is asked for one token, and then the declared operations are compared.
unfoldable pub check_bucket :
    ℕ
    → ℕ
    → Bytes
    → TokenUsage
    → Constraints
    → ℤ
    → Result TokenBucket
    → RateLimiterRegistry
    → Result (Unit {0}) × RateLimiterRegistry
check_bucket clock now token_id usage c limit (err e) registry = (err e, registry)
check_bucket clock now token_id usage c limit (ok limiter) registry =
    let (answer, limiter') = consume_or_raise clock 1 limiter in
    (
      as_violation answer
          >> raise_if (passive_violation now usage c limit) token_constraint_violation,
      write_back token_id limiter' registry,
    )

unfoldable pub check_rate :
    ℕ
    → ℕ
    → Bytes
    → TokenUsage
    → Constraints
    → RateLimiterRegistry
    → Result (Unit {0}) × RateLimiterRegistry
check_rate clock now token_id usage c registry = elim c.rate_limit [
  | none ↦ (ok tt, registry)
  | some limit ↦
      let (limiter, registry') =
        get_or_create clock token_id limit c.rate_period_seconds registry in
      check_bucket clock now token_id usage c limit limiter registry'
]

-- The tool that is used is the expected one.
unfoldable pub check_tool : List String → ℤ → String → Result (Unit {0})
check_tool chain position tool = do
  expected ← expected_tool chain position
  raise_if (not (str_eq tool expected)) toolchain_violation

-- The checks after the rate: spend, data scope, purpose, toolchain.
unfoldable pub check_rest : ℤ → TokenUsage → Constraints → Result (Unit {0})
check_rest position usage c = do
  raise_if (over usage.total_spend c.max_spend) token_constraint_violation
  raise_if (is_nonempty c.data_scope && not (issubset usage.data_accessed c.data_scope))
      token_constraint_violation
  raise_if
      (has_text c.purpose
        && (has_text usage.declared_purpose && not (str_eq usage.declared_purpose c.purpose)))
      token_constraint_violation
  if is_nonempty c.allowed_toolchain && has_text usage.current_tool_class
      then check_tool c.allowed_toolchain position usage.current_tool_class
      else ok tt

unfoldable pub verify_usage_constraints :
    ℕ
    → ℕ
    → CapabilityToken
    → TokenUsage
    → Constraints
    → RateLimiterRegistry
    → Result (Unit {0}) × RateLimiterRegistry
verify_usage_constraints clock now token usage c registry =
    if over usage.quantity_consumed c.quantity_limit
    then (err token_constraint_violation, registry)
    else let (rate, registry') = check_rate clock now token.token_id usage c registry in
      (rate >> check_rest token.toolchain_position usage c, registry')

abbrev pub as_invalid_token : Result (Unit {0}) → Result (Unit {0})
as_invalid_token (ok x) = ok x
as_invalid_token (err invalid_signature) = err invalid_token
as_invalid_token (err e) = err e

abbrev pub check_times : ℕ → CapabilityToken → Result (Unit {0})
check_times now token = do
  raise_if (is_not_yet_valid token now) token_not_yet_valid
  raise_if (is_expired token now) token_expired

-- `crl.is_revoked`, where there is a list.
abbrev pub revoked_by : Option (Bytes → Bool) → Bytes → Bool
revoked_by none token_id = false
revoked_by (some is_revoked) token_id = is_revoked token_id

module _ (p : Platform) where
  -- `verify_token` without a usage.
  unfoldable pub verify_claims :
      ℕ → CapabilityToken → Bytes → Bool → Option (Bytes → Bool) → Result (Unit {0})
  verify_claims now token issuer_public_key check_expiry crl = do
    raise_if (revoked_by crl token.token_id) token_revoked
    as_invalid_token (p.verify issuer_public_key (token_to_cbor p token) token.signature)
    if check_expiry then check_times now token else ok tt

  unfoldable pub verify_token :
      ℕ
      → ℕ
      → CapabilityToken
      → Bytes
      → Bool
      → Option TokenUsage
      → Option (Bytes → Bool)
      → RateLimiterRegistry
      → Result (Unit {0}) × RateLimiterRegistry
  verify_token clock now token issuer_public_key check_expiry usage crl registry =
      elim (verify_claims now token issuer_public_key check_expiry crl) [
        | err e ↦ (err e, registry)
        | ok _ ↦ elim usage [
          | none ↦ (ok tt, registry)
          | some u ↦
              verify_usage_constraints clock now token u
                (effective token.constraints token.temporal_attenuation token.issued_at now)
                registry
        ]
      ]
