-- ===== src/Prelude/Result.antt =====
-- A call that returns or raises: the exceptions that the modelled modules raise or catch.
use qasp.Prelude.{◌≡◌, refl, ◌⊎◌, inl, inr, Bool, true, false}

pub data Error : Type 0 where
  -- crypto/exceptions.py
  invalid_key invalid_signature signature_error verification_error : Error
  -- protocol/capability.py
  token_expired token_not_yet_valid invalid_token token_constraint_violation : Error
  attenuation_error delegation_depth_exceeded invalid_delegation_chain : Error
  toolchain_violation multi_owner_validation token_revoked temporal_schedule_error : Error
  -- protocol/arm.py
  invalid_arm_uri : Error
  -- protocol/settlement.py
  settlement_error channel_not_open insufficient_balance invalid_state_update : Error
  challenge_error channel_timeout invalid_price : Error
  -- protocol/revocation.py
  token_already_revoked invalid_revocation : Error
  -- protocol/relay/errors.py
  session_budget_exhausted invalid_scm : Error
  -- framing/codec.py
  framing_error : Error
  -- protocol/states.py
  protocol_error state_transition_error : Error
  -- crypto/exceptions.py, cbor2 and struct
  decryption_error cbor_decode_error struct_error : Error
  encapsulation_error decapsulation_error key_derivation_error unknown_cipher_suite : Error
  -- Python's own
  type_error assertion_error value_error runtime_error zero_division index_error overflow_error :
      Error
  -- protocol/rate_limiter.py
  rate_limit_exceeded : Error

pub data Result {ℓ} (A : Type ℓ) : Type ℓ where
  ok : A → Result A
  err : Error → Result A

infixl 5 ◌>>◌ ◌>>=◌
-- A call whose answer is not used, and then the rest of the block.
abbrev pub ◌>>◌ {ℓ} : {A : Type ℓ} → Result (Unit {0}) → Result A → Result A
err e >> rest = err e
ok done >> rest = rest

abbrev pub ◌>>=◌ {ℓ κ} : {A : Type ℓ} {B : Type κ} → Result A → (A → Result B) → Result B
err e >>= rest = err e
ok answer >>= rest = rest answer

-- `if failed: raise e`.
abbrev pub raise_if : Bool → Error → Result (Unit {0})
raise_if true e = err e
raise_if false e = ok tt

-- What a block that returned has passed.
pub >>-eq-ok {ℓ} :
    {B : Type ℓ} (m : Result (Unit {0})) (k : Result B) {b : B}
    → (m >> k) ≡ ok b
    → (m ≡ ok tt) × (k ≡ ok b)
>>-eq-ok (ok tt) k h = (refl, h)
>>-eq-ok (err e) k h = cc

pub raise_if->>-eq-ok {ℓ} :
    {B : Type ℓ} (t : Bool) (e : Error) (k : Result B) {b : B}
    → (raise_if t e >> k) ≡ ok b
    → (t ≡ false) × (k ≡ ok b)
raise_if->>-eq-ok true e k h = cc
raise_if->>-eq-ok false e k h = (refl, h)

pub Result-cases {ℓ} :
    {A : Type ℓ} (r : Result A) → ((a : A) × (r ≡ ok a)) ⊎ ((e : Error) × (r ≡ err e))
Result-cases (ok a) = inl (a, refl)
Result-cases (err e) = inr (e, refl)

pub >>=-ok {ℓ κ} :
    {A : Type ℓ} {B : Type κ} (m : Result A) (k : A → Result B) {a : A} → m ≡ ok a → (m >>= k) ≡ k a
>>=-ok m k h = rw h refl
