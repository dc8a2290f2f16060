-- ===== src/Capability/Attenuate.antt =====
-- `attenuate_token`, `create_sub_invocation_token` and `split_token` of protocol/capability.py.
pub mod Narrows
pub mod Restarts
pub mod Splits
use qasp.Prelude.{
  ℕ, zero, suc, ◌+◌, String, Bytes, Option, none, some, Bool, true, false, not, List, [], ◌∷◌,
  length, ◌==◌, get_elem?, if◌then◌else◌, str_eq, is_nonempty,
}
use qasp.Prelude.Int.{ℤ, pos, ◌+ℤ◌, ◌-ℤ◌, ltb_ℤ, leb_ℤ}
use qasp.Prelude.Result.{
  Result, ok, err, raise_if, ◌>>=◌, ◌>>◌, token_expired, delegation_depth_exceeded,
  attenuation_error, invalid_arm_uri, toolchain_violation, token_constraint_violation, value_error,
}
use qasp.Platform.{Platform}
use qasp.Arm.{is_attenuation}
use qasp.Capability.Constraints.{
  VerbSet, verbs_issubset, Constraints, unconstrained, is_tighter_than, tighten,
}
use qasp.Capability.Temporal.{TemporalSchedule, verify_temporal_monotonicity}
use qasp.Capability.Token.{CapabilityToken, is_expired, compute_hash, new_token_id, sign_token}
use qasp.Capability.Token.Dids.{Did}
use qasp.Capability.Usage.{expected_tool}

unfoldable pub reduce_verbs : VerbSet → Option VerbSet → Result VerbSet
reduce_verbs held none = ok held
reduce_verbs held (some reduced) = do
  raise_if (not (verbs_issubset reduced held)) attenuation_error
  ok reduced

unfoldable pub tighten_constraints : Constraints → Option Constraints → Result Constraints
tighten_constraints parent none = ok parent
tighten_constraints parent (some delta) = do
  raise_if (not (is_tighter_than (tighten parent delta) parent)) attenuation_error
  ok (tighten parent delta)

-- Where either URI does not conform to the grammar, an exact match is wanted.
abbrev pub decide_uri : String → String → Result Bool → Result String
decide_uri parent uri (ok true) = ok uri
decide_uri parent uri (ok false) = err attenuation_error
decide_uri parent uri (err invalid_arm_uri) =
    if str_eq uri parent then ok uri else err attenuation_error
decide_uri parent uri (err e) = err e

unfoldable pub narrow_uri : String → Option String → Result String
narrow_uri parent none = ok parent
narrow_uri parent (some uri) = decide_uri parent uri (is_attenuation parent uri)

abbrev pub or_inherit {ℓ} : {A : Type ℓ} → Option A → Option A → Option A
or_inherit none inherited = inherited
or_inherit (some a) inherited = some a

abbrev pub or_default : Option ℤ → ℤ → ℤ
or_default none z = z
or_default (some a) z = a

abbrev pub with_quantity : ℤ → Constraints
with_quantity amount = record unconstrained { quantity_limit = some amount }

module _ (p : Platform) where
  -- The child token before it is signed.
  abbrev pub child_draft :
      ℕ
      → Bytes
      → CapabilityToken
      → Did
      → VerbSet
      → Constraints
      → ℤ
      → Option TemporalSchedule
      → String
      → CapabilityToken
  child_draft now nonce parent subject verbs constraints position temporal uri = record {
    token_id = new_token_id p parent.subject_did nonce;
    issuer_did = parent.subject_did;
    subject_did = subject;
    audience_did = parent.audience_did;
    resource_uri = uri;
    verbs = verbs;
    constraints = constraints;
    issued_at = now;
    nonce = nonce;
    signature = [];
    parent_token_hash = some (compute_hash p parent);
    max_delegation_depth = parent.max_delegation_depth -ℤ pos 1;
    delegation_chain_length = parent.delegation_chain_length +ℤ pos 1;
    toolchain_position = position;
    auditor_kem_pk = parent.auditor_kem_pk;
    temporal_attenuation = temporal;
  }

  unfoldable pub attenuate_token :
      ℕ
      → Bytes
      → CapabilityToken
      → Bytes
      → Did
      → Option VerbSet
      → Option Constraints
      → Option ℤ
      → Option TemporalSchedule
      → Option String
      → Result CapabilityToken
  attenuate_token now nonce parent delegator_secret_key new_subject_did reduced_verbs
        tightened_constraints toolchain_position temporal_attenuation resource_uri =
      do
        raise_if (is_expired parent now) token_expired
        raise_if (leb_ℤ parent.max_delegation_depth (pos 0)) delegation_depth_exceeded
        new_verbs ← reduce_verbs parent.verbs reduced_verbs
        new_constraints ← tighten_constraints parent.constraints tightened_constraints
        new_resource_uri ← narrow_uri parent.resource_uri resource_uri
        let new_temporal = or_inherit temporal_attenuation parent.temporal_attenuation
        verify_temporal_monotonicity parent.constraints parent.temporal_attenuation new_constraints
            new_temporal
        sign_token p delegator_secret_key (
            child_draft now nonce parent new_subject_did new_verbs new_constraints
              (or_default toolchain_position parent.toolchain_position) new_temporal
              new_resource_uri)

  -- The target tool is the next of the chain, where there is a chain.
  unfoldable pub check_target : List String → ℤ → String → Result (Unit {0})
  check_target [] position target = ok tt
  check_target (tool ∷ chain) position target = do
    expected ← expected_tool (tool ∷ chain) position
    raise_if (not (str_eq target expected)) toolchain_violation

  unfoldable pub create_sub_invocation_token :
      ℕ
      → Bytes
      → CapabilityToken
      → Bytes
      → String
      → Did
      → Option VerbSet
      → Option Constraints
      → Option TemporalSchedule
      → Result CapabilityToken
  create_sub_invocation_token now nonce parent holder_secret_key target_tool_class new_subject_did
        reduced_verbs tightened_constraints temporal_attenuation =
      do
        check_target parent.constraints.allowed_toolchain parent.toolchain_position
            target_tool_class
        attenuate_token now nonce parent holder_secret_key new_subject_did reduced_verbs
            tightened_constraints (some (parent.toolchain_position +ℤ pos 1)) temporal_attenuation
            none

  -- The loop: one child for each amount, with the subject and the nonce of its turn.
  unfoldable pub split_each :
      ℕ → CapabilityToken → Bytes → List (ℤ × Did × Bytes) → Result (List CapabilityToken)
  split_each now token holder_secret_key [] = ok []
  split_each now token holder_secret_key ((amount, subject, nonce) ∷ rest) = do
    child ←
        attenuate_token now nonce token holder_secret_key subject none (some (with_quantity amount))
          none none none
    children ← split_each now token holder_secret_key rest
    ok (child ∷ children)

-- `sum(split_amounts)`.
unfoldable pub total : List ℤ → ℤ
total [] = pos 0
total (a ∷ amounts) = a +ℤ total amounts

-- Amount i goes to subject i, or to the token's own subject where no subjects are given. There is
-- none where the numbers of subjects and of amounts differ.
abbrev pub subject_list : Did → List ℤ → Option (List Did) → Option (List Did)
subject_list own [] none = some []
subject_list own (a ∷ amounts) none = elim (subject_list own amounts none) [
  | none ↦ none
  | some l ↦ some (own ∷ l)
]
subject_list own amounts (some subjects) =
    if length subjects == length amounts then some subjects else none

unfoldable pub zip_turns : List ℤ → List Did → List Bytes → List (ℤ × Did × Bytes)
zip_turns (a ∷ amounts) (d ∷ subjects) (n ∷ nonces) = (a, d, n) ∷ zip_turns amounts subjects nonces
zip_turns amounts subjects nonces = []

module _ (p : Platform) where
  -- `nonces` are the random bytes of the calls, one for each amount.
  unfoldable pub split_token :
      ℕ
      → List Bytes
      → CapabilityToken
      → Bytes
      → List ℤ
      → Option (List Did)
      → Result (List CapabilityToken)
  split_token now nonces token holder_secret_key split_amounts new_subject_dids =
      elim token.constraints.quantity_limit [
        | none ↦ err attenuation_error
        | some limit ↦ do
          raise_if (ltb_ℤ limit (total split_amounts)) token_constraint_violation
          elim (subject_list token.subject_did split_amounts new_subject_dids) [
            | none ↦ err value_error
            | some subjects ↦
                split_each p now token holder_secret_key (zip_turns split_amounts subjects nonces)
          ]
      ]
