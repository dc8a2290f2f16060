-- ===== src/Capability/Token.antt =====
-- `CapabilityToken` of protocol/capability.py: its fields, its encoding for signing, its times and
-- its creation. The clock and the random nonce are arguments.
pub mod Dids
pub mod Encoding
use qasp.Prelude.{
  ℕ, ◌+◌, ◌*◌, String, Bytes, Option, none, some, Bool, true, false, List, [], ◌++◌, take, leb, ltb,
}
use qasp.Prelude.Int.{ℤ, pos}
use qasp.Prelude.Result.{Result, ok, ◌>>=◌}
use qasp.Platform.{Platform}
use qasp.Capability.Constraints.{VerbSet, Constraints, unconstrained}
use qasp.Capability.Temporal.{TemporalSchedule, second}
use Dids.{Did, did_text}
use Encoding.{encode_token_data}

pub record CapabilityToken : Type 0 where
  pub token_id : Bytes
  pub issuer_did : Did
  pub subject_did : Did
  pub audience_did : Option Did
  pub resource_uri : String
  pub verbs : VerbSet
  pub constraints : Constraints
  pub issued_at : ℕ
  pub nonce : Bytes
  pub signature : Bytes
  pub parent_token_hash : Option Bytes
  pub max_delegation_depth : ℤ
  pub delegation_chain_length : ℤ
  pub toolchain_position : ℤ
  pub auditor_kem_pk : Option Bytes
  pub temporal_attenuation : Option TemporalSchedule

-- `now >= not_after`, and `now < not_before`.
unfoldable pub is_expired : CapabilityToken → ℕ → Bool
is_expired token now = elim token.constraints.not_after [ none ↦ false | some t ↦ leb t now ]

unfoldable pub is_not_yet_valid : CapabilityToken → ℕ → Bool
is_not_yet_valid token now = elim token.constraints.not_before [ none ↦ false | some t ↦ ltb now t ]

abbrev pub with_not_after : Constraints → ℕ → Constraints
with_not_after c t = elim c.not_after [ none ↦ record c { not_after = some t } | some _ ↦ c ]

module _ (p : Platform) where
  unfoldable pub token_to_cbor : CapabilityToken → Bytes
  token_to_cbor t =
      encode_token_data p t.token_id t.issuer_did t.subject_did t.audience_did t.resource_uri
        t.verbs t.constraints t.issued_at t.nonce t.parent_token_hash t.max_delegation_depth
        t.delegation_chain_length t.toolchain_position t.auditor_kem_pk t.temporal_attenuation

  unfoldable pub compute_hash : CapabilityToken → Bytes
  compute_hash t = p.sha384 (token_to_cbor t ++ t.signature)

  -- `hashlib.sha384(str(did).encode() + nonce).digest()[:32]`.
  unfoldable pub new_token_id : Did → Bytes → Bytes
  new_token_id did nonce = take 32 (p.sha384 (p.encode (did_text did) ++ nonce))

  -- The end of both constructors: sign the encoding and put the signature in. The signature field
  -- of the draft does not enter its encoding.
  unfoldable pub sign_token : Bytes → CapabilityToken → Result CapabilityToken
  sign_token secret_key draft = do
    signature ← p.sign secret_key (token_to_cbor draft)
    ok (record draft { signature = signature })

  unfoldable pub create_token :
      ℕ
      → Bytes
      → Did
      → Bytes
      → Did
      → String
      → VerbSet
      → Option Constraints
      → Option Did
      → ℤ
      → ℕ
      → Option Bytes
      → Option TemporalSchedule
      → Result CapabilityToken
  create_token now nonce issuer_did issuer_secret_key subject_did resource_uri verbs constraints
        audience_did max_delegation_depth validity_seconds auditor_kem_pk temporal_attenuation =
      let not_after = now + validity_seconds * second in
      sign_token issuer_secret_key (record {
        token_id = new_token_id issuer_did nonce;
        issuer_did = issuer_did;
        subject_did = subject_did;
        audience_did = audience_did;
        resource_uri = resource_uri;
        verbs = verbs;
        constraints =
            with_not_after (elim constraints [ none ↦ unconstrained | some c ↦ c ]) not_after;
        issued_at = now;
        nonce = nonce;
        signature = [];
        parent_token_hash = none;
        max_delegation_depth = max_delegation_depth;
        delegation_chain_length = pos 0;
        toolchain_position = pos 0;
        auditor_kem_pk = auditor_kem_pk;
        temporal_attenuation = temporal_attenuation;
      })
