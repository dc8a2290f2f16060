-- ===== src/Examples.antt =====
-- A platform, keys and tokens on which the theorems are run.
mod Uris
mod Limits
mod Tokens
mod Chains
mod Channels
mod Owners
mod Streams
mod Frames
mod Connections
mod Exchanges
mod Relays
mod Handshakes
mod Talking
mod Revocations
use qasp.Prelude.{
  ℕ, String, Bytes, Option, none, some, ◌≡◌, refl, Bool, true, false, List, [], ◌∷◌, ◌++◌, bytes_eq,
  bytes_eq_iff, if◌then◌else◌,
}
use qasp.Prelude.Int.{ℤ, pos}
use qasp.Prelude.Result.{Result, ok, err, invalid_signature}
use qasp.Platform.{Platform, IsKeyPair, Value}
use qasp.Capability.Constraints.{VerbSet, Constraints, unconstrained}
use qasp.Capability.Temporal.{TemporalSchedule}
use qasp.Capability.Token.{CapabilityToken}
use qasp.Capability.Token.Dids.{Did}

-- A key pair is one key twice, and a signature is the key before the message.
abbrev pub example_platform : Platform
example_platform = record {
  sign = λ key m. ok (key ++ m);
  verify = λ key m s. if bytes_eq s (key ++ m) then ok tt else err invalid_signature;
  sha384 = λ m. m;
  dumps = λ v. 7 ∷ [];
  encode = λ s. 9 ∷ [];
  hex = λ b. "00";
  isoformat = λ t. "2026-01-01";
  sorted = λ l. l;
  to_bytes = λ z n s. ok (3 ∷ []);
}

pub example_pair : (key : Bytes) → IsKeyPair example_platform key key
example_pair key = record {
  signature = λ m. key ++ m;
  signs = λ m. refl;
  verifies = λ m. rw ((bytes_eq_iff (key ++ m) (key ++ m)).1 refl);
}

abbrev pub owner_key : Bytes
owner_key = 1 ∷ []

abbrev pub agent_key : Bytes
agent_key = 2 ∷ []

abbrev pub did_of : String → Did
did_of name = record { method = "key"; identifier = name }

abbrev pub read_write : VerbSet
read_write = record { verbs = "read" ∷ "write" ∷ [] }

abbrev pub root_constraints : Constraints
root_constraints = record unconstrained {
  not_after = some 9000000;
  quantity_limit = some (pos 10);
  data_scope = "a" ∷ "b" ∷ [];
  allowed_toolchain = "search" ∷ "fetch" ∷ "store" ∷ [];
}

-- After 3 seconds only 4 units are left.
abbrev pub decay : TemporalSchedule
decay = record {
  thresholds =
      record { at_seconds = 3; max_spend = none; quantity_limit = some (pos 4); rate_limit = none }
      ∷ [];
  policy = "step";
}

abbrev pub root_token : CapabilityToken
root_token = record {
  token_id = 5 ∷ [];
  issuer_did = did_of "owner";
  subject_did = did_of "agent";
  audience_did = none;
  resource_uri = "qasp://acme/data";
  verbs = read_write;
  constraints = root_constraints;
  issued_at = 1000000;
  nonce = 6 ∷ [];
  signature = 1 ∷ 7 ∷ [];
  parent_token_hash = none;
  max_delegation_depth = pos 2;
  delegation_chain_length = pos 0;
  toolchain_position = pos 0;
  auditor_kem_pk = none;
  temporal_attenuation = some decay;
}
