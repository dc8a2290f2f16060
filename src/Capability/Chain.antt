-- ===== src/Capability/Chain.antt =====
-- `verify_delegation_chain` of protocol/capability.py.
pub mod Descent
pub mod Accepts
pub mod Unchecked
use qasp.Prelude.{
  ℕ, Bytes, Option, none, some, Bool, true, false, not, ◌||◌, List, [], ◌∷◌, bytes_eq,
  if◌then◌else◌,
}
use qasp.Prelude.Int.{ℤ, pos, ◌+ℤ◌, ◌-ℤ◌, eq_ℤ}
use qasp.Prelude.Result.{
  Result, ok, err, raise_if, ◌>>=◌, ◌>>◌, invalid_delegation_chain, invalid_token, token_expired,
  token_not_yet_valid, attenuation_error,
}
use qasp.Platform.{Platform}
use qasp.Capability.Constraints.{verbs_issubset, is_tighter_than}
use qasp.Capability.Temporal.{verify_temporal_monotonicity}
use qasp.Capability.Token.{CapabilityToken, compute_hash, is_expired, is_not_yet_valid}
use qasp.Capability.Token.Dids.{Did, did_eq}
use qasp.Capability.Usage.{verify_claims}

-- The exceptions that the root's check turns into one of its own; the others go through.
abbrev pub root_failure : Result (Unit {0}) → Result (Unit {0})
root_failure (ok x) = ok x
root_failure (err invalid_token) = err invalid_delegation_chain
root_failure (err token_expired) = err invalid_delegation_chain
root_failure (err token_not_yet_valid) = err invalid_delegation_chain
root_failure (err e) = err e

abbrev pub link_failure : Result (Unit {0}) → Result (Unit {0})
link_failure (ok x) = ok x
link_failure (err invalid_token) = err invalid_delegation_chain
link_failure (err e) = err e

abbrev pub temporal_failure : Result (Unit {0}) → Result (Unit {0})
temporal_failure (ok x) = ok x
temporal_failure (err attenuation_error) = err invalid_delegation_chain
temporal_failure (err e) = err e

-- `token.parent_token_hash != expected_hash`.
abbrev pub hash_differs : Option Bytes → Bytes → Bool
hash_differs none expected = true
hash_differs (some h) expected = not (bytes_eq h expected)

-- `DIDResolver.resolve`, which may raise.
abbrev pub Resolver : Type 0
Resolver = Did → Result Bytes

module _ (p : Platform) (now : ℕ) (resolver : Option Resolver) (check_expiry : Bool) where
  unfoldable pub check_signature : CapabilityToken → Result (Unit {0})
  check_signature token = elim resolver [
    | none ↦ ok tt
    | some resolve ↦ link_failure (do
      issuer_public_key ← resolve token.issuer_did
      verify_claims p now token issuer_public_key false none)
  ]

  -- One round of the loop: a token against the one before it.
  unfoldable pub check_link : CapabilityToken → CapabilityToken → Result (Unit {0})
  check_link prev token = do
    raise_if (hash_differs token.parent_token_hash (compute_hash p prev)) invalid_delegation_chain
    raise_if (not (eq_ℤ token.delegation_chain_length (prev.delegation_chain_length +ℤ pos 1)))
        invalid_delegation_chain
    raise_if (not (eq_ℤ token.max_delegation_depth (prev.max_delegation_depth -ℤ pos 1)))
        invalid_delegation_chain
    raise_if (not (verbs_issubset token.verbs prev.verbs)) invalid_delegation_chain
    raise_if (not (is_tighter_than token.constraints prev.constraints)) invalid_delegation_chain
    temporal_failure (
        verify_temporal_monotonicity prev.constraints prev.temporal_attenuation token.constraints
          token.temporal_attenuation)
    raise_if (not (did_eq token.issuer_did prev.subject_did)) invalid_delegation_chain
    if check_expiry
        then raise_if (is_not_yet_valid token now || is_expired token now) invalid_delegation_chain
        else ok tt
    check_signature token

  unfoldable pub check_links : CapabilityToken → List CapabilityToken → Result (Unit {0})
  check_links prev [] = ok tt
  check_links prev (token ∷ rest) = check_link prev token >> check_links token rest

  unfoldable pub verify_delegation_chain : List CapabilityToken → Bytes → Result (Unit {0})
  verify_delegation_chain [] root_issuer_public_key = err invalid_delegation_chain
  verify_delegation_chain (root ∷ rest) root_issuer_public_key = do
    raise_if (elim root.parent_token_hash [ none ↦ false | some _ ↦ true ]) invalid_delegation_chain
    root_failure (verify_claims p now root root_issuer_public_key check_expiry none)
    check_links root rest
