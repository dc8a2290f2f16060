-- ===== src/Capability/Owners.antt =====
-- Tokens of several owners, of protocol/capability.py: each owner has a delegation chain, and what
-- the token allows is what all the leaves allow.
pub mod Agreed
pub mod Within
use qasp.Prelude.{ℕ, String, Bytes, Option, Bool, List, [], ◌∷◌}
use qasp.Prelude.Result.{
  Result, ok, err, ◌>>=◌, ◌>>◌, index_error, multi_owner_validation, invalid_delegation_chain,
  invalid_token, token_expired,
}
use qasp.Platform.{Platform}
use qasp.Capability.Constraints.{
  VerbSet, verbs_intersection, Constraints, take_later, take_earlier, take_smaller, narrow, text_or,
}
use qasp.Capability.Token.{CapabilityToken}
use qasp.Capability.Chain.{Resolver, verify_delegation_chain}

pub record AuthorityChainEntry : Type 0 where
  pub chain : List CapabilityToken
  pub root_public_key : Bytes

pub record MultiOwnerCapabilityToken : Type 0 where
  pub authority_chains : List AuthorityChainEntry

-- `chain[-1]`
unfoldable pub last_token : List CapabilityToken → Result CapabilityToken
last_token [] = err index_error
last_token (t ∷ []) = ok t
last_token (t ∷ u ∷ rest) = last_token (u ∷ rest)

-- The loop of `effective_verbs`.
unfoldable pub verbs_from : VerbSet → List AuthorityChainEntry → Result VerbSet
verbs_from result [] = ok result
verbs_from result (entry ∷ rest) = do
  token ← last_token entry.chain
  verbs_from (verbs_intersection result token.verbs) rest

unfoldable pub effective_verbs : MultiOwnerCapabilityToken → Result VerbSet
effective_verbs token = elim token.authority_chains [
  | [] ↦ ok (record { verbs = [] })
  | entry ∷ rest ↦ last_token entry.chain >>= λ first. verbs_from first.verbs rest
]

-- One round of the loop of `intersect_constraints`.
abbrev pub intersect_two : Constraints → Constraints → Constraints
intersect_two result c = record {
  not_before = take_later result.not_before c.not_before;
  not_after = take_earlier result.not_after c.not_after;
  quantity_limit = take_smaller result.quantity_limit c.quantity_limit;
  quantity_unit = text_or result.quantity_unit c.quantity_unit;
  rate_limit = take_smaller result.rate_limit c.rate_limit;
  rate_period_seconds = result.rate_period_seconds;
  max_spend = take_smaller result.max_spend c.max_spend;
  spend_currency = text_or result.spend_currency c.spend_currency;
  data_scope = narrow result.data_scope c.data_scope;
  purpose = text_or result.purpose c.purpose;
  allowed_toolchain = narrow result.allowed_toolchain c.allowed_toolchain;
}

unfoldable pub intersect_from : Constraints → List Constraints → Constraints
intersect_from result [] = result
intersect_from result (c ∷ rest) = intersect_from (intersect_two result c) rest

unfoldable pub intersect_constraints : List Constraints → Result Constraints
intersect_constraints [] = err multi_owner_validation
intersect_constraints (c ∷ rest) = ok (intersect_from c rest)

unfoldable pub leaf_constraints : List AuthorityChainEntry → Result (List Constraints)
leaf_constraints [] = ok []
leaf_constraints (entry ∷ rest) = do
  token ← last_token entry.chain
  others ← leaf_constraints rest
  ok (token.constraints ∷ others)

unfoldable pub effective_constraints : MultiOwnerCapabilityToken → Result Constraints
effective_constraints token = leaf_constraints token.authority_chains >>= intersect_constraints

unfoldable pub create_multi_owner_token :
    List AuthorityChainEntry → Result MultiOwnerCapabilityToken
create_multi_owner_token [] = err multi_owner_validation
create_multi_owner_token (entry ∷ rest) = ok (record { authority_chains = entry ∷ rest })

-- The exceptions of a chain that are turned into one of the token's own.
abbrev pub owner_failure : Result (Unit {0}) → Result (Unit {0})
owner_failure (ok x) = ok x
owner_failure (err invalid_delegation_chain) = err multi_owner_validation
owner_failure (err invalid_token) = err multi_owner_validation
owner_failure (err token_expired) = err multi_owner_validation
owner_failure (err e) = err e

module _ (p : Platform) (now : ℕ) (resolver : Option Resolver) (check_expiry : Bool) where
  unfoldable pub verify_entries : List AuthorityChainEntry → Result (Unit {0})
  verify_entries [] = ok tt
  verify_entries (entry ∷ rest) =
      owner_failure
        (verify_delegation_chain p now resolver check_expiry entry.chain entry.root_public_key)
      >> verify_entries rest

  unfoldable pub verify_multi_owner_token : MultiOwnerCapabilityToken → Result (Unit {0})
  verify_multi_owner_token token = elim token.authority_chains [
    | [] ↦ err multi_owner_validation
    | entry ∷ rest ↦ verify_entries (entry ∷ rest)
  ]
