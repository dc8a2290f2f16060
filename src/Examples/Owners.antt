-- ===== src/Examples/Owners.antt =====
-- The theorems on tokens of several owners, at two chains that end in the same agent.
use qasp.Prelude.{some, ◌≡◌, true, [], ◌∷◌}
use qasp.Prelude.Int.{pos}
use qasp.Prelude.Result.{ok}
use qasp.Capability.Constraints.{VerbSet, Constraints}
use qasp.Capability.Owners.{
  AuthorityChainEntry, MultiOwnerCapabilityToken, effective_verbs, effective_constraints,
  verify_entries, verify_multi_owner_token,
}
use qasp.Capability.Owners.Within.{AllWithinRoot, verify_multi_owner_token-AllWithinRoot}
use qasp.Examples.{example_platform, owner_key, root_constraints, root_token}
use qasp.Examples.Tokens.{child_token}
use qasp.Examples.Chains.{resolve, chain_accepted}

abbrev strict : Constraints
strict = record root_constraints { quantity_limit = some (pos 2) }

abbrev owner_chain : AuthorityChainEntry
owner_chain = record { chain = root_token ∷ child_token ∷ []; root_public_key = owner_key }

abbrev shared_token : MultiOwnerCapabilityToken
shared_token = record { authority_chains = owner_chain ∷ owner_chain ∷ [] }

shared_accepted :
    verify_multi_owner_token example_platform 6000000 (some resolve) true shared_token ≡ ok tt
unfolding verify_multi_owner_token verify_entries
shared_accepted = rw chain_accepted

verify_multi_owner_token-AllWithinRoot_example :
    (v : VerbSet) × (c : Constraints) × (effective_verbs shared_token ≡ ok v)
    × (effective_constraints shared_token ≡ ok c)
    × AllWithinRoot v c shared_token.authority_chains
verify_multi_owner_token-AllWithinRoot_example =
    verify_multi_owner_token-AllWithinRoot example_platform 6000000 (some resolve) true shared_token
      shared_accepted
