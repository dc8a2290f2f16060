-- ===== src/Examples/Chains.antt =====
-- The theorems on delegation chains, at the example token and its child.
use qasp.Prelude.{
  ℕ, String, Bytes, Option, none, some, ◌≡◌, ◌↔◌, refl, Bool, true, false, List, [], ◌∷◌, arith,
  length,
}
use qasp.Prelude.Int.{pos}
use qasp.Prelude.Result.{ok}
use qasp.Capability.Token.{CapabilityToken, is_expired, is_not_yet_valid, sign_token}
use qasp.Capability.Attenuate.{child_draft}
use qasp.Capability.Chain.{Resolver, check_link, check_links, verify_delegation_chain}
use qasp.Capability.Chain.Accepts.{Link, check_link_iff, attenuate-accepted}
use qasp.Capability.Chain.Descent.{Descends, chain-Descends}
use qasp.Capability.Chain.Unchecked.{self_issued-accepted}
use qasp.Examples.{
  example_platform, example_pair, owner_key, agent_key, did_of, read_write, root_constraints, decay,
  root_token,
}
use qasp.Examples.Tokens.{child_token, child_made}

abbrev pub resolve : Resolver
resolve did = ok agent_key

attenuate-accepted_example :
    check_link example_platform 6000000 (some resolve) true root_token child_token ≡ ok tt
unfolding is_expired is_not_yet_valid
attenuate-accepted_example =
    attenuate-accepted example_platform 5000000 6000000 (8 ∷ []) root_token agent_key agent_key
      (did_of "worker") none none none none none child_token resolve (example_pair agent_key) refl
      child_made refl refl

check_link_iff_example :
    (check_link example_platform 6000000 (some resolve) true root_token child_token ≡ ok tt)
    ↔ Link example_platform 6000000 (some resolve) true root_token child_token
check_link_iff_example =
    check_link_iff example_platform 6000000 (some resolve) true root_token child_token

pub chain_accepted :
    verify_delegation_chain example_platform 6000000
      (some resolve)
      true
      (root_token ∷ child_token ∷ [])
      owner_key
    ≡ ok tt
unfolding verify_delegation_chain check_links qasp.Capability.Usage.verify_claims
    qasp.Prelude.bytes_eq qasp.Capability.Token.token_to_cbor
    qasp.Capability.Token.Encoding.encode_token_data is_not_yet_valid is_expired
chain_accepted = rw attenuate-accepted_example

chain-Descends_example : Descends 1 root_token child_token
chain-Descends_example =
    chain-Descends example_platform 6000000 (some resolve) true root_token (child_token ∷ [])
      owner_key chain_accepted

-- The agent's token allows no further delegation; the child names another resource.
abbrev last_token : CapabilityToken
last_token = record root_token { max_delegation_depth = pos 0 }

abbrev stray_token : CapabilityToken
stray_token =
    record (child_draft example_platform 5000000 (8 ∷ []) last_token (did_of "worker") read_write
      root_constraints (pos 0) (some decay) "qasp://acme/payroll") { signature = 2 ∷ 7 ∷ [] }

self_issued-accepted_example :
    check_link example_platform 6000000 (some resolve) true last_token stray_token ≡ ok tt
unfolding is_expired is_not_yet_valid sign_token qasp.Capability.Token.token_to_cbor
    qasp.Capability.Token.Encoding.encode_token_data
self_issued-accepted_example =
    self_issued-accepted example_platform 5000000 6000000 (8 ∷ []) last_token agent_key agent_key
      (did_of "worker") (pos 0) "qasp://acme/payroll" stray_token resolve (example_pair agent_key)
      refl refl refl refl
