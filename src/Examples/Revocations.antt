-- ===== src/Examples/Revocations.antt =====
-- A list with a token, a child and a grandchild.
use qasp.Prelude.{bytes_eq, Bytes, ◌≡◌, refl, ◌⊎◌, ◌↔◌, true, false, none, some, List, [], ◌∷◌}
use qasp.Prelude.Dict.{bytes_Eq, lookup, has_key}
use qasp.Prelude.Result.{ok}
use qasp.Capability.Token.{CapabilityToken}
use qasp.Revocation.{
  RevocationEntry, RevocationList, critical, planned, owner_request, is_member, revoke,
  register_token,
}
use qasp.Revocation.Queries.{is_revoked, cleanup_expired, get_descendants}
use qasp.Revocation.Offers.{ids_of}
use qasp.Revocation.Reach.{Reach}
use qasp.Revocation.Revokes.{revoke_iff}
use qasp.Revocation.Forgets.{
  has_unique_keys, still_revoked, is_revoked-cleanup_expired, get_descendants-register_token,
}
use qasp.Examples.{example_platform, example_pair, root_token}

abbrev family : RevocationList
family = record {
  entries = [];
  children = (1 ∷ [], (2 ∷ []) ∷ []) ∷ (2 ∷ [], (3 ∷ []) ∷ []) ∷ (3 ∷ [], []) ∷ [];
  token_hash_to_id = [];
}

none_yet : has_key (1 ∷ []) family.entries ≡ false
unfolding has_key
none_yet = refl

revoke_iff_example :
    (after : RevocationList) × (made : List RevocationEntry) × (revoke example_platform
        (1 ∷ [])
        owner_request
        critical
        "did:key:o"
        (5 ∷ [])
        none
        100
        family
      ≡ some (after, ok made))
    × ((a : Bytes)
        → (has_key a after.entries ≡ true)
          ↔ ((has_key a family.entries ≡ true) ⊎ Reach family (1 ∷ []) a))
    × ((a : Bytes) → (is_member a (ids_of made) ≡ true) ↔ Reach family (1 ∷ []) a)
revoke_iff_example =
    revoke_iff example_platform (example_pair (5 ∷ [])) (1 ∷ []) owner_request critical "did:key:o"
      none 100 family none_yet

-- A revocation that is planned for the time 9000 and was made at the time 100.
abbrev later : RevocationList
later = record family {
  entries =
      (
        1 ∷ [],
        record {
          token_id = 1 ∷ [];
          revocation_time = 100;
          effective_time = 9000;
          reason = owner_request;
          urgency = planned;
          revoker_did = "did:key:o";
          parent_revocation_id = none;
          signature = [];
        },
      )
      ∷ [];
}

one_key : has_unique_keys later.entries ≡ true
unfolding has_unique_keys
one_key = refl

is_revoked-cleanup_expired_example :
    is_revoked (1 ∷ []) 9500 (cleanup_expired 5000 1000 later).0
    ≡ still_revoked 5000 1000 9500 (lookup (1 ∷ []) later.entries)
is_revoked-cleanup_expired_example =
    is_revoked-cleanup_expired 5000 1000 9500 (1 ∷ []) later one_key

forgotten : still_revoked 5000 1000 9500 (lookup (1 ∷ []) later.entries) ≡ false
unfolding lookup bytes_eq
forgotten = refl

-- A token that has its parent's identifier.
abbrev same_id : CapabilityToken
same_id = record root_token { parent_token_hash = some (7 ∷ []) }

abbrev with_parent : RevocationList
with_parent = record family { token_hash_to_id = (7 ∷ [], same_id.token_id) ∷ [] }

parent_known : lookup (7 ∷ []) with_parent.token_hash_to_id ≡ some same_id.token_id
unfolding lookup bytes_eq
parent_known = refl

get_descendants-register_token_example :
    get_descendants 50 same_id.token_id (register_token example_platform same_id with_parent) ≡ none
get_descendants-register_token_example =
    get_descendants-register_token example_platform same_id (7 ∷ []) with_parent refl parent_known
      50
