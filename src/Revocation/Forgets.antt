-- ===== src/Revocation/Forgets.antt =====
-- What clean-up forgets, and a search for descendants that does not end.
use qasp.Prelude.{
  ℕ, zero, suc, Bytes, ◌+◌, ◌≡◌, refl, sym, inl, inr, Bool, true, false, not, ◌&&◌, Bool-cases, leb,
  Option, none, some, List, [], ◌∷◌, ◌++◌, bytes_eq, bytes_eq_iff, arith, Option-cases,
  if◌then◌else◌,
}
use qasp.Prelude.Dict.{Dict, bytes_Eq, lookup, insert, has_key, lookup-insert, lookup-insert_self}
use qasp.Platform.{Platform}
use qasp.Capability.Token.{CapabilityToken, compute_hash}
use qasp.Revocation.{
  RevocationEntry, RevocationList, children_of, is_member, add_member, ensure, link, register_token,
}
use qasp.Revocation.Queries.{
  is_revoked, is_old, without_old, cleanup_expired, descend, get_descendants,
}
use qasp.Revocation.Counts.{is_member-append}
use qasp.Revocation.Offers.{is_member_first}

-- No key stands twice, as in a dict.
unfoldable pub has_unique_keys : Dict Bytes RevocationEntry → Bool
unfolding has_key
has_unique_keys [] = true
has_unique_keys ((token_id, e) ∷ d) = not (has_key token_id d) && has_unique_keys d

abbrev pub unless_old : ℕ → ℕ → Option RevocationEntry → Option RevocationEntry
unless_old now age none = none
unless_old now age (some e) = if is_old now age e then none else some e

lookup-without_old :
    (now age : ℕ) (a : Bytes) (d : Dict Bytes RevocationEntry)
    → has_unique_keys d ≡ true
    → lookup a (without_old now age d) ≡ unless_old now age (lookup a d)
unfolding lookup without_old has_unique_keys has_key
lookup-without_old now age a [] u = refl
lookup-without_old now age a ((k, e) ∷ d) u =
    ground (arith, lookup-without_old now age a d, bytes_eq_iff k a)

-- Whether the entry is there, was made at most `age` before and is in effect.
abbrev pub still_revoked : ℕ → ℕ → ℕ → Option RevocationEntry → Bool
still_revoked now age at none = false
still_revoked now age at (some e) = leb now (e.revocation_time + age) && leb e.effective_time at

-- After a clean-up a token counts as revoked, at any time, exactly when it has an entry that is in
-- effect then and was made at most `max_age_seconds` before the clean-up. An older entry is forgotten
-- whether or not it has taken effect.
pub is_revoked-cleanup_expired :
    (now max_age_seconds at : ℕ) (token_id : Bytes) (crl : RevocationList)
    → has_unique_keys crl.entries ≡ true
    → is_revoked token_id at (cleanup_expired now max_age_seconds crl).0
      ≡ still_revoked now max_age_seconds at (lookup token_id crl.entries)
unfolding is_revoked cleanup_expired
is_revoked-cleanup_expired now age at token_id crl u =
    rw (is_revoked, lookup-without_old now age token_id crl.entries u)
      (elim (Option-cases (lookup token_id crl.entries)) [
        | inl nothing ↦ rw nothing refl
        | inr (e, found) ↦ ground (arith, found)
      ])

absurd_member : {A : Type 0} (a : Bytes) {x y : A} → is_member a [] ≡ true → x ≡ y
unfolding is_member
absurd_member a h = cc

still :
    (a p : Bytes) (queue : List Bytes) (crl : RevocationList)
    → is_member a (children_of a crl) ≡ true
    → is_member a (p ∷ queue) ≡ true
    → is_member a (queue ++ children_of p crl) ≡ true
unfolding is_member
still a p queue crl own m = elim (Bool-cases (bytes_eq a p)) [
  | inl same ↦
      let at_p : is_member a (children_of p crl) ≡ true =
        rw (sym ((bytes_eq_iff a p).0 same)) own in
      ground (arith, is_member-append a queue (children_of p crl))
  | inr other ↦ ground (arith, is_member-append a queue (children_of p crl))
]

is_member-add_member : (a : Bytes) (ids : List Bytes) → is_member a (add_member a ids) ≡ true
unfolding add_member
is_member-add_member a ids = ground (arith, is_member-append a ids (a ∷ []), is_member_first a [])

children_of-insert :
    (a : Bytes) (ids : List Bytes) (children : Dict Bytes (List Bytes)) (crl : RevocationList)
    → children_of a (record crl { children = insert a ids children }) ≡ ids
unfolding children_of
children_of-insert a ids children crl = rw (children_of, lookup-insert_self a ids children) refl

linked :
    (hash token_id : Bytes) (crl : RevocationList)
    → lookup hash crl.token_hash_to_id ≡ some token_id
    → link (some hash) token_id crl ≡ record crl {
      children =
          insert token_id
            (add_member token_id (children_of token_id crl))
            (ensure token_id crl.children);
    }
unfolding link
linked hash token_id crl known = rw (link, known) refl

own_child :
    (parent : Option Bytes) (hash token_id : Bytes) (crl : RevocationList)
    → parent ≡ some hash
    → lookup hash crl.token_hash_to_id ≡ some token_id
    → is_member token_id (children_of token_id (link parent token_id crl)) ≡ true
own_child parent hash token_id crl made known =
    let added = add_member token_id (children_of token_id crl) in
    rw
      (
        made,
        linked hash token_id crl known,
        children_of-insert token_id added (ensure token_id crl.children) crl,
      )
      (is_member-add_member token_id (children_of token_id crl))

-- A token among its own children keeps the queue filled.
descend_loops :
    (fuel : ℕ) (a : Bytes) (met queue : List Bytes) (crl : RevocationList)
    → is_member a (children_of a crl) ≡ true
    → is_member a queue ≡ true
    → descend fuel met queue crl ≡ none
unfolding descend
descend_loops fuel a met [] crl own m = absurd_member a m
descend_loops zero a met (p ∷ queue) crl own m = refl
descend_loops (suc fuel) a met (p ∷ queue) crl own m =
    descend_loops fuel a (met ++ children_of p crl) (queue ++ children_of p crl) crl own
      (still a p queue crl own m)

-- Registering a token that has the identifier of the registered token from which it was made makes
-- `get_descendants` of that identifier run for ever: no fuel suffices.
pub get_descendants-register_token :
    (q : Platform) (token : CapabilityToken) (hash : Bytes) (crl : RevocationList)
    → token.parent_token_hash ≡ some hash
    → lookup hash crl.token_hash_to_id ≡ some token.token_id
    → (fuel : ℕ) → get_descendants fuel token.token_id (register_token q token crl) ≡ none
unfolding get_descendants register_token
get_descendants-register_token q token hash crl made known fuel =
    let crl' = record crl {
      token_hash_to_id = insert (compute_hash q token) token.token_id crl.token_hash_to_id;
      children = ensure token.token_id crl.children;
    } in
    let found : lookup hash crl'.token_hash_to_id ≡ some token.token_id =
      ground
        (arith, lookup-insert (compute_hash q token) hash token.token_id crl.token_hash_to_id) in
    descend_loops fuel token.token_id [] (token.token_id ∷ []) (register_token q token crl)
      (own_child token.parent_token_hash hash token.token_id crl' made found)
      (is_member_first token.token_id [])
