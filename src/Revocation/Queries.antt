-- ===== src/Revocation/Queries.antt =====
-- What is asked of the list of revoked tokens, and its clean-up.
use qasp.Prelude.{
  ℕ, zero, suc, Bytes, ◌+◌, ◌-◌, ltb, leb, Bool, false, Option, none, some, List, [], ◌∷◌, ◌++◌,
  length, if◌then◌else◌,
}
use qasp.Prelude.Dict.{Dict, bytes_Eq, lookup}
use qasp.Revocation.{RevocationEntry, RevocationList, children_of}

unfoldable pub is_revoked : Bytes → ℕ → RevocationList → Bool
unfolding lookup
is_revoked token_id at_time crl = elim (lookup token_id crl.entries) [
  | none ↦ false
  | some e ↦ leb e.effective_time at_time
]

unfoldable pub get_entry : Bytes → RevocationList → Option RevocationEntry
unfolding lookup
get_entry token_id crl = lookup token_id crl.entries

-- The loop of `get_descendants`, which remembers no token that it has met.
unfoldable pub descend : ℕ → List Bytes → List Bytes → RevocationList → Option (List Bytes)
unfolding children_of
descend fuel descendants [] crl = some descendants
descend zero descendants (parent ∷ queue) crl = none
descend (suc fuel) descendants (parent ∷ queue) crl =
    descend fuel (descendants ++ children_of parent crl) (queue ++ children_of parent crl) crl

unfoldable pub get_descendants : ℕ → Bytes → RevocationList → Option (List Bytes)
unfolding descend
get_descendants fuel token_id crl = descend fuel [] (token_id ∷ []) crl

unfoldable pub get_pending : ℕ → RevocationList → List RevocationEntry
get_pending now crl = pending crl.entries
  where
    pending : Dict Bytes RevocationEntry → List RevocationEntry
    pending [] = []
    pending ((token_id, e) ∷ d) =
        let rest = pending d in if ltb now e.effective_time then e ∷ rest else rest

-- An entry is old when its time lies before `now - max_age_seconds`; that may be negative.
abbrev pub is_old : ℕ → ℕ → RevocationEntry → Bool
is_old now max_age_seconds e = ltb (e.revocation_time + max_age_seconds) now

unfoldable pub without_old : ℕ → ℕ → Dict Bytes RevocationEntry → Dict Bytes RevocationEntry
without_old now max_age_seconds [] = []
without_old now max_age_seconds ((token_id, e) ∷ d) =
    let rest = without_old now max_age_seconds d in
    if is_old now max_age_seconds e then rest else (token_id, e) ∷ rest

unfoldable pub cleanup_expired : ℕ → ℕ → RevocationList → RevocationList × ℕ
unfolding without_old
cleanup_expired now max_age_seconds crl =
    let kept = without_old now max_age_seconds crl.entries in
    (record crl { entries = kept }, length crl.entries - length kept)
