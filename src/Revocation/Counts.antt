-- ===== src/Revocation/Counts.antt =====
-- Members, keys, and the children that are in no entry yet.
use qasp.Prelude.{
  ℕ, Bytes, ◌+◌, ◌≤◌, ◌≡◌, refl, inl, inr, true, false, ◌||◌, Bool-cases, none, some, List, [], ◌∷◌,
  ◌++◌, length, bytes_eq, bytes_eq_iff, if◌then◌else◌, arith,
}
use qasp.Prelude.Dict.{Dict, bytes_Eq, lookup, insert, has_key, lookup-insert}
use qasp.Revocation.{RevocationEntry, is_member, count_children}

pub is_member-append :
    (a : Bytes) (xs ys : List Bytes) → is_member a (xs ++ ys) ≡ (is_member a xs || is_member a ys)
unfolding is_member
is_member-append a [] ys = refl
is_member-append a (x ∷ xs) ys = ground (arith, is_member-append a xs ys)

pub has_key-insert :
    (k d : Bytes) (e : RevocationEntry) (entries : Dict Bytes RevocationEntry)
    → has_key d (insert k e entries) ≡ (bytes_eq k d || has_key d entries)
unfolding has_key
has_key-insert k d e entries = ground (arith, lookup-insert k d e entries)

pub bytes_eq_refl : (a : Bytes) → bytes_eq a a ≡ true
bytes_eq_refl a = (bytes_eq_iff a a).1 refl

-- How many children are in no entry.
unfoldable pub missing : Dict Bytes RevocationEntry → List Bytes → ℕ
missing entries [] = 0
missing entries (a ∷ ids) = (if has_key a entries then 0 else 1) + missing entries ids

unfoldable pub unseen : Dict Bytes RevocationEntry → Dict Bytes (List Bytes) → ℕ
unfolding missing
unseen entries [] = 0
unseen entries ((token_id, ids) ∷ children) = missing entries ids + unseen entries children

missing-insert :
    (k : Bytes) (e : RevocationEntry) (entries : Dict Bytes RevocationEntry) (ids : List Bytes)
    → has_key k entries ≡ false
    → missing (insert k e entries) ids + (if is_member k ids then 1 else 0) ≤ missing entries ids
unfolding missing is_member
missing-insert k e entries [] new = omega arith
missing-insert k e entries (a ∷ ids) new =
    ground
      (arith, has_key-insert k a e entries, missing-insert k e entries ids new, bytes_eq_iff k a)

unseen-insert_le :
    (k : Bytes) (e : RevocationEntry) (entries : Dict Bytes RevocationEntry)
    (children : Dict Bytes (List Bytes))
    → has_key k entries ≡ false
    → unseen (insert k e entries) children ≤ unseen entries children
unfolding unseen
unseen-insert_le k e entries [] new = omega arith
unseen-insert_le k e entries ((p, ids) ∷ children) new =
    let here = missing-insert k e entries ids new in
    let there = unseen-insert_le k e entries children new in omega (arith, here, there)

abbrev pub ids_at : Bytes → Dict Bytes (List Bytes) → List Bytes
ids_at p children = elim (lookup p children) [ none ↦ [] | some ids ↦ ids ]

no_member : (k : Bytes) (n m : ℕ) → is_member k [] ≡ true → n ≤ m
unfolding is_member
no_member k n m h = ground arith

-- A child that gets an entry is one child less without.
pub unseen-insert :
    (p k : Bytes) (e : RevocationEntry) (entries : Dict Bytes RevocationEntry)
    (children : Dict Bytes (List Bytes))
    → has_key k entries ≡ false
    → is_member k (ids_at p children) ≡ true
    → unseen (insert k e entries) children + 1 ≤ unseen entries children
unfolding unseen lookup
unseen-insert p k e entries [] new m = no_member k _ _ m
unseen-insert p k e entries ((j, ids) ∷ children) new m = elim (Bool-cases (bytes_eq j p)) [
  | inl same ↦
      let here = missing-insert k e entries ids new in
      let rest = unseen-insert_le k e entries children new in
      let at_p : ids_at p ((j, ids) ∷ children) ≡ ids = rw (ids_at, lookup, same) refl in
      let member : is_member k ids ≡ true = rw at_p at m in omega (arith, rest, rw member at here)
  | inr other ↦
      let here = missing-insert k e entries ids new in
      let at_p : ids_at p ((j, ids) ∷ children) ≡ ids_at p children =
        rw (ids_at, lookup, other) refl in
      let rest = unseen-insert p k e entries children new (rw at_p at m) in
      omega (arith, here, rest)
]

missing_le :
    (entries : Dict Bytes RevocationEntry) (ids : List Bytes) → missing entries ids ≤ length ids
unfolding missing
missing_le entries [] = omega arith
missing_le entries (a ∷ ids) = ground (arith, missing_le entries ids)

pub unseen_le :
    (entries : Dict Bytes RevocationEntry) (children : Dict Bytes (List Bytes))
    → unseen entries children ≤ count_children children
unfolding unseen count_children missing
unseen_le entries [] = omega arith
unseen_le entries ((p, ids) ∷ children) =
    omega (arith, unseen_le entries children, missing_le entries ids)
