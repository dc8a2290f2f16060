-- ===== src/Revocation/Revokes.antt =====
-- What a revocation does to the list.
use qasp.Prelude.{
  ℕ, suc, String, Bytes, ◌+◌, ◌≤◌, ◌≡◌, refl, sym, ◌∙◌, ap, ◌⊎◌, inl, inr, ◌↔◌, true, false, ◌||◌,
  Bool-cases, Option, none, some, List, [], ◌∷◌, length, bytes_eq, bytes_eq_iff, arith,
}
use qasp.Prelude.Dict.{bytes_Eq, insert, has_key}
use qasp.Prelude.Result.{ok}
use qasp.Platform.{Platform, IsKeyPair}
use qasp.Revocation.{
  RevocationEntry, RevocationReason, RevocationUrgency, RevocationList, is_member,
  encode_revocation_data, effective_from, Cascade, cascade, count_children, leave, revoke,
}
use qasp.Revocation.Counts.{unseen, unseen_le, bytes_eq_refl, has_key-insert}
use qasp.Revocation.Offers.{sign_revocation_eq, ids_of, bytes_eq_sym}
use qasp.Revocation.Reach.{
  Reach, here, down, Spreads, member_cons, nothing_left, cascade-Spreads, complete,
}

-- The cascade's first state.
abbrev started : RevocationList → RevocationEntry → Cascade
started crl e = record {
  entries = insert e.token_id e crl.entries;
  all_entries = e ∷ [];
  queue = e.token_id ∷ [];
}

Reach-fresh :
    (crl : RevocationList) (from a : Bytes)
    → Reach crl from a
    → (from ≡ a) ⊎ (has_key a crl.entries ≡ false)
Reach-fresh crl from a here = inl refl
Reach-fresh crl from a (down r m fresh) = inr fresh

is_member_single : (a b : Bytes) → is_member a (b ∷ []) ≡ bytes_eq a b
unfolding is_member
is_member_single a b = ground arith

started-Spreads :
    (crl : RevocationList) (e : RevocationEntry)
    → has_key e.token_id crl.entries ≡ false
    → Spreads crl e.token_id (started crl e)
unfolding ids_of
started-Spreads crl e fresh =
    let has : (a : Bytes)
        → has_key a (started crl e).entries ≡ (bytes_eq e.token_id a || has_key a crl.entries) =
      λ a. has_key-insert e.token_id a e crl.entries in
    record {
      begun = ground (arith, has e.token_id, bytes_eq_refl e.token_id);
      old = λ a h. ground (arith, has a);
      sound = λ a h. elim (Bool-cases (bytes_eq e.token_id a)) [
        | inl same ↦ inr (rw (sym ((bytes_eq_iff e.token_id a).0 same)) here)
        | inr other ↦ inl (ground (arith, has a))
      ];
      spread = λ a r h. elim (Reach-fresh crl e.token_id a r) [
        | inl same ↦ inl (is_member_single a e.token_id ∙ (bytes_eq_iff a e.token_id).1 (sym same))
        | inr unmet ↦ inl (
            is_member_single a e.token_id
            ∙ (bytes_eq_iff a e.token_id).1
                (sym ((bytes_eq_iff e.token_id a).0 (ground (arith, has a)))))
      ];
      reached = λ a m. elim (member_cons crl e.token_id a e.token_id [] m) [
        | inl same ↦ rw same here
        | inr none_left ↦ rw (nothing_left crl e.token_id a e.token_id none_left) here
      ];
      told = λ a. elim (Bool-cases (bytes_eq e.token_id a)) [
        | inl same ↦
            let is : e.token_id ≡ a = (bytes_eq_iff e.token_id a).0 same in
            let new : has_key a crl.entries ≡ false = rw (sym is) fresh in
            ground (
              arith,
              has a,
              new,
              is_member_single a e.token_id,
              (bytes_eq_iff a e.token_id).1 (sym is),
            )
        | inr other ↦
            ground (arith, has a, is_member_single a e.token_id, bytes_eq_sym a e.token_id other)
      ];
    }

enough :
    (crl : RevocationList) (e : RevocationEntry)
    → has_key e.token_id crl.entries ≡ false
    → unseen (started crl e).entries crl.children + length (started crl e).queue
      ≤ suc (count_children crl.children)
enough crl e fresh = omega (arith, unseen_le (insert e.token_id e crl.entries) crl.children)

module _ (q : Platform) {secret_key public_key : Bytes} (k : IsKeyPair q secret_key public_key)
    (token_id : Bytes) (reason : RevocationReason) (urgency : RevocationUrgency)
    (revoker_did : String) (scheduled_time : Option ℕ) (now : ℕ) where
  abbrev unsigned : RevocationEntry
  unsigned = record {
    token_id = token_id;
    revocation_time = now;
    effective_time = effective_from urgency scheduled_time now;
    reason = reason;
    urgency = urgency;
    revoker_did = revoker_did;
    parent_revocation_id = none;
    signature = [];
  }

  abbrev root_entry : RevocationEntry
  root_entry = record unsigned { signature = k.signature (encode_revocation_data q unsigned) }

  revoke_starts :
      (crl : RevocationList)
      → has_key token_id crl.entries ≡ false
      → revoke q token_id reason urgency revoker_did secret_key scheduled_time now crl
        ≡ leave q crl (
            cascade q
              (suc (count_children crl.children))
              secret_key
              root_entry
              crl
              (started crl root_entry))
  unfolding revoke
  revoke_starts crl fresh = rw (revoke, fresh, sign_revocation_eq q k unsigned) refl

-- Revoking a token that is not in the list, with a key that signs, returns, and puts in the list
-- exactly the token and what the cascade reaches: the tokens made from it over tokens that were not
-- in the list before, each step to a child. It returns the entries of these tokens and of no other.
-- A token to which every way passes one that was in the list before is not reached.
pub revoke_iff :
    (q : Platform) {secret_key public_key : Bytes} (k : IsKeyPair q secret_key public_key)
    (token_id : Bytes) (reason : RevocationReason) (urgency : RevocationUrgency)
    (revoker_did : String) (scheduled_time : Option ℕ) (now : ℕ) (crl : RevocationList)
    → has_key token_id crl.entries ≡ false
    → (after : RevocationList) × (made : List RevocationEntry) × (revoke q token_id reason urgency
          revoker_did secret_key scheduled_time now crl
        ≡ some (after, ok made))
      × ((a : Bytes)
          → (has_key a after.entries ≡ true)
            ↔ ((has_key a crl.entries ≡ true) ⊎ Reach crl token_id a))
      × ((a : Bytes) → (is_member a (ids_of made) ≡ true) ↔ Reach crl token_id a)
revoke_iff q {secret_key} k token_id reason urgency revoker_did scheduled_time now crl fresh =
    let e = root_entry q k token_id reason urgency revoker_did scheduled_time now in
    let (d, ends, t, empty) =
      cascade-Spreads crl token_id q k e (suc (count_children crl.children)) (started crl e)
        (enough crl e fresh) (started-Spreads crl e fresh) in
    (
      record crl { entries = d.entries },
      d.all_entries,
      revoke_starts q k token_id reason urgency revoker_did scheduled_time now crl fresh
          ∙ ap (leave q crl) ends,
      λ a. (
        t.sound a,
        λ h. elim h [ inl before ↦ t.old a before | inr r ↦ complete crl token_id d t empty a r ],
      ),
      λ a. (
        λ m. elim (t.sound a (ground (arith, t.told a))) [
          | inl before ↦ absurd (ground (arith, t.told a))
          | inr r ↦ r
        ],
        λ r.
            let unmet : has_key a crl.entries ≡ false = elim (Reach-fresh crl token_id a r) [
              | inl same ↦ rw (sym same) fresh
              | inr other ↦ other
            ] in
            ground (arith, t.told a, complete crl token_id d t empty a r),
      ),
    )
