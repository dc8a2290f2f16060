-- ===== src/Revocation/Offers.antt =====
-- The inner loop of the cascade: what one token's children bring to the queue and the list.
use qasp.Prelude.{
  Bytes, ◌+◌, ◌≤◌, ◌≡◌, refl, sym, ◌∙◌, ap, ◌⊎◌, inl, inr, true, false, not, ◌&&◌, ◌||◌, Bool-cases,
  List, [], ◌∷◌, ◌++◌, length, length-append, bytes_eq, bytes_eq_iff, arith,
}
use qasp.Prelude.Dict.{Dict, bytes_Eq, has_key}
use qasp.Prelude.Result.{ok}
use qasp.Platform.{Platform, IsKeyPair}
use qasp.Revocation.{
  RevocationEntry, is_member, sign_revocation, encode_revocation_data, Cascade, child_entry, enter,
  offer,
}
use qasp.Revocation.Counts.{
  is_member-append, has_key-insert, bytes_eq_refl, unseen, ids_at, unseen-insert,
}

-- The identifiers of the entries that were made.
unfoldable pub ids_of : List RevocationEntry → List Bytes
ids_of [] = []
ids_of (e ∷ es) = e.token_id ∷ ids_of es

ids_of-append :
    (a : Bytes) (es : List RevocationEntry) (e : RevocationEntry)
    → is_member a (ids_of (es ++ e ∷ [])) ≡ (is_member a (ids_of es) || bytes_eq a e.token_id)
unfolding ids_of is_member
ids_of-append a [] e = ground arith
ids_of-append a (x ∷ es) e = ground (arith, ids_of-append a es e)

-- What the children of one token bring.
pub record Offered (children : Dict Bytes (List Bytes)) (ids : List Bytes) (c d : Cascade)
    : Type 0 where
  pub kept : (a : Bytes) → has_key a c.entries ≡ true → has_key a d.entries ≡ true
  pub entered : (a : Bytes) → is_member a ids ≡ true → has_key a d.entries ≡ true
  pub new :
      (a : Bytes)
      → has_key a d.entries ≡ true
      → (has_key a c.entries ≡ true)
        ⊎ ((is_member a ids ≡ true) × (has_key a c.entries ≡ false) × (is_member a d.queue ≡ true))
  pub waits : (a : Bytes) → is_member a c.queue ≡ true → is_member a d.queue ≡ true
  pub queued :
      (a : Bytes)
      → is_member a d.queue ≡ true
      → (is_member a c.queue ≡ true) ⊎ ((is_member a ids ≡ true) × (has_key a c.entries ≡ false))
  pub told :
      (a : Bytes)
      → is_member a (ids_of d.all_entries)
        ≡ (is_member a (ids_of c.all_entries) || (not (has_key a c.entries) && has_key a d.entries))
  pub less : unseen d.entries children + length d.queue ≤ unseen c.entries children + length c.queue

module _ (q : Platform) where
  pub sign_revocation_eq :
      {secret_key public_key : Bytes} (k : IsKeyPair q secret_key public_key) (e : RevocationEntry)
      → sign_revocation q secret_key e
        ≡ ok (record e { signature = k.signature (encode_revocation_data q e) })
  unfolding sign_revocation
  sign_revocation_eq k e = rw (sign_revocation, k.signs (encode_revocation_data q e)) refl

  offer_entry :
      (secret_key : Bytes) (root : RevocationEntry) (parent child : Bytes) (ids : List Bytes)
      (c : Cascade) (e : RevocationEntry)
      → has_key child c.entries ≡ false
      → sign_revocation q secret_key (child_entry root parent child) ≡ ok e
      → offer q secret_key root parent (child ∷ ids) c
        ≡ offer q secret_key root parent ids (enter e c)
  unfolding offer
  offer_entry secret_key root parent child ids c e new s = rw (offer, new, s) refl

  offer_known :
      (secret_key : Bytes) (root : RevocationEntry) (parent child : Bytes) (ids : List Bytes)
      (c : Cascade)
      → has_key child c.entries ≡ true
      → offer q secret_key root parent (child ∷ ids) c ≡ offer q secret_key root parent ids c
  unfolding offer
  offer_known secret_key root parent child ids c old = rw (offer, old) refl

pub bytes_eq_sym : (a b : Bytes) → bytes_eq b a ≡ false → bytes_eq a b ≡ false
bytes_eq_sym a b h = elim (Bool-cases (bytes_eq a b)) [
  | inl same ↦ cc ((bytes_eq_iff b a).1 (sym ((bytes_eq_iff a b).0 same)), h)
  | inr other ↦ other
]

last_member : (a b : Bytes) → is_member a (b ∷ []) ≡ bytes_eq a b
unfolding is_member
last_member a b = ground arith

pub is_member_later :
    (a b : Bytes) (ids : List Bytes) → is_member a ids ≡ true → is_member a (b ∷ ids) ≡ true
unfolding is_member
is_member_later a b ids h = ground arith

pub is_member_first : (a : Bytes) (ids : List Bytes) → is_member a (a ∷ ids) ≡ true
unfolding is_member
is_member_first a ids = rw (bytes_eq_refl a) refl

-- One child, and those after it.
module _ (children : Dict Bytes (List Bytes)) (child : Bytes) (ids : List Bytes)
    (c d : Cascade) where
  Offered-known :
      has_key child c.entries ≡ true → Offered children ids c d → Offered children (child ∷ ids) c d
  unfolding is_member
  Offered-known old o = record {
    kept = o.kept;
    entered = λ a m. elim (Bool-cases (bytes_eq a child)) [
      | inl same ↦ rw ((bytes_eq_iff a child).0 same) (o.kept child old)
      | inr other ↦ o.entered a (rw other at m)
    ];
    new = λ a m. elim (o.new a m) [
      | inl before ↦ inl before
      | inr (among, fresh, waits) ↦ inr (ground (arith, among), fresh, waits)
    ];
    waits = o.waits;
    queued = λ a m. elim (o.queued a m) [
      | inl before ↦ inl before
      | inr (among, fresh) ↦ inr (ground (arith, among), fresh)
    ];
    told = o.told;
    less = o.less;
  }

module _ (children : Dict Bytes (List Bytes)) (ids : List Bytes) (c d : Cascade) where
  Offered-entered :
      (p : Bytes) (e : RevocationEntry)
      → has_key e.token_id c.entries ≡ false
      → is_member e.token_id (ids_at p children) ≡ true
      → Offered children ids (enter e c) d
      → Offered children (e.token_id ∷ ids) c d
  unfolding is_member
  Offered-entered p e fresh m o =
      let has : (a : Bytes)
          → has_key a (enter e c).entries ≡ (bytes_eq e.token_id a || has_key a c.entries) =
        λ a. has_key-insert e.token_id a e c.entries in
      let waiting : (a : Bytes)
          → is_member a (enter e c).queue ≡ (is_member a c.queue || bytes_eq a e.token_id) =
        λ a.
          (is_member-append a c.queue (e.token_id ∷ [])
            ∙ ap (λ x. is_member a c.queue || x) (last_member a e.token_id)) in
      record {
        kept = λ a h. o.kept a (ground (arith, has a));
        entered = λ a h. elim (Bool-cases (bytes_eq a e.token_id)) [
          | inl same ↦
              rw ((bytes_eq_iff a e.token_id).0 same)
                (o.kept e.token_id (ground (arith, has e.token_id, bytes_eq_refl e.token_id)))
          | inr other ↦ o.entered a (rw other at h)
        ];
        new = λ a h. elim (o.new a h) [
          | inl before ↦ elim (Bool-cases (bytes_eq e.token_id a)) [
            | inl same ↦
                let is : e.token_id ≡ a = (bytes_eq_iff e.token_id a).0 same in
                rw (sym is) (
                  inr (
                    ground (arith, bytes_eq_refl e.token_id),
                    fresh,
                    o.waits e.token_id
                        (ground (arith, waiting e.token_id, bytes_eq_refl e.token_id)),
                  ))
            | inr other ↦ inl (ground (arith, has a))
          ]
          | inr (among, unmet, waits) ↦ inr (ground (arith, among), ground (arith, has a), waits)
        ];
        waits = λ a h. o.waits a (ground (arith, waiting a));
        queued = λ a h. elim (o.queued a h) [
          | inl before ↦ elim (Bool-cases (bytes_eq a e.token_id)) [
            | inl same ↦
                rw ((bytes_eq_iff a e.token_id).0 same)
                  (inr (ground (arith, bytes_eq_refl e.token_id), fresh))
            | inr other ↦ inl (ground (arith, waiting a))
          ]
          | inr (among, unmet) ↦ inr (ground (arith, among), ground (arith, has a))
        ];
        told = λ a. elim (Bool-cases (bytes_eq a e.token_id)) [
          | inl same ↦
              let is : a ≡ e.token_id = (bytes_eq_iff a e.token_id).0 same in
              let there : has_key a d.entries ≡ true =
                rw is
                  (o.kept e.token_id (ground (arith, has e.token_id, bytes_eq_refl e.token_id))) in
              let unmet : has_key a c.entries ≡ false = rw is fresh in
              ground (arith, o.told a, ids_of-append a c.all_entries e, there, unmet, same)
          | inr other ↦
              let apart : bytes_eq e.token_id a ≡ false = bytes_eq_sym e.token_id a other in
              ground (arith, o.told a, ids_of-append a c.all_entries e, has a, apart, other)
        ];
        less = omega (
          arith,
          o.less,
          length-append c.queue (e.token_id ∷ []),
          unseen-insert p e.token_id e c.entries children fresh m,
        );
      }

Offered-none : (children : Dict Bytes (List Bytes)) (c : Cascade) → Offered children [] c c
unfolding is_member
Offered-none children c = record {
  kept = λ a h. h;
  entered = λ a m. cc;
  new = λ a h. inl h;
  waits = λ a h. h;
  queued = λ a h. inl h;
  told = λ a. ground arith;
  less = omega arith;
}

-- The inner loop returns when the key signs, and brings what it should.
pub offer-Offered :
    (q : Platform) {secret_key public_key : Bytes} (k : IsKeyPair q secret_key public_key)
    (root : RevocationEntry) (parent p : Bytes) (children : Dict Bytes (List Bytes))
    (ids : List Bytes) (c : Cascade)
    → ((a : Bytes) → is_member a ids ≡ true → is_member a (ids_at p children) ≡ true)
    → (d : Cascade) × (offer q secret_key root parent ids c ≡ (d, ok tt)) × Offered children ids c d
unfolding offer
offer-Offered q k root parent p children [] c sub = (c, refl, Offered-none children c)
offer-Offered q {secret_key} k root parent p children (child ∷ ids) c sub =
    let rest : (a : Bytes) → is_member a ids ≡ true → is_member a (ids_at p children) ≡ true =
      λ a m. sub a (is_member_later a child ids m) in
    elim (Bool-cases (has_key child c.entries)) [
      | inl old ↦
          let (d, ends, o) = offer-Offered q k root parent p children ids c rest in
          (
            d,
            offer_known q secret_key root parent child ids c old ∙ ends,
            Offered-known children child ids c d old o,
          )
      | inr new ↦
          let e = record (child_entry root parent child) {
            signature = k.signature (encode_revocation_data q (child_entry root parent child));
          } in
          let (d, ends, o) = offer-Offered q k root parent p children ids (enter e c) rest in
          (
            d,
            offer_entry q secret_key root parent child ids c e new
                  (sign_revocation_eq q k (child_entry root parent child))
                ∙ ends,
            Offered-entered children ids c d p e new (sub child (is_member_first child ids)) o,
          )
    ]
