-- ===== src/Revocation/Reach.antt =====
-- What the cascade reaches.
use qasp.Prelude.{
  ℕ, zero, suc, Bytes, ◌+◌, ◌≤◌, ◌≡◌, refl, ◌∙◌, ap, ◌⊎◌, inl, inr, true, false, not, ◌&&◌,
  Bool-cases, some, List, [], ◌∷◌, length, bytes_eq, bytes_eq_iff, arith,
}
use qasp.Prelude.Dict.{Dict, bytes_Eq, has_key}
use qasp.Prelude.Result.{Result, ok}
use qasp.Platform.{Platform, IsKeyPair}
use qasp.Revocation.{
  RevocationEntry, RevocationList, children_of, is_member, Cascade, offer, cascade,
}
use qasp.Revocation.Counts.{unseen}
use qasp.Revocation.Offers.{is_member_first, is_member_later, ids_of, Offered, offer-Offered}

-- A token that is made from the given one over tokens that are not in the list yet.
pub data Reach (crl : RevocationList) (from : Bytes) : Bytes → Type 0 where
  here : Reach crl from from
  down :
      {parent child : Bytes}
      → Reach crl from parent
      → is_member child (children_of parent crl) ≡ true
      → has_key child crl.entries ≡ false
      → Reach crl from child

module _ (crl : RevocationList) (from : Bytes) where
  -- The cascade under way: what is in the list was there or is reached, and what is reached and in
  -- the list waits or has all its children there.
  pub record Spreads (c : Cascade) : Type 0 where
    pub begun : has_key from c.entries ≡ true
    pub old : (a : Bytes) → has_key a crl.entries ≡ true → has_key a c.entries ≡ true
    pub sound :
        (a : Bytes) → has_key a c.entries ≡ true → (has_key a crl.entries ≡ true) ⊎ Reach crl from a
    pub spread :
        (a : Bytes)
        → Reach crl from a
        → has_key a c.entries ≡ true
        → (is_member a c.queue ≡ true)
          ⊎ ((b : Bytes) → is_member b (children_of a crl) ≡ true → has_key b c.entries ≡ true)
    pub reached : (a : Bytes) → is_member a c.queue ≡ true → Reach crl from a
    pub told :
        (a : Bytes)
        → is_member a (ids_of c.all_entries) ≡ (not (has_key a crl.entries) && has_key a c.entries)

  fresh_then :
      (c : Cascade)
      → Spreads c
      → (a : Bytes) → has_key a c.entries ≡ false
      → has_key a crl.entries ≡ false
  fresh_then c s a f = elim (Bool-cases (has_key a crl.entries)) [
    | inl there ↦ cc (s.old a there, f)
    | inr fresh ↦ fresh
  ]

  pub member_cons :
      (a b : Bytes) (l : List Bytes) → is_member a (b ∷ l) ≡ true → (a ≡ b) ⊎ (is_member a l ≡ true)
  unfolding is_member
  member_cons a b l h = elim (Bool-cases (bytes_eq a b)) [
    | inl same ↦ inl ((bytes_eq_iff a b).0 same)
    | inr other ↦ inr (rw other at h)
  ]

  List-cases : (l : List Bytes) → (l ≡ []) ⊎ ((a : Bytes) × (rest : List Bytes) × (l ≡ a ∷ rest))
  List-cases [] = inl refl
  List-cases (a ∷ rest) = inr (a, rest, refl)

  not_waiting :
      (a b : Bytes)
      → is_member b [] ≡ true
      → (entries : Dict Bytes RevocationEntry) → has_key a entries ≡ true
  unfolding is_member
  not_waiting a b h entries = cc

  pub nothing_left : (a b : Bytes) → is_member a [] ≡ true → a ≡ b
  unfolding is_member
  nothing_left a b h = cc

  round-Spreads :
      (parent : Bytes) (queue : List Bytes) (c d : Cascade)
      → c.queue ≡ parent ∷ queue
      → Spreads c
      → Offered crl.children (children_of parent crl) (record c { queue = queue }) d
      → Spreads d
  round-Spreads parent queue c d shape s o =
      let reaches : Reach crl from parent =
        s.reached parent (rw shape (is_member_first parent queue)) in
      record {
        begun = o.kept from s.begun;
        old = λ a h. o.kept a (s.old a h);
        sound = λ a h. elim (o.new a h) [
          | inl before ↦ s.sound a before
          | inr (among, fresh, waits) ↦ inr (down reaches among (fresh_then c s a fresh))
        ];
        spread = λ a r h. elim (o.new a h) [
          | inl before ↦ elim (s.spread a r before) [
            | inl waits ↦ elim (member_cons a parent queue (rw shape at waits)) [
              | inl same ↦ inr (λ b m. o.entered b (rw same at m))
              | inr later ↦ inl (o.waits a later)
            ]
            | inr all ↦ inr (λ b m. o.kept b (all b m))
          ]
          | inr (among, fresh, waits) ↦ inl waits
        ];
        reached = λ a m. elim (o.queued a m) [
          | inl before ↦ s.reached a (rw shape (is_member_later a parent queue before))
          | inr (among, fresh) ↦ down reaches among (fresh_then c s a fresh)
        ];
        told = λ a. elim (Bool-cases (has_key a crl.entries)) [
          | inl there ↦
              let then = s.old a there in ground (arith, o.told a, s.told a, o.kept a then, then)
          | inr fresh ↦ elim (Bool-cases (has_key a c.entries)) [
            | inl there ↦ ground (arith, o.told a, s.told a, o.kept a there)
            | inr unmet ↦ ground (arith, o.told a, s.told a)
          ]
        ];
      }

  module _ (q : Platform) {secret_key public_key : Bytes} (k : IsKeyPair q secret_key public_key)
      (root : RevocationEntry) where
    cascade_done :
        (fuel : ℕ) (c : Cascade)
        → c.queue ≡ []
        → cascade q fuel secret_key root crl c ≡ some (c, ok tt)
    unfolding cascade
    cascade_done zero c empty = simp (empty, cascade)
    cascade_done (suc fuel) c empty = simp (empty, cascade)

    cascade_next :
        (fuel : ℕ) (parent : Bytes) (queue : List Bytes) (c d : Cascade)
        → c.queue ≡ parent ∷ queue
        → offer q secret_key root parent (children_of parent crl) (record c { queue = queue })
          ≡ (d, ok tt)
        → cascade q (suc fuel) secret_key root crl c ≡ cascade q fuel secret_key root crl d
    unfolding cascade
    cascade_next fuel parent queue c d shape e =
        rw (cascade, shape, e)
          (ap (λ (x : Cascade × Result (Unit {0})). cascade q fuel secret_key root crl x.0) e)

    one_round :
        (parent : Bytes) (c : Cascade)
        → (d : Cascade) × (offer q secret_key root parent (children_of parent crl) c ≡ (d, ok tt))
          × Offered crl.children (children_of parent crl) c d
    unfolding children_of
    one_round parent c =
        offer-Offered q k root parent parent crl.children (children_of parent crl) c (λ a m. m)

    pub cascade-Spreads :
        (fuel : ℕ) (c : Cascade)
        → unseen c.entries crl.children + length c.queue ≤ fuel
        → Spreads c
        → (d : Cascade) × (cascade q fuel secret_key root crl c ≡ some (d, ok tt))
          × Spreads d
          × (d.queue ≡ [])
    cascade-Spreads zero c enough s = elim (List-cases c.queue) [
      | inl empty ↦ (c, cascade_done zero c empty, s, empty)
      | inr (parent, queue, shape) ↦ absurd (omega (arith, ap length shape, enough))
    ]
    cascade-Spreads (suc fuel) c enough s = elim (List-cases c.queue) [
      | inl empty ↦ (c, cascade_done (suc fuel) c empty, s, empty)
      | inr (parent, queue, shape) ↦
          let (d, went, o) = one_round parent (record c { queue = queue }) in
          let (e, ends, t, empty) =
            cascade-Spreads fuel d (omega (arith, o.less, ap length shape, enough))
              (round-Spreads parent queue c d shape s o) in
          (e, cascade_next fuel parent queue c d shape went ∙ ends, t, empty)
    ]

  -- Once the queue is empty, all that is reached is in the list.
  pub complete :
      (c : Cascade)
      → Spreads c
      → c.queue ≡ []
      → (a : Bytes) → Reach crl from a
      → has_key a c.entries ≡ true
  complete c s empty a here = s.begun
  complete c s empty a (down r m fresh) = elim (s.spread _ r (complete c s empty _ r)) [
    | inl waits ↦ not_waiting a _ (rw empty at waits) _
    | inr all ↦ all a m
  ]
