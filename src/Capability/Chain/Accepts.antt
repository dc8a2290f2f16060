-- ===== src/Capability/Chain/Accepts.antt =====
-- A chain that was made by attenuation is accepted, link by link.
use qasp.Prelude.{
  ℕ, String, Bytes, Option, none, some, ◌≡◌, ◌↔◌, ◌≤◌, ◌<◌, ◌++◌, ◌∙◌, ap, Option-cases, refl, inl,
  inr, Bool, true, false, arith, issubset, bytes_eq_iff,
}
use qasp.Prelude.Int.{ℤ, pos, ◌+ℤ◌, ◌-ℤ◌, eq_ℤ_iff}
use qasp.Prelude.Result.{ok, Result-cases}
use qasp.Platform.{Platform, IsKeyPair}
use qasp.Capability.Constraints.{VerbSet, Constraints}
use qasp.Capability.Constraints.Tighter.{IsTighter, is_tighter_than_iff}
use qasp.Capability.Temporal.{TemporalSchedule, verify_temporal_monotonicity}
use qasp.Capability.Token.{
  CapabilityToken, compute_hash, token_to_cbor, is_expired, is_not_yet_valid,
}
use qasp.Capability.Token.Dids.{Did, did_eq_iff}
use qasp.Capability.Attenuate.{or_inherit, or_default, child_draft, attenuate_token}
use qasp.Capability.Attenuate.Narrows.{Made, attenuate-Narrows, attenuate-Made}
use qasp.Capability.Usage.{verify_claims}
use qasp.Capability.Usage.Allowed.{signature_verified}
use qasp.Capability.Chain.{Resolver, hash_differs, check_signature, check_link}

-- The time is not before the token's start, and before its end.
pub record Timely (now : ℕ) (token : CapabilityToken) : Type 0 where
  pub started : (t : ℕ) → token.constraints.not_before ≡ some t → t ≤ now
  pub not_ended : (t : ℕ) → token.constraints.not_after ≡ some t → now < t

pub Timely-checked :
    (now : ℕ) (token : CapabilityToken)
    → is_not_yet_valid token now ≡ false
    → is_expired token now ≡ false
    → Timely now token
unfolding is_not_yet_valid is_expired
Timely-checked now token valid live = record {
  started = λ t e. ground (arith, e);
  not_ended = λ t e. ground (arith, e);
}

checked-Timely :
    (now : ℕ) (token : CapabilityToken)
    → Timely now token
    → (is_not_yet_valid token now ≡ false) × (is_expired token now ≡ false)
unfolding is_not_yet_valid is_expired
checked-Timely now token t = (
  elim (Option-cases token.constraints.not_before) [
    | inl none_set ↦ rw none_set refl
    | inr (s, e) ↦ rw e (ground (arith, t.started s e))
  ],
  elim (Option-cases token.constraints.not_after) [
    | inl none_set ↦ rw none_set refl
    | inr (s, e) ↦ rw e (ground (arith, t.not_ended s e))
  ],
)

-- What one round of the loop has checked.
pub record Link (p : Platform) (now : ℕ) (resolver : Option Resolver) (check_expiry : Bool)
    (prev token : CapabilityToken) : Type 0 where
  pub hash : token.parent_token_hash ≡ some (p.sha384 (token_to_cbor p prev ++ prev.signature))
  pub chain : token.delegation_chain_length ≡ prev.delegation_chain_length +ℤ pos 1
  pub depth : token.max_delegation_depth ≡ prev.max_delegation_depth -ℤ pos 1
  pub verbs : issubset token.verbs.verbs prev.verbs.verbs ≡ true
  pub constraints : IsTighter token.constraints prev.constraints
  pub temporal :
      verify_temporal_monotonicity prev.constraints prev.temporal_attenuation token.constraints
        token.temporal_attenuation
      ≡ ok tt
  pub issuer : token.issuer_did ≡ prev.subject_did
  pub times : check_expiry ≡ true → Timely now token
  pub signature :
      (resolve : Resolver)
      → resolver ≡ some resolve
      → (key : Bytes) × (resolve token.issuer_did ≡ ok key)
        × (p.verify key (token_to_cbor p token) token.signature ≡ ok tt)

pub compute_hash_eq :
    (p : Platform) (t : CapabilityToken)
    → p.sha384 (token_to_cbor p t ++ t.signature) ≡ compute_hash p t
unfolding compute_hash
compute_hash_eq p t = refl

module _ (p : Platform) (now : ℕ) (resolver : Option Resolver) (check_expiry : Bool)
    (prev token : CapabilityToken) where
  hash_differs_iff : (h : Option Bytes) (e : Bytes) → hash_differs h e ≡ false → h ≡ some e
  hash_differs_iff none e d = cc
  hash_differs_iff (some h) e d = ground (arith, bytes_eq_iff h e)

  temporal_of :
      check_link p now resolver check_expiry prev token ≡ ok tt
      → verify_temporal_monotonicity prev.constraints prev.temporal_attenuation token.constraints
          token.temporal_attenuation
        ≡ ok tt
  unfolding check_link
  temporal_of h =
      elim (Result-cases (
        verify_temporal_monotonicity prev.constraints prev.temporal_attenuation token.constraints
          token.temporal_attenuation)) [ inl (x, e) ↦ e | inr (x, e) ↦ absurd (ground arith) ]

  signature_of :
      check_link p now resolver check_expiry prev token ≡ ok tt
      → check_signature p now resolver check_expiry token ≡ ok tt
  unfolding check_link
  signature_of h = elim (Result-cases (check_signature p now resolver check_expiry token)) [
    | inl (x, e) ↦ e
    | inr (x, e) ↦ absurd (ground arith)
  ]

  pub resolved :
      (resolve : Resolver)
      → resolver ≡ some resolve
      → check_signature p now resolver check_expiry token ≡ ok tt
      → (key : Bytes) × (resolve token.issuer_did ≡ ok key)
        × (p.verify key (token_to_cbor p token) token.signature ≡ ok tt)
  unfolding check_signature
  resolved resolve given h = elim (Result-cases (resolve token.issuer_did)) [
    | inr (x, e) ↦ absurd (ground (arith, given))
    | inl (key, e) ↦ elim (Result-cases (verify_claims p now token key false none)) [
      | inr (x, f) ↦ absurd (ground (arith, given))
      | inl (x, f) ↦ (key, e, signature_verified p now token key false none f)
    ]
  ]

  accepted :
      ((resolve : Resolver)
        → resolver ≡ some resolve
        → (key : Bytes) × (resolve token.issuer_did ≡ ok key)
          × (p.verify key (token_to_cbor p token) token.signature ≡ ok tt))
      → check_signature p now resolver check_expiry token ≡ ok tt
  unfolding check_signature verify_claims
  accepted h = elim (Option-cases resolver) [
    | inl absent ↦ rw absent refl
    | inr (resolve, given) ↦ let (key, e, v) = h resolve given in rw (given, e, v) refl
  ]

  check_link-Link :
      check_link p now resolver check_expiry prev token ≡ ok tt
      → Link p now resolver check_expiry prev token
  unfolding check_link compute_hash
  check_link-Link h = record {
    hash = hash_differs_iff token.parent_token_hash (compute_hash p prev) (ground arith);
    chain =
        (eq_ℤ_iff token.delegation_chain_length (prev.delegation_chain_length +ℤ pos 1)).0
          (ground arith);
    depth =
        (eq_ℤ_iff token.max_delegation_depth (prev.max_delegation_depth -ℤ pos 1)).0 (ground arith);
    verbs = ground arith;
    constraints = (is_tighter_than_iff token.constraints prev.constraints).0 (ground arith);
    temporal = temporal_of h;
    issuer = (did_eq_iff token.issuer_did prev.subject_did).0 (ground arith);
    times = λ e. Timely-checked now token (ground arith) (ground arith);
    signature = λ resolve given. resolved resolve given (signature_of h);
  }

  Link-check_link :
      Link p now resolver check_expiry prev token
      → check_link p now resolver check_expiry prev token ≡ ok tt
  unfolding check_link
  Link-check_link l =
      let tighter = (is_tighter_than_iff token.constraints prev.constraints).1 l.constraints in
      let same : token.parent_token_hash ≡ some (compute_hash p prev) =
        l.hash ∙ ap some (compute_hash_eq p prev) in
      let timely : check_expiry ≡ true
          → (is_not_yet_valid token now ≡ false) × (is_expired token now ≡ false) =
        λ e. checked-Timely now token (l.times e) in
      let id = bytes_eq_iff (compute_hash p prev) (compute_hash p prev) in
      ground (
        arith,
        id.1 refl,
        (eq_ℤ_iff token.delegation_chain_length (prev.delegation_chain_length +ℤ pos 1)).1 l.chain,
        (eq_ℤ_iff token.max_delegation_depth (prev.max_delegation_depth -ℤ pos 1)).1 l.depth,
        (did_eq_iff token.issuer_did prev.subject_did).1 l.issuer,
        tighter,
        same,
        timely,
        accepted l.signature,
      )

  -- One round of the loop returns exactly when the token carries the hash of the encoding and the
  -- signature of the one before, is one step further from the root, has verbs and, field by field,
  -- constraints within those of the one before, passes the check of the schedules, was issued by its
  -- subject, is within its times where these are checked, and, where there is a resolver, bears a
  -- signature of its encoding that verifies under the key of its issuer.
  pub check_link_iff :
      (check_link p now resolver check_expiry prev token ≡ ok tt)
      ↔ Link p now resolver check_expiry prev token
  check_link_iff = (check_link-Link, Link-check_link)

module _ (p : Platform) (now later : ℕ) (nonce : Bytes) (parent : CapabilityToken)
    (key public_key : Bytes) (subject : Did) (verbs : Option VerbSet) (delta : Option Constraints)
    (position : Option ℤ) (temporal : Option TemporalSchedule) (uri : Option String)
    (child : CapabilityToken) (resolve : Resolver) where
  verifies :
      IsKeyPair p key public_key
      → resolve parent.subject_did ≡ ok public_key
      → Made p now nonce parent key subject verbs delta position temporal uri child
      → check_signature p later (some resolve) true child ≡ ok tt
  unfolding check_signature verify_claims token_to_cbor
  verifies pair found m =
      let draft =
        child_draft p now nonce parent subject m.new_verbs m.new_constraints
          (or_default position parent.toolchain_position)
          (or_inherit temporal parent.temporal_attenuation) m.new_uri in
      let message = token_to_cbor p draft in
      let s : m.new_signature ≡ pair.signature message = cc (m.signs, pair.signs message) in
      rw (m.made, found, s, pair.verifies message)

  -- A child that `attenuate_token` has made with the key of the parent's subject passes the round of
  -- its parent, signature included, at every time at which it is valid.
  pub attenuate-accepted :
      IsKeyPair p key public_key
      → resolve parent.subject_did ≡ ok public_key
      → attenuate_token p now nonce parent key subject verbs delta position temporal uri ≡ ok child
      → is_not_yet_valid child later ≡ false
      → is_expired child later ≡ false
      → check_link p later (some resolve) true parent child ≡ ok tt
  attenuate-accepted pair found h valid live =
      let n =
        attenuate-Narrows p now nonce parent key subject verbs delta position temporal uri child
          h in
      let m =
        attenuate-Made p now nonce parent key subject verbs delta position temporal uri child h in
      Link-check_link p later (some resolve) true parent child (record {
        hash = n.hash;
        chain = n.chain;
        depth = n.depth;
        verbs = n.verbs;
        constraints = n.constraints;
        temporal = rw m.made m.monotone;
        issuer = n.issuer;
        times = λ e. Timely-checked later child valid live;
        signature = λ r given.
            resolved p later (some resolve) true parent child r given (verifies pair found m);
      })
