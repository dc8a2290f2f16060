-- ===== src/Capability/Attenuate/Narrows.antt =====
-- What a child token has of its parent.
use qasp.Prelude.{
  ℕ, ◌+◌, ◌++◌, String, Bytes, Option, none, some, ◌≡◌, refl, sym, ◌⊎◌, inl, inr, Bool, true, false,
  [], arith, issubset, issubset_refl, eq_iff,
}
use mathlib.Core.List.{append-nil}
use qasp.Prelude.Int.{ℤ, pos, ◌+ℤ◌, ◌-ℤ◌, ◌≤ℤ◌, leb_ℤ}
use qasp.Prelude.Result.{Result, ok, err, invalid_arm_uri, Result-cases}
use qasp.Platform.{Platform}
use qasp.Arm.{is_attenuation}
use qasp.Capability.Constraints.{VerbSet, Constraints, is_tighter_than}
use qasp.Capability.Constraints.Tighter.{NotBefore, NotAfter, IsTighter, is_tighter_than_iff}
use qasp.Capability.Temporal.{TemporalSchedule, effective, verify_temporal_monotonicity}
use qasp.Capability.Temporal.Decay.{LimitsWithin, Within-refl}
use qasp.Capability.Temporal.Monotone.{monotonicity_aged}
use qasp.Capability.Token.{CapabilityToken, is_expired, compute_hash, token_to_cbor, sign_token}
use qasp.Capability.Token.Dids.{Did}
use qasp.Capability.Attenuate.{
  reduce_verbs, tighten_constraints, decide_uri, narrow_uri, or_inherit, or_default, child_draft,
  attenuate_token,
}

pub NotBefore-refl : (a : Option ℕ) → NotBefore a a
NotBefore-refl none = tt
NotBefore-refl (some t) = omega arith

pub NotAfter-refl : (a : Option ℕ) → NotAfter a a
NotAfter-refl none = tt
NotAfter-refl (some t) = omega arith

-- Constraints are as tight as themselves.
pub is_tighter_than_refl : (c : Constraints) → is_tighter_than c c ≡ true
is_tighter_than_refl c = (is_tighter_than_iff c c).1 (record {
  starts = NotBefore-refl c.not_before;
  ends = NotAfter-refl c.not_after;
  quantity = Within-refl c.quantity_limit;
  rate = Within-refl c.rate_limit;
  spend = Within-refl c.max_spend;
  scope = λ h. issubset_refl c.data_scope;
  purpose = λ h. refl;
  toolchain = λ h. ([], [], sym (append-nil c.allowed_toolchain));
})

-- The child's URI is the parent's, or the parent's covers it.
abbrev pub UriNarrows : String → String → Type 0
UriNarrows parent child = (child ≡ parent) ⊎ (is_attenuation parent child ≡ ok true)

pub record Narrows (p : Platform) (parent child : CapabilityToken) : Type 0 where
  pub verbs : issubset child.verbs.verbs parent.verbs.verbs ≡ true
  pub constraints : IsTighter child.constraints parent.constraints
  pub temporal :
      (elapsed : ℕ)
      → LimitsWithin
          (effective child.constraints child.temporal_attenuation child.issued_at
            (child.issued_at + elapsed))
          (effective parent.constraints parent.temporal_attenuation parent.issued_at
            (parent.issued_at + elapsed))
  pub uri : UriNarrows parent.resource_uri child.resource_uri
  pub issuer : child.issuer_did ≡ parent.subject_did
  pub hash : child.parent_token_hash ≡ some (p.sha384 (token_to_cbor p parent ++ parent.signature))
  pub depth : child.max_delegation_depth ≡ parent.max_delegation_depth -ℤ pos 1
  pub chain : child.delegation_chain_length ≡ parent.delegation_chain_length +ℤ pos 1
  pub delegable : pos 1 ≤ℤ parent.max_delegation_depth

reduce_verbs-issubset :
    (held : VerbSet) (reduced : Option VerbSet) {v : VerbSet}
    → reduce_verbs held reduced ≡ ok v
    → issubset v.verbs held.verbs ≡ true
unfolding reduce_verbs
reduce_verbs-issubset held none h = ground (arith, issubset_refl held.verbs)
reduce_verbs-issubset held (some r) h = ground arith

tighten_constraints-is_tighter :
    (parent : Constraints) (delta : Option Constraints) {c : Constraints}
    → tighten_constraints parent delta ≡ ok c
    → is_tighter_than c parent ≡ true
unfolding tighten_constraints
tighten_constraints-is_tighter parent none h = ground (arith, is_tighter_than_refl parent)
tighten_constraints-is_tighter parent (some d) h = ground arith

decide_uri-UriNarrows :
    (parent uri : String) (d : Result Bool) {u : String}
    → is_attenuation parent uri ≡ d
    → decide_uri parent uri d ≡ ok u
    → UriNarrows parent u
decide_uri-UriNarrows parent uri (ok true) {u} e h = let same : uri ≡ u = cc in inr (rw same at e)
decide_uri-UriNarrows parent uri (ok false) {u} e h = cc
decide_uri-UriNarrows parent uri (err invalid_arm_uri) {u} e h =
    inl (ground (arith, eq_iff uri parent))
decide_uri-UriNarrows parent uri (err x) {u} e h = cc

narrow_uri-UriNarrows :
    (parent : String) (uri : Option String) {u : String}
    → narrow_uri parent uri ≡ ok u
    → UriNarrows parent u
unfolding narrow_uri
narrow_uri-UriNarrows parent none h = inl cc
narrow_uri-UriNarrows parent (some uri) h =
    decide_uri-UriNarrows parent uri (is_attenuation parent uri) refl h

leb_pos : (z : ℤ) → leb_ℤ z (pos 0) ≡ false → pos 1 ≤ℤ z
leb_pos z e = ground arith

-- The parts of a call of `attenuate_token` that returned.
pub record Made (p : Platform) (now : ℕ) (nonce : Bytes) (parent : CapabilityToken) (key : Bytes)
    (subject : Did) (verbs : Option VerbSet) (delta : Option Constraints) (position : Option ℤ)
    (temporal : Option TemporalSchedule) (uri : Option String) (child : CapabilityToken)
    : Type 0 where
  pub new_verbs : VerbSet
  pub new_constraints : Constraints
  pub new_uri : String
  pub new_signature : Bytes
  pub live : is_expired parent now ≡ false
  pub delegable : leb_ℤ parent.max_delegation_depth (pos 0) ≡ false
  pub reduced : reduce_verbs parent.verbs verbs ≡ ok new_verbs
  pub tightened : tighten_constraints parent.constraints delta ≡ ok new_constraints
  pub narrowed : narrow_uri parent.resource_uri uri ≡ ok new_uri
  pub monotone :
      verify_temporal_monotonicity parent.constraints parent.temporal_attenuation new_constraints
        (or_inherit temporal parent.temporal_attenuation)
      ≡ ok tt
  pub signs :
      p.sign key (
        token_to_cbor p (
          child_draft p now nonce parent subject new_verbs new_constraints
            (or_default position parent.toolchain_position)
            (or_inherit temporal parent.temporal_attenuation)
            new_uri))
      ≡ ok new_signature
  pub made :
      child
      ≡ record (child_draft p now nonce parent subject new_verbs new_constraints
          (or_default position parent.toolchain_position)
          (or_inherit temporal parent.temporal_attenuation)
          new_uri) { signature = new_signature }

module _ (p : Platform) (now : ℕ) (nonce : Bytes) (parent : CapabilityToken) (key : Bytes)
    (subject : Did) (verbs : Option VerbSet) (delta : Option Constraints) (position : Option ℤ)
    (temporal : Option TemporalSchedule) (uri : Option String) (child : CapabilityToken)
    (h : attenuate_token p now nonce parent key subject verbs delta position temporal uri
      ≡ ok child) where
  monotone_checked :
      (v : VerbSet) (c : Constraints) (u : String)
      → reduce_verbs parent.verbs verbs ≡ ok v
      → tighten_constraints parent.constraints delta ≡ ok c
      → narrow_uri parent.resource_uri uri ≡ ok u
      → verify_temporal_monotonicity parent.constraints parent.temporal_attenuation c
          (or_inherit temporal parent.temporal_attenuation)
        ≡ ok tt
  unfolding attenuate_token
  monotone_checked v c u ev ec eu =
      elim (Result-cases (
        verify_temporal_monotonicity parent.constraints parent.temporal_attenuation c
          (or_inherit temporal parent.temporal_attenuation))) [
            | inl (x, e) ↦ e
            | inr (x, e) ↦ absurd (ground arith)
          ]

  signed :
      (v : VerbSet) (c : Constraints) (u : String)
      → reduce_verbs parent.verbs verbs ≡ ok v
      → tighten_constraints parent.constraints delta ≡ ok c
      → narrow_uri parent.resource_uri uri ≡ ok u
      → Made p now nonce parent key subject verbs delta position temporal uri child
  unfolding attenuate_token sign_token
  signed v c u ev ec eu =
      let draft =
        child_draft p now nonce parent subject v c (or_default position parent.toolchain_position)
          (or_inherit temporal parent.temporal_attenuation) u in
      elim (Result-cases (p.sign key (token_to_cbor p draft))) [
        | inr (e, es) ↦ absurd (ground arith)
        | inl (s, es) ↦ record {
          new_verbs = v;
          new_constraints = c;
          new_uri = u;
          new_signature = s;
          live = ground arith;
          delegable = ground arith;
          reduced = ev;
          tightened = ec;
          narrowed = eu;
          monotone = monotone_checked v c u ev ec eu;
          signs = es;
          made = ground arith;
        }
      ]

  pub attenuate-Made : Made p now nonce parent key subject verbs delta position temporal uri child
  unfolding attenuate_token
  attenuate-Made = elim (Result-cases (reduce_verbs parent.verbs verbs)) [
    | inr (e, ev) ↦ absurd (ground arith)
    | inl (v, ev) ↦ elim (Result-cases (tighten_constraints parent.constraints delta)) [
      | inr (e, ec) ↦ absurd (ground arith)
      | inl (c, ec) ↦ elim (Result-cases (narrow_uri parent.resource_uri uri)) [
        | inr (e, eu) ↦ absurd (ground arith)
        | inl (u, eu) ↦ signed v c u ev ec eu
      ]
    ]
  ]

  -- A token that was attenuated has verbs of its parent, and the parent's resource or one that
  -- `is_attenuation` finds in it. Its times and limits are within the parent's; its data scope is
  -- among the parent's and its toolchain part of the parent's, where the parent has one, which an
  -- empty scope or toolchain also is; its purpose is the parent's where there is one. The limits that
  -- its schedule leaves are within those that the parent's leaves as long after the parent's issue.
  -- It is issued by the parent's subject, carries the hash of the parent's encoding and signature,
  -- is one step further from the root, and its parent allowed a delegation.
  pub attenuate-Narrows : Narrows p parent child
  unfolding compute_hash
  attenuate-Narrows =
      let m = attenuate-Made in
      let t =
        (is_tighter_than_iff m.new_constraints parent.constraints).0
          (tighten_constraints-is_tighter parent.constraints delta m.tightened) in
      rw m.made (record {
        verbs = reduce_verbs-issubset parent.verbs verbs m.reduced;
        constraints = t;
        temporal = λ elapsed.
            monotonicity_aged parent.constraints parent.temporal_attenuation m.new_constraints
              (or_inherit temporal parent.temporal_attenuation) now parent.issued_at elapsed
              (record { spend = t.spend; quantity = t.quantity; rate = t.rate }) m.monotone;
        uri = narrow_uri-UriNarrows parent.resource_uri uri m.narrowed;
        issuer = refl;
        hash = refl;
        depth = refl;
        chain = refl;
        delegable = leb_pos parent.max_delegation_depth m.delegable;
      })
