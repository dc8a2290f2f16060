-- ===== src/Capability/Chain/Unchecked.antt =====
-- What the chain check leaves to the signature of the delegator.
use qasp.Prelude.{
  ℕ, ◌+◌, ◌*◌, String, Bytes, Option, none, some, ◌≡◌, refl, true, false, List, [], ◌∷◌, arith,
  issubset_refl,
}
use qasp.Prelude.Int.{ℤ}
use qasp.Prelude.Result.{ok}
use qasp.Platform.{Platform, IsKeyPair}
use qasp.Capability.Constraints.{Constraints, exceeds}
use qasp.Capability.Constraints.Tighter.{exceeds_iff}
use qasp.Capability.Temporal.{
  TemporalThreshold, TemporalSchedule, epoch, second, effective, exceeds_at, any_exceeds,
  verify_temporal_monotonicity,
}
use qasp.Capability.Temporal.Decay.{Within-refl}
use qasp.Capability.Token.{CapabilityToken, token_to_cbor, sign_token, is_expired, is_not_yet_valid}
use qasp.Capability.Token.Dids.{Did}
use qasp.Capability.Attenuate.{child_draft}
use qasp.Capability.Constraints.Tighter.{is_tighter_than_iff}
use qasp.Capability.Attenuate.Narrows.{is_tighter_than_refl}
use qasp.Capability.Usage.{verify_claims}
use qasp.Capability.Chain.{Resolver, check_signature, check_link}
use qasp.Capability.Chain.Accepts.{check_link_iff, compute_hash_eq, Timely-checked, resolved}

exceeds_self : (a : Option ℤ) → exceeds a a ≡ false
exceeds_self a = (exceeds_iff a a).1 (Within-refl a)

exceeds_at_self :
    (c : Constraints) (t : Option TemporalSchedule) (s : ℕ) → exceeds_at c t c t s ≡ false
unfolding exceeds_at
exceeds_at_self c t s =
    let e = effective c t epoch (epoch + s * second) in
    ground
      (arith, exceeds_self e.quantity_limit, exceeds_self e.rate_limit, exceeds_self e.max_spend)

any_exceeds_self :
    (c : Constraints) (t : Option TemporalSchedule) (ts : List TemporalThreshold)
    → any_exceeds c t c t ts ≡ false
unfolding any_exceeds
any_exceeds_self c t [] = refl
any_exceeds_self c t (x ∷ ts) =
    ground (arith, exceeds_at_self c t x.at_seconds, any_exceeds_self c t ts)

-- A schedule is as restrictive as itself.
monotone_self :
    (c : Constraints) (t : Option TemporalSchedule) → verify_temporal_monotonicity c t c t ≡ ok tt
unfolding verify_temporal_monotonicity
monotone_self c none = refl
monotone_self c (some t) =
    ground (arith, exceeds_at_self c (some t) 0, any_exceeds_self c (some t) t.thresholds)

module _ (p : Platform) (now later : ℕ) (nonce : Bytes) (parent : CapabilityToken)
    (key public_key : Bytes) (subject : Did) (position : ℤ) (uri : String) (child : CapabilityToken)
    (resolve : Resolver) where
  abbrev draft : CapabilityToken
  draft =
      child_draft p now nonce parent subject parent.verbs parent.constraints position
        parent.temporal_attenuation uri

  self_issued-signature :
      IsKeyPair p key public_key
      → resolve parent.subject_did ≡ ok public_key
      → sign_token p key draft ≡ ok child
      → (s : Bytes) × (child ≡ record draft { signature = s })
        × (check_signature p later (some resolve) true child ≡ ok tt)
  unfolding check_signature verify_claims token_to_cbor sign_token
  self_issued-signature pair found signed =
      let message = token_to_cbor p draft in
      let s = pair.signature message in
      let made : child ≡ record draft { signature = s } = ground (arith, pair.signs message) in
      (s, made, rw (made, found, pair.verifies message))

  -- The holder of a token that is within its times, signing a child with the holder's own key and with all that the token
  -- grants, passes the round of the loop whatever resource the child names and whatever the token's
  -- delegation depth is: neither the resource nor a depth of 0 is looked at.
  pub self_issued-accepted :
      IsKeyPair p key public_key
      → resolve parent.subject_did ≡ ok public_key
      → sign_token p key draft ≡ ok child
      → is_not_yet_valid parent later ≡ false
      → is_expired parent later ≡ false
      → check_link p later (some resolve) true parent child ≡ ok tt
  unfolding is_not_yet_valid is_expired
  self_issued-accepted pair found signed valid live =
      let (s, made, accepted) = self_issued-signature pair found signed in
      (check_link_iff p later (some resolve) true parent child).1 (record {
        hash = rw (made, compute_hash_eq p parent);
        chain = rw made;
        depth = rw made;
        verbs = rw made (issubset_refl parent.verbs.verbs);
        constraints = rw made (
            (is_tighter_than_iff parent.constraints parent.constraints).0
              (is_tighter_than_refl parent.constraints));
        temporal = rw made (monotone_self parent.constraints parent.temporal_attenuation);
        issuer = rw made;
        times = λ e. Timely-checked later child (rw made valid) (rw made live);
        signature = λ r given. resolved p later (some resolve) true parent child r given accepted;
      })
