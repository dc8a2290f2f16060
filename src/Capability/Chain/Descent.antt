-- ===== src/Capability/Chain/Descent.antt =====
-- What an accepted chain says of its leaf.
use qasp.Prelude.{
  ℕ, ◌+◌, Bytes, Option, none, some, ◌≡◌, inl, inr, Bool, true, List, [], ◌∷◌, arith, issubset,
  issubset_trans, issubset_refl, length,
}
use native.Mathlib.Numerals.{add-one}
use qasp.Prelude.Int.{ℤ, pos, ◌+ℤ◌, int_laws}
use qasp.Prelude.Result.{ok, >>-eq-ok, Result-cases}
use qasp.Platform.{Platform}
use qasp.Capability.Constraints.{Constraints}
use qasp.Capability.Constraints.Tighter.{NotBefore, NotAfter, Within}
use qasp.Capability.Temporal.{effective}
use qasp.Capability.Temporal.Decay.{LimitsWithin, Within-refl}
use qasp.Capability.Temporal.Monotone.{monotonicity_aged}
use qasp.Capability.Token.{CapabilityToken}
use qasp.Capability.Attenuate.Narrows.{NotBefore-refl, NotAfter-refl}
use qasp.Capability.Chain.{Resolver, check_link, check_links, verify_delegation_chain}
use qasp.Capability.Chain.Accepts.{Link, check_link_iff}

-- The last token of a chain.
abbrev pub leaf : CapabilityToken → List CapabilityToken → CapabilityToken
leaf root [] = root
leaf root (t ∷ rest) = leaf t rest

pub NotBefore-trans : (a b c : Option ℕ) → NotBefore a b → NotBefore b c → NotBefore a c
NotBefore-trans a b none h k = tt
NotBefore-trans a none (some z) h k = elim k [ ]
NotBefore-trans none (some y) (some z) h k = elim h [ ]
NotBefore-trans (some x) (some y) (some z) h k = omega arith

pub NotAfter-trans : (a b c : Option ℕ) → NotAfter a b → NotAfter b c → NotAfter a c
NotAfter-trans a b none h k = tt
NotAfter-trans a none (some z) h k = elim k [ ]
NotAfter-trans none (some y) (some z) h k = elim h [ ]
NotAfter-trans (some x) (some y) (some z) h k = omega arith

pub Within-trans : (a b c : Option ℤ) → Within a b → Within b c → Within a c
Within-trans a b none h k = tt
Within-trans a none (some z) h k = elim k [ ]
Within-trans none (some y) (some z) h k = elim h [ ]
Within-trans (some x) (some y) (some z) h k = omega arith

-- A token that stands `n` delegations below another.
pub record Descends (n : ℕ) (top low : CapabilityToken) : Type 0 where
  pub verbs : issubset low.verbs.verbs top.verbs.verbs ≡ true
  pub starts : NotBefore low.constraints.not_before top.constraints.not_before
  pub ends : NotAfter low.constraints.not_after top.constraints.not_after
  pub quantity : Within low.constraints.quantity_limit top.constraints.quantity_limit
  pub rate : Within low.constraints.rate_limit top.constraints.rate_limit
  pub spend : Within low.constraints.max_spend top.constraints.max_spend
  pub temporal :
      (elapsed : ℕ)
      → LimitsWithin
          (effective low.constraints low.temporal_attenuation low.issued_at
            (low.issued_at + elapsed))
          (effective top.constraints top.temporal_attenuation top.issued_at
            (top.issued_at + elapsed))
  pub depth : low.max_delegation_depth +ℤ pos n ≡ top.max_delegation_depth
  pub chain : low.delegation_chain_length ≡ top.delegation_chain_length +ℤ pos n

LimitsWithin-trans : (a b c : Constraints) → LimitsWithin a b → LimitsWithin b c → LimitsWithin a c
LimitsWithin-trans a b c h k = record {
  spend = Within-trans a.max_spend b.max_spend c.max_spend h.spend k.spend;
  quantity = Within-trans a.quantity_limit b.quantity_limit c.quantity_limit h.quantity k.quantity;
  rate = Within-trans a.rate_limit b.rate_limit c.rate_limit h.rate k.rate;
}

Descends-refl : (t : CapabilityToken) → Descends 0 t t
Descends-refl t = record {
  verbs = issubset_refl t.verbs.verbs;
  starts = NotBefore-refl t.constraints.not_before;
  ends = NotAfter-refl t.constraints.not_after;
  quantity = Within-refl t.constraints.quantity_limit;
  rate = Within-refl t.constraints.rate_limit;
  spend = Within-refl t.constraints.max_spend;
  temporal = λ elapsed.
      let e = effective t.constraints t.temporal_attenuation t.issued_at (t.issued_at + elapsed) in
      record {
        spend = Within-refl e.max_spend;
        quantity = Within-refl e.quantity_limit;
        rate = Within-refl e.rate_limit;
      };
  depth = omega int_laws;
  chain = omega int_laws;
}

Descends-trans :
    (m n : ℕ) (a b c : CapabilityToken) → Descends m a b → Descends n b c → Descends (n + m) a c
Descends-trans m n a b c h k =
    let x = a.constraints in
    let y = b.constraints in
    let z = c.constraints in
    record {
      verbs = issubset_trans c.verbs.verbs b.verbs.verbs a.verbs.verbs k.verbs h.verbs;
      starts = NotBefore-trans z.not_before y.not_before x.not_before k.starts h.starts;
      ends = NotAfter-trans z.not_after y.not_after x.not_after k.ends h.ends;
      quantity =
          Within-trans z.quantity_limit y.quantity_limit x.quantity_limit k.quantity h.quantity;
      rate = Within-trans z.rate_limit y.rate_limit x.rate_limit k.rate h.rate;
      spend = Within-trans z.max_spend y.max_spend x.max_spend k.spend h.spend;
      temporal = λ elapsed.
          LimitsWithin-trans
            (effective z c.temporal_attenuation c.issued_at (c.issued_at + elapsed))
            (effective y b.temporal_attenuation b.issued_at (b.issued_at + elapsed))
            (effective x a.temporal_attenuation a.issued_at (a.issued_at + elapsed))
            (k.temporal elapsed) (h.temporal elapsed);
      depth = rw (← h.depth, ← k.depth) (omega int_laws);
      chain = rw (k.chain, h.chain) (omega int_laws);
    }

module _ (p : Platform) (now : ℕ) (resolver : Option Resolver) (check_expiry : Bool) where
  Link-Descends :
      (prev token : CapabilityToken)
      → Link p now resolver check_expiry prev token
      → Descends 1 prev token
  Link-Descends prev token l =
      let t = l.constraints in
      record {
        verbs = l.verbs;
        starts = t.starts;
        ends = t.ends;
        quantity = t.quantity;
        rate = t.rate;
        spend = t.spend;
        temporal = λ elapsed.
            monotonicity_aged prev.constraints prev.temporal_attenuation token.constraints
              token.temporal_attenuation token.issued_at prev.issued_at elapsed
              (record { spend = t.spend; quantity = t.quantity; rate = t.rate }) l.temporal;
        depth = rw l.depth (omega int_laws);
        chain = l.chain;
      }

  check_links-Descends :
      (prev : CapabilityToken) (rest : List CapabilityToken)
      → check_links p now resolver check_expiry prev rest ≡ ok tt
      → Descends (length rest) prev (leaf prev rest)
  unfolding check_links
  check_links-Descends prev [] h = Descends-refl prev
  check_links-Descends prev (token ∷ rest) h =
      let (first, others) =
        >>-eq-ok (check_link p now resolver check_expiry prev token)
          (check_links p now resolver check_expiry token rest) h in
      let l = (check_link_iff p now resolver check_expiry prev token).0 first in
      rw add-one at (
        Descends-trans 1 (length rest) prev token (leaf token rest) (Link-Descends prev token l)
          (check_links-Descends token rest others))

  -- The leaf of an accepted chain has only verbs of the root, is within the root's times and limits;
  -- the limits that its schedule leaves any time after the leaf's issue are within those that the
  -- root's schedule leaves as long after the root's issue, which may be much earlier; and it stands exactly as many delegations below the root as the chain has further tokens.
  pub chain-Descends :
      (root : CapabilityToken) (rest : List CapabilityToken) (root_key : Bytes)
      → verify_delegation_chain p now resolver check_expiry (root ∷ rest) root_key ≡ ok tt
      → Descends (length rest) root (leaf root rest)
  unfolding verify_delegation_chain
  chain-Descends root rest root_key h =
      elim (Result-cases (check_links p now resolver check_expiry root rest)) [
        | inl (x, e) ↦ check_links-Descends root rest e
        | inr (x, e) ↦ absurd (ground arith)
      ]
