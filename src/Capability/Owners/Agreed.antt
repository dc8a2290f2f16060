-- ===== src/Capability/Owners/Agreed.antt =====
-- The times and limits of a token of several owners are within those of each of its chains.
use qasp.Prelude.{ℕ, Option, ◌≡◌, refl, Bool, List, [], ◌∷◌, length}
use qasp.Prelude.Result.{
  Result, ok, err, invalid_delegation_chain, invalid_token, token_expired, >>-eq-ok,
}
use qasp.Platform.{Platform}
use qasp.Capability.Constraints.{Constraints}
use qasp.Capability.Constraints.Tighten.{
  BoundedBy, NotBefore-take_later, NotAfter-take_earlier, Within-take_smaller,
}
use qasp.Capability.Temporal.Decay.{Within-refl}
use qasp.Capability.Attenuate.Narrows.{NotBefore-refl, NotAfter-refl}
use qasp.Capability.Token.{CapabilityToken}
use qasp.Capability.Chain.{Resolver, verify_delegation_chain}
use qasp.Capability.Chain.Descent.{
  leaf, Descends, chain-Descends, NotBefore-trans, NotAfter-trans, Within-trans,
}
use qasp.Capability.Owners.{
  AuthorityChainEntry, last_token, intersect_two, intersect_from, intersect_constraints,
  owner_failure, verify_entries,
}

BoundedBy-refl : (c : Constraints) → BoundedBy c c
BoundedBy-refl c = record {
  starts = NotBefore-refl c.not_before;
  ends = NotAfter-refl c.not_after;
  quantity = Within-refl c.quantity_limit;
  rate = Within-refl c.rate_limit;
  spend = Within-refl c.max_spend;
}

pub BoundedBy-trans : (a b c : Constraints) → BoundedBy a b → BoundedBy b c → BoundedBy a c
BoundedBy-trans a b c h k = record {
  starts = NotBefore-trans a.not_before b.not_before c.not_before h.starts k.starts;
  ends = NotAfter-trans a.not_after b.not_after c.not_after h.ends k.ends;
  quantity = Within-trans a.quantity_limit b.quantity_limit c.quantity_limit h.quantity k.quantity;
  rate = Within-trans a.rate_limit b.rate_limit c.rate_limit h.rate k.rate;
  spend = Within-trans a.max_spend b.max_spend c.max_spend h.spend k.spend;
}

intersect_two-BoundedBy :
    (a b : Constraints) → BoundedBy (intersect_two a b) a × BoundedBy (intersect_two a b) b
intersect_two-BoundedBy a b =
    let s = NotBefore-take_later a.not_before b.not_before in
    let e = NotAfter-take_earlier a.not_after b.not_after in
    let q = Within-take_smaller a.quantity_limit b.quantity_limit in
    let r = Within-take_smaller a.rate_limit b.rate_limit in
    let m = Within-take_smaller a.max_spend b.max_spend in
    (
      record { starts = s.0; ends = e.0; quantity = q.0; rate = r.0; spend = m.0 },
      record { starts = s.1; ends = e.1; quantity = q.1; rate = r.1; spend = m.1 },
    )

abbrev pub AllBounded : Constraints → List Constraints → Type 0
AllBounded c [] = Unit
AllBounded c (d ∷ rest) = BoundedBy c d × AllBounded c rest

intersect_from-AllBounded :
    (c : Constraints) (rest : List Constraints) → AllBounded (intersect_from c rest) (c ∷ rest)
unfolding intersect_from
intersect_from-AllBounded c [] = (BoundedBy-refl c, tt)
intersect_from-AllBounded c (d ∷ rest) =
    let (first, others) = intersect_from-AllBounded (intersect_two c d) rest in
    let (low, high) = intersect_two-BoundedBy c d in
    let all = intersect_from (intersect_two c d) rest in
    (
      BoundedBy-trans all (intersect_two c d) c first low,
      (BoundedBy-trans all (intersect_two c d) d first high, others),
    )

-- The intersection of one or more constraints always exists, and its times and limits are within
-- those of each of them.
pub intersect_constraints-AllBounded :
    (c : Constraints) (rest : List Constraints)
    → (result : Constraints) × (intersect_constraints (c ∷ rest) ≡ ok result)
      × AllBounded result (c ∷ rest)
unfolding intersect_constraints
intersect_constraints-AllBounded c rest =
    (intersect_from c rest, refl, intersect_from-AllBounded c rest)

-- A chain that was accepted, by its root and the rest.
pub record Accepted (entry : AuthorityChainEntry) : Type 0 where
  pub root : CapabilityToken
  pub rest : List CapabilityToken
  pub chain : entry.chain ≡ root ∷ rest
  pub descends : Descends (length rest) root (leaf root rest)

abbrev pub AllAccepted : List AuthorityChainEntry → Type 0
AllAccepted [] = Unit
AllAccepted (entry ∷ entries) = Accepted entry × AllAccepted entries

owner_failure-eq-ok : (r : Result (Unit {0})) → owner_failure r ≡ ok tt → r ≡ ok tt
owner_failure-eq-ok (ok x) h = refl
owner_failure-eq-ok (err invalid_delegation_chain) h = cc
owner_failure-eq-ok (err invalid_token) h = cc
owner_failure-eq-ok (err token_expired) h = cc
owner_failure-eq-ok (err e) h = cc

module _ (p : Platform) (now : ℕ) (resolver : Option Resolver) (check_expiry : Bool) where
  chain-Accepted :
      (entry : AuthorityChainEntry) (tokens : List CapabilityToken)
      → entry.chain ≡ tokens
      → verify_delegation_chain p now resolver check_expiry tokens entry.root_public_key ≡ ok tt
      → Accepted entry
  unfolding verify_delegation_chain
  chain-Accepted entry [] e h = cc
  chain-Accepted entry (root ∷ rest) e h = record {
    root = root;
    rest = rest;
    chain = e;
    descends = chain-Descends p now resolver check_expiry root rest entry.root_public_key h;
  }

  pub entries-AllAccepted :
      (entries : List AuthorityChainEntry)
      → verify_entries p now resolver check_expiry entries ≡ ok tt
      → AllAccepted entries
  unfolding verify_entries
  entries-AllAccepted [] h = tt
  entries-AllAccepted (entry ∷ rest) h =
      let (first, others) =
        >>-eq-ok (owner_failure _) (verify_entries p now resolver check_expiry rest) h in
      (
        chain-Accepted entry entry.chain refl (owner_failure-eq-ok _ first),
        entries-AllAccepted rest others,
      )

pub last_token-leaf :
    (root : CapabilityToken) (rest : List CapabilityToken)
    → last_token (root ∷ rest) ≡ ok (leaf root rest)
unfolding last_token
last_token-leaf root [] = refl
last_token-leaf root (t ∷ rest) = last_token-leaf t rest
