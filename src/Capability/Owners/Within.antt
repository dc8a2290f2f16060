-- ===== src/Capability/Owners/Within.antt =====
-- The effective verbs, times and limits of a verified token of several owners are within those of
-- every root. Data scope, purpose and toolchain are left aside: two scopes with no member in common
-- intersect to the empty scope.
use qasp.Prelude.{
  ℕ, Option, ◌≡◌, refl, Bool, true, List, [], ◌∷◌, issubset, issubset_refl, issubset_trans,
  intersection, intersection-issubset, intersection-issubset_right,
}
use qasp.Prelude.Result.{ok}
use qasp.Platform.{Platform}
use qasp.Capability.Constraints.{VerbSet, verbs_intersection, Constraints}
use qasp.Capability.Constraints.Tighten.{BoundedBy}
use qasp.Capability.Token.{CapabilityToken}
use qasp.Capability.Chain.{Resolver}
use qasp.Capability.Chain.Descent.{leaf}
use qasp.Capability.Owners.{
  AuthorityChainEntry, MultiOwnerCapabilityToken, last_token, verbs_from, effective_verbs,
  leaf_constraints, effective_constraints, verify_multi_owner_token,
}
use qasp.Capability.Owners.Agreed.{
  BoundedBy-trans, AllBounded, intersect_constraints-AllBounded, Accepted, AllAccepted,
  entries-AllAccepted, last_token-leaf,
}

-- The verbs are among those of a chain's root, and the times and limits within the root's.
pub record WithinRoot (v : VerbSet) (c : Constraints) (entry : AuthorityChainEntry) : Type 0 where
  pub root : CapabilityToken
  pub rest : List CapabilityToken
  pub chain : entry.chain ≡ root ∷ rest
  pub verbs : issubset v.verbs root.verbs.verbs ≡ true
  pub bounds : BoundedBy c root.constraints

abbrev pub AllWithinRoot : VerbSet → Constraints → List AuthorityChainEntry → Type 0
AllWithinRoot v c [] = Unit
AllWithinRoot v c (entry ∷ rest) = WithinRoot v c entry × AllWithinRoot v c rest

-- The leaf of an accepted chain.
abbrev leaf_of : {entry : AuthorityChainEntry} → Accepted entry → CapabilityToken
leaf_of a = leaf a.root a.rest

last_token-leaf_of :
    (entry : AuthorityChainEntry) (a : Accepted entry) → last_token entry.chain ≡ ok (leaf_of a)
last_token-leaf_of entry a = rw a.chain (last_token-leaf a.root a.rest)

leaf_bounds :
    {entry : AuthorityChainEntry} (a : Accepted entry)
    → BoundedBy (leaf_of a).constraints a.root.constraints
leaf_bounds a = record {
  starts = a.descends.starts;
  ends = a.descends.ends;
  quantity = a.descends.quantity;
  rate = a.descends.rate;
  spend = a.descends.spend;
}

-- The verbs that are in every leaf.
abbrev InLeaves : VerbSet → (entries : List AuthorityChainEntry) → AllAccepted entries → Type 0
InLeaves v [] a = Unit
InLeaves v (entry ∷ rest) (a, b) =
    (issubset v.verbs (leaf_of a).verbs.verbs ≡ true) × InLeaves v rest b

verbs_from-InLeaves :
    (start : VerbSet) (entries : List AuthorityChainEntry) (a : AllAccepted entries)
    → (v : VerbSet) × (verbs_from start entries ≡ ok v)
      × (issubset v.verbs start.verbs ≡ true)
      × InLeaves v entries a
unfolding verbs_from
verbs_from-InLeaves start [] a = (start, refl, issubset_refl start.verbs, tt)
verbs_from-InLeaves start (entry ∷ rest) (a, b) =
    let here = (leaf_of a).verbs in
    let (v, e, below, others) = verbs_from-InLeaves (verbs_intersection start here) rest b in
    let both = intersection start.verbs here.verbs in
    (
      v,
      rw (last_token-leaf_of entry a) e,
      issubset_trans v.verbs both start.verbs below (intersection-issubset start.verbs here.verbs),
      (
        issubset_trans v.verbs both here.verbs below
            (intersection-issubset_right start.verbs here.verbs),
        others,
      ),
    )

-- The constraints of the leaves.
abbrev leaves : (entries : List AuthorityChainEntry) → AllAccepted entries → List Constraints
leaves [] a = []
leaves (entry ∷ rest) (a, b) = (leaf_of a).constraints ∷ leaves rest b

leaf_constraints-leaves :
    (entries : List AuthorityChainEntry) (a : AllAccepted entries)
    → leaf_constraints entries ≡ ok (leaves entries a)
unfolding leaf_constraints
leaf_constraints-leaves [] a = refl
leaf_constraints-leaves (entry ∷ rest) (a, b) =
    rw (last_token-leaf_of entry a, leaf_constraints-leaves rest b)

all-AllWithinRoot :
    (v : VerbSet) (c : Constraints) (entries : List AuthorityChainEntry) (a : AllAccepted entries)
    → InLeaves v entries a
    → AllBounded c (leaves entries a)
    → AllWithinRoot v c entries
all-AllWithinRoot v c [] a h k = tt
all-AllWithinRoot v c (entry ∷ rest) (a, b) (h, hs) (k, ks) = (
  record {
    root = a.root;
    rest = a.rest;
    chain = a.chain;
    verbs = issubset_trans v.verbs (leaf_of a).verbs.verbs a.root.verbs.verbs h a.descends.verbs;
    bounds = BoundedBy-trans c (leaf_of a).constraints a.root.constraints k (leaf_bounds a);
  },
  all-AllWithinRoot v c rest b hs ks,
)

abbrev owned : List AuthorityChainEntry → MultiOwnerCapabilityToken
owned entries = record { authority_chains = entries }

module _ (p : Platform) (now : ℕ) (resolver : Option Resolver) (check_expiry : Bool) where
  entries-AllWithinRoot :
      (entries : List AuthorityChainEntry)
      → verify_multi_owner_token p now resolver check_expiry (owned entries) ≡ ok tt
      → (v : VerbSet) × (c : Constraints) × (effective_verbs (owned entries) ≡ ok v)
        × (effective_constraints (owned entries) ≡ ok c)
        × AllWithinRoot v c entries
  unfolding verify_multi_owner_token effective_verbs effective_constraints
  entries-AllWithinRoot [] h = cc
  entries-AllWithinRoot (entry ∷ rest) h =
      let (a, b) = entries-AllAccepted p now resolver check_expiry (entry ∷ rest) h in
      let (v, e, below, others) = verbs_from-InLeaves (leaf_of a).verbs rest b in
      let (c, f, bounds) =
        intersect_constraints-AllBounded (leaf_of a).constraints (leaves rest b) in
      (
        v,
        c,
        rw (last_token-leaf_of entry a) e,
        rw (leaf_constraints-leaves (entry ∷ rest) (a, b)) f,
        all-AllWithinRoot v c (entry ∷ rest) (a, b) (below, others) bounds,
      )

-- A token of one or more owners that is verified has effective verbs and effective constraints, and
-- for each owner these verbs are among those of the root of the owner's chain, and these times and
-- limits within the root's.
pub verify_multi_owner_token-AllWithinRoot :
    (p : Platform) (now : ℕ) (resolver : Option Resolver) (check_expiry : Bool)
    (token : MultiOwnerCapabilityToken)
    → verify_multi_owner_token p now resolver check_expiry token ≡ ok tt
    → (v : VerbSet) × (c : Constraints) × (effective_verbs token ≡ ok v)
      × (effective_constraints token ≡ ok c)
      × AllWithinRoot v c token.authority_chains
verify_multi_owner_token-AllWithinRoot p now resolver check_expiry token h =
    entries-AllWithinRoot p now resolver check_expiry token.authority_chains h
