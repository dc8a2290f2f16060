-- ===== src/Capability/Constraints/Tighten.antt =====
-- What `tighten` makes of two sets of constraints.
use qasp.Prelude.{
  ℕ, String, Option, none, some, ◌≡◌, refl, sym, ◌↔◌, true, false, List, [], ◌∷◌, arith, has_text,
  is_nonempty, issubset, contains, intersection, issubset_refl, intersection-issubset,
}
use mathlib.Core.List.{append-nil}
use qasp.Prelude.Int.{ℤ}
use qasp.Capability.Constraints.{
  Constraints, unconstrained, take_later, take_earlier, take_smaller, narrow, text_or, tighten,
  is_tighter_than,
}
use qasp.Capability.Usage.{TokenUsage, check_rest}
use qasp.Capability.Constraints.Tighter.{NotBefore, NotAfter, Within, IsInfix, is_tighter_than_iff}

pub NotBefore-take_later :
    (a b : Option ℕ) → NotBefore (take_later a b) a × NotBefore (take_later a b) b
unfolding take_later
NotBefore-take_later none none = ground arith
NotBefore-take_later (some s) none = ground arith
NotBefore-take_later none (some t) = ground arith
NotBefore-take_later (some s) (some t) = ground arith

pub NotAfter-take_earlier :
    (a b : Option ℕ) → NotAfter (take_earlier a b) a × NotAfter (take_earlier a b) b
unfolding take_earlier
NotAfter-take_earlier none none = ground arith
NotAfter-take_earlier (some s) none = ground arith
NotAfter-take_earlier none (some t) = ground arith
NotAfter-take_earlier (some s) (some t) = ground arith

pub Within-take_smaller :
    (a b : Option ℤ) → Within (take_smaller a b) a × Within (take_smaller a b) b
unfolding take_smaller
Within-take_smaller none none = ground arith
Within-take_smaller (some s) none = ground arith
Within-take_smaller none (some t) = ground arith
Within-take_smaller (some s) (some t) = ground arith

narrow-issubset :
    (own delta : List String) → is_nonempty own ≡ true → issubset (narrow own delta) own ≡ true
unfolding narrow
narrow-issubset [] delta h = cc
narrow-issubset (x ∷ own) [] h = issubset_refl (x ∷ own)
narrow-issubset (x ∷ own) (y ∷ delta) h = intersection-issubset (x ∷ own) (y ∷ delta)

-- The times and the limits of `tighten self delta` are within those of both.
pub record BoundedBy (c other : Constraints) : Type 0 where
  pub starts : NotBefore c.not_before other.not_before
  pub ends : NotAfter c.not_after other.not_after
  pub quantity : Within c.quantity_limit other.quantity_limit
  pub rate : Within c.rate_limit other.rate_limit
  pub spend : Within c.max_spend other.max_spend

-- The result's times and limits are within those of both arguments, each None being no bound.
pub tighten_bounds : (s d : Constraints) → BoundedBy (tighten s d) s × BoundedBy (tighten s d) d
unfolding tighten
tighten_bounds s d =
    let b = NotBefore-take_later s.not_before d.not_before in
    let a = NotAfter-take_earlier s.not_after d.not_after in
    let q = Within-take_smaller s.quantity_limit d.quantity_limit in
    let r = Within-take_smaller s.rate_limit d.rate_limit in
    let m = Within-take_smaller s.max_spend d.max_spend in
    (
      record { starts = b.0; ends = a.0; quantity = q.0; rate = r.0; spend = m.0 },
      record { starts = b.1; ends = a.1; quantity = q.1; rate = r.1; spend = m.1 },
    )

-- `tighten` passes the parent's own test exactly when the purpose is kept, where the parent has
-- one, and the tools that both chains name are a contiguous run of the parent's chain, where the
-- parent has one.
pub is_tighter_than-tighten :
    (s d : Constraints)
    → (is_tighter_than (tighten s d) s ≡ true) ↔ (
        (has_text s.purpose ≡ true → text_or d.purpose s.purpose ≡ s.purpose)
        × (is_nonempty s.allowed_toolchain ≡ true
            → IsInfix (narrow s.allowed_toolchain d.allowed_toolchain) s.allowed_toolchain))
unfolding tighten
is_tighter_than-tighten s d = (
  λ h. let t = (is_tighter_than_iff (tighten s d) s).0 h in (t.purpose, t.toolchain),
  λ (p, i).
      let b = (tighten_bounds s d).0 in
      (is_tighter_than_iff (tighten s d) s).1 (record {
        starts = b.starts;
        ends = b.ends;
        quantity = b.quantity;
        rate = b.rate;
        spend = b.spend;
        scope = narrow-issubset s.data_scope d.data_scope;
        purpose = p;
        toolchain = i;
      }),
)

-- No member of `xs` is one of `ys`.
abbrev Disjoint : List String → List String → Type 0
Disjoint [] ys = Unit
Disjoint (x ∷ xs) ys = (contains x ys ≡ false) × Disjoint xs ys

intersection-Disjoint : (xs ys : List String) → Disjoint xs ys → intersection xs ys ≡ []
unfolding intersection
intersection-Disjoint [] ys h = refl
intersection-Disjoint (x ∷ xs) ys h = ground (arith, intersection-Disjoint xs ys h.1)

narrow-nil : (own : List String) → narrow own [] ≡ own
unfolding narrow
narrow-nil [] = refl
narrow-nil (x ∷ own) = refl

narrow-Disjoint :
    (own delta : List String)
    → is_nonempty own ≡ true
    → is_nonempty delta ≡ true
    → Disjoint own delta
    → narrow own delta ≡ []
unfolding narrow
narrow-Disjoint [] delta h k d = cc
narrow-Disjoint (x ∷ own) [] h k d = cc
narrow-Disjoint (x ∷ own) (y ∷ delta) h k d = intersection-Disjoint (x ∷ own) (y ∷ delta) d

-- Two data scopes with no member in common, neither empty, the second the only constraint of its
-- set, are tightened to the empty scope. The result still counts as tighter than the parent, and the
-- checks of spend, scope, purpose and toolchain answer for all accessed data as they do for none.
pub separate_scopes_unrestrict :
    (s : Constraints) (scope : List String) (position : ℤ) (usage : TokenUsage)
    → is_nonempty s.data_scope ≡ true
    → is_nonempty scope ≡ true
    → Disjoint s.data_scope scope
    → let child = tighten s (record unconstrained { data_scope = scope }) in
      (child.data_scope ≡ [])
      × (is_tighter_than child s ≡ true)
      × (check_rest position usage child
          ≡ check_rest position (record usage { data_accessed = [] }) child)
unfolding tighten check_rest
separate_scopes_unrestrict s scope position usage own new disjoint = (
  narrow-Disjoint s.data_scope scope own new disjoint,
  (is_tighter_than-tighten s (record unconstrained { data_scope = scope })).1 (
    (λ p. refl),
    (λ p. ([], [], rw (narrow-nil s.allowed_toolchain) (sym (append-nil s.allowed_toolchain)))),
  ),
  rw (narrow-Disjoint s.data_scope scope own new disjoint) refl,
)
