-- ===== src/Capability/Attenuate/Splits.antt =====
-- What the parts of a split token add up to.
use qasp.Prelude.{
  ℕ, suc, Bytes, Option, none, some, ◌≡◌, refl, sym, ap, inl, inr, List, [], ◌∷◌, arith, length,
  Bool-cases,
}
use qasp.Prelude.Int.{ℤ, pos, pos_part, neg_part, eq_of_parts, ◌≤ℤ◌, ltb_ℤ, ltb_ℤ-le, int_laws}
use qasp.Prelude.Result.{
  Result, ok, err, value_error, attenuation_error, token_constraint_violation, Result-cases,
  raise_if, ◌>>◌, raise_if->>-eq-ok,
}
use qasp.Platform.{Platform}
use qasp.Capability.Constraints.{Constraints, take_smaller, tighten}
use qasp.Capability.Token.{CapabilityToken}
use qasp.Capability.Token.Dids.{Did}
use qasp.Capability.Attenuate.{
  tighten_constraints, with_quantity, attenuate_token, split_each, total, subject_list, zip_turns,
  split_token,
}
use qasp.Capability.Attenuate.Narrows.{attenuate-Made}

-- The quantity that a token allows; one with no limit does not arise here.
abbrev amount_of : Option ℤ → ℤ
amount_of none = pos 0
amount_of (some q) = q

abbrev pub quantity : CapabilityToken → ℤ
quantity t = amount_of t.constraints.quantity_limit

abbrev pub quantities : List CapabilityToken → List ℤ
quantities [] = []
quantities (t ∷ ts) = quantity t ∷ quantities ts

abbrev pub AllNonneg : List ℤ → Type 0
AllNonneg [] = Unit
AllNonneg (a ∷ amounts) = (pos 0 ≤ℤ a) × AllNonneg amounts

-- Each amount is within the limit.
abbrev AllWithin : ℤ → List ℤ → Type 0
AllWithin limit [] = Unit
AllWithin limit (a ∷ amounts) = (a ≤ℤ limit) × AllWithin limit amounts

total_nonneg : (amounts : List ℤ) → AllNonneg amounts → pos 0 ≤ℤ total amounts
unfolding total
total_nonneg [] h = omega arith
total_nonneg (a ∷ amounts) h = omega (int_laws, h.0, total_nonneg amounts h.1)

AllWithin-of_total :
    (limit : ℤ) (amounts : List ℤ)
    → AllNonneg amounts
    → total amounts ≤ℤ limit
    → AllWithin limit amounts
unfolding total
AllWithin-of_total limit [] h k = tt
AllWithin-of_total limit (a ∷ amounts) h k = (
  omega (int_laws, h.0, total_nonneg amounts h.1),
  AllWithin-of_total limit amounts h.1 (omega (int_laws, h.0)),
)

tightened_some :
    (c d : Constraints) {e : Constraints} → tighten_constraints c (some d) ≡ ok e → e ≡ tighten c d
unfolding tighten_constraints
tightened_some c d h = ground arith

smaller_amount :
    (q : Option ℤ) (limit a : ℤ)
    → q ≡ some limit
    → a ≤ℤ limit
    → amount_of (take_smaller q (some a)) ≡ a
unfolding take_smaller
smaller_amount none limit a e h = cc
smaller_amount (some q) limit a e h =
    let same : q ≡ limit = cc in
    let same_parts : (pos_part q ≡ pos_part limit) × (neg_part q ≡ neg_part limit) =
      (ap pos_part same, ap neg_part same) in
    elim (Bool-cases (ltb_ℤ a q)) [
      | inl l ↦ rw l
      | inr g ↦ rw g (eq_of_parts q a (omega (arith, ltb_ℤ-le q a g, h, same_parts)))
    ]

module _ (p : Platform) (now : ℕ) (token : CapabilityToken) (key : Bytes) (limit : ℤ)
    (limited : token.constraints.quantity_limit ≡ some limit) where
  -- A part of at most the limit has its amount as its own limit.
  part-quantity :
      (nonce : Bytes) (subject : Did) (a : ℤ) (child : CapabilityToken)
      → a ≤ℤ limit
      → attenuate_token p now nonce token key subject none (some (with_quantity a)) none none none
        ≡ ok child
      → quantity child ≡ a
  unfolding tighten take_smaller
  part-quantity nonce subject a child h made =
      let m =
        attenuate-Made p now nonce token key subject none (some (with_quantity a)) none none none
          child made in
      let c = tightened_some token.constraints (with_quantity a) m.tightened in
      rw (m.made, c) (smaller_amount token.constraints.quantity_limit limit a limited h)

  split_each-quantities :
      (amounts : List ℤ) (subjects : List Did) (nonces : List Bytes)
      (children : List CapabilityToken)
      → length subjects ≡ length amounts
      → length nonces ≡ length amounts
      → AllWithin limit amounts
      → split_each p now token key (zip_turns amounts subjects nonces) ≡ ok children
      → quantities children ≡ amounts
  unfolding split_each zip_turns
  split_each-quantities [] subjects nonces children s n h e = cc
  split_each-quantities (a ∷ amounts) [] nonces children s n h e = absurd (omega arith)
  split_each-quantities (a ∷ amounts) (d ∷ subjects) [] children s n h e = absurd (omega arith)
  split_each-quantities (a ∷ amounts) (d ∷ subjects) (x ∷ nonces) children s n h e =
      elim (Result-cases
        (attenuate_token p now x token key d none (some (with_quantity a)) none none none)) [
          | inr (r, f) ↦ absurd (ground arith)
          | inl (child, f) ↦
              elim (Result-cases (split_each p now token key (zip_turns amounts subjects nonces))) [
                | inr (r, g) ↦ absurd (ground arith)
                | inl (rest, g) ↦
                    let made : child ∷ rest ≡ children = ground arith in
                    rw (
                      sym made,
                      part-quantity x d a child h.0 f,
                      split_each-quantities amounts subjects nonces rest (omega arith) (omega arith)
                          h.1 g,
                    )
              ]
        ]

subjects_before :
    (own : Did) (o : Option (List Did)) {r : List Did}
    → (elim o as (λ x. Option (List Did)) [ none ↦ none | some l ↦ some (own ∷ l) ]) ≡ some r
    → (l : List Did) × (o ≡ some l) × (own ∷ l ≡ r)
subjects_before own none h = cc
subjects_before own (some l) h = (l, refl, cc)

subject_list-length :
    (own : Did) (amounts : List ℤ) (given : Option (List Did)) {l : List Did}
    → subject_list own amounts given ≡ some l
    → length l ≡ length amounts
subject_list-length own [] none h = ground arith
subject_list-length own (a ∷ amounts) none h =
    let (l, e, f) = subjects_before own (subject_list own amounts none) h in
    rw (sym f) (ap suc (subject_list-length own amounts none e))
subject_list-length own [] (some subjects) h = ground arith
subject_list-length own (a ∷ amounts) (some subjects) h = ground arith

limit_checked :
    (q : Option ℤ) (limit sum : ℤ) (rest : Result (List CapabilityToken))
    {children : List CapabilityToken}
    → q ≡ some limit
    → (elim q as (λ x. Result (List CapabilityToken)) [
      | none ↦ err attenuation_error
      | some l ↦ raise_if (ltb_ℤ l sum) token_constraint_violation >> rest
    ])
      ≡ ok children
    → (sum ≤ℤ limit) × (rest ≡ ok children)
limit_checked none limit sum rest e h = cc
limit_checked (some l) limit sum rest e h =
    let same : l ≡ limit = cc in
    let (within, made) = raise_if->>-eq-ok (ltb_ℤ l sum) token_constraint_violation rest h in
    (rw (sym same) (ltb_ℤ-le sum l within), made)

turns_made :
    (p : Platform) (now : ℕ) (token : CapabilityToken) (key : Bytes) (amounts : List ℤ)
    (nonces : List Bytes) (o : Option (List Did)) {children : List CapabilityToken}
    → (elim o as (λ x. Result (List CapabilityToken)) [
      | none ↦ err value_error
      | some subjects ↦ split_each p now token key (zip_turns amounts subjects nonces)
    ])
      ≡ ok children
    → (l : List Did) × (o ≡ some l)
      × (split_each p now token key (zip_turns amounts l nonces) ≡ ok children)
turns_made p now token key amounts nonces none h = cc
turns_made p now token key amounts nonces (some l) h = (l, refl, h)

-- A token with a quantity limit that was split by amounts of 0 or more, with a nonce for each amount,
-- yields one part for each amount, whose quantity limit is that amount, and the limits of the parts
-- add up to at most the token's own.
pub split_sound :
    (p : Platform) (now : ℕ) (nonces : List Bytes) (token : CapabilityToken) (key : Bytes)
    (amounts : List ℤ) (subjects : Option (List Did)) (limit : ℤ) (children : List CapabilityToken)
    → token.constraints.quantity_limit ≡ some limit
    → AllNonneg amounts
    → length nonces ≡ length amounts
    → split_token p now nonces token key amounts subjects ≡ ok children
    → (quantities children ≡ amounts) × (total (quantities children) ≤ℤ limit)
unfolding split_token
split_sound p now nonces token key amounts given limit children limited h n made =
    let (bound, rest) =
      limit_checked token.constraints.quantity_limit limit (total amounts) _ limited made in
    let (l, e, each) =
      turns_made p now token key amounts nonces (subject_list token.subject_did amounts given)
        rest in
    let parts =
      split_each-quantities p now token key limit limited amounts l nonces children
        (subject_list-length token.subject_did amounts given e) n
        (AllWithin-of_total limit amounts h bound) each in
    (parts, rw parts bound)
