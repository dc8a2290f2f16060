-- ===== src/Arm/Scope.antt =====
-- What `uri_matches` decides on parsed URIs, and how far attenuation composes.
use qasp.Prelude.{
  ◌+◌, ◌≤◌, ◌<◌, String, ◌≡◌, refl, sym, ap, ◌∙◌, ◌↔◌, ◌≢◌, inl, inr, true, false, List, [], ◌∷◌,
  ◌++◌, arith, length, take, drop, length-append, length-drop, take-append-drop, Bool-cases, eq_iff,
  texts_eq, texts_eq_iff,
}
use qasp.Arm.{ends_in_wildcard, drop_last, starts_with, wildcard_matches, segments_match}

-- A pattern covers a target that is equal to it, or that has any one segment in place of the
-- pattern's last "*", or, if it does not end in "*", that goes on below it.
pub data Covers (p t : List String) : Type 0 where
  same : p ≡ t → Covers p t
  wild :
      (above : List String) (s : String)
      → p ≡ above ++ ("*" ∷ [])
      → t ≡ above ++ (s ∷ [])
      → Covers p t
  below :
      (s : String) (rest : List String)
      → ends_in_wildcard p ≡ false
      → t ≡ p ++ (s ∷ rest)
      → Covers p t

ends_in_wildcard_lem : (p : List String) → ends_in_wildcard p ≡ true → p ≡ drop_last p ++ ("*" ∷ [])
unfolding ends_in_wildcard drop_last
ends_in_wildcard_lem [] h = cc
ends_in_wildcard_lem (s ∷ []) h = ap (λ x. x ∷ []) ((eq_iff s "*").0 h)
ends_in_wildcard_lem (s ∷ t ∷ l) h = ap (λ x. s ∷ x) (ends_in_wildcard_lem (t ∷ l) h)

pub ends_in_wildcard-append : (above : List String) → ends_in_wildcard (above ++ ("*" ∷ [])) ≡ true
unfolding ends_in_wildcard
ends_in_wildcard-append [] = refl
ends_in_wildcard-append (s ∷ []) = refl
ends_in_wildcard-append (s ∷ t ∷ l) = ends_in_wildcard-append (t ∷ l)

pub drop_last-append : (above : List String) (s : String) → drop_last (above ++ (s ∷ [])) ≡ above
unfolding drop_last
drop_last-append [] s = refl
drop_last-append (a ∷ []) s = refl
drop_last-append (a ∷ b ∷ l) s = ap (λ x. a ∷ x) (drop_last-append (b ∷ l) s)

pub take-append : (xs ys : List String) → take (length xs) (xs ++ ys) ≡ xs
take-append [] ys = refl
take-append (x ∷ xs) ys = ap (λ l. x ∷ l) (take-append xs ys)

starts_with-append : (p rest : List String) → starts_with (p ++ rest) p ≡ true
starts_with-append p rest = rw (take-append p rest) ((texts_eq_iff p p).1 refl)

-- A target that starts with `p` and is longer goes on below it.
starts_with_lem : (p t : List String) → starts_with t p ≡ true → t ≡ p ++ drop (length p) t
starts_with_lem p t h =
    let e : take (length p) t ≡ p = (texts_eq_iff (take (length p) t) p).0 h in
    sym (ap (λ l. l ++ drop (length p) t) (sym e) ∙ take-append-drop (length p) t)

abbrev IsCons : List String → Type 0
IsCons l = (s : String) × (rest : List String) × (l ≡ s ∷ rest)

IsCons-of_length : (l : List String) → 0 < length l → IsCons l
IsCons-of_length [] h = elim h [ ]
IsCons-of_length (s ∷ rest) h = (s, rest, refl)

abbrev IsSingle : List String → Type 0
IsSingle l = (s : String) × (l ≡ s ∷ [])

IsSingle-of_length : (l : List String) → length l ≡ 1 → IsSingle l
IsSingle-of_length [] h = absurd (omega arith)
IsSingle-of_length (s ∷ []) h = (s, refl)
IsSingle-of_length (s ∷ t ∷ l) h = absurd (omega arith)

wildcard_matches_lem :
    (prefix t : List String)
    → wildcard_matches prefix t ≡ true
    → (length t ≡ length prefix + 1) × (starts_with t prefix ≡ true)
unfolding wildcard_matches
wildcard_matches_lem prefix t h = (ground arith, ground arith)

wildcard_matches-append :
    (prefix : List String) (s : String) → wildcard_matches prefix (prefix ++ (s ∷ [])) ≡ true
unfolding wildcard_matches
wildcard_matches-append prefix s =
    ground (arith, length-append prefix (s ∷ []), starts_with-append prefix (s ∷ []))

wildcard-Covers :
    (p t : List String)
    → ends_in_wildcard p ≡ true
    → wildcard_matches (drop_last p) t ≡ true
    → Covers p t
wildcard-Covers p t w m =
    let (len, start) = wildcard_matches_lem (drop_last p) t m in
    let rest = drop (length (drop_last p)) t in
    let (s, e) = IsSingle-of_length rest (omega (arith, length-drop (length (drop_last p)) t)) in
    Covers.wild (drop_last p) s (ends_in_wildcard_lem p w)
      (starts_with_lem (drop_last p) t start ∙ ap (λ l. drop_last p ++ l) e)

prefix-Covers :
    (p t : List String)
    → ends_in_wildcard p ≡ false
    → length p < length t
    → starts_with t p ≡ true
    → Covers p t
prefix-Covers p t w len start =
    let rest = drop (length p) t in
    let (s, l, e) = IsCons-of_length rest (omega (arith, length-drop (length p) t)) in
    Covers.below s l w (starts_with_lem p t start ∙ ap (λ l'. p ++ l') e)

segments_match-Covers : (p t : List String) → segments_match p t ≡ true → Covers p t
unfolding segments_match
segments_match-Covers p t h = elim (Bool-cases (texts_eq p t)) [
  | inl e ↦ Covers.same ((texts_eq_iff p t).0 e)
  | inr ne ↦ elim (Bool-cases (ends_in_wildcard p)) [
    | inl w ↦ wildcard-Covers p t w (ground arith)
    | inr nw ↦ prefix-Covers p t nw (ground arith) (ground arith)
  ]
]

Covers-segments_match : (p t : List String) → Covers p t → segments_match p t ≡ true
unfolding segments_match
Covers-segments_match p t (Covers.same e) = ground (arith, texts_eq_iff p t)
Covers-segments_match p t (Covers.wild above s e f) =
    rw
      (
        e,
        f,
        drop_last-append above "*",
        ends_in_wildcard-append above,
        wildcard_matches-append above s,
      )
      (ground arith)
Covers-segments_match p t (Covers.below s rest w e) =
    let start : starts_with t p ≡ true = rw e (starts_with-append p (s ∷ rest)) in
    let size : length t ≡ length p + length (s ∷ rest) = rw e (length-append p (s ∷ rest)) in
    ground arith

-- On the segments of two URIs the code's test is true exactly when the pattern covers the target:
-- it is equal to the target, has its last "*" in place of one segment, or has no "*" at its end
-- and is a proper prefix.
pub segments_match_iff : (p t : List String) → (segments_match p t ≡ true) ↔ Covers p t
segments_match_iff p t = (segments_match-Covers p t, Covers-segments_match p t)

-- A target that is two segments longer than what stands above a last "*" is not covered by it.
pub not-Covers-two :
    (above t : List String) → length above + 2 ≤ length t → ¬ Covers (above ++ ("*" ∷ [])) t
not-Covers-two above t h (Covers.same e) =
    omega (arith, ap (λ l. length l) e, length-append above ("*" ∷ []))
not-Covers-two above t h (Covers.wild above' s e f) = omega (
  arith,
  ap (λ l. length l) e,
  ap (λ l. length l) f,
  length-append above ("*" ∷ []),
  length-append above' ("*" ∷ []),
  length-append above' (s ∷ []),
)
not-Covers-two above t h (Covers.below s rest w e) = cc (ends_in_wildcard-append above, w)

pub not-Covers-match : (p t : List String) → ¬ Covers p t → segments_match p t ≡ false
not-Covers-match p t h = elim (Bool-cases (segments_match p t)) [
  | inl m ↦ absurd (h (segments_match-Covers p t m))
  | inr n ↦ n
]

ends_in_wildcard-snoc :
    (above : List String) (s : String) → s ≢ "*" → ends_in_wildcard (above ++ (s ∷ [])) ≡ false
unfolding ends_in_wildcard
ends_in_wildcard-snoc [] s h = ground (arith, eq_iff s "*", h)
ends_in_wildcard-snoc (a ∷ []) s h = ground (arith, eq_iff s "*", h)
ends_in_wildcard-snoc (a ∷ b ∷ l) s h = ends_in_wildcard-snoc (b ∷ l) s h

-- From a pattern that ends in "*", two attenuations escape: the pattern covers any one segment
-- other than "*" in place of the "*", that segment covers everything below itself, and the pattern does not.
pub wildcard_attenuation_escapes :
    (above : List String) (s x : String) (rest : List String)
    → s ≢ "*"
    → (segments_match (above ++ ("*" ∷ [])) (above ++ (s ∷ [])) ≡ true)
      × (segments_match (above ++ (s ∷ [])) ((above ++ (s ∷ [])) ++ (x ∷ rest)) ≡ true)
      × (segments_match (above ++ ("*" ∷ [])) ((above ++ (s ∷ [])) ++ (x ∷ rest)) ≡ false)
wildcard_attenuation_escapes above s x rest h = (
  Covers-segments_match _ _ (Covers.wild above s refl refl),
  Covers-segments_match _ _ (Covers.below x rest (ends_in_wildcard-snoc above s h) refl),
  not-Covers-match _ _ (
      not-Covers-two above ((above ++ (s ∷ [])) ++ (x ∷ rest)) (
        omega (arith, length-append (above ++ (s ∷ [])) (x ∷ rest), length-append above (s ∷ [])))),
)
