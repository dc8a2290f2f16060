-- ===== src/Arm/Meet.antt =====
-- What the last part of `intersect_uris` returns.
use qasp.Prelude.{
  ◌<◌, String, ◌≡◌, refl, ap, some, false, List, [], ◌∷◌, ◌++◌, arith, length, length-append, take,
  texts_eq_iff, eq_iff,
}
use qasp.Arm.{ArmUri, segments_match, concrete, common_length, common_scope, uri_text}
use qasp.Arm.Scope.{
  not-Covers-two, not-Covers-match, ends_in_wildcard-append, drop_last-append, take-append,
}

common_length-append : (a rest : List String) → common_length a (a ++ rest) ≡ length a
unfolding common_length
common_length-append [] rest = refl
common_length-append (x ∷ a) rest = ground (arith, common_length-append a rest, eq_iff x x)

concrete-append : (above : List String) → concrete (above ++ ("*" ∷ [])) ≡ above
unfolding concrete
concrete-append above = rw (ends_in_wildcard-append above) (drop_last-append above "*")

take_all : (xs : List String) → take (length xs) xs ≡ xs
take_all [] = refl
take_all (x ∷ xs) = ap (λ l. x ∷ l) (take_all xs)

-- Of two patterns that end in "*", the first with at least one segment before it and the second
-- with one segment more, the last part of the intersection returns the second, which the first does not cover: a last "*" stands for one segment only.
pub meet_not_covered :
    (a b : ArmUri) (above : List String) (s : String)
    → 0 < length above
    → a.segments ≡ above ++ ("*" ∷ [])
    → b.segments ≡ (above ++ (s ∷ [])) ++ ("*" ∷ [])
    → (common_scope a b ≡ some (uri_text b)) × (segments_match a.segments b.segments ≡ false)
unfolding common_scope
meet_not_covered a b above s nonempty ea eb =
    let ca : concrete a.segments ≡ above = rw ea (concrete-append above) in
    let cb : concrete b.segments ≡ above ++ (s ∷ []) =
      rw eb (concrete-append (above ++ (s ∷ []))) in
    (
      rw (ca, cb, common_length-append above (s ∷ []), take-append above (s ∷ []))
          (ground (arith, length-append above (s ∷ []), take_all above, texts_eq_iff above above)),
      rw (ea, eb)
          (not-Covers-match _ _ (
            not-Covers-two above ((above ++ (s ∷ [])) ++ ("*" ∷ [])) (
              omega (
                arith,
                length-append (above ++ (s ∷ [])) ("*" ∷ []),
                length-append above (s ∷ []),
              )))),
    )
