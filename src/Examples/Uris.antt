-- ===== src/Examples/Uris.antt =====
-- The theorems on resource URIs, at examples.
use qasp.Prelude.{◌≡◌, ◌↔◌, true, false, [], ◌∷◌}
use qasp.Arm.{segments_match}
use qasp.Arm.Scope.{Covers, segments_match_iff, wildcard_attenuation_escapes}

segments_match_iff_example :
    (segments_match ("data" ∷ "*" ∷ []) ("data" ∷ "x" ∷ []) ≡ true)
    ↔ Covers ("data" ∷ "*" ∷ []) ("data" ∷ "x" ∷ [])
segments_match_iff_example = segments_match_iff ("data" ∷ "*" ∷ []) ("data" ∷ "x" ∷ [])

wildcard_attenuation_escapes_example :
    (segments_match ("data" ∷ "*" ∷ []) ("data" ∷ "sales" ∷ []) ≡ true)
    × (segments_match ("data" ∷ "sales" ∷ []) ("data" ∷ "sales" ∷ "2026" ∷ []) ≡ true)
    × (segments_match ("data" ∷ "*" ∷ []) ("data" ∷ "sales" ∷ "2026" ∷ []) ≡ false)
wildcard_attenuation_escapes_example =
    wildcard_attenuation_escapes ("data" ∷ []) "sales" "2026" [] (λ e. cc)
