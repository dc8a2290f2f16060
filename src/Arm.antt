-- ===== src/Arm.antt =====
-- protocol/arm.py: the algebra of resource URIs qasp://provider/segment/...
mod Parse
pub mod Scope
pub mod Meet
pub use Parse.{ArmUri}
unfoldable pub use Parse.{parse_uri, uri_text}
use qasp.Prelude.{
  ℕ, zero, suc, ◌+◌, ◌-◌, String, Option, none, some, Bool, true, false, not, ◌&&◌, ◌||◌, List, [],
  ◌∷◌, ltb, leb, ◌==◌, length, take, if◌then◌else◌, str_eq, texts_eq,
}
use Prim.Native.Nat.{min}
use qasp.Prelude.Result.{Result, ok, ◌>>=◌}

-- `segments and segments[-1] == "*"`, and `segments[:-1]`.
unfoldable pub ends_in_wildcard : List String → Bool
ends_in_wildcard [] = false
ends_in_wildcard (s ∷ []) = str_eq s "*"
ends_in_wildcard (s ∷ t ∷ l) = ends_in_wildcard (t ∷ l)

unfoldable pub drop_last : List String → List String
drop_last [] = []
drop_last (s ∷ []) = []
drop_last (s ∷ t ∷ l) = s ∷ drop_last (t ∷ l)

abbrev starts_with : List String → List String → Bool
starts_with target prefix = texts_eq (take (length prefix) target) prefix

-- The branch of a pattern that ends in a wildcard, after the exact match.
unfoldable pub wildcard_matches : List String → List String → Bool
wildcard_matches prefix target =
    if length target == length prefix + 1
    then starts_with target prefix
    else if leb 1 (length target) && length prefix == 0
    then length target == 1
    else if starts_with target prefix && ltb (length prefix) (length target)
    then length target == length prefix + 1
    else false

unfoldable pub segments_match : List String → List String → Bool
segments_match p t =
    if texts_eq p t
    then true
    else if ends_in_wildcard p
    then wildcard_matches (drop_last p) t
    else if ltb (length p) (length t)
    then starts_with t p
    else false

unfoldable pub parsed_match : ArmUri → ArmUri → Bool
parsed_match p t = str_eq p.provider t.provider && segments_match p.segments t.segments

unfoldable pub uri_matches : String → String → Result Bool
uri_matches pattern target = do p ← parse_uri pattern; t ← parse_uri target; ok (parsed_match p t)

unfoldable pub is_attenuation : String → String → Result Bool
unfolding uri_matches
is_attenuation parent_uri child_uri = uri_matches parent_uri child_uri

unfoldable pub concrete : List String → List String
concrete segments = if ends_in_wildcard segments then drop_last segments else segments

-- The length of the longest common prefix.
unfoldable pub common_length : List String → List String → ℕ
common_length [] b = 0
common_length (x ∷ a) [] = 0
common_length (x ∷ a) (y ∷ b) = if str_eq x y then suc (common_length a b) else 0

-- The end of `intersect_uris`, where neither covers the other.
unfoldable pub common_scope : ArmUri → ArmUri → Option String
common_scope a b =
    let a_concrete = concrete a.segments in
    let b_concrete = concrete b.segments in
    let common = common_length a_concrete b_concrete in
    if common == 0
    then none
    else if ltb common (length a_concrete) && ltb common (length b_concrete)
    then none
    else if texts_eq (take common a_concrete) (take common b_concrete)
    then (if leb (length b_concrete) (length a_concrete)
        then some (uri_text a)
        else some (uri_text b))
    else none

unfoldable pub intersect_uris : String → String → Result (Option String)
unfolding common_scope
intersect_uris uri_a uri_b = do
  a ← parse_uri uri_a
  b ← parse_uri uri_b
  covers ← uri_matches uri_a uri_b
  covered ← uri_matches uri_b uri_a
  ok (
      if not (str_eq a.provider b.provider)
      then none
      else if covers
      then some uri_b
      else if covered
      then some uri_a
      else common_scope a b)
