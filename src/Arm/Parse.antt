-- ===== src/Arm/Parse.antt =====
-- `ARMUri`, `parse_uri` and `ARMUri.__str__` of protocol/arm.py. The regular expression reads a
-- provider and then segments, none of which can hold a slash, so it is read by splitting.
use Prim.Native.Char.{Char, code}
use Prim.Native.String.{String, ◌++◌ as str_append}
use qasp.Prelude.{
  ℕ, ◌≡◌, refl, Option, none, some, Bool, true, not, ◌&&◌, ◌||◌, List, [], ◌∷◌, leb, ◌==◌, str_eq,
  is_nonempty, if◌then◌else◌,
}
use qasp.Prelude.Result.{Result, ok, err, invalid_arm_uri}

-- The scheme is always "qasp".
pub record ArmUri : Type 0 where
  pub provider : String
  pub segments : List String
  pub raw : String

abbrev is_alnum : ℕ → Bool
is_alnum c = leb b'A' c && leb c b'Z' || (leb b'a' c && leb c b'z' || leb b'0' c && leb c b'9')

abbrev is_provider_char : ℕ → Bool
is_provider_char c = is_alnum c || (c == b'-' || c == b'.')

abbrev is_segment_char : ℕ → Bool
is_segment_char c = is_alnum c || (c == b'-' || (c == b'_' || (c == b'.' || c == b'*')))

abbrev all_chars : (ℕ → Bool) → String → Bool
all_chars ok_char String.[] = true
all_chars ok_char (String.◌∷◌ c s) = ok_char (code c) && all_chars ok_char s

-- One or more characters of a class.
abbrev is_run : (ℕ → Bool) → String → Bool
is_run ok_char s = not (str_eq s "") && all_chars ok_char s

abbrev all_runs : List String → Bool
all_runs [] = true
all_runs (s ∷ l) = is_run is_segment_char s && all_runs l

-- What follows a given prefix.
abbrev strip_prefix : String → String → Option String
strip_prefix String.[] s = some s
strip_prefix (String.◌∷◌ c p) String.[] = none
strip_prefix (String.◌∷◌ c p) (String.◌∷◌ d s) = if code c == code d then strip_prefix p s else none

-- `$` also matches before a newline that ends the string.
abbrev strip_newline : String → String
strip_newline String.[] = ""
strip_newline (String.◌∷◌ c s) =
    if code c == 10 && str_eq s "" then "" else String.◌∷◌ c (strip_newline s)

abbrev extend_first : Char → List String → List String
extend_first c [] = String.◌∷◌ c "" ∷ []
extend_first c (s ∷ l) = String.◌∷◌ c s ∷ l

-- s.split("/")
abbrev split_slash : String → List String
split_slash String.[] = "" ∷ []
split_slash (String.◌∷◌ c s) =
    if code c == b'/' then "" ∷ split_slash s else extend_first c (split_slash s)

-- A "*" may stand as the last segment only.
abbrev wildcards_last : List String → Bool
wildcards_last [] = true
wildcards_last (s ∷ l) = (not (str_eq s "*") || not (is_nonempty l)) && wildcards_last l

abbrev check_parts : String → List String → Result ArmUri
check_parts uri [] = err invalid_arm_uri
check_parts uri (provider ∷ segments) =
    if is_run is_provider_char provider && all_runs segments
    then (if wildcards_last segments
        then ok (record { provider = provider; segments = segments; raw = uri })
        else err invalid_arm_uri)
    else err invalid_arm_uri

unfoldable pub parse_uri : String → Result ArmUri
parse_uri uri = elim (strip_prefix "qasp://" uri) [
  | none ↦ err invalid_arm_uri
  | some rest ↦ check_parts uri (split_slash (strip_newline rest))
]

-- "/".join(segments)
abbrev join_slash : List String → String
join_slash [] = ""
join_slash (s ∷ []) = s
join_slash (s ∷ t ∷ l) = str_append s (str_append "/" (join_slash (t ∷ l)))

unfoldable pub uri_text : ArmUri → String
uri_text u =
    let path = join_slash u.segments in
    if str_eq path ""
    then str_append "qasp://" u.provider
    else str_append "qasp://" (str_append u.provider (str_append "/" path))

parse_path :
    parse_uri "qasp://acme/gpu/*"
    ≡ ok (record { provider = "acme"; segments = "gpu" ∷ "*" ∷ []; raw = "qasp://acme/gpu/*" })
unfolding parse_uri
parse_path = refl

parse_wildcard_inside : parse_uri "qasp://acme/*/gpu" ≡ err invalid_arm_uri
unfolding parse_uri
parse_wildcard_inside = refl

parse_empty_segment : parse_uri "qasp://acme//gpu" ≡ err invalid_arm_uri
unfolding parse_uri
parse_empty_segment = refl

print_path :
    uri_text (record { provider = "acme"; segments = "gpu" ∷ "*" ∷ []; raw = "" })
    ≡ "qasp://acme/gpu/*"
unfolding uri_text
print_path = refl
