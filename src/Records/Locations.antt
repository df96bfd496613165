-- ===== src/Records/Locations.antt =====
-- The path checks on locations in crates/lakecat-store/src/helpers.rs. They work on bytes; here on
-- characters, of which those beyond ASCII are neither `%`, nor `.`, nor digits, nor separators.
use lakecat.Prelude.{
  Text, Text-discrete, text, starts_with, strip_prefix, any, leb, ◌==◌, holds, if◌then◌else◌, ℕ,
  ◌+◌, ◌-◌, ◌*◌, Bool, true, false, ◌&&◌, ◌||◌, Option, none, some, [], ◌∷◌,
}
use lakecat.Prelude.Lists.{split}
use lakecat.Prelude.Options.{◌>>=◌}

unfoldable pub hex_value : ℕ → Option ℕ
hex_value byte =
    if leb b'0' byte && leb byte b'9'
    then some (byte - b'0')
    else if leb b'a' byte && leb byte b'f'
    then some (byte - b'a' + 10)
    else if leb b'A' byte && leb byte b'F'
    then some (byte - b'A' + 10)
    else none

-- the byte that `%` and two digits stand for
unfoldable pub escape : (percent high low : ℕ) → Option ℕ
escape percent high low =
    if percent == b'%'
    then (hex_value high >>= λ a. hex_value low >>= λ b. some (a * 16 + b))
    else none

unfoldable pub decode : Text → Text
decode [] = []
decode (c ∷ []) = c ∷ []
decode (c ∷ h ∷ []) = c ∷ h ∷ []
decode (c ∷ h ∷ l ∷ rest) = elim (escape c h l) [
  | some b ↦ b ∷ decode rest
  | none ↦ c ∷ decode (h ∷ l ∷ rest)
]

unfoldable pub percent_decode_segment : Text → Option Text
percent_decode_segment segment =
    if any (λ c. c == b'%') segment then some (decode segment) else none

abbrev pub is_dots : Text → Bool
is_dots t = holds (Text-discrete t (text ".")) || holds (Text-discrete t (text ".."))

unfoldable pub is_dot_path_segment : Text → Bool
is_dot_path_segment segment = elim (percent_decode_segment segment) [
  | some decoded ↦ is_dots decoded
  | none ↦ is_dots segment
]

-- `location.split_once(['?', '#'])`: what stands before the first
unfoldable pub before_query : Text → Text
before_query [] = []
before_query (c ∷ cs) =
    let rest = before_query cs in if c == b'?' || c == b'#' then [] else c ∷ rest

unfoldable pub location_has_dot_path_segment : Text → Bool
location_has_dot_path_segment location =
    any is_dot_path_segment (split b'/' (before_query location))

unfoldable pub secret_ref_has_dot_path_segment : Text → Bool
secret_ref_has_dot_path_segment secret_ref =
    any is_dot_path_segment (split b'/' (before_query secret_ref))

unfoldable pub ends_with_slash : Text → Bool
ends_with_slash [] = false
ends_with_slash (c ∷ []) = c == b'/'
ends_with_slash (c ∷ d ∷ cs) = ends_with_slash (d ∷ cs)

abbrev pub starts_with_slash : Option Text → Bool
starts_with_slash none = false
starts_with_slash (some suffix) = starts_with suffix (b'/' ∷ [])

unfoldable pub location_matches_storage_profile_prefix : (location location_prefix : Text) → Bool
location_matches_storage_profile_prefix location location_prefix =
    if holds (Text-discrete location location_prefix)
    then true
    else if ends_with_slash location_prefix
    then starts_with location location_prefix
    else starts_with_slash (strip_prefix location_prefix location)
