-- ===== src/Security/Jsonld.antt =====
-- How crates/lakecat-security/src/lib.rs reads terms, strings, numbers and lists of JSON-LD.
use lakecat.Prelude.{Text, text, ℕ, Option, none, some, List, [], ◌∷◌, String, is_blank}
use lakecat.Prelude.Decimal.{parse_u64}
use lakecat.Prelude.Json.{Json, get, as_str, as_array, as_u64, list_of, arr, obj}
use lakecat.Prelude.Options.{and_then}
use lakecat.Prelude.Results.{
  LakeCatResult, ok, err, invalid_argument, ok_or, reject, collect, ◌>>=◌, ◌>>◌,
}
use lakecat.Core.Names.{is_empty}
use lakecat.Security.Columns.{dedup_columns}

-- `Option::or_else`, of a value that has no effects
abbrev pub or_else {ℓ} : {A : Type ℓ} → Option A → Option A → Option A
or_else (some a) b = some a
or_else none b = b

-- `into_iter().flatten()`
unfoldable pub flatten {ℓ} : {A : Type ℓ} → List (Option A) → List A
flatten [] = []
flatten (none ∷ rest) = flatten rest
flatten (some a ∷ rest) = a ∷ flatten rest

-- the member of a member
unfoldable pub get_in : Json → String → String → Option Json
get_in value outer inner = and_then (get value (text outer)) (λ v. get v (text inner))

unfoldable pub jsonld_term : Json → Option Text
jsonld_term value = or_else (as_str value) (and_then (get value (text "@id")) as_str)

unfoldable pub jsonld_string_value : Json → Option Text
jsonld_string_value value = or_else (as_str value) (and_then (get value (text "@value")) as_str)

unfoldable pub jsonld_u64_value : Json → Option ℕ
jsonld_u64_value value =
    or_else (as_u64 value) (
      and_then (get value (text "@value"))
        (λ v. or_else (as_u64 v) (and_then (as_str v) parse_u64)))

-- `trim().is_empty()`
unfoldable pub require_nonblank_string : Text → String → LakeCatResult Text
require_nonblank_string value label = do
  reject (is_blank value) (invalid_argument "{label} must not be blank" (text label ∷ []))
  ok value

unfoldable pub nonblank_jsonld_string : String → Json → LakeCatResult Text
nonblank_jsonld_string label value = do
  t ←
      ok_or (jsonld_string_value value)
        (invalid_argument "{label} must be strings" (text label ∷ []))
  require_nonblank_string t label

unfoldable pub ttl_value : Json → LakeCatResult (Option ℕ)
ttl_value value = do
  n ←
      ok_or (jsonld_u64_value value) (
        invalid_argument "ODRL max credential TTL must be an unsigned integer number of seconds" [])
  ok (some n)

unfoldable pub row_predicate_value : Json → LakeCatResult Json
row_predicate_value (obj fs) = ok (obj fs)
row_predicate_value other =
    err (invalid_argument "ODRL row predicate must be an Iceberg expression object" [])

unfoldable pub values_as_slice : Option Json → List Json
values_as_slice none = []
values_as_slice (some (arr xs)) = list_of xs
values_as_slice (some other) = other ∷ []

-- a value that is neither an array nor a list object
unfoldable pub string_alone : Json → String → LakeCatResult (List Text)
string_alone value label = elim (jsonld_string_value value) [
  | some t ↦ do s ← nonblank_jsonld_string label value; ok (s ∷ [])
  | none ↦ err (invalid_argument "{label} must be a string or string array" (text label ∷ []))
]

unfoldable pub string_object : Json → String → LakeCatResult (List Text)
string_object value label = elim (get value (text "@list")) [
  | some listed ↦ do
    values ←
        ok_or (as_array listed)
          (invalid_argument "{label} @list must be an array" (text label ∷ []))
    collect (nonblank_jsonld_string label) values
  | none ↦ string_alone value label
]

unfoldable pub raw_strings : Json → String → LakeCatResult (List Text)
raw_strings (arr xs) label = collect (nonblank_jsonld_string label) (list_of xs)
raw_strings (obj fs) label = string_object (obj fs) label
raw_strings other label = string_alone other label

unfoldable pub string_list : Json → String → LakeCatResult (List Text)
string_list value label = do
  raw ← raw_strings value label
  reject (is_empty raw) (invalid_argument "{label} must not be empty" (text label ∷ []))
  ok (dedup_columns raw)
