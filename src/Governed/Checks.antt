-- ===== src/Governed/Checks.antt =====
-- crates/lakecat-core/src/governed_scan/validation.rs, and the check of digests in
-- governed_scan.rs.
use lakecat.Prelude.{
  Text, Text-discrete, text, text_len, trim, any, all, holds, ltb, leb, ◌==◌, length, ℕ, ◌+◌, ◌*◌,
  ◌^◌, Bool, true, false, not, ◌&&◌, ◌||◌, Option, none, some, List, [], ◌∷◌, String, strip_prefix,
}
use lakecat.Prelude.Results.{
  LakeCatResult, ok, invalid_argument, reject, ensure, for_each, map_err, ◌>>=◌, ◌>>◌,
}
use lakecat.Core.Names.{TableIdent, validate_name, is_empty}
use lakecat.Security.Columns.{to_seen}

abbrev pub max_governed_scan_text_bytes : ℕ
max_governed_scan_text_bytes = 4 * 1024

abbrev pub max_governed_scan_projection_fields : ℕ
max_governed_scan_projection_fields = 256

abbrev pub max_governed_scan_projection_bytes : ℕ
max_governed_scan_projection_bytes = 64 * 1024

abbrev pub max_governed_scan_namespace_components : ℕ
max_governed_scan_namespace_components = 256

abbrev pub max_governed_scan_namespace_bytes : ℕ
max_governed_scan_namespace_bytes = 64 * 1024

-- `char::is_control`
abbrev pub is_control : ℕ → Bool
is_control c = ltb c 0x20 || (leb 0x7f c && leb c 0x9f)

-- a digit as `hex::encode` prints it
abbrev pub is_lower_hexdigit : ℕ → Bool
is_lower_hexdigit byte = (leb b'0' byte && leb byte b'9') || (leb b'a' byte && leb byte b'f')

unfoldable pub is_canonical_digest : Option Text → Bool
is_canonical_digest none = false
is_canonical_digest (some hex) = text_len hex == 64 && all is_lower_hexdigit hex

unfoldable pub validate_governed_sha256_digest : Text → String → LakeCatResult (Unit {0})
validate_governed_sha256_digest digest label =
    ensure (is_canonical_digest (strip_prefix (text "sha256:") digest)) (
      invalid_argument "governed scan {label} digest must be canonical lowercase SHA-256 evidence"
        (text label ∷ []))

unfoldable pub validate_governed_scan_text : Text → LakeCatResult (Unit {0})
validate_governed_scan_text value =
    reject
      (is_empty value
        || ltb max_governed_scan_text_bytes (text_len value)
        || not (holds (Text-discrete value (trim value)))
        || any is_control value)
      (invalid_argument
        "governed scan text must be canonical and at most {MAX_GOVERNED_SCAN_TEXT_BYTES} UTF-8 bytes"
        [])

-- the loop of `validate_string_budget`
unfoldable pub add_lengths : ℕ → List Text → LakeCatResult ℕ
add_lengths total [] = ok total
add_lengths total (value ∷ values) = do
  validate_governed_scan_text value
  ensure (ltb (total + text_len value) (2 ^ 64))
      (invalid_argument "governed scan {label} exceeds its byte limit" [])
  add_lengths (total + text_len value) values

unfoldable pub validate_string_budget : List Text → String → ℕ → LakeCatResult (Unit {0})
validate_string_budget values label maximum = do
  total ← add_lengths 0 values
  reject (ltb maximum total) (
      invalid_argument "governed scan {label} exceeds {maximum} aggregate UTF-8 bytes"
        (text label ∷ []))

unfoldable pub validate_governed_scan_table : TableIdent → LakeCatResult (Unit {0})
validate_governed_scan_table table = do
  validate_governed_scan_text table.warehouse
  validate_governed_scan_text table.name
  map_err (λ _. invalid_argument "governed scan warehouse is not a valid catalog name" [])
      (validate_name "warehouse" table.warehouse)
  map_err (λ _. invalid_argument "governed scan table is not a valid catalog name" [])
      (validate_name "table" table.name)
  reject
      (is_empty table.namespace
        || ltb max_governed_scan_namespace_components (length table.namespace))
      (invalid_argument
        "governed scan namespace must contain at most {MAX_GOVERNED_SCAN_NAMESPACE_COMPONENTS} components"
        [])
  validate_string_budget table.namespace "namespace" max_governed_scan_namespace_bytes
  for_each
      (λ part.
        map_err
          (λ _. invalid_argument "governed scan namespace contains an invalid catalog name" [])
          (validate_name "namespace component" part))
      table.namespace

unfoldable pub validate_fields_of : List Text → String → LakeCatResult (Unit {0})
validate_fields_of fields label = do
  reject (ltb max_governed_scan_projection_fields (length fields)) (
      invalid_argument
        "governed scan {label} contains more than {MAX_GOVERNED_SCAN_PROJECTION_FIELDS} fields"
        (text label ∷ []))
  validate_string_budget fields label max_governed_scan_projection_bytes
  ensure (length (to_seen fields) == length fields)
      (invalid_argument "governed scan {label} fields must be unique" (text label ∷ []))

unfoldable pub validate_projection : List Text → Bool → String → LakeCatResult (Unit {0})
validate_projection [] allow_empty label =
    ensure allow_empty (invalid_argument "governed scan proof projection must not be empty" [])
validate_projection (field ∷ fields) allow_empty label = validate_fields_of (field ∷ fields) label

unfoldable pub validate_governed_scan_projection : List Text → LakeCatResult (Unit {0})
validate_governed_scan_projection fields = validate_projection fields false "proof projection"

unfoldable pub validate_governed_scan_requested_projection : List Text → LakeCatResult (Unit {0})
validate_governed_scan_requested_projection fields =
    validate_projection fields true "requested projection"
