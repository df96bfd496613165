-- ===== src/Records/Evidence.antt =====
-- Content hashes (crates/lakecat-core/src/lib.rs) and the shape checks on hashes, keys and
-- locations (crates/lakecat-store/src/records.rs and helpers.rs).
use lakecat.Prelude.{
  Text, text, text_len, ℕ, ◌==◌, ltb, all, any, is_ascii_hexdigit, is_ascii_alphanumeric, is_blank,
  to_ascii_lowercase, contains, strip_prefix, Bool, true, false, not, ◌&&◌, ◌||◌, Option, none,
  some, List, [], ◌∷◌, ◌++◌, String,
}
use lakecat.Prelude.Results.{
  LakeCatResult, ok, invalid_argument, internal, reject, ensure, map_err, ok_or, ◌>>=◌, ◌>>◌,
}
use lakecat.Prelude.Json.{Json}
use lakecat.Records.External.{External, Url}

module _ ⦃ext : External⦄ where
  unfoldable pub content_hash_bytes : Text → Text
  content_hash_bytes value = text "sha256:" ++ ext.sha256_hex value

  unfoldable pub content_hash_json : Json → LakeCatResult Text
  content_hash_json value = do
    encoded ← ok_or (ext.to_writer value) (internal "failed to encode JSON: {err}" [])
    ok (text "sha256:" ++ ext.sha256_hex encoded)

  abbrev pub decorated : Option Url → Bool
  decorated none = false
  decorated (some url) =
      url.has_query || url.has_fragment || not (is_empty url.username) || url.has_password
    where
      is_empty : Text → Bool
      is_empty [] = true
      is_empty (c ∷ cs) = false

  unfoldable pub location_has_query_fragment_or_userinfo : Text → Bool
  location_has_query_fragment_or_userinfo location =
      decorated (ext.url_parse location) || any (λ c. c == b'?' || c == b'#') location

-- `sha256:` and 64 hexadecimal digits
unfoldable pub is_sha256 : Text → Bool
is_sha256 value = elim (strip_prefix (text "sha256:") value) [
  | none ↦ false
  | some digest ↦ text_len digest == 64 && all is_ascii_hexdigit digest
]

unfoldable pub validate_sha256_evidence : Text → String → LakeCatResult (Unit {0})
validate_sha256_evidence value message = ensure (is_sha256 value) (internal message [])

unfoldable pub validate_idempotency_request_hash_shape : Text → LakeCatResult (Unit {0})
validate_idempotency_request_hash_shape value =
    ensure (is_sha256 value)
      (invalid_argument "table commit idempotency request hash must be full SHA-256 evidence" [])

unfoldable pub validate_idempotency_record_request_hash : Text → LakeCatResult (Unit {0})
validate_idempotency_record_request_hash row_request_hash =
    map_err (λ _. internal "idempotency record request hash must be full SHA-256 evidence" [])
      (validate_idempotency_request_hash_shape row_request_hash)

unfoldable pub validate_outbox_event_id_shape : Text → LakeCatResult (Unit {0})
validate_outbox_event_id_shape value =
    ensure (is_sha256 value) (invalid_argument "outbox event id must be full SHA-256 evidence" [])

abbrev pub is_key_char : ℕ → Bool
is_key_char ch = is_ascii_alphanumeric ch || ch == b'-' || ch == b'_' || ch == b'.' || ch == b':'

unfoldable pub validate_idempotency_key_shape : Text → LakeCatResult (Unit {0})
validate_idempotency_key_shape value = do
  reject (text_len value == 0 || ltb 128 (text_len value) || not (all (λ c. ltb c 0x80) value))
      (invalid_argument "table commit idempotency key must be 1..=128 ASCII characters" [])
  ensure (all is_key_char value) (
      invalid_argument
        "table commit idempotency key may only contain A-Z, a-z, 0-9, '-', '_', '.', or ':'" [])

abbrev pub secret_patterns : List String
secret_patterns =
    "password=" ∷ "secret=" ∷ "token=" ∷ "credential=" ∷ "api_key=" ∷ "apikey=" ∷ "access_key="
    ∷ "private_key=" ∷ "pass=" ∷ "auth=" ∷ "aws_access_key_id=" ∷ "aws_secret_access_key="
    ∷ "aws_session_token=" ∷ []

unfoldable pub embeds_raw_secret_material : Text → Bool
embeds_raw_secret_material value =
    let normalized = to_ascii_lowercase value in
    any (λ p. contains normalized (text p)) secret_patterns

-- `o.as_deref().is_some_and(|location| location.trim().is_empty())`
unfoldable pub is_blank_some : Option Text → Bool
is_blank_some none = false
is_blank_some (some location) = is_blank location

module _ ⦃ext : External⦄ where
  unfoldable pub validate_commit_record_metadata_location :
      Option Text → String → LakeCatResult (Unit {0})
  validate_commit_record_metadata_location none label = ok tt
  validate_commit_record_metadata_location (some location) label = do
    reject (location_has_query_fragment_or_userinfo location) (
        internal
          "table commit record {label} metadata location must not contain decorated location material; metadata-location-hash={}"
          (text label ∷ content_hash_bytes location ∷ []))
    reject (embeds_raw_secret_material location) (
        internal
          "table commit record {label} metadata location must not contain credential material; metadata-location-hash={}"
          (text label ∷ content_hash_bytes location ∷ []))
