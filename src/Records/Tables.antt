-- ===== src/Records/Tables.antt =====
-- Validation of table records, commits, commit records and soft deletes
-- (crates/lakecat-store/src/records.rs), and the checks of a row against its key (helpers.rs).
pub mod Scope
pub mod Commit
use lakecat.Prelude.{
  Text, text, ℕ, ◌==◌, is_blank, Bool, true, false, not, Option, none, some, List, [], ◌∷◌, String,
  Text-discrete, ◌≡◌, is_some, ℕ_discrete,
}
use lakecat.Prelude.Results.{
  LakeCatResult, ok, err, invalid_argument, internal, reject, ensure, ensure_that, ok_or, if_some,
  ◌>>=◌, ◌>>◌,
}
use lakecat.Prelude.Json.{Json, is_object, is_positive, is_negative}
use lakecat.Core.Names.{TableIdent, TableIdent-discrete, table_key}
use lakecat.Records.Types.{TableRecord, TableCommit, TableCommitRecord, SoftDeleteRecord}
use lakecat.Records.Metadata.{
  table_metadata_format_version, table_commit_format_version, location_discrete, version_discrete,
}
use lakecat.Records.External.{External}
use lakecat.Records.Evidence.{
  validate_sha256_evidence, validate_idempotency_request_hash_shape, validate_idempotency_key_shape,
  validate_commit_record_metadata_location, is_blank_some, content_hash_json,
}

unfoldable pub validate_table_metadata_format_version : Json → String → LakeCatResult (Unit {0})
validate_table_metadata_format_version metadata label = do
  format_version ←
      ok_or (table_metadata_format_version metadata)
        (invalid_argument "{label} format-version must be present" (text label ∷ []))
  ensure (is_positive format_version)
      (invalid_argument "{label} format-version must be positive" (text label ∷ []))

-- `TableRecord::validate`
unfoldable pub validate_table : TableRecord → LakeCatResult (Unit {0})
validate_table table = do
  reject (is_blank table.location) (invalid_argument "table location must not be empty" [])
  reject (is_blank_some table.metadata_location)
      (invalid_argument "table metadata location must not be empty when present" [])
  ensure (is_object table.metadata) (invalid_argument "table metadata must be a JSON object" [])
  validate_table_metadata_format_version table.metadata "table metadata"

-- `TableCommit::validate`
unfoldable pub validate_commit : TableCommit → LakeCatResult (Unit {0})
validate_commit commit = do
  elim commit.idempotency_key [
    | some key ↦ validate_idempotency_key_shape key
    | none ↦
        reject (is_some commit.idempotency_request_hash)
          (invalid_argument "table commit idempotency request hash requires an idempotency key" [])
  ]
  if_some commit.idempotency_request_hash validate_idempotency_request_hash_shape
  reject (is_blank_some commit.expected_previous_metadata_location)
      (invalid_argument "expected table metadata location must not be empty when present" [])
  reject (is_blank_some commit.new_metadata_location)
      (invalid_argument "new table metadata location must not be empty when present" [])
  if_some commit.new_metadata (λ metadata.
      ensure (is_object metadata) (invalid_argument "new table metadata must be a JSON object" []))
  if_some commit.new_metadata
      (λ metadata. validate_table_metadata_format_version metadata "new table metadata")

module _ ⦃ext : External⦄ where
  -- `TableCommitRecord::validate_for_table`
  unfoldable pub validate_for_table : TableCommitRecord → TableIdent → LakeCatResult (Unit {0})
  validate_for_table record_of ident = do
    ensure_that (TableIdent-discrete record_of.table ident)
        (internal "table commit record table does not match requested table" [])
    reject (record_of.sequence_number == 0)
        (internal "table commit record sequence number must be positive" [])
    reject (is_blank_some record_of.previous_metadata_location) (
        internal "table commit record previous metadata location must not be empty when present" [])
    reject (is_blank_some record_of.new_metadata_location)
        (internal "table commit record new metadata location must not be empty when present" [])
    validate_commit_record_metadata_location record_of.previous_metadata_location "previous"
    validate_commit_record_metadata_location record_of.new_metadata_location "new"
    format_version ←
        ok_or record_of.format_version
          (internal "table commit record format version must be present" [])
    ensure (is_positive format_version)
        (internal "table commit record format version must be positive" [])
    snapshot_id ←
        ok_or record_of.snapshot_id (internal "table commit record snapshot id must be present" [])
    reject (is_negative snapshot_id)
        (internal "table commit record snapshot id must be non-negative" [])
    validate_sha256_evidence record_of.request_hash
        "table commit record request hash must be full SHA-256 evidence"
    validate_sha256_evidence record_of.response_hash
        "table commit record response hash must be full SHA-256 evidence"
    if_some record_of.idempotency_key_sha256 (λ hash.
        validate_sha256_evidence hash
          "table commit record idempotency key hash must be full SHA-256 evidence")
    if_some record_of.policy_hash (λ hash.
        validate_sha256_evidence hash
          "table commit record policy hash must be full SHA-256 evidence")

  unfoldable pub table_response_hash : TableRecord → LakeCatResult Text
  table_response_hash table = content_hash_json (ext.table_record_value table)

-- `SoftDeleteRecord::validate_for_table`
unfoldable pub validate_soft_delete :
    SoftDeleteRecord → TableIdent → TableRecord → LakeCatResult (Unit {0})
validate_soft_delete deleted ident table = do
  validate_table table
  ensure_that (TableIdent-discrete deleted.table ident)
      (invalid_argument "soft-delete record table does not match requested table" [])
  ensure_that (TableIdent-discrete table.ident ident)
      (invalid_argument "soft-delete table record does not match requested table" [])
  reject (is_blank_some deleted.metadata_location)
      (invalid_argument "soft-delete metadata location must not be empty when present" [])
  ensure_that (location_discrete deleted.metadata_location table.metadata_location)
      (invalid_argument "soft-delete metadata location does not match table record" [])
  ensure_that (ℕ_discrete deleted.version table.version)
      (invalid_argument "soft-delete version does not match table record" [])
  format_version ←
      ok_or deleted.format_version
        (invalid_argument "soft-delete format version must be present" [])
  ensure (is_positive format_version)
      (invalid_argument "soft-delete format version must be positive" [])
  ensure_that (version_discrete deleted.format_version (table_commit_format_version table))
      (invalid_argument "soft-delete format version does not match table record" [])
  if_some deleted.authorization_receipt (λ receipt.
      ensure (is_object receipt) (
        invalid_argument "soft-delete authorization receipt must be a JSON object when present" []))

-- helpers.rs
unfoldable pub validate_table_record_identity : TableRecord → TableIdent → LakeCatResult (Unit {0})
validate_table_record_identity table ident = do
  validate_table table
  ensure_that (TableIdent-discrete table.ident ident)
      (internal "table record row scope does not match requested table" [])

unfoldable pub validate_table_record_map_scope : TableRecord → Text → LakeCatResult (Unit {0})
validate_table_record_map_scope table record_key = do
  validate_table table
  ensure_that (Text-discrete (table_key table.ident) record_key)
      (internal "table record row scope does not match requested table" [])

unfoldable pub validate_soft_delete_record_map_scope :
    SoftDeleteRecord → Text → LakeCatResult (Unit {0})
validate_soft_delete_record_map_scope deleted record_key =
    ensure_that (Text-discrete (table_key deleted.table) record_key)
      (internal "soft-delete row scope does not match record identity" [])

unfoldable pub validate_idempotency_record_table_key : Text → TableIdent → LakeCatResult (Unit {0})
validate_idempotency_record_table_key row_table_key ident =
    ensure_that (Text-discrete row_table_key (table_key ident))
      (internal "idempotency record row scope does not match requested table" [])
