-- ===== src/Records/Views.antt =====
-- Views and their version receipts (crates/lakecat-store/src/records.rs and helpers.rs).
use lakecat.Prelude.{
  Text, text, ℕ, ◌+◌, ◌^◌, ◌==◌, ltb, leb, is_blank, trim, is_whitespace, any, contains,
  to_ascii_lowercase, to_string, Option, none, some, List, [], ◌∷◌, ◌++◌, Text-discrete,
  Texts-discrete, holds, ◌&&◌, ◌||◌, if◌then◌else◌,
}
use lakecat.Prelude.Map.{Map}
use lakecat.Prelude.Results.{
  LakeCatResult, ok, err, invalid_argument, internal, conflict, reject, ensure, ensure_that,
  if_some, ◌>>=◌, ◌>>◌,
}
use lakecat.Prelude.Json.{is_null}
use lakecat.Core.Names.{WarehouseName, Namespace, TableName, path, storage_key}
use lakecat.Records.Types.{
  DateTime, Principal, ViewColumnRecord, ViewRecord, upsert, drop, ViewVersionReceipt,
}
use lakecat.Records.External.{External}
use lakecat.Records.Evidence.{content_hash_bytes, content_hash_json, embeds_raw_secret_material}

-- `ViewColumnRecord::validate`
unfoldable pub validate_column : ViewColumnRecord → LakeCatResult (Unit {0})
validate_column column = do
  reject (is_blank column.name) (invalid_argument "view column name must not be empty" [])
  reject (is_null column.data_type)
      (invalid_argument "view column {} data type must not be null" (column.name ∷ []))
  if_some column.comment (λ comment.
      reject (is_blank comment)
        (invalid_argument "view column {} comment must not be empty" (column.name ∷ [])))

-- the loop over the columns, with the names seen
unfoldable pub validate_columns : List Text → List ViewColumnRecord → LakeCatResult (Unit {0})
validate_columns seen [] = ok tt
validate_columns seen (column ∷ columns) = do
  validate_column column
  reject (any (λ n. holds (Text-discrete n column.name)) seen)
      (invalid_argument "view column appears more than once: {}" (column.name ∷ []))
  validate_columns (column.name ∷ seen) columns

unfoldable pub view_key_parts : WarehouseName → Namespace → TableName → Text
view_key_parts warehouse namespace name =
    warehouse ++ (0x1f ∷ (storage_key namespace ++ (0x1f ∷ name)))

unfoldable pub view_key : ViewRecord → Text
view_key view = view_key_parts view.warehouse view.namespace view.name

-- the stable id of a view: `view_stable_id`, and `expected_stable_id` in the receipts' validation
unfoldable pub view_stable_id : WarehouseName → Namespace → TableName → Text
view_stable_id warehouse namespace name =
    text "lakecat:view:" ++ (warehouse ++ (b':' ∷ (path namespace ++ (b':' ∷ name))))

unfoldable pub validate_expected_view_version : ℕ → LakeCatResult (Unit {0})
validate_expected_view_version expected =
    reject (expected == 0) (invalid_argument "expected view version must be greater than zero" [])

unfoldable pub require_expected_view_version : Option ViewRecord → ℕ → LakeCatResult (Unit {0})
require_expected_view_version none expected = err (
    conflict "view expected version {expected} but no current view exists"
      (to_string expected ∷ []))
require_expected_view_version (some previous) expected =
    ensure (previous.view_version == expected) (
      conflict "view expected version {expected} but current version is {}"
        (to_string expected ∷ to_string previous.view_version ∷ []))

module _ ⦃ext : External⦄ where
  unfoldable pub public_config_key_hash_context : Text → Text
  public_config_key_hash_context key = text "public-config-key-hash=" ++ content_hash_bytes key

  unfoldable pub validate_public_config : Map Text Text → LakeCatResult (Unit {0})
  validate_public_config [] = ok tt
  validate_public_config ((key, value) ∷ config) = do
    let normalized = to_ascii_lowercase key
    reject
        (contains normalized (text "secret")
          || contains normalized (text "token")
          || contains normalized (text "password")
          || contains normalized (text "credential"))
        (invalid_argument "storage profile public config key may expose secret material; {}"
          (public_config_key_hash_context key ∷ []))
    reject (embeds_raw_secret_material value) (
        invalid_argument "storage profile public config value may expose secret material; {}"
          (public_config_key_hash_context key ∷ []))
    validate_public_config config

  -- `ViewRecord::validate`
  unfoldable pub validate_view : ViewRecord → LakeCatResult (Unit {0})
  validate_view view = do
    reject (view.view_version == 0) (invalid_argument "view version must be greater than zero" [])
    reject (is_blank view.sql) (invalid_argument "view SQL must not be empty" [])
    reject (is_blank view.dialect) (invalid_argument "view dialect must not be empty" [])
    reject (any is_whitespace (trim view.dialect))
        (invalid_argument "view dialect must not contain whitespace" [])
    validate_columns [] view.columns
    validate_public_config view.properties

  unfoldable pub validate_view_record_scope :
      ViewRecord → WarehouseName → Namespace → TableName → LakeCatResult (Unit {0})
  validate_view_record_scope view warehouse namespace name = do
    validate_view view
    ensure
        (holds (Text-discrete view.warehouse warehouse)
          && holds (Texts-discrete view.namespace namespace)
          && holds (Text-discrete view.name name))
        (internal "view record row scope does not match view identity" [])

  unfoldable pub validate_view_record_map_scope : ViewRecord → Text → LakeCatResult (Unit {0})
  validate_view_record_map_scope view record_key = do
    validate_view view
    ensure_that (Text-discrete (view_key view) record_key)
        (internal "view record row scope does not match view identity" [])

-- `previous.into_iter().chain(latest).max().unwrap_or(0)`
abbrev pub max_version : Option ℕ → Option ℕ → ℕ
max_version none none = 0
max_version (some a) none = a
max_version none (some b) = b
max_version (some a) (some b) = if leb a b then b else a

abbrev pub version_of : Option ViewRecord → Option ℕ
version_of none = none
version_of (some view) = some view.view_version

-- the record that keeps the stamp of its predecessor
abbrev pub keep_created : ViewRecord → Option ViewRecord → ViewRecord
keep_created view none = view
keep_created view (some previous) = record view { created = previous.created }

module _ ⦃ext : External⦄ where
  unfoldable pub with_next_version_after_history :
      ViewRecord → Option ViewRecord → Option ℕ → LakeCatResult ViewRecord
  with_next_version_after_history view previous latest_receipt_version = do
    let base_version = max_version (version_of previous) latest_receipt_version
    ensure (ltb (base_version + 1) (2 ^ 64)) (invalid_argument "view version overflow" [])
    let next = keep_created (record view { view_version = base_version + 1 }) previous
    validate_view next
    ok next

  -- `ViewVersionReceipt::upsert` and `ViewVersionReceipt::drop`, at the instant `now`
  unfoldable pub upsert_receipt :
      Option ℕ → Option Text → ViewRecord → Principal → DateTime → LakeCatResult ViewVersionReceipt
  upsert_receipt previous_view_version previous_receipt_hash view principal now = do
    view_hash ← content_hash_json (ext.view_value view)
    ok (record {
      stable_id = view_stable_id view.warehouse view.namespace view.name;
      warehouse = view.warehouse;
      namespace = view.namespace;
      name = view.name;
      view_version = view.view_version;
      previous_view_version = previous_view_version;
      previous_receipt_hash = previous_receipt_hash;
      operation = upsert;
      view_hash = view_hash;
      principal = principal;
      recorded_at = now;
    })

  unfoldable pub drop_receipt :
      ViewRecord → Option Text → Principal → DateTime → LakeCatResult ViewVersionReceipt
  drop_receipt view previous_receipt_hash principal now = do
    view_hash ← content_hash_json (ext.view_value view)
    ok (record {
      stable_id = view_stable_id view.warehouse view.namespace view.name;
      warehouse = view.warehouse;
      namespace = view.namespace;
      name = view.name;
      view_version = view.view_version;
      previous_view_version = some view.view_version;
      previous_receipt_hash = previous_receipt_hash;
      operation = drop;
      view_hash = view_hash;
      principal = principal;
      recorded_at = now;
    })
