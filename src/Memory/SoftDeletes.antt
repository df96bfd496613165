-- ===== src/Memory/SoftDeletes.antt =====
-- `soft_delete_table` and `restore_table` (crates/lakecat-store/src/memory.rs).
pub mod Hides
pub mod Restore
use mathlib.Core.Option
use lakecat.Prelude.{Text, text, List, [], ◌∷◌, ◌++◌, Option, none, some, String}
use lakecat.Prelude.Map.{Map, text_key, contains_key, get, insert, remove}
use lakecat.Prelude.Results.{LakeCatResult, ok, err, not_found, reject, ensure, ok_or, ◌>>=◌, ◌>>◌}
use lakecat.Prelude.Json.{Json, str, num, pos, object, string, option}
use lakecat.Core.Names.{TableIdent, table_key, stable_id}
use lakecat.Records.Types.{DateTime, Principal, TableRecord, SoftDeleteRecord, OutboxEvent}
use lakecat.Records.External.{External}
use lakecat.Records.Metadata.{table_commit_format_version}
use lakecat.Records.Evidence.{content_hash_json}
use lakecat.Records.Tables.{
  validate_table_record_map_scope, validate_table_record_identity, validate_soft_delete,
  validate_soft_delete_record_map_scope,
}
use lakecat.Records.Events.{audit_of}
use lakecat.Records.Events.Outbox.{outbox_event_from_payload}
use lakecat.Memory.State.{
  MemoryState, Update, namespace_not_found, table_not_found, namespace_exists,
}

-- the soft delete of a table that is read at the time
unfoldable pub soft_delete_of :
    TableIdent → Principal → Option Json → DateTime → TableRecord → SoftDeleteRecord
soft_delete_of ident principal authorization_receipt now table = record {
  table = ident;
  metadata_location = table.metadata_location;
  version = table.version;
  format_version = table_commit_format_version table;
  principal = principal;
  authorization_receipt = authorization_receipt;
  deleted_at = now;
}

module _ ⦃ext : External⦄ where
  unfoldable pub deleted_payload : TableIdent → SoftDeleteRecord → List (String × Json)
  deleted_payload ident deleted =
      ("event-type", string "table.deleted")
      ∷ ("table", ext.table_ident_value ident)
      ∷ ("soft-delete", ext.soft_delete_value deleted)
      ∷ ("authorization-receipt", option deleted.authorization_receipt)
      ∷ []

  -- the writes of `soft_delete_table`
  unfoldable pub deleted_state :
      TableIdent → SoftDeleteRecord → Text → OutboxEvent → MemoryState → MemoryState
  deleted_state ident deleted audit_hash outbox_event state = record state {
    soft_deletes = insert (table_key ident) deleted state.soft_deletes;
    audit_events =
        state.audit_events
        ++ audit_of "table.deleted" ident deleted.principal audit_hash
            (object (deleted_payload ident deleted)) outbox_event.created_at
          ∷ [];
    outbox_events = state.outbox_events ++ outbox_event ∷ [];
  }

  unfoldable pub soft_delete_table :
      TableIdent → Principal → Option Json → DateTime → Update TableRecord
  soft_delete_table ident principal authorization_receipt now state = do
    ensure (namespace_exists ident.warehouse ident.namespace state)
        (namespace_not_found ident.namespace)
    reject (contains_key (table_key ident) state.soft_deletes) (table_not_found ident)
    table ← ok_or (get (table_key ident) state.tables) (table_not_found ident)
    validate_table_record_map_scope table (table_key ident)
    validate_table_record_identity table ident
    let deleted = soft_delete_of ident principal authorization_receipt now table
    validate_soft_delete deleted ident table
    audit_hash ← content_hash_json (object (deleted_payload ident deleted))
    outbox_event ←
        outbox_event_from_payload
          (object (("audit-event-id", str audit_hash) ∷ deleted_payload ident deleted)) now
    ok (table, deleted_state ident deleted audit_hash outbox_event state)

  unfoldable pub restored_payload : TableIdent → Option Json → TableRecord → Json
  restored_payload ident authorization_receipt table = object (
      ("event-type", string "table.restored")
      ∷ ("table", ext.table_ident_value ident)
      ∷ ("authorization-receipt", option authorization_receipt)
      ∷ ("metadata-location", option (Option.map str table.metadata_location))
      ∷ ("format-version", option (Option.map num (table_commit_format_version table)))
      ∷ ("version", num (pos table.version))
      ∷ [])

  unfoldable pub restored_outbox_payload : TableIdent → Option Json → Json → Text → Json
  restored_outbox_payload ident authorization_receipt audit_payload audit_hash = object (
      ("audit-event-id", str audit_hash)
      ∷ ("event-type", string "table.restored")
      ∷ ("table", ext.table_ident_value ident)
      ∷ ("payload", audit_payload)
      ∷ ("authorization-receipt", option authorization_receipt)
      ∷ [])

  -- the writes of `restore_table`
  unfoldable pub restored_state :
      TableIdent → Principal → DateTime → Json → Text → OutboxEvent → MemoryState → MemoryState
  restored_state ident principal now payload audit_hash outbox_event state = record state {
    soft_deletes = remove (table_key ident) state.soft_deletes;
    audit_events =
        state.audit_events ++ audit_of "table.restored" ident principal audit_hash payload now ∷ [];
    outbox_events = state.outbox_events ++ outbox_event ∷ [];
  }

  unfoldable pub restore_table :
      TableIdent → Principal → Option Json → DateTime → Update TableRecord
  restore_table ident principal authorization_receipt now state = do
    ensure (namespace_exists ident.warehouse ident.namespace state)
        (namespace_not_found ident.namespace)
    deleted ←
        ok_or (get (table_key ident) state.soft_deletes)
          (not_found "soft-deleted table" (stable_id ident))
    validate_soft_delete_record_map_scope deleted (table_key ident)
    table ← ok_or (get (table_key ident) state.tables) (table_not_found ident)
    validate_table_record_map_scope table (table_key ident)
    validate_table_record_identity table ident
    validate_soft_delete deleted ident table
    let payload = restored_payload ident authorization_receipt table
    audit_hash ← content_hash_json payload
    outbox_event ←
        outbox_event_from_payload
          (restored_outbox_payload ident authorization_receipt payload audit_hash) now
    ok (table, restored_state ident principal now payload audit_hash outbox_event state)
