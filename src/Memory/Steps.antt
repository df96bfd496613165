-- ===== src/Memory/Steps.antt =====
-- The runs of the store (crates/lakecat-store/src/memory.rs): the operations that write to it, in
-- any order. `create_namespace` and `drop_view` are the creation without properties and the drop
-- without an expected version.
use lakecat.Prelude.{Text, ℕ, ◌^◌, ◌<◌, List, Option, ◌≡◌}
use lakecat.Prelude.Results.{ok}
use lakecat.Prelude.Json.{Json}
use lakecat.Core.Names.{WarehouseName, Namespace, TableName, TableIdent}
use lakecat.Records.Types.{
  DateTime, Principal, NamespaceProperties, NamespacePropertyUpdate, NamespacePropertyUpdateResult,
  TableRecord, TableCommit, ViewRecord, PolicyBinding, ModelPublication, CatalogAuditEvent,
}
use lakecat.Records.External.{External}
use lakecat.Memory.State.{MemoryState, empty}
use lakecat.Memory.Namespaces.{
  create_namespace_with_properties, update_namespace_properties, drop_namespace,
}
use lakecat.Memory.Tables.{create_table}
use lakecat.Memory.Commits.{commit_table}
use lakecat.Memory.Rename.{rename_table}
use lakecat.Memory.SoftDeletes.{soft_delete_table, restore_table}
use lakecat.Memory.Views.{upsert_view, upsert_view_if_version, drop_view_if_version}
use lakecat.Memory.Policies.{upsert_policy_binding, publish_model}
use lakecat.Records.Profiles.{StorageProfile}
use lakecat.Records.Management.{ServerRecord, ProjectRecord, WarehouseRecord}
use lakecat.Governed.Grants.{GovernedScanGrant}
use lakecat.Memory.Management.{upsert_server, upsert_project, upsert_warehouse}
use lakecat.Memory.Profiles.{upsert_storage_profile}
use lakecat.Memory.Grants.{save_governed_scan_grant}
use lakecat.Memory.Outbox.{record_audit_event, mark_outbox_delivered}

module _ ⦃ext : External⦄ where
  -- One operation. An operation of type `Update` that fails leaves the state as it is, which is no
  -- step; a drop of a view and a publication may change it and fail.
  pub data Step : MemoryState → MemoryState → Type 0 where
    namespace_created :
        (warehouse : WarehouseName) (namespace : Namespace) (properties : NamespaceProperties)
        {s s' : MemoryState}
        → create_namespace_with_properties warehouse namespace properties s ≡ ok (tt, s')
        → Step s s'
    namespace_updated :
        (warehouse : WarehouseName) (namespace : Namespace) (update : NamespacePropertyUpdate)
        (result : NamespacePropertyUpdateResult) {s s' : MemoryState}
        → update_namespace_properties warehouse namespace update s ≡ ok (result, s')
        → Step s s'
    namespace_dropped :
        (warehouse : WarehouseName) (namespace dropped : Namespace) {s s' : MemoryState}
        → drop_namespace warehouse namespace s ≡ ok (dropped, s')
        → Step s s'
    table_created :
        (table created : TableRecord) {s s' : MemoryState}
        → create_table table s ≡ ok (created, s')
        → Step s s'
    table_committed :
        (now : DateTime) (ident : TableIdent) (commit : TableCommit) (table : TableRecord)
        {s s' : MemoryState}
        → commit_table now ident commit s ≡ ok (table, s')
        → Step s s'
    table_renamed :
        (source destination : TableIdent) (now : DateTime) (principal : Principal)
        (receipt : Option Json) (table : TableRecord) {s s' : MemoryState}
        → rename_table source destination now principal receipt s ≡ ok (table, s')
        → Step s s'
    table_deleted :
        (ident : TableIdent) (principal : Principal) (receipt : Option Json) (now : DateTime)
        (table : TableRecord) {s s' : MemoryState}
        → soft_delete_table ident principal receipt now s ≡ ok (table, s')
        → Step s s'
    table_restored :
        (ident : TableIdent) (principal : Principal) (receipt : Option Json) (now : DateTime)
        (table : TableRecord) {s s' : MemoryState}
        → restore_table ident principal receipt now s ≡ ok (table, s')
        → Step s s'
    view_upserted :
        (now : DateTime) (view stored : ViewRecord) {s s' : MemoryState}
        → upsert_view now view s ≡ ok (stored, s')
        → Step s s'
    view_swapped :
        (now : DateTime) (view stored : ViewRecord) (expected : Option ℕ) {s s' : MemoryState}
        → upsert_view_if_version now view expected s ≡ ok (stored, s')
        → Step s s'
    view_dropped :
        (now : DateTime) (warehouse : WarehouseName) (namespace : Namespace) (view : TableName)
        (principal : Principal) (expected : Option ℕ) {s : MemoryState}
        → Step s (drop_view_if_version now warehouse namespace view principal expected s).1
    binding_upserted :
        (binding stored : PolicyBinding) {s s' : MemoryState}
        → upsert_policy_binding binding s ≡ ok (stored, s')
        → Step s s'
    model_published :
        (now : DateTime) (publication : ModelPublication) (expected : Option ℕ) {s : MemoryState}
        → publication.version < 2 ^ 64
        → Step s (publish_model now publication expected s).1
    event_recorded :
        (event : CatalogAuditEvent) {s s' : MemoryState}
        → record_audit_event event s ≡ ok (tt, s')
        → Step s s'
    events_delivered :
        (now : DateTime) (ids : List Text) (n : ℕ) {s s' : MemoryState}
        → mark_outbox_delivered now ids s ≡ ok (n, s')
        → Step s s'
    server_upserted :
        (server stored : ServerRecord) {s s' : MemoryState}
        → upsert_server server s ≡ ok (stored, s')
        → Step s s'
    project_upserted :
        (project stored : ProjectRecord) {s s' : MemoryState}
        → upsert_project project s ≡ ok (stored, s')
        → Step s s'
    warehouse_upserted :
        (warehouse stored : WarehouseRecord) {s s' : MemoryState}
        → upsert_warehouse warehouse s ≡ ok (stored, s')
        → Step s s'
    profile_upserted :
        (profile stored : StorageProfile) {s s' : MemoryState}
        → upsert_storage_profile profile s ≡ ok (stored, s')
        → Step s s'
    grant_saved :
        (grant stored : GovernedScanGrant) {s s' : MemoryState}
        → save_governed_scan_grant grant s ≡ ok (stored, s')
        → Step s s'

  -- The states that a run from the empty catalog reaches.
  pub data Reachable : MemoryState → Type 0 where
    start : Reachable empty
    next : {s s' : MemoryState} → Reachable s → Step s s' → Reachable s'
