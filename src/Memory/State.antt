-- ===== src/Memory/State.antt =====
-- `MemoryState` and its rows (crates/lakecat-store/src/memory.rs). An operation that locks the state
-- for writing takes it and gives the new state with its result.
use lakecat.Prelude.{Text, text, List, [], ◌∷◌, none, some, Bool, any, holds, Text-discrete, String}
use lakecat.Prelude.Map.{Map, texts_key, text_key, contains_key, get}
use lakecat.Prelude.Results.{LakeCatResult, LakeCatError, not_found, conflict}
use lakecat.Core.Names.{TableIdent, Namespace, WarehouseName, path, stable_id}
use lakecat.Records.Types.{
  NamespaceProperties, TableRecord, TableCommitRecord, CatalogAuditEvent, OutboxEvent, ViewRecord,
  PolicyBinding, ModelPublication, SoftDeleteRecord,
}
use lakecat.Records.Profiles.{StorageProfile}
use lakecat.Records.Management.{ServerRecord, ProjectRecord, WarehouseRecord}
use lakecat.Governed.Grants.{GovernedScanGrant}
use lakecat.Records.Receipts.{MemoryViewVersionReceipt}

pub record IdempotencyReplay : Type 0 where
  pub table_key : Text
  pub request_hash : Text
  pub response : TableRecord

pub record MemoryCommitRecord : Type 0 where
  pub table_key : Text
  pub row : TableCommitRecord

pub record MemoryState : Type 0 where
  pub servers : Map Text ServerRecord
  pub projects : Map Text ProjectRecord
  pub warehouses : Map Text WarehouseRecord
  pub namespaces : Map Text (Map Namespace NamespaceProperties)
  pub tables : Map Text TableRecord
  pub commits : List MemoryCommitRecord
  pub audit_events : List CatalogAuditEvent
  pub outbox_events : List OutboxEvent
  pub idempotency : Map Text IdempotencyReplay
  pub storage_profiles : Map Text StorageProfile
  pub views : Map Text ViewRecord
  pub view_version_receipts : List MemoryViewVersionReceipt
  pub policy_bindings : Map Text PolicyBinding
  pub model_publications : Map Text (List ModelPublication)
  pub soft_deletes : Map Text SoftDeleteRecord
  pub governed_scan_grants : Map Text GovernedScanGrant

-- `MemoryState::default`
abbrev pub empty : MemoryState
empty = record {
  servers = [];
  projects = [];
  warehouses = [];
  namespaces = [];
  tables = [];
  commits = [];
  audit_events = [];
  outbox_events = [];
  idempotency = [];
  storage_profiles = [];
  views = [];
  view_version_receipts = [];
  policy_bindings = [];
  model_publications = [];
  soft_deletes = [];
  governed_scan_grants = [];
}

-- An operation under the write lock; an error leaves the state as it was.
abbrev pub Update : Type 0 → Type 0
Update A = MemoryState → LakeCatResult (A × MemoryState)

-- An operation under the read lock.
abbrev pub Query : Type 0 → Type 0
Query A = MemoryState → LakeCatResult A

-- helpers.rs
abbrev pub namespace_not_found : Namespace → LakeCatError
namespace_not_found namespace = not_found "namespace" (path namespace)

abbrev pub namespace_not_empty : Namespace → String → LakeCatError
namespace_not_empty namespace reason =
    conflict "cannot drop non-empty namespace {}: contains {reason}"
      (path namespace ∷ text reason ∷ [])

abbrev pub table_not_found : TableIdent → LakeCatError
table_not_found ident = not_found "table" (stable_id ident)

-- `state.namespaces.get(warehouse).is_some_and(|namespaces| namespaces.contains_key(namespace))`
unfoldable pub namespace_exists : WarehouseName → Namespace → MemoryState → Bool
namespace_exists warehouse namespace state = elim (get warehouse state.namespaces) [
  | none ↦ Bool.false
  | some namespaces ↦ contains_key namespace namespaces
]

unfoldable pub is_member : Text → List Text → Bool
is_member k ks = any (λ j. holds (Text-discrete j k)) ks
