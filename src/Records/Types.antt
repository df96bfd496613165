-- ===== src/Records/Types.antt =====
-- The persisted records of crates/lakecat-store/src/records.rs, and `Principal` and `AuditStamp` of
-- crates/lakecat-core/src/lib.rs. A `u64` is a number below 2^64.
use lakecat.Prelude.{Text, ℕ, Bool, Option, List}
use lakecat.Prelude.Map.{Map}
use lakecat.Prelude.Json.{Json, ℤ}
use lakecat.Core.Names.{WarehouseName, Namespace, TableName, TableIdent}

-- `DateTime<Utc>`: an instant, by its distance from the epoch
abbrev pub DateTime : Type 0
DateTime = ℕ

pub data PrincipalKind : Type 0 where
  anonymous human service agent : PrincipalKind

pub record Principal : Type 0 where
  pub subject : Text
  pub kind : PrincipalKind

pub record AuditStamp : Type 0 where
  pub principal : Principal
  pub at : DateTime

-- `NamespaceProperties`
abbrev pub NamespaceProperties : Type 0
NamespaceProperties = Map Text Text

-- `removals` is a set: a list of its keys, in order
pub record NamespacePropertyUpdate : Type 0 where
  pub removals : List Text
  pub updates : Map Text Text

pub record NamespacePropertyUpdateResult : Type 0 where
  pub updated : List Text
  pub removed : List Text
  pub missing : List Text

pub record TableRecord : Type 0 where
  pub ident : TableIdent
  pub location : Text
  pub metadata_location : Option Text
  pub metadata : Json
  pub created : AuditStamp
  pub updated_at : DateTime
  pub version : ℕ
  pub staged : Bool

pub record TableCommit : Type 0 where
  pub requirements : List Json
  pub updates : List Json
  pub expected_previous_metadata_location : Option Text
  pub new_metadata_location : Option Text
  pub new_metadata : Option Json
  pub idempotency_key : Option Text
  pub idempotency_request_hash : Option Text
  pub principal : Principal
  pub authorization_receipt : Option Json

pub record TableCommitRecord : Type 0 where
  pub table : TableIdent
  pub previous_metadata_location : Option Text
  pub new_metadata_location : Option Text
  pub sequence_number : ℕ
  pub principal : Principal
  pub format_version : Option ℤ
  pub snapshot_id : Option ℤ
  pub policy_hash : Option Text
  pub request_hash : Text
  pub response_hash : Text
  pub idempotency_key_sha256 : Option Text
  pub committed_at : DateTime

pub record SoftDeleteRecord : Type 0 where
  pub table : TableIdent
  pub metadata_location : Option Text
  pub version : ℕ
  pub format_version : Option ℤ
  pub principal : Principal
  pub authorization_receipt : Option Json
  pub deleted_at : DateTime

pub record ViewColumnRecord : Type 0 where
  pub name : Text
  pub data_type : Json
  pub nullable : Bool
  pub comment : Option Text

pub record ViewRecord : Type 0 where
  pub warehouse : WarehouseName
  pub namespace : Namespace
  pub name : TableName
  pub view_version : ℕ
  pub sql : Text
  pub dialect : Text
  pub schema_version : Option ℕ
  pub columns : List ViewColumnRecord
  pub properties : Map Text Text
  pub created : AuditStamp
  pub updated_at : DateTime

pub data ViewVersionOperation : Type 0 where
  upsert drop : ViewVersionOperation

pub record ViewVersionReceipt : Type 0 where
  pub stable_id : Text
  pub warehouse : WarehouseName
  pub namespace : Namespace
  pub name : TableName
  pub view_version : ℕ
  pub previous_view_version : Option ℕ
  pub previous_receipt_hash : Option Text
  pub operation : ViewVersionOperation
  pub view_hash : Text
  pub principal : Principal
  pub recorded_at : DateTime

pub record OutboxEvent : Type 0 where
  pub event_id : Text
  pub sink : Text
  pub event_type : Text
  pub payload : Json
  pub created_at : DateTime
  pub delivered_at : Option DateTime

pub record CatalogAuditEvent : Type 0 where
  pub event_type : Text
  pub table : Option TableIdent
  pub principal : Principal
  pub request_hash : Option Text
  pub payload : Json
  pub created_at : DateTime

pub record PolicyBinding : Type 0 where
  pub policy_id : Text
  pub warehouse : WarehouseName
  pub namespace : Option Namespace
  pub table : Option TableName
  pub enforced : Bool
  pub odrl : Json
  pub updated_at : DateTime

pub record ModelPublication : Type 0 where
  pub model_id : Text
  pub warehouse : WarehouseName
  pub version : ℕ
  pub artifact_uri : Text
  pub artifact_hash : Text
  pub physical_bindings : Json
  pub policy_binding_ids : List Text
  pub publisher : Principal
  pub published_at : DateTime
