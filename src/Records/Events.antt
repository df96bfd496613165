-- ===== src/Records/Events.antt =====
-- Audit events (crates/lakecat-store/src/records.rs and helpers.rs).
pub mod Outbox
use lakecat.Prelude.{
  Text, text, is_blank, Bool, true, false, Option, none, some, List, [], ◌∷◌, String, Text-discrete,
  Texts-discrete, holds, is_some, ◌&&◌, if◌then◌else◌,
}
use lakecat.Prelude.Results.{
  LakeCatResult, ok, invalid_argument, internal, reject, ensure, ensure_that, ok_or, if_some, ◌>>=◌,
  ◌>>◌,
}
use mathlib.Core.Option
use lakecat.Prelude.Json
use lakecat.Prelude.Json.{
  Json, Items, nil, cons, arr, pos, str, obj, num, is_object, as_str, object, string, option,
}
use lakecat.Core.Names.{Namespace, TableIdent, TableIdent-discrete, path}
use lakecat.Records.Types.{
  DateTime, Principal, PrincipalKind, TableRecord, CatalogAuditEvent, OutboxEvent,
}
use lakecat.Records.External.{External}
use lakecat.Records.Metadata.{table_commit_format_version}
use lakecat.Records.Evidence.{content_hash_bytes, content_hash_json}

-- The audit event that a store operation writes for a table.
abbrev pub audit_of : String → TableIdent → Principal → Text → Json → DateTime → CatalogAuditEvent
audit_of event_type table principal request_hash payload created_at = record {
  event_type = text event_type;
  table = some table;
  principal = principal;
  request_hash = some request_hash;
  payload = payload;
  created_at = created_at;
}

unfoldable pub same_kind : PrincipalKind → PrincipalKind → Bool
same_kind PrincipalKind.anonymous PrincipalKind.anonymous = true
same_kind PrincipalKind.human PrincipalKind.human = true
same_kind PrincipalKind.service PrincipalKind.service = true
same_kind PrincipalKind.agent PrincipalKind.agent = true
same_kind _ _ = false

-- The derived `PartialEq`.
unfoldable pub same_principal : Principal → Principal → Bool
same_principal a b = holds (Text-discrete a.subject b.subject) && same_kind a.kind b.kind

-- `value.get(k).and_then(Value::as_str)`
unfoldable pub get_str : Json → String → Option Text
get_str value k = elim (Json.get value (text k)) [ none ↦ none | some v ↦ as_str v ]

-- The strings of an array, `none` where an item is no string.
unfoldable pub strings_of : Items → Option (List Text)
strings_of nil = some []
strings_of (cons (str t) xs) = Option.map (λ ts. t ∷ ts) (strings_of xs)
strings_of (cons _ xs) = none

unfoldable pub audit_payload_namespace_matches : Json → Namespace → Bool
audit_payload_namespace_matches (str namespace_path) namespace =
    holds (Text-discrete namespace_path (path namespace))
audit_payload_namespace_matches (arr parts) namespace = elim (strings_of parts) [
  | none ↦ false
  | some ts ↦ holds (Texts-discrete ts namespace)
]
audit_payload_namespace_matches _ namespace = false

module _ ⦃ext : External⦄ where
  -- What follows once the receipt is there.
  unfoldable pub receipt_principal : Json → Principal → LakeCatResult (Unit {0})
  receipt_principal receipt principal = do
    action ←
        ok_or (get_str receipt "action")
          (invalid_argument "audit event authorization receipt action is required" [])
    reject (is_blank action)
        (invalid_argument "audit event authorization receipt action must not be empty" [])
    if_some (Json.get receipt (text "principal")) (λ value. do
      decoded ←
          ok_or (ext.principal_from_value value)
            (invalid_argument "audit event authorization receipt principal is malformed" [])
      ensure (same_principal decoded principal) (
          invalid_argument
            "audit event authorization receipt principal does not match event principal" []))

  unfoldable pub validate_audit_payload_authorization_principal :
      Json → Principal → LakeCatResult (Unit {0})
  validate_audit_payload_authorization_principal payload principal =
      if_some (Json.get payload (text "authorization-receipt"))
        (λ receipt. receipt_principal receipt principal)

  -- The scope of a payload that names its table by a string.
  unfoldable pub named_scope : Json → Text → TableIdent → LakeCatResult (Unit {0})
  named_scope payload payload_table_name table = do
    ensure_that (Text-discrete payload_table_name table.name)
        (invalid_argument "audit event payload table scope does not match event table" [])
    payload_warehouse ←
        ok_or (get_str payload "warehouse")
          (invalid_argument "audit event payload missing warehouse scope for table" [])
    ensure_that (Text-discrete payload_warehouse table.warehouse)
        (invalid_argument "audit event payload warehouse scope does not match event table" [])
    payload_namespace ←
        ok_or (Json.get payload (text "namespace"))
          (invalid_argument "audit event payload missing namespace scope for table" [])
    ensure (audit_payload_namespace_matches payload_namespace table.namespace)
        (invalid_argument "audit event payload namespace scope does not match event table" [])

  unfoldable pub validate_audit_payload_table_scope : Json → TableIdent → LakeCatResult (Unit {0})
  validate_audit_payload_table_scope payload table = do
    payload_table ←
        ok_or (Json.get payload (text "table"))
          (invalid_argument "audit event payload missing table scope" [])
    if is_object payload_table
        then (do
          decoded ←
              ok_or (ext.table_ident_from_value payload_table)
                (invalid_argument "audit event payload table scope is malformed" [])
          ensure_that (TableIdent-discrete decoded table)
              (invalid_argument "audit event payload table scope does not match event table" []))
        else (do
          payload_table_name ←
              ok_or (as_str payload_table)
                (invalid_argument "audit event payload table scope is malformed" [])
          named_scope payload payload_table_name table)

  -- `CatalogAuditEvent::validate_recordable`
  unfoldable pub validate_recordable : CatalogAuditEvent → LakeCatResult (Unit {0})
  validate_recordable event = do
    reject (is_blank event.event_type) (invalid_argument "audit event type must not be empty" [])
    payload_event_type ←
        ok_or (get_str event.payload "event-type")
          (invalid_argument "audit event payload missing event-type" [])
    ensure_that (Text-discrete payload_event_type event.event_type)
        (invalid_argument "audit event type does not match payload" [])
    request_hash ←
        ok_or event.request_hash (invalid_argument "audit event request hash is required" [])
    payload_hash ← content_hash_json event.payload
    ensure_that (Text-discrete request_hash payload_hash)
        (invalid_argument "audit event request hash does not match payload" [])
    validate_audit_payload_authorization_principal event.payload event.principal
    if_some event.table (λ table. validate_audit_payload_table_scope event.payload table)

  -- `CatalogAuditEvent::new`, at the instant `now`
  unfoldable pub new_audit_event :
      Text → Option TableIdent → Principal → Json → DateTime → LakeCatResult CatalogAuditEvent
  new_audit_event event_type table principal payload now = do
    request_hash ← content_hash_json payload
    ok (record {
      event_type = event_type;
      table = table;
      principal = principal;
      request_hash = some request_hash;
      payload = payload;
      created_at = now;
    })

  unfoldable pub audit_event_id : CatalogAuditEvent → LakeCatResult Text
  audit_event_id event = content_hash_json (
      object (
        ("event-type", str event.event_type)
        ∷ ("table", option (Option.map ext.table_ident_value event.table))
        ∷ ("principal", ext.principal_value event.principal)
        ∷ ("request-hash", option (Option.map str event.request_hash))
        ∷ ("payload", event.payload)
        ∷ ("created-at", str (ext.to_rfc3339 event.created_at))
        ∷ []))
