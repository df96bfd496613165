-- ===== src/Records/Events/Outbox.antt =====
-- Outbox events, made of audit events (crates/lakecat-store/src/records.rs and helpers.rs).
use lakecat.Prelude.{
  Text, text, is_blank, Option, none, some, List, [], ◌∷◌, String, Text-discrete, is_some,
}
use lakecat.Prelude.Results.{LakeCatResult, ok, internal, reject, ensure_that, ok_or, ◌>>=◌, ◌>>◌}
use mathlib.Core.Option
use lakecat.Prelude.Json.{Json, pos, str, num, object, string, option}
use lakecat.Core.Names.{TableIdent}
use lakecat.Records.Types.{DateTime, Principal, TableRecord, CatalogAuditEvent, OutboxEvent}
use lakecat.Records.External.{External}
use lakecat.Records.Metadata.{table_commit_format_version}
use lakecat.Records.Evidence.{content_hash_bytes, content_hash_json}
use lakecat.Records.Events.{audit_of, get_str, validate_recordable, audit_event_id}

module _ ⦃ext : External⦄ where
  unfoldable pub table_member : Option TableIdent → List (String × Json)
  table_member none = []
  table_member (some table) = ("table", ext.table_ident_value table) ∷ []

  unfoldable pub audit_outbox_payload : Text → CatalogAuditEvent → Json
  audit_outbox_payload event_id event = object (
      ("audit-event-id", str event_id)
      ∷ ("event-type", str event.event_type)
      ∷ ("payload", event.payload)
      ∷ table_member event.table)

  unfoldable pub outbox_event_from_payload : Json → DateTime → LakeCatResult OutboxEvent
  outbox_event_from_payload payload created_at = do
    event_type ←
        ok_or (get_str payload "event-type") (internal "outbox payload missing event-type" [])
    event_id ← content_hash_json payload
    ok (record {
      event_id = event_id;
      sink = text "lakecat.lineage-and-graph";
      event_type = event_type;
      payload = payload;
      created_at = created_at;
      delivered_at = none;
    })

  -- The context that each message of `validate_pending` ends in.
  unfoldable pub event_context : OutboxEvent → Text → List Text
  event_context event payload_hash =
      content_hash_bytes event.event_id ∷ content_hash_bytes event.event_type ∷ payload_hash ∷ []

  unfoldable pub event_type_context : OutboxEvent → Text → Text → List Text
  event_type_context event payload_event_type payload_hash =
      content_hash_bytes event.event_id
      ∷ content_hash_bytes event.event_type
      ∷ content_hash_bytes payload_event_type
      ∷ payload_hash
      ∷ []

  -- `OutboxEvent::validate_pending`
  unfoldable pub validate_pending : OutboxEvent → LakeCatResult (Unit {0})
  validate_pending event = do
    payload_hash ← content_hash_json event.payload
    let context = event_context event payload_hash
    reject (is_some event.delivered_at) (
        internal
          "pending outbox event must not already be delivered; event-id-hash={event_id_hash}; event-type-hash={event_type_hash}; payload-hash={payload_hash}"
          context)
    reject (is_blank event.sink) (
        internal
          "pending outbox event sink must not be empty; event-id-hash={event_id_hash}; event-type-hash={event_type_hash}; payload-hash={payload_hash}"
          context)
    reject (is_blank event.event_type) (
        internal
          "pending outbox event type must not be empty; event-id-hash={event_id_hash}; event-type-hash={event_type_hash}; payload-hash={payload_hash}"
          context)
    payload_event_type ← ok_or (get_str event.payload "event-type") (
        internal
          "pending outbox payload missing event-type; event-id-hash={event_id_hash}; event-type-hash={event_type_hash}; payload-hash={payload_hash}"
          context)
    reject (is_blank payload_event_type) (
        internal
          "pending outbox payload event-type must not be empty; event-id-hash={event_id_hash}; event-type-hash={event_type_hash}; payload-event-type-hash={}; payload-hash={payload_hash}"
          (event_type_context event payload_event_type payload_hash))
    ensure_that (Text-discrete payload_event_type event.event_type) (
        internal
          "pending outbox event type does not match payload; event-id-hash={event_id_hash}; event-type-hash={event_type_hash}; payload-event-type-hash={}; payload-hash={payload_hash}"
          (event_type_context event payload_event_type payload_hash))
    ensure_that (Text-discrete event.event_id payload_hash) (
        internal
          "pending outbox event id does not match payload hash; event-id-hash={event_id_hash}; event-type-hash={event_type_hash}; payload-hash={payload_hash}"
          context)

  -- The member that is written only if a receipt is given.
  unfoldable pub receipt_member : Option Json → List (String × Json)
  receipt_member none = []
  receipt_member (some receipt) = ("authorization-receipt", receipt) ∷ []

  unfoldable pub table_rename_events :
      TableIdent
      → TableRecord
      → Principal
      → Option Json
      → DateTime
      → LakeCatResult (CatalogAuditEvent × OutboxEvent)
  table_rename_events source table principal authorization_receipt renamed_at = do
    let payload = object (
        ("event-type", string "table.renamed")
        ∷ ("table", ext.table_ident_value table.ident)
        ∷ ("source", ext.table_ident_value source)
        ∷ ("destination", ext.table_ident_value table.ident)
        ∷ ("metadata-location", option (Option.map str table.metadata_location))
        ∷ ("format-version", option (Option.map num (table_commit_format_version table)))
        ∷ ("version", num (pos table.version))
        ∷ receipt_member authorization_receipt)
    request_hash ← content_hash_json payload
    let audit_event = audit_of "table.renamed" table.ident principal request_hash payload renamed_at
    validate_recordable audit_event
    event_id ← audit_event_id audit_event
    outbox_event ← outbox_event_from_payload (audit_outbox_payload event_id audit_event) renamed_at
    ok (audit_event, outbox_event)
