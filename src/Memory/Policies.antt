-- ===== src/Memory/Policies.antt =====
-- Policy bindings and model publications (crates/lakecat-store/src/memory.rs).
pub mod Publish
pub mod Versions
use mathlib.Core.Option
use mathlib.Core.Option.{get_or}
use lakecat.Prelude.{
  Text, text, List, [], ◌∷◌, ◌++◌, ℕ, ◌+◌, ◌%◌, ◌^◌, ◌==◌, Option, none, some, Bool, true, false,
  holds, keep, map, Text-discrete, ◌≡◌, ◌&&◌, ◌||◌, not,
}
use lakecat.Prelude.Map.{Map, text_key, contains_key, get, insert, values}
use lakecat.Prelude.Results.{
  LakeCatResult, LakeCatError, ok, err, not_found, conflict, reject, ensure, if_some, for_each,
  ◌>>=◌, ◌>>◌,
}
use lakecat.Prelude.Json.{Json, num, pos, str, object, string, array}
use lakecat.Core.Names.{WarehouseName, TableIdent}
use lakecat.Records.Types.{
  DateTime, PolicyBinding, ModelPublication, CatalogAuditEvent, OutboxEvent,
}
use lakecat.Records.External.{External}
use lakecat.Records.Evidence.{content_hash_bytes}
use lakecat.Records.Events.{new_audit_event, audit_event_id}
use lakecat.Records.Events.Outbox.{audit_outbox_payload, outbox_event_from_payload}
use lakecat.Records.Policies
use lakecat.Records.Policies.{
  validate_binding, validate_policy_binding_map_scope, validate_publication, policy_binding_key,
  model_publication_key, sort_bindings,
}
use lakecat.Memory.State.{MemoryState, Update, Query}

module _ ⦃ext : External⦄ where
  unfoldable pub upsert_policy_binding : PolicyBinding → Update PolicyBinding
  upsert_policy_binding binding state = do
    validate_binding binding
    let key = policy_binding_key binding.warehouse binding.policy_id
    if_some (get key state.policy_bindings)
        (λ existing. validate_policy_binding_map_scope existing key)
    ok (binding, record state { policy_bindings = insert key binding state.policy_bindings })

  unfoldable pub list_policy_bindings : WarehouseName → Query (List PolicyBinding)
  list_policy_bindings warehouse state = do
    for_each (λ entry. validate_policy_binding_map_scope entry.1 entry.0) state.policy_bindings
    ok (
        sort_bindings (
          keep (λ binding. holds (Text-discrete binding.warehouse warehouse))
            (values state.policy_bindings)))

  unfoldable pub policy_bindings_for_table : TableIdent → Query (List PolicyBinding)
  policy_bindings_for_table table state = do
    for_each (λ entry. validate_policy_binding_map_scope entry.1 entry.0) state.policy_bindings
    ok (Policies.policy_bindings_for_table (values state.policy_bindings) table)

  unfoldable pub policy_bindings_for_tables : List TableIdent → Query (List (List PolicyBinding))
  policy_bindings_for_tables tables state = do
    for_each (λ entry. validate_policy_binding_map_scope entry.1 entry.0) state.policy_bindings
    ok (map (Policies.policy_bindings_for_table (values state.policy_bindings)) tables)

  unfoldable pub publication_payload : ModelPublication → Json
  publication_payload publication = object (
      ("event-type", string "model.published")
      ∷ ("warehouse", str publication.warehouse)
      ∷ ("model-id", str publication.model_id)
      ∷ ("version", num (pos publication.version))
      ∷ ("artifact-uri", str publication.artifact_uri)
      ∷ ("artifact-hash", str publication.artifact_hash)
      ∷ ("physical-bindings", publication.physical_bindings)
      ∷ ("policy-binding-ids", array (map str publication.policy_binding_ids))
      ∷ ("publisher", ext.principal_value publication.publisher)
      ∷ [])

  -- what `publish_model` computes before it takes the lock
  unfoldable pub publication_events :
      DateTime → ModelPublication → LakeCatResult (CatalogAuditEvent × OutboxEvent)
  publication_events now publication = do
    audit ←
        new_audit_event (text "model.published") none publication.publisher
          (publication_payload publication) now
    event_id ← audit_event_id audit
    outbox ← outbox_event_from_payload (audit_outbox_payload event_id audit) audit.created_at
    ok (audit, outbox)

  unfoldable pub require_bindings : WarehouseName → List Text → Query (Unit {0})
  require_bindings warehouse policy_ids state =
      for_each
        (λ policy_id.
          ensure (contains_key (policy_binding_key warehouse policy_id) state.policy_bindings)
            (not_found "policy binding" (content_hash_bytes policy_id)))
        policy_ids

-- the version of the last publication
unfoldable pub current_version : List ModelPublication → Option ℕ
current_version [] = none
current_version (p ∷ []) = some p.version
current_version (p ∷ q ∷ ps) = current_version (q ∷ ps)

unfoldable pub same_version : Option ℕ → Option ℕ → Bool
same_version none none = true
same_version none (some b) = false
same_version (some a) none = false
same_version (some a) (some b) = a == b

-- the list of publications of a model, a missing one being empty
abbrev pub publications_of : Text → MemoryState → List ModelPublication
publications_of key state = get_or (get key state.model_publications) []

-- `entry(key).or_default()`: the state after it, which a later error leaves as it is
abbrev pub with_entry : Text → MemoryState → MemoryState
with_entry key state = record state {
  model_publications = insert key (publications_of key state) state.model_publications;
}

abbrev pub version_mismatch : LakeCatError
version_mismatch = conflict "model publication compare-and-swap version mismatch" []

-- the writes of a publication
abbrev pub published_state :
    Text → ModelPublication → CatalogAuditEvent × OutboxEvent → MemoryState → MemoryState
published_state key publication events state = record state {
  model_publications =
      insert key (publications_of key state ++ publication ∷ []) state.model_publications;
  audit_events = state.audit_events ++ events.0 ∷ [];
  outbox_events = state.outbox_events ++ events.1 ∷ [];
}

module _ ⦃ext : External⦄ where
  -- the compare-and-swap at the end of `publish_model`
  unfoldable pub append_publication :
      Text
      → ModelPublication
      → Option ℕ
      → CatalogAuditEvent × OutboxEvent
      → MemoryState
      → LakeCatResult ModelPublication × MemoryState
  append_publication key publication expected_current_version events state =
      let publications = publications_of key state in
      let current = current_version publications in
      elim (not (same_version current expected_current_version)
          || not (publication.version == (get_or current 0 + 1) % 2 ^ 64))
        as (λ _. LakeCatResult ModelPublication × MemoryState) [
          | true ↦ (err version_mismatch, with_entry key state)
          | false ↦ (ok publication, published_state key publication events state)
        ]

  -- what `publish_model` checks before it touches the state
  unfoldable pub prepare_publication :
      DateTime → ModelPublication → Query (CatalogAuditEvent × OutboxEvent)
  prepare_publication now publication state = do
    validate_publication publication
    events ← publication_events now publication
    require_bindings publication.warehouse publication.policy_binding_ids state
    ok events

  unfoldable pub publish_model :
      DateTime
      → ModelPublication
      → Option ℕ
      → MemoryState
      → LakeCatResult ModelPublication × MemoryState
  publish_model now publication expected_current_version state =
      elim (prepare_publication now publication state)
        as (λ _. LakeCatResult ModelPublication × MemoryState) [
          | ok events ↦
              append_publication (model_publication_key publication.warehouse publication.model_id)
                publication expected_current_version events state
          | err e ↦ (err e, state)
        ]

unfoldable pub model_publications : WarehouseName → Text → MemoryState → List ModelPublication
model_publications warehouse model_id state =
    publications_of (model_publication_key warehouse model_id) state
