-- ===== src/Tests/Rows.antt =====
-- Names, namespace properties, views, publications and the outbox at concrete inputs.
use lakecat.Prelude.{
  Text, text, none, some, ◌≡◌, ◌≢◌, refl, true, List, [], ◌∷◌, ◌++◌, length, keep, map, All, arith,
  if◌then◌else◌,
}
use lakecat.Prelude.Json.{string, object}
use lakecat.Prelude.Results.{ok, err}
use lakecat.Prelude.Map.{Map, contains_key, get, text_key}
use lakecat.Core.Names.{validate_name, Namespace}
use lakecat.Core.Keys.{table_key-injective, storage_key-injective}
use lakecat.Records.Types.{
  ViewRecord, CatalogAuditEvent, OutboxEvent, ModelPublication, NamespacePropertyUpdate,
}
use lakecat.Records.Properties.{apply}
use lakecat.Records.Properties.Apply.{apply-get, Distinct, first_of, is_among}
use lakecat.Records.Policies.{model_publication_key}
use lakecat.Memory.State.{MemoryState}
use lakecat.Memory.Outbox.{record_audit_event, mark_outbox_delivered, is_due}
use lakecat.Memory.Outbox.Once.{record_audit_event-once, duplicate}
use lakecat.Memory.Outbox.Delivery.{
  is_left, mark_outbox_delivered-delivers, mark_outbox_delivered-again,
}
use lakecat.Memory.Policies.{publish_model, publications_of, current_version}
use lakecat.Memory.Policies.Versions.{IsNumbered, publish_model-IsNumbered}
use lakecat.Memory.Policies.Publish.{publish_model-appends}
use lakecat.Memory.Views.{upsert_view, upsert_view_if_version}
use lakecat.Memory.Views.Versions.{SwappedView, upsert_view_if_version-swap}
use lakecat.Tests.Model.{model}
use lakecat.Tests.Sample.{sample, owner, orders, with_sales, after, repeat}

orders_named : validate_name "warehouse" orders.warehouse ≡ ok tt
unfolding model
orders_named = refl

table_key-injective_example : orders ≡ orders
table_key-injective_example = table_key-injective orders orders orders_named orders_named refl

abbrev dotted : Namespace
dotted = text "a.b" ∷ text "c" ∷ []

storage_key-injective_example : dotted ≡ dotted
storage_key-injective_example = storage_key-injective dotted dotted refl

-- namespace properties
abbrev old_properties : Map Text Text
old_properties = (text "comment", text "x") ∷ (text "owner", text "ann") ∷ []

abbrev update : NamespacePropertyUpdate
update = record {
  removals = text "comment" ∷ [];
  updates = (text "owner", text "bob") ∷ (text "tier", text "gold") ∷ [];
}

updates-Distinct : Distinct update.updates
unfolding model
updates-Distinct = (refl, (refl, tt))

apply-get_example :
    (get (text "owner") (apply old_properties update).0
      ≡ first_of (get (text "owner") update.updates) (
          if is_among (text "owner") update.removals
          then none
          else get (text "owner") old_properties))
    × All (λ j. contains_key j old_properties ≡ true) (apply old_properties update).1.removed
apply-get_example = apply-get old_properties update (text "owner") updates-Distinct

-- the outbox
abbrev pub event : CatalogAuditEvent
event = record {
  event_type = text "policy.changed";
  table = none;
  principal = owner;
  request_hash = some (text "sha256:" ++ repeat 64 b'a');
  payload = object (("event-type", string "policy.changed") ∷ []);
  created_at = 3;
}

abbrev pub recorded : MemoryState
recorded = after with_sales (record_audit_event event with_sales)

event_runs : record_audit_event event with_sales ≡ ok (tt, recorded)
unfolding model
event_runs = refl

record_audit_event-once_example :
    ((outbox : OutboxEvent) × (recorded.outbox_events ≡ with_sales.outbox_events ++ outbox ∷ []))
    × (recorded.audit_events ≡ with_sales.audit_events ++ event ∷ [])
    × (record_audit_event event recorded ≡ err duplicate)
record_audit_event-once_example = record_audit_event-once event with_sales recorded event_runs

abbrev ids : List Text
ids = (text "sha256:" ++ repeat 64 b'a') ∷ []

abbrev delivered : MemoryState
delivered = after recorded (mark_outbox_delivered 9 ids recorded)

delivery_runs : mark_outbox_delivered 9 ids recorded ≡ ok (1, delivered)
unfolding model
delivery_runs = refl

mark_outbox_delivered-delivers_example :
    (1 ≡ length (keep (is_due ids) recorded.outbox_events))
    × (keep (is_due ids) delivered.outbox_events ≡ [])
    × (keep (is_left ids) delivered.outbox_events ≡ keep (is_left ids) recorded.outbox_events)
    × (map (λ (e : OutboxEvent). e.event_id) delivered.outbox_events
        ≡ map (λ (e : OutboxEvent). e.event_id) recorded.outbox_events)
mark_outbox_delivered-delivers_example =
    mark_outbox_delivered-delivers 9 ids recorded 1 delivered delivery_runs

mark_outbox_delivered-again_example : mark_outbox_delivered 10 ids delivered ≡ ok (0, delivered)
mark_outbox_delivered-again_example =
    mark_outbox_delivered-again 9 10 ids recorded 1 delivered delivery_runs

-- model publications
abbrev publication : ModelPublication
publication = record {
  model_id = text "churn";
  warehouse = text "w";
  version = 1;
  artifact_uri = text "file:///w/churn";
  artifact_hash = text "sha256:" ++ repeat 64 b'c';
  physical_bindings = object [];
  policy_binding_ids = [];
  publisher = owner;
  published_at = 4;
}

abbrev published : MemoryState
published = (publish_model 4 publication none with_sales).1

publish_runs : publish_model 4 publication none with_sales ≡ (ok publication, published)
unfolding model
publish_runs = refl

publish_model-appends_example :
    (publication ≡ publication)
    × (current_version
          (publications_of (model_publication_key (text "w") (text "churn")) with_sales)
        ≡ none)
    × (publications_of (model_publication_key (text "w") (text "churn")) published
        ≡ publications_of (model_publication_key (text "w") (text "churn")) with_sales
          ++ publication ∷ [])
    × ((k : Text)
        → model_publication_key (text "w") (text "churn") ≢ k
        → publications_of k published ≡ publications_of k with_sales)
publish_model-appends_example =
    publish_model-appends 4 publication none with_sales publication published publish_runs

sales-IsNumbered : IsNumbered with_sales
unfolding model
sales-IsNumbered = tt

publish_model-IsNumbered_example : IsNumbered published
publish_model-IsNumbered_example =
    publish_model-IsNumbered 4 publication none with_sales (omega arith) sales-IsNumbered

-- views
abbrev view : ViewRecord
view = record {
  warehouse = text "w";
  namespace = text "sales" ∷ [];
  name = text "totals";
  view_version = 1;
  sql = text "select 1";
  dialect = text "spark";
  schema_version = none;
  columns = [];
  properties = [];
  created = record { principal = owner; at = 5 };
  updated_at = 5;
}

abbrev viewed : MemoryState
viewed = after with_sales (upsert_view 5 view with_sales)

abbrev swapped : MemoryState
swapped = after viewed (upsert_view_if_version 6 view (some 1) viewed)

swap_runs :
    upsert_view_if_version 6 view (some 1) viewed ≡ ok (record view { view_version = 2 }, swapped)
unfolding model
swap_runs = refl

upsert_view_if_version-swap_example :
    SwappedView view 1 viewed (record view { view_version = 2 }) swapped
upsert_view_if_version-swap_example =
    upsert_view_if_version-swap 6 view 1 viewed (record view { view_version = 2 }) swapped swap_runs
