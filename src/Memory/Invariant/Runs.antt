-- ===== src/Memory/Invariant/Runs.antt =====
-- The invariant holds in every run of the store (crates/lakecat-store/src/memory.rs), and with it no
-- listing fails.
use lakecat.Prelude.{Text, ℕ, ◌^◌, ◌<◌, List, Option, ◌≡◌, refl, sym, subst}
use lakecat.Prelude.Map.{text_key, contains_key, Entries-insert}
use lakecat.Prelude.Results.{ok, >>=-eq-ok, >>-eq-ok, ok-pair}
use lakecat.Core.Names.{WarehouseName, Namespace}
use lakecat.Records.Types.{
  DateTime, NamespaceProperties, NamespacePropertyUpdate, NamespacePropertyUpdateResult,
  PolicyBinding, ModelPublication, CatalogAuditEvent,
}
use lakecat.Records.External.{External}
use lakecat.Records.Policies.{validate_policy_binding_map_scope}
use lakecat.Records.Policies.Scope.{validate_policy_binding_map_scope-intro}
use lakecat.Memory.State.{MemoryState, empty}
use lakecat.Memory.Namespaces.{create_namespace_with_properties, update_namespace_properties}
use lakecat.Memory.Policies.{upsert_policy_binding, publish_model}
use lakecat.Memory.Policies.Versions.{publish_model-IsNumbered}
use lakecat.Memory.Policies.Publish.{publish_model-kept}
use lakecat.Memory.Outbox.{record_audit_event, mark_outbox_delivered}
use lakecat.Memory.Outbox.Delivery.{mark-state}
use lakecat.Memory.Steps.{Step, Reachable}
use lakecat.Memory.Invariant.{Invariant, IsScoped}
use lakecat.Memory.Invariant.Tables.{
  create_table-Invariant, commit_table-Invariant, soft_delete_table-Invariant,
  restore_table-Invariant,
}
use lakecat.Memory.Invariant.Rename.{rename_table-Invariant}
use lakecat.Memory.Invariant.Namespaces.{drop_namespace-Invariant}
use lakecat.Memory.Invariant.Views.{
  upsert_view-Invariant, upsert_view_if_version-Invariant, drop_view_if_version-Invariant,
}
use lakecat.Memory.Invariant.Management.{
  upsert_server-Invariant, upsert_project-Invariant, upsert_warehouse-Invariant,
  upsert_storage_profile-Invariant, save_governed_scan_grant-Invariant,
}

module _ ⦃ext : External⦄ where
  create_namespace-Invariant :
      (warehouse : WarehouseName) (namespace : Namespace) (properties : NamespaceProperties)
      (s s' : MemoryState)
      → create_namespace_with_properties warehouse namespace properties s ≡ ok (tt, s')
      → Invariant s
      → Invariant s'
  unfolding create_namespace_with_properties
  create_namespace-Invariant warehouse namespace properties s s' h i =
      rw (ok-pair (>>-eq-ok _ _ h).1).1 i

  update_namespace-Invariant :
      (warehouse : WarehouseName) (namespace : Namespace) (update : NamespacePropertyUpdate)
      (result : NamespacePropertyUpdateResult) (s s' : MemoryState)
      → update_namespace_properties warehouse namespace update s ≡ ok (result, s')
      → Invariant s
      → Invariant s'
  unfolding update_namespace_properties
  update_namespace-Invariant warehouse namespace update result s s' h i =
      rw (ok-pair (>>=-eq-ok _ _ h).2).1 i

  upsert_policy_binding-Invariant :
      (binding stored : PolicyBinding) (s s' : MemoryState)
      → upsert_policy_binding binding s ≡ ok (stored, s')
      → Invariant s
      → Invariant s'
  unfolding upsert_policy_binding
  upsert_policy_binding-Invariant binding stored s s' h i =
      let a = >>-eq-ok _ _ h in
      let b = >>-eq-ok _ _ a.1 in
      rw (ok-pair b.1).1 (
        i.0,
        i.1,
        i.2,
        Entries-insert (λ k b. validate_policy_binding_map_scope b k ≡ ok tt) _ binding
            s.policy_bindings (validate_policy_binding_map_scope-intro binding _ a.0 refl) i.3,
        i.4,
      )

  publish_model-Invariant :
      (now : DateTime) (p : ModelPublication) (expected : Option ℕ) (s : MemoryState)
      → p.version < 2 ^ 64
      → Invariant s
      → Invariant (publish_model now p expected s).1
  publish_model-Invariant now p expected s fits i =
      let kept = publish_model-kept now p expected s in
      (
        subst IsScoped (sym kept.0) i.0,
        rw (kept.0, kept.1) i.1,
        rw kept.2 i.2,
        rw kept.3 i.3,
        publish_model-IsNumbered now p expected s fits i.4,
      )

  record_audit_event-Invariant :
      (event : CatalogAuditEvent) (s s' : MemoryState)
      → record_audit_event event s ≡ ok (tt, s')
      → Invariant s
      → Invariant s'
  unfolding record_audit_event
  record_audit_event-Invariant event s s' h i =
      let a = >>-eq-ok _ _ h in
      let b = >>=-eq-ok _ _ a.1 in
      let c = >>=-eq-ok _ _ b.2 in rw (ok-pair (>>-eq-ok _ _ c.2).1).1 i

  mark_outbox_delivered-Invariant :
      (now : DateTime) (ids : List Text) (n : ℕ) (s s' : MemoryState)
      → mark_outbox_delivered now ids s ≡ ok (n, s')
      → Invariant s
      → Invariant s'
  mark_outbox_delivered-Invariant now ids n s s' h i = rw (mark-state now ids s n s' h).1 i

  -- Every operation keeps the invariant.
  Step-Invariant : {s s' : MemoryState} → Step s s' → Invariant s → Invariant s'
  Step-Invariant (Step.namespace_created w ns ps h) = create_namespace-Invariant w ns ps _ _ h
  Step-Invariant (Step.namespace_updated w ns u r h) = update_namespace-Invariant w ns u r _ _ h
  Step-Invariant (Step.namespace_dropped w ns d h) = drop_namespace-Invariant w ns d _ _ h
  Step-Invariant (Step.table_created t c h) = create_table-Invariant t c _ _ h
  Step-Invariant (Step.table_committed n i c t h) = commit_table-Invariant n i c t _ _ h
  Step-Invariant (Step.table_renamed a b n p r t h) = rename_table-Invariant a b n p r t _ _ h
  Step-Invariant (Step.table_deleted i p r n t h) = soft_delete_table-Invariant i p r n t _ _ h
  Step-Invariant (Step.table_restored i p r n t h) = restore_table-Invariant i p r n t _ _ h
  Step-Invariant (Step.view_upserted n v r h) = upsert_view-Invariant n v r _ _ h
  Step-Invariant (Step.view_swapped n v r e h) = upsert_view_if_version-Invariant n v r e _ _ h
  Step-Invariant (Step.view_dropped n w ns v p e) = drop_view_if_version-Invariant n w ns v p e _
  Step-Invariant (Step.binding_upserted b r h) = upsert_policy_binding-Invariant b r _ _ h
  Step-Invariant (Step.model_published n p e fits) = publish_model-Invariant n p e _ fits
  Step-Invariant (Step.event_recorded e h) = record_audit_event-Invariant e _ _ h
  Step-Invariant (Step.events_delivered n ids k h) = mark_outbox_delivered-Invariant n ids k _ _ h
  Step-Invariant (Step.server_upserted r t h) = upsert_server-Invariant r t _ _ h
  Step-Invariant (Step.project_upserted r t h) = upsert_project-Invariant r t _ _ h
  Step-Invariant (Step.warehouse_upserted r t h) = upsert_warehouse-Invariant r t _ _ h
  Step-Invariant (Step.profile_upserted r t h) = upsert_storage_profile-Invariant r t _ _ h
  Step-Invariant (Step.grant_saved g t h) = save_governed_scan_grant-Invariant g t _ _ h

  empty-Invariant : Invariant empty
  unfolding contains_key
  empty-Invariant = (tt, λ k h. h, tt, tt, tt)

  -- In every state that the operations reach from the empty catalog, in any order, each table, view
  -- and policy binding is valid and stands under the key of its identity, each soft delete is of a
  -- table, and the versions of each model are 1, 2, 3, ... without a gap.
  pub Reachable-Invariant : {s : MemoryState} → Reachable s → Invariant s
  Reachable-Invariant Reachable.start = empty-Invariant
  Reachable-Invariant (Reachable.next r step) = Step-Invariant step (Reachable-Invariant r)
