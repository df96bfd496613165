-- ===== src/Memory/Management/Runs.antt =====
-- The references between servers, projects and warehouses never dangle
-- (crates/lakecat-store/src/memory.rs).
use lakecat.Prelude.{Bool, ◌≡◌, sym, subst}
use lakecat.Prelude.Map.{text_key, contains_key, Entries}
use lakecat.Prelude.Results.{ok}
use lakecat.Records.External.{External}
use lakecat.Records.Profiles.{StorageProfile}
use lakecat.Records.Profiles.Checks.{validate_storage_profile_map_scope}
use lakecat.Records.Management.{
  ServerRecord, ProjectRecord, WarehouseRecord, validate_server_record_map_scope,
  validate_project_record_map_scope, validate_warehouse_record_map_scope,
}
use lakecat.Memory.State.{MemoryState, empty}
use lakecat.Memory.Management.{upsert_server, upsert_project, upsert_warehouse}
use lakecat.Memory.Profiles.{upsert_storage_profile}
use lakecat.Memory.Management.Links.{
  HasServer, IsLinked, upsert_server-IsLinked, upsert_project-IsLinked, upsert_warehouse-IsLinked,
  upsert_storage_profile-IsLinked,
}

module _ ⦃ext : External⦄ where
  -- A run from the empty catalog of the operations that write to these rows, between others that leave
  -- them as they are.
  pub data Managed : MemoryState → Type 0 where
    start : Managed empty
    server_upserted :
        (r stored : ServerRecord) {s s' : MemoryState}
        → Managed s
        → upsert_server r s ≡ ok (stored, s')
        → Managed s'
    project_upserted :
        (r stored : ProjectRecord) {s s' : MemoryState}
        → Managed s
        → upsert_project r s ≡ ok (stored, s')
        → Managed s'
    warehouse_upserted :
        (r stored : WarehouseRecord) {s s' : MemoryState}
        → Managed s
        → upsert_warehouse r s ≡ ok (stored, s')
        → Managed s'
    profile_upserted :
        (r stored : StorageProfile) {s s' : MemoryState}
        → Managed s
        → upsert_storage_profile r s ≡ ok (stored, s')
        → Managed s'
    other :
        {s s' : MemoryState}
        → Managed s
        → s'.servers ≡ s.servers
        → s'.projects ≡ s.projects
        → s'.warehouses ≡ s.warehouses
        → s'.storage_profiles ≡ s.storage_profiles
        → Managed s'

  other-IsLinked :
      (s s' : MemoryState)
      → s'.servers ≡ s.servers
      → s'.projects ≡ s.projects
      → s'.warehouses ≡ s.warehouses
      → s'.storage_profiles ≡ s.storage_profiles
      → IsLinked s
      → IsLinked s'
  other-IsLinked s s' a b c d inv = record {
    server_rows =
        subst (Entries (λ k r. validate_server_record_map_scope r k ≡ ok tt)) (sym a)
          inv.server_rows;
    project_rows =
        subst (Entries (λ k r. validate_project_record_map_scope r k ≡ ok tt)) (sym b)
          inv.project_rows;
    warehouse_rows =
        subst (Entries (λ k r. validate_warehouse_record_map_scope r k ≡ ok tt)) (sym c)
          inv.warehouse_rows;
    profile_rows =
        subst (Entries (λ k r. validate_storage_profile_map_scope r k ≡ ok tt)) (sym d)
          inv.profile_rows;
    server_links =
        subst
          (λ servers. Entries (λ k (p : ProjectRecord). HasServer servers p.server_id) s'.projects)
          (sym a)
          (subst (Entries (λ k (p : ProjectRecord). HasServer s.servers p.server_id)) (sym b)
            inv.server_links);
    project_links =
        subst
          (λ projects.
            Entries (λ k (w : WarehouseRecord). contains_key w.project_id projects ≡ Bool.true)
              s'.warehouses)
          (sym b)
          (subst
            (Entries (λ k (w : WarehouseRecord). contains_key w.project_id s.projects ≡ Bool.true))
            (sym c) inv.project_links);
  }

  -- In every state that a run reaches, servers, projects, warehouses and storage profiles are valid and
  -- stand under the keys of their identities, each project has the server that it names, and each
  -- warehouse has its project.
  pub Managed-IsLinked : {s : MemoryState} → Managed s → IsLinked s
  Managed-IsLinked start = record {
    server_rows = tt;
    project_rows = tt;
    warehouse_rows = tt;
    profile_rows = tt;
    server_links = tt;
    project_links = tt;
  }
  Managed-IsLinked (server_upserted r t m h) = upsert_server-IsLinked r t _ _ h (Managed-IsLinked m)
  Managed-IsLinked (project_upserted r t m h) =
      upsert_project-IsLinked r t _ _ h (Managed-IsLinked m)
  Managed-IsLinked (warehouse_upserted r t m h) =
      upsert_warehouse-IsLinked r t _ _ h (Managed-IsLinked m)
  Managed-IsLinked (profile_upserted r t m h) =
      upsert_storage_profile-IsLinked r t _ _ h (Managed-IsLinked m)
  Managed-IsLinked (other m a b c d) = other-IsLinked _ _ a b c d (Managed-IsLinked m)
