-- ===== src/Memory/Management/Links.antt =====
-- The operations on servers, projects, warehouses and storage profiles keep the references between
-- the rows (crates/lakecat-store/src/memory.rs).
use lakecat.Prelude.{Text, Option, none, some, Bool, true, ◌≡◌, refl, sym, subst, arith}
use lakecat.Prelude.Lists.{All-map}
use lakecat.Prelude.Map.{
  Map, text_key, get, insert, contains_key, Entries, Entries-insert, contains_key-insert_mono,
}
use lakecat.Prelude.Results.{
  ok, if_some, ensure_that, ◌>>=◌, ◌>>◌, >>=-eq-ok, >>-eq-ok, ok-pair, ok_or-eq-ok,
}
use lakecat.Records.External.{External}
use lakecat.Records.Profiles.{StorageProfile, storage_profile_key}
use lakecat.Records.Profiles.Checks.{validate_profile, validate_storage_profile_map_scope}
use lakecat.Records.Management.{
  ServerRecord, ProjectRecord, WarehouseRecord, validate_server, validate_project,
  validate_warehouse, validate_server_record_map_scope, validate_project_record_map_scope,
  validate_warehouse_record_map_scope,
}
use lakecat.Memory.State.{MemoryState}
use lakecat.Memory.Management.{upsert_server, check_server, upsert_project, upsert_warehouse}
use lakecat.Memory.Profiles.{upsert_storage_profile}

-- The server that a project names is there; a project need not name one.
abbrev pub HasServer : Map Text ServerRecord → Option Text → Type 0
HasServer servers none = Unit
HasServer servers (some server_id) = contains_key server_id servers ≡ Bool.true

module _ ⦃ext : External⦄ where
  -- Rows are valid and stand under their keys, projects have their servers, and warehouses their
  -- projects.
  pub record IsLinked (s : MemoryState) : Type 0 where
    pub server_rows : Entries (λ k r. validate_server_record_map_scope r k ≡ ok tt) s.servers
    pub project_rows : Entries (λ k r. validate_project_record_map_scope r k ≡ ok tt) s.projects
    pub warehouse_rows :
        Entries (λ k r. validate_warehouse_record_map_scope r k ≡ ok tt) s.warehouses
    pub profile_rows :
        Entries (λ k r. validate_storage_profile_map_scope r k ≡ ok tt) s.storage_profiles
    pub server_links : Entries (λ k (p : ProjectRecord). HasServer s.servers p.server_id) s.projects
    pub project_links :
        Entries
          (λ k (w : WarehouseRecord). contains_key w.project_id s.projects ≡ Bool.true)
          s.warehouses

  validate_server_record_map_scope-intro :
      (r : ServerRecord)
      → validate_server r ≡ ok tt
      → validate_server_record_map_scope r r.server_id ≡ ok tt
  unfolding validate_server_record_map_scope ◌>>◌ ◌>>=◌ ensure_that
  validate_server_record_map_scope-intro r h = ground arith

  validate_project_record_map_scope-intro :
      (r : ProjectRecord)
      → validate_project r ≡ ok tt
      → validate_project_record_map_scope r r.project_id ≡ ok tt
  unfolding validate_project_record_map_scope ◌>>◌ ◌>>=◌ ensure_that
  validate_project_record_map_scope-intro r h = ground arith

  validate_warehouse_record_map_scope-intro :
      (r : WarehouseRecord)
      → validate_warehouse r ≡ ok tt
      → validate_warehouse_record_map_scope r r.warehouse ≡ ok tt
  unfolding validate_warehouse_record_map_scope ◌>>◌ ◌>>=◌ ensure_that
  validate_warehouse_record_map_scope-intro r h = ground arith

  validate_storage_profile_map_scope-intro :
      (r : StorageProfile)
      → validate_profile r ≡ ok tt
      → validate_storage_profile_map_scope r (storage_profile_key r.warehouse r.profile_id) ≡ ok tt
  unfolding validate_storage_profile_map_scope ◌>>◌ ◌>>=◌ ensure_that
  validate_storage_profile_map_scope-intro r h = ground arith

  HasServer-insert :
      (k : Text) (r : ServerRecord) (servers : Map Text ServerRecord) (server_id : Option Text)
      → HasServer servers server_id
      → HasServer (insert k r servers) server_id
  HasServer-insert k r servers none h = tt
  HasServer-insert k r servers (some id) h = contains_key-insert_mono k id r servers h

  pub upsert_server-IsLinked :
      (r stored : ServerRecord) (s s' : MemoryState)
      → upsert_server r s ≡ ok (stored, s')
      → IsLinked s
      → IsLinked s'
  unfolding upsert_server
  upsert_server-IsLinked r stored s s' h inv =
      let a = >>-eq-ok _ _ h in
      subst IsLinked (sym (ok-pair (>>-eq-ok _ _ a.1).1).1) (record {
        server_rows =
            Entries-insert (λ k r. validate_server_record_map_scope r k ≡ ok tt) r.server_id r
              s.servers (validate_server_record_map_scope-intro r a.0) inv.server_rows;
        project_rows = inv.project_rows;
        warehouse_rows = inv.warehouse_rows;
        profile_rows = inv.profile_rows;
        server_links =
            All-map _ _
              (λ (e : Text × ProjectRecord). HasServer-insert r.server_id r s.servers e.1.server_id)
              s.projects inv.server_links;
        project_links = inv.project_links;
      })

  check_server-HasServer :
      (server_id : Option Text) (s : MemoryState)
      → if_some server_id (λ id. check_server id s) ≡ ok tt
      → HasServer s.servers server_id
  unfolding if_some check_server contains_key
  check_server-HasServer none s h = tt
  check_server-HasServer (some id) s h = let a = >>=-eq-ok _ _ h in rw (ok_or-eq-ok _ _ a.1) refl

  pub upsert_project-IsLinked :
      (r stored : ProjectRecord) (s s' : MemoryState)
      → upsert_project r s ≡ ok (stored, s')
      → IsLinked s
      → IsLinked s'
  unfolding upsert_project
  upsert_project-IsLinked r stored s s' h inv =
      let a = >>-eq-ok _ _ h in
      let b = >>-eq-ok _ _ a.1 in
      subst IsLinked (sym (ok-pair (>>-eq-ok _ _ b.1).1).1) (record {
        server_rows = inv.server_rows;
        project_rows =
            Entries-insert (λ k r. validate_project_record_map_scope r k ≡ ok tt) r.project_id r
              s.projects (validate_project_record_map_scope-intro r a.0) inv.project_rows;
        warehouse_rows = inv.warehouse_rows;
        profile_rows = inv.profile_rows;
        server_links =
            Entries-insert (λ k (p : ProjectRecord). HasServer s.servers p.server_id) r.project_id r
              s.projects (check_server-HasServer r.server_id s b.0) inv.server_links;
        project_links =
            All-map _ _
              (λ (e : Text × WarehouseRecord).
                contains_key-insert_mono r.project_id e.1.project_id r s.projects)
              s.warehouses inv.project_links;
      })

  found-contains_key :
      (k : Text) (projects : Map Text ProjectRecord) {p : ProjectRecord}
      → get k projects ≡ some p
      → contains_key k projects ≡ true
  unfolding contains_key
  found-contains_key k projects e = rw e refl

  pub upsert_warehouse-IsLinked :
      (r stored : WarehouseRecord) (s s' : MemoryState)
      → upsert_warehouse r s ≡ ok (stored, s')
      → IsLinked s
      → IsLinked s'
  unfolding upsert_warehouse
  upsert_warehouse-IsLinked r stored s s' h inv =
      let a = >>-eq-ok _ _ h in
      let b = >>=-eq-ok _ _ a.1 in
      let c = >>-eq-ok _ _ (>>-eq-ok _ _ b.2).1 in
      subst IsLinked (sym (ok-pair c.1).1) (record {
        server_rows = inv.server_rows;
        project_rows = inv.project_rows;
        warehouse_rows =
            Entries-insert (λ k r. validate_warehouse_record_map_scope r k ≡ ok tt) r.warehouse r
              s.warehouses (validate_warehouse_record_map_scope-intro r a.0) inv.warehouse_rows;
        profile_rows = inv.profile_rows;
        server_links = inv.server_links;
        project_links =
            Entries-insert
              (λ k (w : WarehouseRecord). contains_key w.project_id s.projects ≡ Bool.true)
              r.warehouse r s.warehouses
              (found-contains_key r.project_id s.projects (ok_or-eq-ok _ _ b.1)) inv.project_links;
      })

  pub upsert_storage_profile-IsLinked :
      (r stored : StorageProfile) (s s' : MemoryState)
      → upsert_storage_profile r s ≡ ok (stored, s')
      → IsLinked s
      → IsLinked s'
  unfolding upsert_storage_profile
  upsert_storage_profile-IsLinked r stored s s' h inv =
      let a = >>-eq-ok _ _ h in
      subst IsLinked (sym (ok-pair (>>-eq-ok _ _ a.1).1).1) (record {
        server_rows = inv.server_rows;
        project_rows = inv.project_rows;
        warehouse_rows = inv.warehouse_rows;
        profile_rows =
            Entries-insert (λ k r. validate_storage_profile_map_scope r k ≡ ok tt)
              (storage_profile_key r.warehouse r.profile_id) r s.storage_profiles
              (validate_storage_profile_map_scope-intro r a.0) inv.profile_rows;
        server_links = inv.server_links;
        project_links = inv.project_links;
      })
