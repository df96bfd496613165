-- ===== src/Memory/Management/Loads.antt =====
-- What loads follow the references between servers, projects and warehouses to
-- (crates/lakecat-store/src/memory.rs).
use lakecat.Prelude.{
  Text, Text-discrete, List, Option, none, some, Bool, true, ◌≡◌, refl, ap, ◌∙◌, subst, All,
  Option-cases, inl, inr, arith, holds, holds-sound, keep,
}
use lakecat.Prelude.Lists.{sort, sort-All, All-map}
use lakecat.Memory.Invariant.Lists.{All-keep}
use lakecat.Prelude.Map.{Map, text_key, get, values, contains_key, Entries-get}
use lakecat.Prelude.Results.{
  ok, ok_or, ◌>>=◌, ◌>>◌, >>=-eq-ok, >>-eq-ok, ok-injective, ok_or-eq-ok, ensure_that-eq-ok,
  for_each-ok,
}
use lakecat.Records.External.{External}
use lakecat.Records.Management.{
  ServerRecord, ProjectRecord, WarehouseRecord, validate_project_id, validate_server,
  validate_project, validate_server_record_map_scope, validate_project_record_map_scope,
  validate_warehouse_record_map_scope,
}
use lakecat.Memory.State.{MemoryState}
use lakecat.Memory.Management.{
  load_server, load_project, load_warehouse, warehouse_before, list_project_warehouses,
}
use lakecat.Memory.Management.Links.{HasServer, IsLinked}
use lakecat.Memory.Management.Runs.{Managed, Managed-IsLinked}

contains_key-get :
    {V : Type 0} (k : Text) (m : Map Text V)
    → contains_key k m ≡ true
    → (v : V) × (get k m ≡ some v)
unfolding contains_key
contains_key-get k m h = elim (Option-cases (get k m)) [
  | inl absent ↦ absurd (missing absent)
  | inr found ↦ found
]
  where
    missing : get k m ≡ none → ⊥
    missing absent = ground arith

-- What loads for a project: the server that it names.
abbrev pub LoadsServer : ⦃ext : External⦄ → MemoryState → Option Text → Type 0
LoadsServer s none = Unit
LoadsServer s (some id) = (r : ServerRecord) × (load_server id s ≡ ok r)

module _ ⦃ext : External⦄ (s : MemoryState) (linked : IsLinked s) where
  project_scope-valid :
      (id : Text) (p : ProjectRecord)
      → validate_project_record_map_scope p id ≡ ok tt
      → validate_project_id id ≡ ok tt
  unfolding validate_project_record_map_scope validate_project
  project_scope-valid id p scoped =
      let a = >>-eq-ok _ _ scoped in
      subst (λ k. validate_project_id k ≡ ok tt) (ensure_that-eq-ok _ _ a.1) (>>-eq-ok _ _ a.0).0

  server_scope-valid :
      (id : Text) (r : ServerRecord)
      → validate_server_record_map_scope r id ≡ ok tt
      → validate_project_id id ≡ ok tt
  unfolding validate_server_record_map_scope validate_server
  server_scope-valid id r scoped =
      let a = >>-eq-ok _ _ scoped in
      subst (λ k. validate_project_id k ≡ ok tt) (ensure_that-eq-ok _ _ a.1) (>>-eq-ok _ _ a.0).0

  load_project-found :
      (id : Text) (p : ProjectRecord) → get id s.projects ≡ some p → load_project id s ≡ ok p
  unfolding load_project ok_or ◌>>=◌ ◌>>◌
  load_project-found id p found =
      let scoped =
        Entries-get (λ k r. validate_project_record_map_scope r k ≡ ok tt) id s.projects
          linked.project_rows found in
      rw (project_scope-valid id p scoped, found, scoped) refl

  load_server-found :
      (id : Text) (r : ServerRecord) → get id s.servers ≡ some r → load_server id s ≡ ok r
  unfolding load_server ok_or ◌>>=◌ ◌>>◌
  load_server-found id r found =
      let scoped =
        Entries-get (λ k r. validate_server_record_map_scope r k ≡ ok tt) id s.servers
          linked.server_rows found in
      rw (server_scope-valid id r scoped, found, scoped) refl

  HasServer-LoadsServer :
      (server_id : Option Text) → HasServer s.servers server_id → LoadsServer s server_id
  HasServer-LoadsServer none h = tt
  HasServer-LoadsServer (some id) h =
      let found = contains_key-get id s.servers h in (found.0, load_server-found id found.0 found.1)

  load_project-row :
      (id : Text) (p : ProjectRecord) → load_project id s ≡ ok p → get id s.projects ≡ some p
  unfolding load_project
  load_project-row id p h =
      let a = >>=-eq-ok _ _ (>>-eq-ok _ _ h).1 in
      ok_or-eq-ok _ _ a.1 ∙ ap some (ok-injective (>>-eq-ok _ _ a.2).1)

  load_warehouse-row :
      (name : Text) (w : WarehouseRecord)
      → load_warehouse name s ≡ ok w
      → get name s.warehouses ≡ some w
  unfolding load_warehouse
  load_warehouse-row name w h =
      let a = >>=-eq-ok _ _ h in ok_or-eq-ok _ _ a.1 ∙ ap some (ok-injective (>>-eq-ok _ _ a.2).1)

  owners :
      (name : Text) (w : WarehouseRecord)
      → load_warehouse name s ≡ ok w
      → (p : ProjectRecord) × (load_project w.project_id s ≡ ok p) × LoadsServer s p.server_id
  owners name w h =
      let owned =
        Entries-get (λ k (w : WarehouseRecord). contains_key w.project_id s.projects ≡ Bool.true)
          name s.warehouses linked.project_links (load_warehouse-row name w h) in
      let found = contains_key-get w.project_id s.projects owned in
      (
        found.0,
        load_project-found w.project_id found.0 found.1,
        HasServer-LoadsServer found.0.server_id (
            Entries-get (λ k (p : ProjectRecord). HasServer s.servers p.server_id) w.project_id
              s.projects linked.server_links found.1),
      )

  listed_in : (project_id : Text) → WarehouseRecord → Bool
  listed_in project_id w = holds (Text-discrete w.project_id project_id)

  warehouses_of :
      (project_id : Text) (p : ProjectRecord)
      → get project_id s.projects ≡ some p
      → list_project_warehouses project_id s
        ≡ ok (sort warehouse_before (keep (listed_in project_id) (values s.warehouses)))
  unfolding list_project_warehouses ok_or ◌>>=◌ ◌>>◌ listed_in
  warehouses_of project_id p found =
      let scoped =
        Entries-get (λ k r. validate_project_record_map_scope r k ≡ ok tt) project_id s.projects
          linked.project_rows found in
      rw
        (
          project_scope-valid project_id p scoped,
          found,
          scoped,
          for_each-ok (λ (e : Text × WarehouseRecord). validate_warehouse_record_map_scope e.1 e.0)
              s.warehouses linked.warehouse_rows,
        )
        refl

  warehouses_listed :
      (project_id : Text)
      → All
          (λ w. w.project_id ≡ project_id)
          (sort warehouse_before (keep (listed_in project_id) (values s.warehouses)))
  unfolding listed_in
  warehouses_listed project_id = sort-All _ warehouse_before _ (
      All-map _ _ (λ (w : WarehouseRecord). holds-sound (Text-discrete w.project_id project_id)) _
        (All-keep (listed_in project_id) (values s.warehouses)))

module _ ⦃ext : External⦄ {s : MemoryState} (m : Managed s) where
  -- In every state that a run reaches, a warehouse that loads has a project that loads, and so does the
  -- server that the project names.
  pub load_warehouse-owners :
      (name : Text) (w : WarehouseRecord)
      → load_warehouse name s ≡ ok w
      → (p : ProjectRecord) × (load_project w.project_id s ≡ ok p) × LoadsServer s p.server_id
  load_warehouse-owners name w h = owners s (Managed-IsLinked m) name w h

  -- In every state that a run reaches, the warehouses of a project that loads can be listed: no row makes
  -- the listing fail, and it holds warehouses of that project only.
  pub list_project_warehouses-total :
      (project_id : Text) (p : ProjectRecord)
      → load_project project_id s ≡ ok p
      → (warehouses : List WarehouseRecord) × (list_project_warehouses project_id s ≡ ok warehouses)
        × All (λ w. w.project_id ≡ project_id) warehouses
  list_project_warehouses-total project_id p h =
      let linked = Managed-IsLinked m in
      (
        sort warehouse_before (keep (listed_in s linked project_id) (values s.warehouses)),
        warehouses_of s linked project_id p (load_project-row s linked project_id p h),
        warehouses_listed s linked project_id,
      )
