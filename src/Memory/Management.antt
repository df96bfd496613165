-- ===== src/Memory/Management.antt =====
-- Servers, projects and warehouses (crates/lakecat-store/src/memory.rs).
pub mod Links
pub mod Runs
pub mod Loads
use lakecat.Prelude.{
  Text, Text-discrete, text, text_less, holds, keep, Bool, true, false, Option, none, some, List,
  [], ◌∷◌,
}
use lakecat.Prelude.Lists.{sort}
use lakecat.Prelude.Map.{text_key, get, insert, values}
use lakecat.Prelude.Results.{LakeCatResult, ok, not_found, if_some, ok_or, for_each, ◌>>=◌, ◌>>◌}
use lakecat.Core.Names.{WarehouseName}
use lakecat.Records.External.{External}
use lakecat.Records.Management.{
  ServerRecord, ProjectRecord, WarehouseRecord, validate_project_id, validate_server,
  validate_project, validate_warehouse, validate_server_record_map_scope,
  validate_project_record_map_scope, validate_warehouse_record_map_scope,
}
use lakecat.Memory.State.{MemoryState, Update, Query}

-- the orders of the listings
abbrev pub server_before : ServerRecord → ServerRecord → Bool
server_before left right = text_less left.server_id right.server_id

abbrev pub project_before : ProjectRecord → ProjectRecord → Bool
project_before left right = text_less left.project_id right.project_id

abbrev pub warehouse_before : WarehouseRecord → WarehouseRecord → Bool
warehouse_before left right = text_less left.warehouse right.warehouse

module _ ⦃ext : External⦄ where
  unfoldable pub upsert_server : ServerRecord → Update ServerRecord
  upsert_server server state = do
    validate_server server
    if_some (get server.server_id state.servers)
        (λ existing. validate_server_record_map_scope existing server.server_id)
    ok (server, record state { servers = insert server.server_id server state.servers })

  unfoldable pub list_servers : Query (List ServerRecord)
  list_servers state = do
    for_each (λ entry. validate_server_record_map_scope entry.1 entry.0) state.servers
    ok (sort server_before (values state.servers))

  unfoldable pub load_server : Text → Query ServerRecord
  load_server server_id state = do
    validate_project_id server_id
    server ← ok_or (get server_id state.servers) (not_found "server" server_id)
    validate_server_record_map_scope server server_id
    ok server

  -- the server that a project names
  unfoldable pub check_server : Text → MemoryState → LakeCatResult (Unit {0})
  check_server server_id state = do
    server ← ok_or (get server_id state.servers) (not_found "server" server_id)
    validate_server_record_map_scope server server_id

  unfoldable pub upsert_project : ProjectRecord → Update ProjectRecord
  upsert_project project state = do
    validate_project project
    if_some project.server_id (λ server_id. check_server server_id state)
    if_some (get project.project_id state.projects)
        (λ existing. validate_project_record_map_scope existing project.project_id)
    ok (project, record state { projects = insert project.project_id project state.projects })

  unfoldable pub list_projects : Query (List ProjectRecord)
  list_projects state = do
    for_each (λ entry. validate_project_record_map_scope entry.1 entry.0) state.projects
    ok (sort project_before (values state.projects))

  unfoldable pub load_project : Text → Query ProjectRecord
  load_project project_id state = do
    validate_project_id project_id
    project ← ok_or (get project_id state.projects) (not_found "project" project_id)
    validate_project_record_map_scope project project_id
    ok project

  unfoldable pub upsert_warehouse : WarehouseRecord → Update WarehouseRecord
  upsert_warehouse warehouse state = do
    validate_warehouse warehouse
    project ←
        ok_or (get warehouse.project_id state.projects) (not_found "project" warehouse.project_id)
    validate_project_record_map_scope project warehouse.project_id
    if_some (get warehouse.warehouse state.warehouses)
        (λ existing. validate_warehouse_record_map_scope existing warehouse.warehouse)
    ok (
      warehouse,
      record state { warehouses = insert warehouse.warehouse warehouse state.warehouses },
    )

  unfoldable pub load_warehouse : WarehouseName → Query WarehouseRecord
  load_warehouse name state = do
    warehouse ← ok_or (get name state.warehouses) (not_found "warehouse" name)
    validate_warehouse_record_map_scope warehouse name
    ok warehouse

  unfoldable pub list_warehouses : Query (List WarehouseRecord)
  list_warehouses state = do
    for_each (λ entry. validate_warehouse_record_map_scope entry.1 entry.0) state.warehouses
    ok (sort warehouse_before (values state.warehouses))

  unfoldable pub list_project_warehouses : Text → Query (List WarehouseRecord)
  list_project_warehouses project_id state = do
    validate_project_id project_id
    project ← ok_or (get project_id state.projects) (not_found "project" project_id)
    validate_project_record_map_scope project project_id
    for_each (λ entry. validate_warehouse_record_map_scope entry.1 entry.0) state.warehouses
    ok (
        sort warehouse_before (
          keep (λ warehouse. holds (Text-discrete warehouse.project_id project_id))
            (values state.warehouses)))
