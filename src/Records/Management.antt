-- ===== src/Records/Management.antt =====
-- Servers, projects and warehouses: the records of crates/lakecat-store/src/records.rs and their
-- checks in helpers.rs.
use lakecat.Prelude.{Text, Text-discrete, text, all, holds, ◌||◌, Option, [], ◌∷◌, ◌++◌}
use lakecat.Prelude.Map.{Map}
use lakecat.Prelude.Results.{
  LakeCatResult, invalid_argument, internal, reject, ensure, ensure_that, if_some, ok_or, ◌>>=◌,
  ◌>>◌,
}
use lakecat.Core.Names.{WarehouseName, is_empty, is_name_char}
use lakecat.Records.Types.{AuditStamp, DateTime}
use lakecat.Records.External.{External}
use lakecat.Records.Evidence.{
  content_hash_bytes, is_blank_some, location_has_query_fragment_or_userinfo,
}
use lakecat.Records.Locations.{location_has_dot_path_segment}
use lakecat.Records.Views.{validate_public_config}

pub record ServerRecord : Type 0 where
  pub server_id : Text
  pub display_name : Option Text
  pub endpoint_url : Option Text
  pub properties : Map Text Text
  pub created : AuditStamp
  pub updated_at : DateTime

pub record ProjectRecord : Type 0 where
  pub project_id : Text
  pub server_id : Option Text
  pub display_name : Option Text
  pub properties : Map Text Text
  pub created : AuditStamp
  pub updated_at : DateTime

pub record WarehouseRecord : Type 0 where
  pub warehouse : WarehouseName
  pub project_id : Text
  pub storage_root : Option Text
  pub properties : Map Text Text
  pub created : AuditStamp
  pub updated_at : DateTime

module _ ⦃ext : External⦄ where
  unfoldable pub project_id_hash_context : Text → Text
  project_id_hash_context project_id = text "project-id-hash=" ++ content_hash_bytes project_id

  unfoldable pub server_endpoint_url_hash_context : Text → Text
  server_endpoint_url_hash_context endpoint_url =
      text "server-endpoint-url-hash=" ++ content_hash_bytes endpoint_url

  unfoldable pub warehouse_storage_root_hash_context : Text → Text
  warehouse_storage_root_hash_context storage_root =
      text "warehouse-storage-root-hash=" ++ content_hash_bytes storage_root

  unfoldable pub validate_project_id : Text → LakeCatResult (Unit {0})
  validate_project_id project_id = do
    reject (is_empty project_id) (invalid_argument "project id must not be empty" [])
    ensure (all is_name_char project_id) (
        invalid_argument "project id contains unsupported characters; {}"
          (project_id_hash_context project_id ∷ []))

  unfoldable pub validate_server_endpoint_url : Text → LakeCatResult (Unit {0})
  validate_server_endpoint_url endpoint_url = do
    url ← ok_or (ext.url_parse endpoint_url) (
        invalid_argument "server endpoint URL must be an absolute http or https URL; {}"
          (server_endpoint_url_hash_context endpoint_url ∷ []))
    ensure
        (holds (Text-discrete url.scheme (text "http"))
          || holds (Text-discrete url.scheme (text "https")))
        (invalid_argument "server endpoint URL must use http or https scheme; {}"
          (server_endpoint_url_hash_context endpoint_url ∷ []))
    reject (location_has_query_fragment_or_userinfo endpoint_url) (
        invalid_argument
          "server endpoint URL must not include query strings, fragments, or userinfo; {}"
          (server_endpoint_url_hash_context endpoint_url ∷ []))

  unfoldable pub validate_warehouse_storage_root_path : Text → LakeCatResult (Unit {0})
  validate_warehouse_storage_root_path storage_root = do
    reject (location_has_query_fragment_or_userinfo storage_root) (
        invalid_argument
          "warehouse storage root must not include query strings, fragments, or userinfo; {}"
          (warehouse_storage_root_hash_context storage_root ∷ []))
    reject (location_has_dot_path_segment storage_root) (
        invalid_argument "warehouse storage root must not include dot path segments; {}"
          (warehouse_storage_root_hash_context storage_root ∷ []))

  -- `ServerRecord::validate`
  unfoldable pub validate_server : ServerRecord → LakeCatResult (Unit {0})
  validate_server server = do
    validate_project_id server.server_id
    reject (is_blank_some server.display_name)
        (invalid_argument "server display name must not be empty" [])
    reject (is_blank_some server.endpoint_url)
        (invalid_argument "server endpoint URL must not be empty" [])
    if_some server.endpoint_url validate_server_endpoint_url
    validate_public_config server.properties

  -- `ProjectRecord::validate`
  unfoldable pub validate_project : ProjectRecord → LakeCatResult (Unit {0})
  validate_project project = do
    validate_project_id project.project_id
    if_some project.server_id validate_project_id
    reject (is_blank_some project.display_name)
        (invalid_argument "project display name must not be empty" [])
    validate_public_config project.properties

  -- `WarehouseRecord::validate`
  unfoldable pub validate_warehouse : WarehouseRecord → LakeCatResult (Unit {0})
  validate_warehouse warehouse = do
    validate_project_id warehouse.project_id
    reject (is_blank_some warehouse.storage_root)
        (invalid_argument "warehouse storage root must not be empty" [])
    if_some warehouse.storage_root validate_warehouse_storage_root_path
    validate_public_config warehouse.properties

  unfoldable pub validate_server_record_map_scope : ServerRecord → Text → LakeCatResult (Unit {0})
  validate_server_record_map_scope server server_id = do
    validate_server server
    ensure_that (Text-discrete server.server_id server_id)
        (internal "server row scope does not match server identity" [])

  unfoldable pub validate_project_record_map_scope : ProjectRecord → Text → LakeCatResult (Unit {0})
  validate_project_record_map_scope project project_id = do
    validate_project project
    ensure_that (Text-discrete project.project_id project_id)
        (internal "project row scope does not match project identity" [])

  unfoldable pub validate_warehouse_record_map_scope :
      WarehouseRecord → Text → LakeCatResult (Unit {0})
  validate_warehouse_record_map_scope record_of_row warehouse_key = do
    validate_warehouse record_of_row
    ensure_that (Text-discrete record_of_row.warehouse warehouse_key)
        (internal "warehouse row scope does not match warehouse identity" [])
