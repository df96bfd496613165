-- ===== src/Security/Capabilities.antt =====
-- The capabilities of crates/lakecat-security/src/lib.rs, one for each action.
pub mod Grants
use lakecat.Prelude.{Text, text, Option, none, some, List, [], ◌∷◌, String, Bool, true, ◌≡◌}
use lakecat.Prelude.Json.{get}
use lakecat.Prelude.Results.{LakeCatResult, ok, invalid_argument, ensure_that, ok_or, ◌>>=◌, ◌>>◌}
use lakecat.Core.Names.{TableIdent, TableIdent-discrete, stable_id}
use lakecat.Records.External.{External}
use lakecat.Security.Actions.{CatalogAction}
use lakecat.Security.Receipts.{
  AuthorizationRequest, AuthorizationReceipt, Codecs, Capability, TableReadScope, TableRenameTarget,
  catalog_capability_from_receipt, validate_table_authorization_receipt,
  table_capability_from_receipt, table_read_capability_from_receipt,
}

-- The markers of the capabilities, by what their receipt must be for.
pub data TableKind : Type 0 where
  can_create_table can_register_table can_load_table can_commit_table : TableKind
  can_drop_table can_restore_table : TableKind

pub data ReadKind : Type 0 where
  can_plan_scan can_vend_credentials : ReadKind

pub data CatalogKind : Type 0 where
  can_manage_servers can_manage_projects can_manage_warehouses : CatalogKind
  can_manage_storage_profiles can_load_views can_drop_views can_manage_views : CatalogKind
  can_manage_policies can_read_graph can_read_lineage can_read_catalog_config : CatalogKind
  can_create_namespace can_list_namespaces can_load_namespace : CatalogKind
  can_update_namespace can_drop_namespace : CatalogKind

unfoldable pub table_action : TableKind → CatalogAction
table_action can_create_table = CatalogAction.table_create
table_action can_register_table = CatalogAction.table_register
table_action can_load_table = CatalogAction.table_load
table_action can_commit_table = CatalogAction.table_commit
table_action can_drop_table = CatalogAction.table_drop
table_action can_restore_table = CatalogAction.table_restore

unfoldable pub table_description : TableKind → String
table_description can_create_table = "create table"
table_description can_register_table = "register table"
table_description can_load_table = "load table"
table_description can_commit_table = "commit table"
table_description can_drop_table = "drop table"
table_description can_restore_table = "restore table"

unfoldable pub read_action : ReadKind → CatalogAction
read_action can_plan_scan = CatalogAction.table_plan_scan
read_action can_vend_credentials = CatalogAction.credentials_vend

unfoldable pub read_description : ReadKind → String
read_description can_plan_scan = "plan table scans"
read_description can_vend_credentials = "vend table credentials"

unfoldable pub catalog_action : CatalogKind → CatalogAction
catalog_action can_manage_servers = CatalogAction.server_manage
catalog_action can_manage_projects = CatalogAction.project_manage
catalog_action can_manage_warehouses = CatalogAction.warehouse_manage
catalog_action can_manage_storage_profiles = CatalogAction.storage_profile_manage
catalog_action can_load_views = CatalogAction.view_load
catalog_action can_drop_views = CatalogAction.view_drop
catalog_action can_manage_views = CatalogAction.view_manage
catalog_action can_manage_policies = CatalogAction.policy_manage
catalog_action can_read_graph = CatalogAction.graph_read
catalog_action can_read_lineage = CatalogAction.lineage_read
catalog_action can_read_catalog_config = CatalogAction.catalog_config
catalog_action can_create_namespace = CatalogAction.namespace_create
catalog_action can_list_namespaces = CatalogAction.namespace_list
catalog_action can_load_namespace = CatalogAction.namespace_load
catalog_action can_update_namespace = CatalogAction.namespace_update
catalog_action can_drop_namespace = CatalogAction.namespace_drop

unfoldable pub catalog_description : CatalogKind → String
catalog_description can_manage_servers = "manage servers"
catalog_description can_manage_projects = "manage projects"
catalog_description can_manage_warehouses = "manage warehouses"
catalog_description can_manage_storage_profiles = "manage storage profiles"
catalog_description can_load_views = "load views"
catalog_description can_drop_views = "drop views"
catalog_description can_manage_views = "manage views"
catalog_description can_manage_policies = "manage policies"
catalog_description can_read_graph = "read catalog graph"
catalog_description can_read_lineage = "read catalog lineage"
catalog_description can_read_catalog_config = "read catalog config"
catalog_description can_create_namespace = "create namespaces"
catalog_description can_list_namespaces = "list namespaces"
catalog_description can_load_namespace = "load namespaces"
catalog_description can_update_namespace = "update namespace properties"
catalog_description can_drop_namespace = "drop namespaces"

-- `from_receipt` of the capabilities
unfoldable pub table_from_receipt :
    TableKind → AuthorizationReceipt → TableIdent → LakeCatResult (Capability TableIdent)
table_from_receipt kind receipt table =
    table_capability_from_receipt receipt table (table_action kind) (table_description kind)

unfoldable pub catalog_from_receipt :
    CatalogKind → AuthorizationReceipt → LakeCatResult (Capability (Unit {0}))
catalog_from_receipt kind receipt =
    catalog_capability_from_receipt receipt (catalog_action kind) (catalog_description kind)

unfoldable pub read_from_receipt :
    ⦃codecs : Codecs⦄
    → ReadKind
    → AuthorizationReceipt
    → TableIdent
    → LakeCatResult (Capability TableReadScope)
read_from_receipt kind receipt table =
    table_read_capability_from_receipt receipt table (read_action kind) (read_description kind)

-- `TableRenameCapability::from_receipt`
unfoldable pub rename_from_receipt :
    ⦃ext : External⦄
    → AuthorizationReceipt
    → TableRenameTarget
    → LakeCatResult (Capability TableRenameTarget)
rename_from_receipt ⦃ext⦄ receipt target = do
  validate_table_authorization_receipt receipt target.source CatalogAction.table_rename
      "rename table"
  value ←
      ok_or (get receipt.context (text "destination-table"))
        (invalid_argument "table rename authorization receipt is missing destination table" [])
  receipt_destination ←
      ok_or (ext.table_ident_from_value value)
        (invalid_argument "table rename authorization receipt destination table is malformed" [])
  ensure_that (TableIdent-discrete receipt_destination target.destination)
      (invalid_argument "table rename authorization receipt destination does not match target" [])
  ok (record { receipt = receipt; resource = target })

unfoldable pub resource_name : AuthorizationRequest → Text
resource_name request = elim request.table [
  | some table ↦ stable_id table
  | none ↦ text "lakecat:catalog"
]
