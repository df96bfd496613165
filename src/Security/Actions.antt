-- ===== src/Security/Actions.antt =====
-- `CatalogAction` of crates/lakecat-security/src/lib.rs.
use lakecat.Prelude.{
  Text, Text-discrete, text, ◌==◌, ℕ, Bool, true, ◌≡◌, refl, sym, ap, ◌∙◌, Option, none, some, List,
  [], ◌∷◌, arith,
}
use lakecat.Prelude.Lists.{get_elem?}

pub data CatalogAction : Type 0 where
  catalog_config namespace_create namespace_list namespace_load namespace_update : CatalogAction
  namespace_drop table_create table_register table_rename table_load table_plan_scan : CatalogAction
  table_commit table_drop table_restore credentials_vend view_load view_drop : CatalogAction
  server_manage project_manage warehouse_manage storage_profile_manage view_manage : CatalogAction
  policy_manage graph_read lineage_read : CatalogAction

unfoldable pub action_name : CatalogAction → Text
action_name catalog_config = text "catalog.config"
action_name namespace_create = text "namespace.create"
action_name namespace_list = text "namespace.list"
action_name namespace_load = text "namespace.load"
action_name namespace_update = text "namespace.update"
action_name namespace_drop = text "namespace.drop"
action_name table_create = text "table.create"
action_name table_register = text "table.register"
action_name table_rename = text "table.rename"
action_name table_load = text "table.load"
action_name table_plan_scan = text "table.plan_scan"
action_name table_commit = text "table.commit"
action_name table_drop = text "table.drop"
action_name table_restore = text "table.restore"
action_name credentials_vend = text "credentials.vend"
action_name view_load = text "view.load"
action_name view_drop = text "view.drop"
action_name server_manage = text "server.manage"
action_name project_manage = text "project.manage"
action_name warehouse_manage = text "warehouse.manage"
action_name storage_profile_manage = text "storage_profile.manage"
action_name view_manage = text "view.manage"
action_name policy_manage = text "policy.manage"
action_name graph_read = text "graph.read"
action_name lineage_read = text "lineage.read"

-- `{:?}`
unfoldable pub debug_name : CatalogAction → Text
debug_name catalog_config = text "CatalogConfig"
debug_name namespace_create = text "NamespaceCreate"
debug_name namespace_list = text "NamespaceList"
debug_name namespace_load = text "NamespaceLoad"
debug_name namespace_update = text "NamespaceUpdate"
debug_name namespace_drop = text "NamespaceDrop"
debug_name table_create = text "TableCreate"
debug_name table_register = text "TableRegister"
debug_name table_rename = text "TableRename"
debug_name table_load = text "TableLoad"
debug_name table_plan_scan = text "TablePlanScan"
debug_name table_commit = text "TableCommit"
debug_name table_drop = text "TableDrop"
debug_name table_restore = text "TableRestore"
debug_name credentials_vend = text "CredentialsVend"
debug_name view_load = text "ViewLoad"
debug_name view_drop = text "ViewDrop"
debug_name server_manage = text "ServerManage"
debug_name project_manage = text "ProjectManage"
debug_name warehouse_manage = text "WarehouseManage"
debug_name storage_profile_manage = text "StorageProfileManage"
debug_name view_manage = text "ViewManage"
debug_name policy_manage = text "PolicyManage"
debug_name graph_read = text "GraphRead"
debug_name lineage_read = text "LineageRead"

-- The derived `PartialEq` compares these.
unfoldable pub discriminant : CatalogAction → ℕ
discriminant catalog_config = 0
discriminant namespace_create = 1
discriminant namespace_list = 2
discriminant namespace_load = 3
discriminant namespace_update = 4
discriminant namespace_drop = 5
discriminant table_create = 6
discriminant table_register = 7
discriminant table_rename = 8
discriminant table_load = 9
discriminant table_plan_scan = 10
discriminant table_commit = 11
discriminant table_drop = 12
discriminant table_restore = 13
discriminant credentials_vend = 14
discriminant view_load = 15
discriminant view_drop = 16
discriminant server_manage = 17
discriminant project_manage = 18
discriminant warehouse_manage = 19
discriminant storage_profile_manage = 20
discriminant view_manage = 21
discriminant policy_manage = 22
discriminant graph_read = 23
discriminant lineage_read = 24

unfoldable pub same_action : CatalogAction → CatalogAction → Bool
same_action a b = discriminant a == discriminant b

-- The action with a discriminant.
actions : List CatalogAction
actions =
    catalog_config ∷ namespace_create ∷ namespace_list ∷ namespace_load ∷ namespace_update
    ∷ namespace_drop ∷ table_create ∷ table_register ∷ table_rename ∷ table_load ∷ table_plan_scan
    ∷ table_commit ∷ table_drop ∷ table_restore ∷ credentials_vend ∷ view_load ∷ view_drop
    ∷ server_manage ∷ project_manage ∷ warehouse_manage ∷ storage_profile_manage ∷ view_manage
    ∷ policy_manage ∷ graph_read ∷ lineage_read ∷ []

action_at : (a : CatalogAction) → get_elem? actions (discriminant a) ≡ some a
unfolding actions discriminant
action_at catalog_config = refl
action_at namespace_create = refl
action_at namespace_list = refl
action_at namespace_load = refl
action_at namespace_update = refl
action_at namespace_drop = refl
action_at table_create = refl
action_at table_register = refl
action_at table_rename = refl
action_at table_load = refl
action_at table_plan_scan = refl
action_at table_commit = refl
action_at table_drop = refl
action_at table_restore = refl
action_at credentials_vend = refl
action_at view_load = refl
action_at view_drop = refl
action_at server_manage = refl
action_at project_manage = refl
action_at warehouse_manage = refl
action_at storage_profile_manage = refl
action_at view_manage = refl
action_at policy_manage = refl
action_at graph_read = refl
action_at lineage_read = refl

pub discriminant-injective : (a b : CatalogAction) → discriminant a ≡ discriminant b → a ≡ b
discriminant-injective a b e = same (sym (action_at a) ∙ (ap (get_elem? actions) e ∙ action_at b))
  where
    same : some a ≡ some b → a ≡ b
    same h = cc

pub same_action_sound : (a b : CatalogAction) → same_action a b ≡ true → a ≡ b
unfolding same_action
same_action_sound a b h = discriminant-injective a b (ground arith)

pub same_action_refl : (a : CatalogAction) → same_action a a ≡ true
unfolding same_action
same_action_refl a = ground arith

-- The action of a name.
named : Text → List CatalogAction → Option CatalogAction
named name [] = none
named name (a ∷ rest) = elim (Text-discrete (action_name a) name) [
  | yes p ↦ some a
  | no n ↦ named name rest
]

named-action_name : (a : CatalogAction) → named (action_name a) actions ≡ some a
unfolding named actions action_name Text-discrete text
named-action_name catalog_config = refl
named-action_name namespace_create = refl
named-action_name namespace_list = refl
named-action_name namespace_load = refl
named-action_name namespace_update = refl
named-action_name namespace_drop = refl
named-action_name table_create = refl
named-action_name table_register = refl
named-action_name table_rename = refl
named-action_name table_load = refl
named-action_name table_plan_scan = refl
named-action_name table_commit = refl
named-action_name table_drop = refl
named-action_name table_restore = refl
named-action_name credentials_vend = refl
named-action_name view_load = refl
named-action_name view_drop = refl
named-action_name server_manage = refl
named-action_name project_manage = refl
named-action_name warehouse_manage = refl
named-action_name storage_profile_manage = refl
named-action_name view_manage = refl
named-action_name policy_manage = refl
named-action_name graph_read = refl
named-action_name lineage_read = refl

-- Different actions have different names, by which governance engines and audit events know them.
pub action_name-injective : (a b : CatalogAction) → action_name a ≡ action_name b → a ≡ b
action_name-injective a b e =
    same (sym (named-action_name a) ∙ (ap (λ t. named t actions) e ∙ named-action_name b))
  where
    same : some a ≡ some b → a ≡ b
    same h = cc
