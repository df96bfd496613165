-- ===== src/Security/Capabilities/Grants.antt =====
-- Which receipts the capabilities of crates/lakecat-security/src/lib.rs are made from.
use lakecat.Prelude.{
  is_some, Option, none, some, true, false, ◌≡◌, refl, sym, ap, ◌∙◌, String, holds-sound,
}
use lakecat.Prelude.Results.{ok, >>=-eq-ok, >>-eq-ok, ensure-eq-ok, reject-eq-ok}
use lakecat.Core.Names.{TableIdent, TableIdent-discrete}
use lakecat.Records.External.{External}
use lakecat.Security.Actions.{CatalogAction, same_action_sound}
use lakecat.Security.Receipts.{
  AuthorizationReceipt, Codecs, Capability, TableReadScope, TableRenameTarget, is_for_table,
  catalog_capability_from_receipt, validate_table_authorization_receipt,
  table_capability_from_receipt, table_read_capability_from_receipt,
}
use lakecat.Security.Capabilities.{
  TableKind, ReadKind, CatalogKind, table_action, read_action, catalog_action, table_description,
  read_description, table_from_receipt, catalog_from_receipt, read_from_receipt,
  rename_from_receipt,
}

-- The capabilities together: for a table, to read one, to rename one, or for the catalog.
pub data Kind : Type 0 where
  table : TableKind → Kind
  read : ReadKind → Kind
  rename : Kind
  catalog : CatalogKind → Kind

pub action_of : Kind → CatalogAction
action_of (table k) = table_action k
action_of (read k) = read_action k
action_of rename = CatalogAction.table_rename
action_of (catalog k) = catalog_action k

-- A receipt gives a capability of a kind, and the tables that it is for.
pub data Grants ⦃ext : External⦄ ⦃codecs : Codecs⦄ (receipt : AuthorizationReceipt)
    : Kind → Option TableIdent → Type 0 where
  of_table :
      (k : TableKind) (t : TableIdent) (capability : Capability TableIdent)
      → table_from_receipt k receipt t ≡ ok capability
      → Grants receipt (table k) (some t)
  of_read :
      (k : ReadKind) (t : TableIdent) (capability : Capability TableReadScope)
      → read_from_receipt k receipt t ≡ ok capability
      → Grants receipt (read k) (some t)
  of_rename :
      (target : TableRenameTarget) (capability : Capability TableRenameTarget)
      → rename_from_receipt receipt target ≡ ok capability
      → Grants receipt rename (some target.source)
  of_catalog :
      (k : CatalogKind) (capability : Capability (Unit {0}))
      → catalog_from_receipt k receipt ≡ ok capability
      → Grants receipt (catalog k) none

-- What a receipt must say for an action on a table, or on the catalog.
pub record Authorizes (receipt : AuthorizationReceipt) (action : CatalogAction)
    (t : Option TableIdent) : Type 0 where
  pub allowed : receipt.allowed ≡ true
  pub for_action : receipt.action ≡ action
  pub for_table : receipt.table ≡ t

is_for_table_sound : (o : Option TableIdent) (t : TableIdent) → is_for_table o t ≡ true → o ≡ some t
unfolding is_for_table
is_for_table_sound none t h = cc
is_for_table_sound (some u) t h = ap some (holds-sound (TableIdent-discrete u t) h)

is_none : (o : Option TableIdent) → is_some o ≡ false → o ≡ none
is_none none h = refl
is_none (some t) h = cc

module _ (receipt : AuthorizationReceipt) where
  validate_table_authorization_receipt-Authorizes :
      (t : TableIdent) (action : CatalogAction) (description : String)
      → validate_table_authorization_receipt receipt t action description ≡ ok tt
      → Authorizes receipt action (some t)
  unfolding validate_table_authorization_receipt
  validate_table_authorization_receipt-Authorizes t action description h =
      let a = >>-eq-ok _ _ h in
      let b = >>-eq-ok _ _ a.1 in
      let c = >>-eq-ok _ _ b.1 in
      record {
        allowed = ensure-eq-ok _ _ a.0;
        for_action = same_action_sound receipt.action action (ensure-eq-ok _ _ b.0);
        for_table = is_for_table_sound receipt.table t (ensure-eq-ok _ _ c.0);
      }

  table_capability-Authorizes :
      (t : TableIdent) (action : CatalogAction) (description : String)
      (capability : Capability TableIdent)
      → table_capability_from_receipt receipt t action description ≡ ok capability
      → Authorizes receipt action (some t)
  unfolding table_capability_from_receipt
  table_capability-Authorizes t action description capability h =
      validate_table_authorization_receipt-Authorizes t action description (>>-eq-ok _ _ h).0

  -- A receipt that gives a capability is allowed, is for the action of that capability, and is for
  -- its table; for a capability that is not on a table, it names none.
  pub Grants-Authorizes :
      ⦃ext : External⦄ ⦃codecs : Codecs⦄ (k : Kind) (t : Option TableIdent)
      → Grants receipt k t
      → Authorizes receipt (action_of k) t
  unfolding action_of table_from_receipt read_from_receipt rename_from_receipt catalog_from_receipt
      table_read_capability_from_receipt catalog_capability_from_receipt
  Grants-Authorizes i j (of_table k t capability h) =
      table_capability-Authorizes t (table_action k) (table_description k) capability h
  Grants-Authorizes i j (of_read k t capability h) =
      let a = >>=-eq-ok _ _ h in
      table_capability-Authorizes t (read_action k) (read_description k) a.0 a.1
  Grants-Authorizes i j (of_rename target capability h) =
      validate_table_authorization_receipt-Authorizes target.source CatalogAction.table_rename
        "rename table" (>>-eq-ok _ _ h).0
  Grants-Authorizes i j (of_catalog k capability h) =
      let a = >>-eq-ok _ _ h in
      let b = >>-eq-ok _ _ a.1 in
      let c = >>-eq-ok _ _ b.1 in
      record {
        allowed = ensure-eq-ok _ _ a.0;
        for_action = same_action_sound receipt.action (catalog_action k) (ensure-eq-ok _ _ b.0);
        for_table = is_none receipt.table (reject-eq-ok _ _ c.0);
      }

-- The kind of capability for an action.
kind_of : CatalogAction → Kind
kind_of CatalogAction.catalog_config = catalog CatalogKind.can_read_catalog_config
kind_of CatalogAction.namespace_create = catalog CatalogKind.can_create_namespace
kind_of CatalogAction.namespace_list = catalog CatalogKind.can_list_namespaces
kind_of CatalogAction.namespace_load = catalog CatalogKind.can_load_namespace
kind_of CatalogAction.namespace_update = catalog CatalogKind.can_update_namespace
kind_of CatalogAction.namespace_drop = catalog CatalogKind.can_drop_namespace
kind_of CatalogAction.table_create = table TableKind.can_create_table
kind_of CatalogAction.table_register = table TableKind.can_register_table
kind_of CatalogAction.table_rename = rename
kind_of CatalogAction.table_load = table TableKind.can_load_table
kind_of CatalogAction.table_plan_scan = read ReadKind.can_plan_scan
kind_of CatalogAction.table_commit = table TableKind.can_commit_table
kind_of CatalogAction.table_drop = table TableKind.can_drop_table
kind_of CatalogAction.table_restore = table TableKind.can_restore_table
kind_of CatalogAction.credentials_vend = read ReadKind.can_vend_credentials
kind_of CatalogAction.view_load = catalog CatalogKind.can_load_views
kind_of CatalogAction.view_drop = catalog CatalogKind.can_drop_views
kind_of CatalogAction.server_manage = catalog CatalogKind.can_manage_servers
kind_of CatalogAction.project_manage = catalog CatalogKind.can_manage_projects
kind_of CatalogAction.warehouse_manage = catalog CatalogKind.can_manage_warehouses
kind_of CatalogAction.storage_profile_manage = catalog CatalogKind.can_manage_storage_profiles
kind_of CatalogAction.view_manage = catalog CatalogKind.can_manage_views
kind_of CatalogAction.policy_manage = catalog CatalogKind.can_manage_policies
kind_of CatalogAction.graph_read = catalog CatalogKind.can_read_graph
kind_of CatalogAction.lineage_read = catalog CatalogKind.can_read_lineage

kind_of-action_of : (k : Kind) → kind_of (action_of k) ≡ k
unfolding kind_of action_of table_action read_action catalog_action
kind_of-action_of (catalog CatalogKind.can_read_catalog_config) = refl
kind_of-action_of (catalog CatalogKind.can_create_namespace) = refl
kind_of-action_of (catalog CatalogKind.can_list_namespaces) = refl
kind_of-action_of (catalog CatalogKind.can_load_namespace) = refl
kind_of-action_of (catalog CatalogKind.can_update_namespace) = refl
kind_of-action_of (catalog CatalogKind.can_drop_namespace) = refl
kind_of-action_of (table TableKind.can_create_table) = refl
kind_of-action_of (table TableKind.can_register_table) = refl
kind_of-action_of rename = refl
kind_of-action_of (table TableKind.can_load_table) = refl
kind_of-action_of (read ReadKind.can_plan_scan) = refl
kind_of-action_of (table TableKind.can_commit_table) = refl
kind_of-action_of (table TableKind.can_drop_table) = refl
kind_of-action_of (table TableKind.can_restore_table) = refl
kind_of-action_of (read ReadKind.can_vend_credentials) = refl
kind_of-action_of (catalog CatalogKind.can_load_views) = refl
kind_of-action_of (catalog CatalogKind.can_drop_views) = refl
kind_of-action_of (catalog CatalogKind.can_manage_servers) = refl
kind_of-action_of (catalog CatalogKind.can_manage_projects) = refl
kind_of-action_of (catalog CatalogKind.can_manage_warehouses) = refl
kind_of-action_of (catalog CatalogKind.can_manage_storage_profiles) = refl
kind_of-action_of (catalog CatalogKind.can_manage_views) = refl
kind_of-action_of (catalog CatalogKind.can_manage_policies) = refl
kind_of-action_of (catalog CatalogKind.can_read_graph) = refl
kind_of-action_of (catalog CatalogKind.can_read_lineage) = refl

-- One receipt gives capabilities of one kind only, and for one table, or for none.
pub Grants-unique :
    ⦃ext : External⦄ ⦃codecs : Codecs⦄ (receipt : AuthorizationReceipt) (k k' : Kind)
    (t t' : Option TableIdent)
    → Grants receipt k t
    → Grants receipt k' t'
    → (k ≡ k') × (t ≡ t')
Grants-unique receipt k k' t t' g g' =
    let a = Grants-Authorizes receipt k t g in
    let a' = Grants-Authorizes receipt k' t' g' in
    (
      sym (kind_of-action_of k)
          ∙ (ap kind_of (sym a.for_action ∙ a'.for_action) ∙ kind_of-action_of k'),
      sym a.for_table ∙ a'.for_table,
    )
