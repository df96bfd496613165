-- ===== src/Memory/Namespaces.antt =====
-- The namespace operations of crates/lakecat-store/src/memory.rs.
pub mod Drops
use mathlib.Core.Option.{get_or}
use lakecat.Prelude.{
  Text, text, ltb, length, List, [], ◌∷◌, ◌++◌, ℕ, Option, none, some, Bool, true, false, not, any,
  keep, holds, Text-discrete, Texts-discrete, ◌≡◌, ◌&&◌, ◌||◌, if◌then◌else◌, is_some,
}
use lakecat.Prelude.Map.{
  Map, texts_key, text_key, contains_key, get, insert, remove, retain_keys, keys, values,
}
use lakecat.Prelude.Results.{
  LakeCatResult, LakeCatError, ok, err, already_exists, conflict, internal, reject, ensure, ok_or,
  for_each, ◌>>=◌, ◌>>◌,
}
use lakecat.Core.Names.{Namespace, WarehouseName, path, table_key}
use lakecat.Records.Types.{
  NamespaceProperties, NamespacePropertyUpdate, NamespacePropertyUpdateResult, TableRecord,
  SoftDeleteRecord, ViewRecord, PolicyBinding,
}
use lakecat.Records.External.{External}
use lakecat.Records.Properties.{apply}
use lakecat.Records.Tables.{
  validate_table_record_map_scope, validate_soft_delete_record_map_scope, validate_soft_delete,
}
use lakecat.Records.Views.{validate_view_record_map_scope}
use lakecat.Records.Policies.{validate_policy_binding_map_scope}
use lakecat.Memory.State.{
  MemoryState, MemoryCommitRecord, IdempotencyReplay, Update, Query, namespace_not_found,
  namespace_not_empty, namespace_exists, is_member,
}

-- `entry(warehouse).or_default()`
abbrev pub namespaces_of : WarehouseName → MemoryState → Map Namespace NamespaceProperties
namespaces_of warehouse state = get_or (get warehouse state.namespaces) []

unfoldable pub create_namespace_with_properties :
    WarehouseName → Namespace → NamespaceProperties → Update (Unit {0})
create_namespace_with_properties warehouse namespace properties state = do
  let namespaces = namespaces_of warehouse state
  reject (contains_key namespace namespaces) (already_exists "namespace" (path namespace))
  ok (
    tt,
    record state {
      namespaces = insert warehouse (insert namespace properties namespaces) state.namespaces;
    },
  )

unfoldable pub create_namespace : WarehouseName → Namespace → Update (Unit {0})
create_namespace warehouse namespace = create_namespace_with_properties warehouse namespace []

unfoldable pub list_namespaces : WarehouseName → MemoryState → List Namespace
list_namespaces warehouse state = keys (namespaces_of warehouse state)

unfoldable pub load_namespace_properties : WarehouseName → Namespace → Query NamespaceProperties
load_namespace_properties warehouse namespace state =
    ok_or (get namespace (namespaces_of warehouse state)) (namespace_not_found namespace)

unfoldable pub load_namespace : WarehouseName → Namespace → Query Namespace
load_namespace warehouse namespace state = do
  ensure (namespace_exists warehouse namespace state) (namespace_not_found namespace)
  ok namespace

unfoldable pub update_namespace_properties :
    WarehouseName → Namespace → NamespacePropertyUpdate → Update NamespacePropertyUpdateResult
update_namespace_properties warehouse namespace update state = do
  properties ← ok_or (get namespace (namespaces_of warehouse state)) (namespace_not_found namespace)
  let (updated_properties, result) = apply properties update
  ok (
    result,
    record state {
      namespaces =
          insert warehouse (insert namespace updated_properties (namespaces_of warehouse state))
            state.namespaces;
    },
  )

unfoldable pub is_prefix : List Text → List Text → Bool
is_prefix [] ys = true
is_prefix (x ∷ xs) [] = false
is_prefix (x ∷ xs) (y ∷ ys) = holds (Text-discrete x y) && is_prefix xs ys

unfoldable pub namespace_is_descendant : Namespace → Namespace → Bool
namespace_is_descendant candidate parent =
    ltb (length parent) (length candidate) && is_prefix parent candidate

-- the loop over the tables: the keys of those in the namespace, all of which are soft-deleted
unfoldable pub retired_table_keys :
    WarehouseName
    → Namespace
    → Map Text SoftDeleteRecord
    → Map Text TableRecord
    → LakeCatResult (List Text)
retired_table_keys warehouse namespace soft_deletes [] = ok []
retired_table_keys warehouse namespace soft_deletes ((key, table) ∷ tables) = do
  validate_table_record_map_scope table key
  let rest = retired_table_keys warehouse namespace soft_deletes tables
  if holds (Text-discrete table.ident.warehouse warehouse)
        && holds (Texts-discrete table.ident.namespace namespace)
      then (do
        soft_delete ← ok_or (get key soft_deletes) (namespace_not_empty namespace "tables")
        validate_soft_delete_record_map_scope soft_delete key
        validate_soft_delete soft_delete table.ident table
        retired ← rest
        ok (key ∷ retired))
      else rest

-- the loop over the soft deletes: each in the namespace belongs to a retired table
unfoldable pub check_soft_deletes :
    WarehouseName → Namespace → List Text → Map Text SoftDeleteRecord → LakeCatResult (Unit {0})
check_soft_deletes warehouse namespace retired [] = ok tt
check_soft_deletes warehouse namespace retired ((key, soft_delete) ∷ soft_deletes) = do
  validate_soft_delete_record_map_scope soft_delete key
  reject
      (holds (Text-discrete soft_delete.table.warehouse warehouse)
        && holds (Texts-discrete soft_delete.table.namespace namespace)
        && not (is_member key retired))
      (internal "soft-delete row has no matching table registration" [])
  check_soft_deletes warehouse namespace retired soft_deletes

unfoldable pub is_namespace_of : Option Namespace → Namespace → Bool
is_namespace_of none namespace = false
is_namespace_of (some ns) namespace = holds (Texts-discrete ns namespace)

-- the tail of `drop_namespace`: what is removed with the namespace
abbrev pub retire : List Text → MemoryState → MemoryState
retire retired state = record state {
  tables = retain_keys (λ key. not (is_member key retired)) state.tables;
  soft_deletes = retain_keys (λ key. not (is_member key retired)) state.soft_deletes;
  commits = keep (λ commit. not (is_member commit.table_key retired)) state.commits;
  idempotency = keep (λ entry. not (is_member entry.1.table_key retired)) state.idempotency;
}

module _ ⦃ext : External⦄ where
  unfoldable pub drop_namespace : WarehouseName → Namespace → Update Namespace
  drop_namespace warehouse namespace state = do
    ensure (namespace_exists warehouse namespace state) (namespace_not_found namespace)
    let namespaces = namespaces_of warehouse state
    reject (any (λ candidate. namespace_is_descendant candidate namespace) (keys namespaces))
        (namespace_not_empty namespace "child namespaces")
    retired ← retired_table_keys warehouse namespace state.soft_deletes state.tables
    check_soft_deletes warehouse namespace retired state.soft_deletes
    for_each (λ entry. validate_view_record_map_scope entry.1 entry.0) state.views
    reject
        (any
          (λ view.
            holds (Text-discrete view.warehouse warehouse)
            && holds (Texts-discrete view.namespace namespace))
          (values state.views))
        (namespace_not_empty namespace "views")
    for_each (λ entry. validate_policy_binding_map_scope entry.1 entry.0) state.policy_bindings
    reject
        (any
          (λ binding.
            holds (Text-discrete binding.warehouse warehouse)
            && is_namespace_of binding.namespace namespace)
          (values state.policy_bindings))
        (namespace_not_empty namespace "policy bindings")
    ok (
      namespace,
      retire retired (record state {
        namespaces = insert warehouse (remove namespace namespaces) state.namespaces;
      }),
    )
