-- ===== src/Memory/Invariant.antt =====
-- What every run of the store keeps (crates/lakecat-store/src/memory.rs).
pub mod Tables
pub mod Rename
pub mod Namespaces
pub mod Views
pub mod Management
pub mod Runs
pub mod Lists
pub mod Bindings
use lakecat.Prelude.{Text, List, Bool, true, ◌≡◌}
use lakecat.Prelude.Map.{Map, text_key, contains_key, Entries}
use lakecat.Prelude.Results.{LakeCatResult, ok}
use lakecat.Records.Types.{TableRecord, SoftDeleteRecord, ViewRecord, PolicyBinding}
use lakecat.Records.External.{External}
use lakecat.Records.Tables.{validate_table_record_map_scope}
use lakecat.Records.Views.{validate_view_record_map_scope}
use lakecat.Records.Policies.{validate_policy_binding_map_scope}
use lakecat.Memory.State.{MemoryState}
use lakecat.Memory.Policies.Versions.{IsNumbered}

-- a table is valid and stands under its key
abbrev pub IsScoped : Map Text TableRecord → Type 0
IsScoped tables = Entries (λ k t. validate_table_record_map_scope t k ≡ ok tt) tables

-- every soft delete is of a table
abbrev pub AreOfTables : Map Text SoftDeleteRecord → Map Text TableRecord → Type 0
AreOfTables deletes tables =
    (k : Text) → contains_key k deletes ≡ Bool.true → contains_key k tables ≡ Bool.true

module _ ⦃ext : External⦄ where
  -- a view is valid and stands under its key
  abbrev pub AreScopedViews : Map Text ViewRecord → Type 0
  AreScopedViews views = Entries (λ k v. validate_view_record_map_scope v k ≡ ok tt) views

  -- a policy binding is valid and stands under its key
  abbrev pub AreScopedBindings : Map Text PolicyBinding → Type 0
  AreScopedBindings bindings =
      Entries (λ k b. validate_policy_binding_map_scope b k ≡ ok tt) bindings

  abbrev pub Invariant : MemoryState → Type 0
  Invariant s =
      IsScoped s.tables
      × AreOfTables s.soft_deletes s.tables
      × AreScopedViews s.views
      × AreScopedBindings s.policy_bindings
      × IsNumbered s
