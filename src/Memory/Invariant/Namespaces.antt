-- ===== src/Memory/Invariant/Namespaces.antt =====
-- `drop_namespace` keeps the invariant (crates/lakecat-store/src/memory.rs).
use lakecat.Prelude.{Text, Bool, true, false, not, ◌&&◌, ◌≡◌}
use lakecat.Prelude.Map.{Map, text_key, retain_keys, Entries-retain_keys, contains_key-retain_keys}
use lakecat.Prelude.Results.{ok, >>=-eq-ok, >>-eq-ok, ok-pair}
use lakecat.Core.Names.{WarehouseName, Namespace}
use lakecat.Records.Types.{TableRecord, SoftDeleteRecord}
use lakecat.Records.External.{External}
use lakecat.Records.Tables.{validate_table_record_map_scope}
use lakecat.Memory.State.{MemoryState, is_member}
use lakecat.Memory.Namespaces.{drop_namespace}
use lakecat.Memory.Invariant.{AreOfTables, Invariant}

and_mono : (p a b : Bool) → (a ≡ true → b ≡ true) → (p && a) ≡ true → (p && b) ≡ true
and_mono true a b f h = f h
and_mono false a b f h = h

retained-AreOfTables :
    (p : Text → Bool) (deletes : Map Text SoftDeleteRecord) (tables : Map Text TableRecord)
    → AreOfTables deletes tables
    → AreOfTables (retain_keys p deletes) (retain_keys p tables)
retained-AreOfTables p deletes tables h k deleted =
    rw (contains_key-retain_keys p k tables)
      (and_mono (p k) _ _ (h k) (rw (contains_key-retain_keys p k deletes) at deleted))

module _ ⦃ext : External⦄ where
  pub drop_namespace-Invariant :
      (warehouse : WarehouseName) (namespace dropped : Namespace) (s s' : MemoryState)
      → drop_namespace warehouse namespace s ≡ ok (dropped, s')
      → Invariant s
      → Invariant s'
  unfolding drop_namespace
  drop_namespace-Invariant warehouse namespace dropped s s' h i =
      let a = >>-eq-ok _ _ h in
      let b = >>-eq-ok _ _ a.1 in
      let c = >>=-eq-ok _ _ b.1 in
      let d = >>-eq-ok _ _ c.2 in
      let e = >>-eq-ok _ _ d.1 in
      let f = >>-eq-ok _ _ e.1 in
      let g = >>-eq-ok _ _ f.1 in
      let k = >>-eq-ok _ _ g.1 in
      let kept : Text → Bool = λ key. not (is_member key c.0) in
      rw (ok-pair k.1).1 (
        Entries-retain_keys (λ k t. validate_table_record_map_scope t k ≡ ok tt) kept s.tables i.0,
        retained-AreOfTables kept s.soft_deletes s.tables i.1,
        i.2,
        i.3,
        i.4,
      )
