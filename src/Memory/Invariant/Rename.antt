-- ===== src/Memory/Invariant/Rename.antt =====
-- `rename_table` keeps the invariant (crates/lakecat-store/src/memory.rs).
use lakecat.Prelude.{
  [], ◌∷◌, Text, Option, some, Bool, true, false, ◌≡◌, refl, subst, if◌then◌else◌,
}
use lakecat.Prelude.Map.{
  Map, text_key, contains_key, insert, remove, Entries-insert, Entries-remove,
  contains_key-insert_mono, contains_key-remove_ne,
}
use lakecat.Prelude.Results.{ok, >>=-eq-ok, >>-eq-ok, reject-eq-ok, ok-pair, ok-injective}
use lakecat.Prelude.Json.{Json}
use lakecat.Core.Names.{TableIdent, table_key}
use lakecat.Records.Types.{DateTime, Principal, TableRecord, PolicyBinding}
use lakecat.Records.External.{External}
use lakecat.Records.Tables.{validate_table_record_map_scope}
use lakecat.Records.Policies.{validate_binding, validate_policy_binding_map_scope}
use lakecat.Records.Policies.Scope.{
  validate_policy_binding_map_scope-eq, validate_policy_binding_map_scope-intro,
}
use lakecat.Memory.State.{MemoryState}
use lakecat.Memory.Rename.{rename_bindings, is_bound_to, rename_table, renamed_state}
use lakecat.Memory.Invariant.{AreOfTables, AreScopedBindings, Invariant}
use lakecat.Memory.Invariant.Tables.{validate_table_record_map_scope-intro}

module _ ⦃ext : External⦄ where
  rename_bindings-AreScopedBindings :
      (source destination : TableIdent) (now : DateTime) (m m' : Map Text PolicyBinding)
      → rename_bindings source destination now m ≡ ok m'
      → AreScopedBindings m'
  unfolding rename_bindings
  rename_bindings-AreScopedBindings source destination now [] m' h =
      subst AreScopedBindings (ok-injective h) tt
  rename_bindings-AreScopedBindings source destination now ((k, b) ∷ m) m' h =
      let a = >>-eq-ok _ _ h in
      let c = >>-eq-ok _ _ a.1 in
      let d = >>=-eq-ok _ _ c.1 in
      subst AreScopedBindings (ok-injective d.2) (
        moved_binding (is_bound_to source b) a.0 c.0,
        rename_bindings-AreScopedBindings source destination now m d.0 d.1,
      )
    where
      renamed : PolicyBinding
      renamed = record b {
        namespace = some destination.namespace;
        table = some destination.name;
        updated_at = now;
      }

      moved_binding :
          (bound : Bool)
          → validate_policy_binding_map_scope b k ≡ ok tt
          → (if bound then validate_binding renamed else ok tt) ≡ ok tt
          → validate_policy_binding_map_scope (if bound then renamed else b) k ≡ ok tt
      moved_binding true scoped valid =
          validate_policy_binding_map_scope-intro renamed k valid
            (validate_policy_binding_map_scope-eq b k scoped)
      moved_binding false scoped valid = scoped

  renamed-AreOfTables :
      (source destination : Text) (t : TableRecord) (s : MemoryState)
      → contains_key source s.soft_deletes ≡ false
      → AreOfTables s.soft_deletes s.tables
      → AreOfTables s.soft_deletes (insert destination t (remove source s.tables))
  renamed-AreOfTables source destination t s live h k deleted =
      contains_key-insert_mono destination k t (remove source s.tables)
        (contains_key-remove_ne source k s.tables (λ same. cc (rw same at live)) (h k deleted))

  pub rename_table-Invariant :
      (source destination : TableIdent) (now : DateTime) (principal : Principal)
      (receipt : Option Json) (t : TableRecord) (s s' : MemoryState)
      → rename_table source destination now principal receipt s ≡ ok (t, s')
      → Invariant s
      → Invariant s'
  unfolding rename_table renamed_state
  rename_table-Invariant source destination now principal receipt t s s' h i =
      let a = >>-eq-ok _ _ h in
      let b = >>-eq-ok _ _ a.1 in
      let c = >>-eq-ok _ _ b.1 in
      let d = >>=-eq-ok _ _ c.1 in
      let e = >>-eq-ok _ _ d.2 in
      let f = >>-eq-ok _ _ e.1 in
      let g = >>-eq-ok _ _ f.1 in
      let k = >>-eq-ok _ _ g.1 in
      let l = >>-eq-ok _ _ k.1 in
      let m = >>=-eq-ok _ _ l.1 in
      let n = >>=-eq-ok _ _ m.2 in
      let p = >>=-eq-ok _ _ n.2 in
      let q = >>=-eq-ok _ _ p.2 in
      rw (ok-pair q.2).1 (
        Entries-insert (λ k t. validate_table_record_map_scope t k ≡ ok tt) (table_key destination)
            _ (remove (table_key source) s.tables)
            (validate_table_record_map_scope-intro _ (table_key destination) l.0 refl)
            (Entries-remove (λ k t. validate_table_record_map_scope t k ≡ ok tt) (table_key source)
              s.tables i.0),
        renamed-AreOfTables (table_key source) (table_key destination) _ s (reject-eq-ok _ _ c.0)
            i.1,
        i.2,
        rename_bindings-AreScopedBindings source destination now s.policy_bindings p.0 p.1,
        i.4,
      )
