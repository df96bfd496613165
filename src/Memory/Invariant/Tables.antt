-- ===== src/Memory/Invariant/Tables.antt =====
-- The operations on tables keep the invariant (crates/lakecat-store/src/memory.rs).
use lakecat.Prelude.{Text, Text-discrete, Option, some, true, ◌≡◌, refl, ap, arith, inl, inr}
use lakecat.Prelude.Map.{
  Map, text_key, get, contains_key, insert, Entries-insert, contains_key-insert_mono,
  contains_key-insert_ne, contains_key-remove_old,
}
use lakecat.Prelude.Results.{ok, ◌>>=◌, ◌>>◌, ensure_that, >>=-eq-ok, >>-eq-ok, ok-pair}
use lakecat.Prelude.Json.{Json}
use lakecat.Core.Names.{TableIdent, table_key}
use lakecat.Records.Types.{DateTime, Principal, TableRecord, TableCommit}
use lakecat.Records.External.{External}
use lakecat.Records.Tables.{validate_table, validate_table_record_map_scope}
use lakecat.Records.Tables.Scope.{
  validate_table_record_identity-eq, validate_table_record_identity-valid,
}
use lakecat.Memory.State.{MemoryState}
use lakecat.Memory.Tables.{create_table}
use lakecat.Memory.Commits.{commit_table, committed_table, committed_state}
use lakecat.Memory.Commits.Cases.{commit_table-cases}
use lakecat.Memory.Commits.Swap.{apply_commit-Applied}
use lakecat.Memory.Commits.Replay.{committed_table-valid}
use lakecat.Memory.SoftDeletes.{soft_delete_table, deleted_state, restore_table, restored_state}
use lakecat.Memory.SoftDeletes.Hides.{soft_delete_table-Deleted}
use lakecat.Memory.Invariant.{IsScoped, Invariant}

pub validate_table_record_map_scope-intro :
    (t : TableRecord) (k : Text)
    → validate_table t ≡ ok tt
    → table_key t.ident ≡ k
    → validate_table_record_map_scope t k ≡ ok tt
unfolding validate_table_record_map_scope ◌>>◌ ◌>>=◌ ensure_that
validate_table_record_map_scope-intro t k h e = ground arith

IsScoped-insert :
    (k : Text) (t : TableRecord) (tables : Map Text TableRecord)
    → validate_table t ≡ ok tt
    → table_key t.ident ≡ k
    → IsScoped tables
    → IsScoped (insert k t tables)
IsScoped-insert k t tables valid keyed h =
    Entries-insert (λ k t. validate_table_record_map_scope t k ≡ ok tt) k t tables
      (validate_table_record_map_scope-intro t k valid keyed) h

module _ ⦃ext : External⦄ where
  -- Another table is stored under its key.
  stored :
      (k : Text) (t : TableRecord) (s : MemoryState)
      → validate_table t ≡ ok tt
      → table_key t.ident ≡ k
      → Invariant s
      → Invariant (record s { tables = insert k t s.tables })
  stored k t s valid keyed h = (
    IsScoped-insert k t s.tables valid keyed h.0,
    (λ j deleted. contains_key-insert_mono k j t s.tables (h.1 j deleted)),
    h.2,
    h.3,
    h.4,
  )

  pub create_table-Invariant :
      (t r : TableRecord) (s s' : MemoryState)
      → create_table t s ≡ ok (r, s')
      → Invariant s
      → Invariant s'
  unfolding create_table
  create_table-Invariant t r s s' h i =
      let a = >>-eq-ok _ _ h in
      let b = >>-eq-ok _ _ a.1 in
      let c = >>-eq-ok _ _ b.1 in rw (ok-pair c.1).1 (stored (table_key t.ident) t s a.0 refl i)

  pub commit_table-Invariant :
      (now : DateTime) (ident : TableIdent) (commit : TableCommit) (t : TableRecord)
      (s s' : MemoryState)
      → commit_table now ident commit s ≡ ok (t, s')
      → Invariant s
      → Invariant s'
  unfolding committed_state committed_table
  commit_table-Invariant now ident commit t s s' h i =
      let cases = commit_table-cases now ident commit s t s' h in
      let c = cases.0 in
      elim cases.1 [
        | inl replayed ↦ rw replayed.1 i
        | inr applied ↦
            let a = apply_commit-Applied now ident commit c.hash s t s' applied.1 in
            rw a.state (
              stored (table_key ident) (committed_table now commit c.hash a.current) s
                (committed_table-valid now commit c.hash a.current c.valid
                  (validate_table_record_identity-valid a.current ident a.identified))
                (ap table_key (validate_table_record_identity-eq a.current ident a.identified)) i)
      ]

  found_contained :
      {V : Type 0} (k : Text) (m : Map Text V) {v : V} → get k m ≡ some v → contains_key k m ≡ true
  unfolding contains_key
  found_contained k m found = rw found refl

  pub soft_delete_table-Invariant :
      (ident : TableIdent) (principal : Principal) (receipt : Option Json) (now : DateTime)
      (t : TableRecord) (s s' : MemoryState)
      → soft_delete_table ident principal receipt now s ≡ ok (t, s')
      → Invariant s
      → Invariant s'
  unfolding deleted_state
  soft_delete_table-Invariant ident principal receipt now t s s' h i =
      let d = soft_delete_table-Deleted ident principal receipt now s t s' h in
      rw d.state (
        i.0,
        (λ j deleted. elim (Text-discrete (table_key ident) j) [
          | yes same ↦ found_contained j s.tables (rw same at d.found)
          | no differs ↦
              i.1 j (contains_key-insert_ne (table_key ident) j _ s.soft_deletes differs deleted)
        ]),
        i.2,
        i.3,
        i.4,
      )

  pub restore_table-Invariant :
      (ident : TableIdent) (principal : Principal) (receipt : Option Json) (now : DateTime)
      (t : TableRecord) (s s' : MemoryState)
      → restore_table ident principal receipt now s ≡ ok (t, s')
      → Invariant s
      → Invariant s'
  unfolding restore_table restored_state
  restore_table-Invariant ident principal receipt now t s s' h i =
      let a = >>-eq-ok _ _ h in
      let b = >>=-eq-ok _ _ a.1 in
      let c = >>-eq-ok _ _ b.2 in
      let d = >>=-eq-ok _ _ c.1 in
      let e = >>-eq-ok _ _ d.2 in
      let f = >>-eq-ok _ _ e.1 in
      let g = >>-eq-ok _ _ f.1 in
      let k = >>=-eq-ok _ _ g.1 in
      let l = >>=-eq-ok _ _ k.2 in
      rw (ok-pair l.2).1 (
        i.0,
        (λ j deleted. i.1 j (contains_key-remove_old (table_key ident) j s.soft_deletes deleted)),
        i.2,
        i.3,
        i.4,
      )
