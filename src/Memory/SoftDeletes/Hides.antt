-- ===== src/Memory/SoftDeletes/Hides.antt =====
-- What `soft_delete_table` does to its table.
use lakecat.Prelude.{Text, Option, some, true, false, ◌≡◌, refl, arith}
use lakecat.Prelude.Map.{text_key, contains_key, get, get-insert_self}
use lakecat.Prelude.Results.{
  ok, err, reject, ensure, ok_or, ◌>>=◌, ◌>>◌, >>=-eq-ok, >>-eq-ok, reject-eq-ok, ensure-eq-ok,
  ok_or-eq-ok, ok-pair,
}
use lakecat.Prelude.Json.{Json}
use lakecat.Core.Names.{TableIdent, table_key}
use lakecat.Records.Types.{DateTime, Principal, TableRecord, TableCommit, OutboxEvent}
use lakecat.Records.External.{External}
use lakecat.Records.Tables.{
  validate_commit, validate_table_record_map_scope, validate_table_record_identity,
  validate_soft_delete,
}
use lakecat.Memory.State.{MemoryState, namespace_exists, table_not_found}
use lakecat.Memory.Tables.{load_table}
use lakecat.Memory.Commits.{commit_table}
use lakecat.Memory.SoftDeletes.{soft_delete_of, soft_delete_table, deleted_state}

module _ ⦃ext : External⦄ where
  -- What a soft delete that succeeds has found and written.
  pub record Deleted (ident : TableIdent) (principal : Principal) (receipt : Option Json)
      (now : DateTime) (s : MemoryState) (t : TableRecord) (s' : MemoryState) : Type 0 where
    pub exists : namespace_exists ident.warehouse ident.namespace s ≡ true
    pub live : contains_key (table_key ident) s.soft_deletes ≡ false
    pub found : get (table_key ident) s.tables ≡ some t
    pub keyed : validate_table_record_map_scope t (table_key ident) ≡ ok tt
    pub identified : validate_table_record_identity t ident ≡ ok tt
    pub described :
        validate_soft_delete (soft_delete_of ident principal receipt now t) ident t ≡ ok tt
    pub hash : Text
    pub event : OutboxEvent
    pub state : s' ≡ deleted_state ident (soft_delete_of ident principal receipt now t) hash event s

  pub soft_delete_table-Deleted :
      (ident : TableIdent) (principal : Principal) (receipt : Option Json) (now : DateTime)
      (s : MemoryState) (t : TableRecord) (s' : MemoryState)
      → soft_delete_table ident principal receipt now s ≡ ok (t, s')
      → Deleted ident principal receipt now s t s'
  unfolding soft_delete_table
  soft_delete_table-Deleted ident principal receipt now s t s' h =
      let a = >>-eq-ok _ _ h in
      let b = >>-eq-ok _ _ a.1 in
      let c = >>=-eq-ok _ _ b.1 in
      let d = >>-eq-ok _ _ c.2 in
      let e = >>-eq-ok _ _ d.1 in
      let f = >>-eq-ok _ _ e.1 in
      let g = >>=-eq-ok _ _ f.1 in
      let k = >>=-eq-ok _ _ g.2 in
      let done = ok-pair k.2 in
      rw done.0 (record {
        exists = ensure-eq-ok _ _ a.0;
        live = reject-eq-ok _ _ b.0;
        found = ok_or-eq-ok _ _ c.1;
        keyed = d.0;
        identified = e.0;
        described = f.0;
        hash = g.0;
        event = k.0;
        state = done.1;
      })

  pub load_table-finds :
      (ident : TableIdent) (s : MemoryState) (t : TableRecord)
      → contains_key (table_key ident) s.soft_deletes ≡ false
      → get (table_key ident) s.tables ≡ some t
      → validate_table_record_map_scope t (table_key ident) ≡ ok tt
      → validate_table_record_identity t ident ≡ ok tt
      → load_table ident s ≡ ok t
  unfolding load_table ◌>>=◌ ◌>>◌ reject ok_or
  load_table-finds ident s t live found keyed identified = rw (live, found, keyed, identified) refl

  pub load_table-absent :
      (ident : TableIdent) (s : MemoryState)
      → contains_key (table_key ident) s.soft_deletes ≡ false
      → contains_key (table_key ident) s.tables ≡ false
      → load_table ident s ≡ err (table_not_found ident)
  unfolding load_table contains_key ◌>>=◌ ◌>>◌ reject ok_or
  load_table-absent ident s live absent = ground arith

  load_table-hidden :
      (ident : TableIdent) (s : MemoryState)
      → contains_key (table_key ident) s.soft_deletes ≡ true
      → load_table ident s ≡ err (table_not_found ident)
  unfolding load_table ◌>>=◌ ◌>>◌ reject
  load_table-hidden ident s hidden = rw hidden refl

  commit_table-hidden :
      (now : DateTime) (ident : TableIdent) (commit : TableCommit) (s : MemoryState)
      → validate_commit commit ≡ ok tt
      → contains_key (table_key ident) s.soft_deletes ≡ true
      → commit_table now ident commit s ≡ err (table_not_found ident)
  unfolding commit_table ◌>>=◌ ◌>>◌ reject
  commit_table-hidden now ident commit s valid hidden = rw (valid, hidden) refl

  soft_delete_table-hidden :
      (ident : TableIdent) (principal : Principal) (receipt : Option Json) (now : DateTime)
      (s : MemoryState)
      → namespace_exists ident.warehouse ident.namespace s ≡ true
      → contains_key (table_key ident) s.soft_deletes ≡ true
      → soft_delete_table ident principal receipt now s ≡ err (table_not_found ident)
  unfolding soft_delete_table ◌>>=◌ ◌>>◌ reject ensure
  soft_delete_table-hidden ident principal receipt now s exists hidden = rw (exists, hidden) refl

  Deleted-hides :
      (ident : TableIdent) (principal : Principal) (receipt : Option Json) (now : DateTime)
      (s : MemoryState) (t : TableRecord) (s' : MemoryState)
      → Deleted ident principal receipt now s t s'
      → contains_key (table_key ident) s'.soft_deletes ≡ true
  unfolding deleted_state contains_key
  Deleted-hides ident principal receipt now s t s' d =
      rw
        (
          d.state,
          get-insert_self (table_key ident) (soft_delete_of ident principal receipt now t)
              s.soft_deletes,
        )
        refl

  Deleted-namespaces :
      (ident : TableIdent) (principal : Principal) (receipt : Option Json) (now : DateTime)
      (s : MemoryState) (t : TableRecord) (s' : MemoryState)
      → Deleted ident principal receipt now s t s'
      → namespace_exists ident.warehouse ident.namespace s' ≡ true
  unfolding deleted_state namespace_exists
  Deleted-namespaces ident principal receipt now s t s' d = rw d.state d.exists

  -- A soft delete succeeds only on a table that could be loaded, and answers with it. After it the
  -- table is not found: neither by a load, nor by a commit with any valid request, nor by the
  -- same soft delete again.
  pub soft_delete_table-hides :
      (ident : TableIdent) (principal : Principal) (receipt : Option Json) (now later : DateTime)
      (commit : TableCommit) (s : MemoryState) (t : TableRecord) (s' : MemoryState)
      → soft_delete_table ident principal receipt now s ≡ ok (t, s')
      → validate_commit commit ≡ ok tt
      → (load_table ident s ≡ ok t)
        × (load_table ident s' ≡ err (table_not_found ident))
        × (commit_table later ident commit s' ≡ err (table_not_found ident))
        × (soft_delete_table ident principal receipt later s' ≡ err (table_not_found ident))
  soft_delete_table-hides ident principal receipt now later commit s t s' h valid =
      let d = soft_delete_table-Deleted ident principal receipt now s t s' h in
      let hidden = Deleted-hides ident principal receipt now s t s' d in
      (
        load_table-finds ident s t d.live d.found d.keyed d.identified,
        load_table-hidden ident s' hidden,
        commit_table-hidden later ident commit s' valid hidden,
        soft_delete_table-hidden ident principal receipt later s'
            (Deleted-namespaces ident principal receipt now s t s' d) hidden,
      )
