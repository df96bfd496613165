-- ===== src/Memory/SoftDeletes/Restore.antt =====
-- `restore_table` undoes `soft_delete_table`.
use lakecat.Prelude.{
  Text, text, Text-discrete, Option, some, true, false, ◌≡◌, refl, ap, arith, text_less,
}
use lakecat.Prelude.Map.{
  Map, text_key, contains_key, get, insert, remove, get-insert, get-remove, get-insert_self,
}
use lakecat.Prelude.Results.{ok, ensure, ensure_that, ok_or, ◌>>=◌, ◌>>◌}
use lakecat.Prelude.Json
use lakecat.Prelude.Json.{Json, string, object, as_str}
use lakecat.Core.Names.{TableIdent, table_key}
use lakecat.Records.Types.{DateTime, Principal, TableRecord, SoftDeleteRecord, OutboxEvent}
use lakecat.Records.External.{External, IsDocumented}
use lakecat.Records.Evidence.{content_hash_json}
use lakecat.Records.Documented.{content_hash_json-total, outbox_event_from_payload-total}
use lakecat.Records.Tables.{
  validate_table_record_map_scope, validate_table_record_identity, validate_soft_delete,
  validate_soft_delete_record_map_scope,
}
use lakecat.Records.Events.{get_str}
use lakecat.Records.Events.Outbox.{outbox_event_from_payload}
use lakecat.Memory.State.{MemoryState, namespace_exists}
use lakecat.Memory.Tables.{load_table}
use lakecat.Memory.SoftDeletes.{
  soft_delete_of, soft_delete_table, deleted_state, restore_table, restored_state, restored_payload,
  restored_outbox_payload,
}
use lakecat.Memory.SoftDeletes.Hides.{Deleted, soft_delete_table-Deleted, load_table-finds}

module _ ⦃ext : External⦄ where
  restored-event_type :
      (ident : TableIdent) (receipt : Option Json) (payload : Json) (hash : Text)
      → get_str (restored_outbox_payload ident receipt payload hash) "event-type"
        ≡ some (text "table.restored")
  unfolding get_str restored_outbox_payload text Text-discrete Json.get object text_less
  restored-event_type ident receipt payload hash = refl

  soft_delete_of-scope :
      (ident : TableIdent) (principal : Principal) (receipt : Option Json) (now : DateTime)
      (t : TableRecord)
      → validate_soft_delete_record_map_scope
          (soft_delete_of ident principal receipt now t)
          (table_key ident)
        ≡ ok tt
  unfolding validate_soft_delete_record_map_scope soft_delete_of ensure_that
  soft_delete_of-scope ident principal receipt now t = ground arith

  -- A restore that finds a table and its soft delete runs to its end.
  restore_table-runs :
      (ident : TableIdent) (principal : Principal) (receipt : Option Json) (now : DateTime)
      (s : MemoryState) (t : TableRecord) (deleted : SoftDeleteRecord) (hash : Text)
      (event : OutboxEvent)
      → namespace_exists ident.warehouse ident.namespace s ≡ true
      → get (table_key ident) s.soft_deletes ≡ some deleted
      → validate_soft_delete_record_map_scope deleted (table_key ident) ≡ ok tt
      → get (table_key ident) s.tables ≡ some t
      → validate_table_record_map_scope t (table_key ident) ≡ ok tt
      → validate_table_record_identity t ident ≡ ok tt
      → validate_soft_delete deleted ident t ≡ ok tt
      → content_hash_json (restored_payload ident receipt t) ≡ ok hash
      → outbox_event_from_payload
          (restored_outbox_payload ident receipt (restored_payload ident receipt t) hash)
          now
        ≡ ok event
      → restore_table ident principal receipt now s
        ≡ ok (t, restored_state ident principal now (restored_payload ident receipt t) hash event s)
  unfolding restore_table ◌>>=◌ ◌>>◌ ensure ok_or
  restore_table-runs ident principal receipt now s t deleted hash event exists kept scope found
        keyed identified described hashed evented =
      rw (exists, kept, scope, found, keyed, identified, described, hashed, evented) refl

  Deleted-facts :
      (ident : TableIdent) (principal : Principal) (receipt : Option Json) (now : DateTime)
      (s : MemoryState) (t : TableRecord) (s' : MemoryState)
      → Deleted ident principal receipt now s t s'
      → (namespace_exists ident.warehouse ident.namespace s' ≡ true)
        × (get (table_key ident) s'.soft_deletes
            ≡ some (soft_delete_of ident principal receipt now t))
        × (s'.tables ≡ s.tables)
        × (s'.soft_deletes
            ≡ insert
                (table_key ident)
                (soft_delete_of ident principal receipt now t)
                s.soft_deletes)
  unfolding deleted_state namespace_exists
  Deleted-facts ident principal receipt now s t s' d = (
    rw d.state d.exists,
    rw d.state (get-insert_self (table_key ident) _ s.soft_deletes),
    ap (λ (x : MemoryState). x.tables) d.state,
    ap (λ (x : MemoryState). x.soft_deletes) d.state,
  )

  restored_soft_deletes :
      (k j : Text) (deleted : SoftDeleteRecord) (m : Map Text SoftDeleteRecord)
      → contains_key k m ≡ false
      → get j (remove k (insert k deleted m)) ≡ get j m
  unfolding contains_key
  restored_soft_deletes k j deleted m absent =
      ground (arith, get-remove k j (insert k deleted m), get-insert k j deleted m)

  restored_live :
      (ident : TableIdent) (principal : Principal) (now : DateTime) (payload : Json) (hash : Text)
      (event : OutboxEvent) (s s' : MemoryState)
      → ((k : Text) → get k (remove (table_key ident) s'.soft_deletes) ≡ get k s.soft_deletes)
      → contains_key (table_key ident) s.soft_deletes ≡ false
      → contains_key
          (table_key ident)
          (restored_state ident principal now payload hash event s').soft_deletes
        ≡ false
  unfolding restored_state contains_key
  restored_live ident principal now payload hash event s s' deletes live =
      rw (deletes (table_key ident)) live

  -- A soft delete that succeeds can be undone: given what is documented of the external code, a
  -- restore of the table by anyone at any later time succeeds with the same table. After it the
  -- table loads again, and the tables and the soft deletes are those of before the delete.
  pub restore_table-undoes :
      IsDocumented ext
      → (ident : TableIdent) (deleter restorer : Principal) (receipt approval : Option Json)
        (now later : DateTime) (s : MemoryState) (t : TableRecord) (s' : MemoryState)
      → soft_delete_table ident deleter receipt now s ≡ ok (t, s')
      → (s'' : MemoryState) × (restore_table ident restorer approval later s' ≡ ok (t, s''))
        × (load_table ident s'' ≡ ok t)
        × (s''.tables ≡ s.tables)
        × ((k : Text) → get k s''.soft_deletes ≡ get k s.soft_deletes)
  restore_table-undoes doc ident deleter restorer receipt approval now later s t s' h =
      let d = soft_delete_table-Deleted ident deleter receipt now s t s' h in
      let f = Deleted-facts ident deleter receipt now s t s' d in
      let payload = restored_payload ident approval t in
      let hashed = content_hash_json-total doc payload in
      let evented =
        outbox_event_from_payload-total doc
          (restored_outbox_payload ident approval payload hashed.0) (text "table.restored") later
          (restored-event_type ident approval payload hashed.0) in
      let deletes : (k : Text)
          → get k (remove (table_key ident) s'.soft_deletes) ≡ get k s.soft_deletes =
        λ k. rw f.3 (restored_soft_deletes (table_key ident) k _ s.soft_deletes d.live) in
      (
        restored_state ident restorer later payload hashed.0 evented.0 s',
        restore_table-runs ident restorer approval later s' t
            (soft_delete_of ident deleter receipt now t) hashed.0 evented.0 f.0 f.1
            (soft_delete_of-scope ident deleter receipt now t) (rw f.2 d.found) d.keyed d.identified
            d.described hashed.1 evented.1,
        load_table-finds ident _ t
            (restored_live ident restorer later payload hashed.0 evented.0 s s' deletes d.live)
            (unfold restored_state in rw f.2 d.found) d.keyed d.identified,
        (unfold restored_state in f.2),
        (unfold restored_state in deletes),
      )
