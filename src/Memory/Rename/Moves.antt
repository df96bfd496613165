-- ===== src/Memory/Rename/Moves.antt =====
-- What `rename_table` moves (crates/lakecat-store/src/memory.rs).
use lakecat.Prelude.{Text, Option, some, Bool, true, false, ◌||◌, ◌≡◌, refl, ap, sym, ◌∙◌, arith}
use lakecat.Prelude.Map.{
  Map, text_key, get, contains_key, insert, remove, get-insert, get-insert_self, get-remove,
}
use lakecat.Prelude.Results.{ok, err, >>=-eq-ok, >>-eq-ok, reject-eq-ok, ok_or-eq-ok, ok-pair}
use lakecat.Prelude.Json.{Json}
use lakecat.Core.Names.{TableIdent, table_key}
use lakecat.Records.Types.{DateTime, Principal, TableRecord}
use lakecat.Records.External.{External}
use lakecat.Records.Tables.{
  validate_table, validate_table_record_map_scope, validate_table_record_identity,
}
use lakecat.Memory.State.{MemoryState, table_not_found}
use lakecat.Memory.Tables.{load_table}
use lakecat.Memory.Rename.{rename_table, renamed_state, moved}
use lakecat.Memory.Commits.Replay.{validate_table_record_identity-intro}
use lakecat.Memory.SoftDeletes.Hides.{load_table-finds, load_table-absent}
use lakecat.Memory.Invariant.Tables.{validate_table_record_map_scope-intro}

left_absent : (a b : Bool) → (a || b) ≡ false → a ≡ false
left_absent true b h = cc
left_absent false b h = refl

right_absent : (a b : Bool) → (a || b) ≡ false → b ≡ false
right_absent true b h = cc
right_absent false b h = h

renamed_away :
    (source destination : Text) (t old : TableRecord) (m : Map Text TableRecord)
    → get source m ≡ some old
    → contains_key destination m ≡ false
    → contains_key source (insert destination t (remove source m)) ≡ false
unfolding contains_key
renamed_away source destination t old m found absent =
    ground (arith, get-insert destination source t (remove source m), get-remove source source m)

module _ ⦃ext : External⦄ where
  -- What a rename that succeeds has found and written.
  record Renamed (source destination : TableIdent) (now : DateTime) (s : MemoryState)
      (t : TableRecord) (s' : MemoryState) : Type 0 where
    old : TableRecord
    live : contains_key (table_key source) s.soft_deletes ≡ false
    found : get (table_key source) s.tables ≡ some old
    keyed : validate_table_record_map_scope old (table_key source) ≡ ok tt
    identified : validate_table_record_identity old source ≡ ok tt
    free :
        (contains_key (table_key destination) s.tables
          || contains_key (table_key destination) s.soft_deletes)
        ≡ false
    valid : validate_table (moved destination now old) ≡ ok tt
    result : t ≡ moved destination now old
    tables :
        s'.tables
        ≡ insert
            (table_key destination)
            (moved destination now old)
            (remove (table_key source) s.tables)
    deletes : s'.soft_deletes ≡ s.soft_deletes

  rename_table-Renamed :
      (source destination : TableIdent) (now : DateTime) (principal : Principal)
      (receipt : Option Json) (s : MemoryState) (t : TableRecord) (s' : MemoryState)
      → rename_table source destination now principal receipt s ≡ ok (t, s')
      → Renamed source destination now s t s'
  unfolding rename_table renamed_state
  rename_table-Renamed source destination now principal receipt s t s' h =
      let a = >>-eq-ok _ _ h in
      let b = >>-eq-ok _ _ a.1 in
      let c = >>-eq-ok _ _ b.1 in
      let d = >>=-eq-ok _ _ c.1 in
      let e = >>-eq-ok _ _ d.2 in
      let f = >>-eq-ok _ _ e.1 in
      let g = >>-eq-ok _ _ f.1 in
      let k = >>-eq-ok _ _ g.1 in
      let l = >>-eq-ok _ _ k.1 in
      let m = >>=-eq-ok _ _ l.1 in
      let n = >>=-eq-ok _ _ m.2 in
      let p = >>=-eq-ok _ _ n.2 in
      let q = >>=-eq-ok _ _ p.2 in
      let done = ok-pair q.2 in
      record {
        old = d.0;
        live = reject-eq-ok _ _ c.0;
        found = ok_or-eq-ok _ _ d.1;
        keyed = e.0;
        identified = f.0;
        free = reject-eq-ok _ _ g.0;
        valid = l.0;
        result = done.0;
        tables = ap (λ (x : MemoryState). x.tables) done.1;
        deletes = ap (λ (x : MemoryState). x.soft_deletes) done.1;
      }

  -- A rename that succeeds is of a table that loads under the old identity. After it the table
  -- loads under the new one, as it was but for its identity and the instant of its update, and is
  -- not found under the old one.
  pub rename_table-moves :
      (source destination : TableIdent) (now : DateTime) (principal : Principal)
      (receipt : Option Json) (s : MemoryState) (t : TableRecord) (s' : MemoryState)
      → rename_table source destination now principal receipt s ≡ ok (t, s')
      → (old : TableRecord) × (load_table source s ≡ ok old)
        × (t ≡ record old { ident = destination; updated_at = now })
        × (load_table destination s' ≡ ok t)
        × (load_table source s' ≡ err (table_not_found source))
  rename_table-moves source destination now principal receipt s t s' h =
      let r = rename_table-Renamed source destination now principal receipt s t s' h in
      let renamed = moved destination now r.old in
      (
        r.old,
        load_table-finds source s r.old r.live r.found r.keyed r.identified,
        r.result,
        load_table-finds destination s' renamed (rw r.deletes (right_absent _ _ r.free))
              (rw r.tables (
                get-insert_self (table_key destination) renamed
                  (remove (table_key source) s.tables)))
              (validate_table_record_map_scope-intro renamed (table_key destination) r.valid refl)
              (validate_table_record_identity-intro renamed destination r.valid refl)
            ∙ ap ok (sym r.result),
        load_table-absent source s' (rw r.deletes r.live) (
            rw r.tables (
              renamed_away (table_key source) (table_key destination) renamed r.old s.tables r.found
                (left_absent _ _ r.free))),
      )
