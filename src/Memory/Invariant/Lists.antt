-- ===== src/Memory/Invariant/Lists.antt =====
-- In the states that runs reach, listings do not fail, and a created table loads
-- (crates/lakecat-store/src/memory.rs).
use lakecat.Prelude.{
  Text, Text-discrete, List, [], ◌∷◌, Bool, true, false, not, holds, holds-sound, keep, ◌&&◌, ◌≡◌,
  refl, sym, ◌∙◌, arith, All, inl, inr, Bool-cases, ◌≢◌, ◌⊎◌, not_holds,
}
use mathlib.Core.List.{Mem}
use lakecat.Prelude.Lists.{All-map}
use lakecat.Prelude.Listed.{keep-covers}
use lakecat.Prelude.Map.{text_key, contains_key, values, get-insert_self}
use lakecat.Prelude.Results.{ok, err, ◌>>=◌, ◌>>◌, for_each-ok, >>-eq-ok, reject-eq-ok, ok-pair}
use lakecat.Core.Names.{WarehouseName, table_key}
use lakecat.Records.Types.{TableRecord}
use lakecat.Records.External.{External}
use lakecat.Records.Tables.{validate_table_record_map_scope}
use lakecat.Memory.State.{MemoryState, table_not_found}
use lakecat.Memory.Tables.{list_tables, create_table, load_table}
use lakecat.Memory.Commits.Replay.{validate_table_record_identity-intro}
use lakecat.Memory.SoftDeletes.Hides.{load_table-finds, load_table-absent}
use lakecat.Memory.Steps.{Reachable}
use lakecat.Memory.Invariant.{Invariant}
use lakecat.Memory.Invariant.Tables.{validate_table_record_map_scope-intro}
use lakecat.Memory.Invariant.Runs.{Reachable-Invariant}

pub All-keep {ℓ} : {A : Type ℓ} (p : A → Bool) (xs : List A) → All (λ x. p x ≡ true) (keep p xs)
unfolding keep
All-keep p [] = tt
All-keep p (x ∷ xs) = elim (Bool-cases (p x)) [
  | inl kept ↦ rw kept (kept, All-keep p xs)
  | inr dropped ↦ rw dropped (All-keep p xs)
]

module _ ⦃ext : External⦄ (warehouse : WarehouseName) (s : MemoryState) where
  listed : TableRecord → Bool
  listed table =
      holds (Text-discrete table.ident.warehouse warehouse)
      && not (contains_key (table_key table.ident) s.soft_deletes)

  listed_sound :
      (t : TableRecord)
      → listed t ≡ true
      → (t.ident.warehouse ≡ warehouse) × (contains_key (table_key t.ident) s.soft_deletes ≡ false)
  unfolding listed
  listed_sound t h =
      (holds-sound (Text-discrete t.ident.warehouse warehouse) (ground arith), ground arith)

  unlisted_because :
      (tables : List TableRecord) (t : TableRecord)
      → (listed t ≡ false) ⊎ Mem t tables
      → (t.ident.warehouse ≢ warehouse)
        ⊎ ((contains_key (table_key t.ident) s.soft_deletes ≡ true) ⊎ Mem t tables)
  unfolding listed
  unlisted_because tables t (inr m) = inr (inr m)
  unlisted_because tables t (inl dropped) =
      elim (Bool-cases (holds (Text-discrete t.ident.warehouse warehouse))) [
        | inl here ↦ inr (inl (ground arith))
        | inr elsewhere ↦ inl (not_holds (Text-discrete t.ident.warehouse warehouse) elsewhere)
      ]

  -- In every state that the operations reach, the tables of a warehouse can be listed: no row makes
  -- the listing fail. It holds tables of the warehouse only, none of them soft-deleted, and leaves
  -- out no other: every stored table is of another warehouse, is soft-deleted or is listed.
  pub list_tables-total :
      Reachable s
      → (tables : List TableRecord) × (list_tables warehouse s ≡ ok tables)
        × All
            (λ t.
              (t.ident.warehouse ≡ warehouse)
              × (contains_key (table_key t.ident) s.soft_deletes ≡ false))
            tables
        × All
            (λ t.
              (t.ident.warehouse ≢ warehouse)
              ⊎ ((contains_key (table_key t.ident) s.soft_deletes ≡ true) ⊎ Mem t tables))
            (values s.tables)
  unfolding list_tables listed ◌>>=◌ ◌>>◌
  list_tables-total r = (
    keep listed (values s.tables),
    rw
        (for_each-ok (λ entry. validate_table_record_map_scope entry.1 entry.0) s.tables
          (Reachable-Invariant r).0)
        refl,
    All-map _ _ listed_sound _ (All-keep listed (values s.tables)),
    All-map _ _ (unlisted_because (keep listed (values s.tables))) _
        (keep-covers listed (values s.tables)),
  )

module _ ⦃ext : External⦄ where
  unlisted :
      (k : Text) (s : MemoryState)
      → Invariant s
      → contains_key k s.tables ≡ false
      → contains_key k s.soft_deletes ≡ false
  unlisted k s i absent = elim (Bool-cases (contains_key k s.soft_deletes)) [
    | inl deleted ↦ cc (sym absent ∙ i.1 k deleted)
    | inr live ↦ live
  ]

  -- A table that is created in a state that the operations reach was not found before and loads
  -- after: it is hidden by no soft delete that an earlier table of the name has left.
  pub create_table-loads :
      (t r : TableRecord) (s s' : MemoryState)
      → Reachable s
      → create_table t s ≡ ok (r, s')
      → (r ≡ t)
        × (load_table t.ident s ≡ err (table_not_found t.ident))
        × (load_table t.ident s' ≡ ok t)
  unfolding create_table
  create_table-loads t r s s' reached h =
      let a = >>-eq-ok _ _ h in
      let b = >>-eq-ok _ _ a.1 in
      let c = >>-eq-ok _ _ b.1 in
      let done = ok-pair c.1 in
      let absent = reject-eq-ok _ _ c.0 in
      let live = unlisted (table_key t.ident) s (Reachable-Invariant reached) absent in
      (
        done.0,
        load_table-absent t.ident s live absent,
        load_table-finds t.ident s' t (rw done.1 live)
            (rw done.1 (get-insert_self (table_key t.ident) t s.tables))
            (validate_table_record_map_scope-intro t (table_key t.ident) a.0 refl)
            (validate_table_record_identity-intro t t.ident a.0 refl),
      )
