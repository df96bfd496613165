-- ===== src/Memory/Invariant/Views.antt =====
-- The operations on views keep the invariant (crates/lakecat-store/src/memory.rs).
use lakecat.Prelude.{Text, ℕ, [], ◌∷◌, ◌++◌, Option, ◌≡◌, arith}
use lakecat.Prelude.Map.{text_key, remove, Entries-insert, Entries-remove}
use lakecat.Prelude.Results.{LakeCatResult, ok, err, ◌>>=◌, ◌>>◌, ensure_that}
use lakecat.Core.Names.{WarehouseName, Namespace, TableName}
use lakecat.Records.Types.{DateTime, Principal, ViewRecord, ViewVersionReceipt}
use lakecat.Records.External.{External}
use lakecat.Records.Views.{
  validate_view, view_key, view_key_parts, validate_view_record_map_scope, drop_receipt,
}
use lakecat.Records.Receipts.{latest_view_receipt_evidence}
use lakecat.Memory.State.{MemoryState}
use lakecat.Memory.Views.{
  upserted_state, upsert_view, upsert_view_if_version, drop_view_if_version, record_drop,
  receipts_of, find_droppable, hash_of_latest,
}
use lakecat.Memory.Views.Versions.{
  Stored, Stored-key, upsert_view-Stored, upsert_view_if_version-Stored,
}
use lakecat.Memory.Invariant.{Invariant}

module _ ⦃ext : External⦄ where
  validate_view_record_map_scope-intro :
      (v : ViewRecord) (k : Text)
      → validate_view v ≡ ok tt
      → view_key v ≡ k
      → validate_view_record_map_scope v k ≡ ok tt
  unfolding validate_view_record_map_scope ◌>>◌ ◌>>=◌ ensure_that
  validate_view_record_map_scope-intro v k h e = ground arith

  Stored-Invariant :
      (expected : Option ℕ) (view v : ViewRecord) (s s' : MemoryState)
      → Stored expected view s v s'
      → Invariant s
      → Invariant s'
  unfolding upserted_state
  Stored-Invariant expected view v s s' d i = rw d.state (
    i.0,
    i.1,
    Entries-insert (λ k v. validate_view_record_map_scope v k ≡ ok tt) (view_key view) v s.views
        (validate_view_record_map_scope-intro v (view_key view) d.valid (Stored-key d)) i.2,
    i.3,
    i.4,
  )

  pub upsert_view-Invariant :
      (now : DateTime) (view v : ViewRecord) (s s' : MemoryState)
      → upsert_view now view s ≡ ok (v, s')
      → Invariant s
      → Invariant s'
  upsert_view-Invariant now view v s s' h =
      Stored-Invariant _ view v s s' (upsert_view-Stored now view s v s' h)

  pub upsert_view_if_version-Invariant :
      (now : DateTime) (view v : ViewRecord) (expected : Option ℕ) (s s' : MemoryState)
      → upsert_view_if_version now view expected s ≡ ok (v, s')
      → Invariant s
      → Invariant s'
  upsert_view_if_version-Invariant now view v expected s s' h =
      Stored-Invariant expected view v s s'
        (upsert_view_if_version-Stored now view expected s v s' h)

  removed-Invariant :
      (key : Text) (s : MemoryState)
      → Invariant s
      → Invariant (record s { views = remove key s.views })
  removed-Invariant key s i = (
    i.0,
    i.1,
    Entries-remove (λ k v. validate_view_record_map_scope v k ≡ ok tt) key s.views i.2,
    i.3,
    i.4,
  )

  record_drop-Invariant :
      (now : DateTime) (key : Text) (warehouse : WarehouseName) (namespace : Namespace)
      (view : TableName) (principal : Principal) (stored : ViewRecord) (s : MemoryState)
      → Invariant s
      → Invariant (record_drop now key warehouse namespace view principal stored s).1
  unfolding record_drop
  record_drop-Invariant now key warehouse namespace view principal stored s i = after (
      receipts_of key warehouse namespace view (record s { views = remove key s.views })
      >>= λ receipts. latest_view_receipt_evidence receipts >>= λ latest.
          drop_receipt stored (hash_of_latest latest) principal now)
    where
      after :
          (r : LakeCatResult ViewVersionReceipt)
          → Invariant
              (elim r as (λ _. LakeCatResult ViewRecord × MemoryState) [
                | ok receipt ↦ (
                  ok stored,
                  record s {
                    views = remove key s.views;
                    view_version_receipts =
                        s.view_version_receipts
                        ++ record { view_key = key; receipt = receipt } ∷ [];
                  },
                )
                | err e ↦ (err e, record s { views = remove key s.views })
              ]).1
      after (ok receipt) = removed-Invariant key s i
      after (err e) = removed-Invariant key s i

  pub drop_view_if_version-Invariant :
      (now : DateTime) (warehouse : WarehouseName) (namespace : Namespace) (view : TableName)
      (principal : Principal) (expected : Option ℕ) (s : MemoryState)
      → Invariant s
      → Invariant (drop_view_if_version now warehouse namespace view principal expected s).1
  unfolding drop_view_if_version
  drop_view_if_version-Invariant now warehouse namespace view principal expected s i =
      after (find_droppable warehouse namespace view expected s)
    where
      after :
          (r : LakeCatResult ViewRecord)
          → Invariant
              (elim r as (λ _. LakeCatResult ViewRecord × MemoryState) [
                | ok current ↦
                    record_drop now
                      (view_key_parts warehouse namespace view)
                      warehouse
                      namespace
                      view
                      principal
                      current
                      s
                | err e ↦ (err e, s)
              ]).1
      after (ok current) =
          record_drop-Invariant now (view_key_parts warehouse namespace view) warehouse namespace
            view principal current s i
      after (err e) = i
