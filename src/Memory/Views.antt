-- ===== src/Memory/Views.antt =====
-- The view operations of crates/lakecat-store/src/memory.rs.
pub mod Versions
pub mod Listings
use lakecat.Prelude.{
  Text, List, [], ◌∷◌, ◌++◌, ℕ, Option, none, some, Bool, true, false, holds, keep, Text-discrete,
  Texts-discrete, ◌≡◌, ◌&&◌, text_less, if◌then◌else◌,
}
use lakecat.Prelude.Map.{Map, text_key, contains_key, get, insert, remove, values}
use lakecat.Prelude.Results.{
  LakeCatResult, ok, err, not_found, ok_or, if_some, for_each, collect, ◌>>=◌, ◌>>◌,
}
use lakecat.Core.Names.{WarehouseName, Namespace, TableName}
use lakecat.Records.Types.{DateTime, Principal, ViewRecord, ViewVersionReceipt}
use lakecat.Records.External.{External}
use lakecat.Records.Views.{
  validate_view, view_key, view_key_parts, validate_view_record_scope,
  validate_view_record_map_scope, validate_expected_view_version, require_expected_view_version,
  with_next_version_after_history, upsert_receipt, drop_receipt, version_of,
}
use lakecat.Records.Receipts.{
  MemoryViewVersionReceipt, validate_memory_view_receipt_scope, latest_view_receipt_evidence,
  validate_view_receipt_chains,
}
use lakecat.Memory.State.{MemoryState, Update, Query}

-- `a.or(b)`
abbrev pub or_else {ℓ} : {A : Type ℓ} → Option A → Option A → Option A
or_else none o = o
or_else (some a) o = some a

abbrev pub first_of_latest : Option (ℕ × Text) → Option ℕ
first_of_latest none = none
first_of_latest (some evidence) = some evidence.0

abbrev pub hash_of_latest : Option (ℕ × Text) → Option Text
hash_of_latest none = none
hash_of_latest (some evidence) = some evidence.1

-- `sort_by` on the names
unfoldable pub insert_view : ViewRecord → List ViewRecord → List ViewRecord
insert_view v [] = v ∷ []
insert_view v (w ∷ ws) =
    let rest = insert_view v ws in if text_less w.name v.name then w ∷ rest else v ∷ w ∷ ws

unfoldable pub sort_views : List ViewRecord → List ViewRecord
sort_views [] = []
sort_views (v ∷ vs) = insert_view v (sort_views vs)

module _ ⦃ext : External⦄ where
  -- the receipts of one view, checked
  unfoldable pub receipts_of :
      Text → WarehouseName → Namespace → TableName → Query (List ViewVersionReceipt)
  receipts_of key warehouse namespace name state =
      collect
        (λ row. do
          validate_memory_view_receipt_scope row warehouse namespace (some name)
          ok row.receipt)
        (keep (λ row. holds (Text-discrete row.view_key key)) state.view_version_receipts)

  -- the writes of an upsert
  unfoldable pub upserted_state : Text → ViewRecord → ViewVersionReceipt → MemoryState → MemoryState
  upserted_state key view receipt state = record state {
    views = insert key view state.views;
    view_version_receipts =
        state.view_version_receipts ++ record { view_key = key; receipt = receipt } ∷ [];
  }

  -- `upsert_view` after its validation, and the rest of `upsert_view_if_version`
  unfoldable pub store_view : DateTime → Option ℕ → ViewRecord → Update ViewRecord
  store_view now expected_view_version view state = do
    let key = view_key view
    let previous = get key state.views
    if_some previous (λ stored. validate_view_record_map_scope stored key)
    if_some expected_view_version (λ expected. require_expected_view_version previous expected)
    receipts ← receipts_of key view.warehouse view.namespace view.name state
    latest ← latest_view_receipt_evidence receipts
    next ← with_next_version_after_history view previous (first_of_latest latest)
    receipt ←
        upsert_receipt (or_else (version_of previous) (first_of_latest latest))
          (hash_of_latest latest) next view.created.principal now
    ok (next, upserted_state key next receipt state)

  unfoldable pub upsert_view : DateTime → ViewRecord → Update ViewRecord
  upsert_view now view state = do validate_view view; store_view now none view state

  unfoldable pub upsert_view_if_version : DateTime → ViewRecord → Option ℕ → Update ViewRecord
  upsert_view_if_version now view expected_view_version state = do
    validate_view view
    if_some expected_view_version validate_expected_view_version
    store_view now expected_view_version view state

  unfoldable pub list_view_version_receipts :
      WarehouseName → Namespace → TableName → Query (List ViewVersionReceipt)
  list_view_version_receipts warehouse namespace view state = do
    receipts ← receipts_of (view_key_parts warehouse namespace view) warehouse namespace view state
    validate_view_receipt_chains receipts
    ok receipts

  unfoldable pub load_view : WarehouseName → Namespace → TableName → Query ViewRecord
  load_view warehouse namespace view state = do
    let key = view_key_parts warehouse namespace view
    stored ← ok_or (get key state.views) (not_found "view" view)
    validate_view_record_map_scope stored key
    validate_view_record_scope stored warehouse namespace view
    ok stored

  -- the end of `drop_view_if_version`, from the removal of the view on: an error here leaves the
  -- view removed
  unfoldable pub record_drop :
      DateTime
      → Text
      → WarehouseName
      → Namespace
      → TableName
      → Principal
      → ViewRecord
      → MemoryState
      → LakeCatResult ViewRecord × MemoryState
  record_drop now key warehouse namespace view principal stored state =
      let removed : MemoryState = record state { views = remove key state.views } in
      elim ((do
        receipts ← receipts_of key warehouse namespace view removed
        latest ← latest_view_receipt_evidence receipts
        drop_receipt stored (hash_of_latest latest) principal now))
        as (λ _. LakeCatResult ViewRecord × MemoryState) [
          | ok receipt ↦ (
            ok stored,
            record removed {
              view_version_receipts =
                  removed.view_version_receipts
                  ++ record { view_key = key; receipt = receipt } ∷ [];
            },
          )
          | err e ↦ (err e, removed)
        ]

  -- The checks before the removal.
  unfoldable pub find_droppable :
      WarehouseName → Namespace → TableName → Option ℕ → Query ViewRecord
  find_droppable warehouse namespace view expected_view_version state = do
    if_some expected_view_version validate_expected_view_version
    let key = view_key_parts warehouse namespace view
    current ← ok_or (get key state.views) (not_found "view" view)
    validate_view_record_map_scope current key
    validate_view_record_scope current warehouse namespace view
    if_some expected_view_version
        (λ expected. require_expected_view_version (some current) expected)
    ok current

  unfoldable pub drop_view_if_version :
      DateTime
      → WarehouseName
      → Namespace
      → TableName
      → Principal
      → Option ℕ
      → MemoryState
      → LakeCatResult ViewRecord × MemoryState
  drop_view_if_version now warehouse namespace view principal expected_view_version state =
      elim (find_droppable warehouse namespace view expected_view_version state)
        as (λ _. LakeCatResult ViewRecord × MemoryState) [
          | ok current ↦
              record_drop now (view_key_parts warehouse namespace view) warehouse namespace view
                principal current state
          | err e ↦ (err e, state)
        ]

  unfoldable pub list_views : WarehouseName → Namespace → Query (List ViewRecord)
  list_views warehouse namespace state = do
    for_each (λ entry. validate_view_record_map_scope entry.1 entry.0) state.views
    ok (
        sort_views (
          keep
            (λ view.
              holds (Text-discrete view.warehouse warehouse)
              && holds (Texts-discrete view.namespace namespace))
            (values state.views)))
