-- ===== src/Memory/Views/Listings.antt =====
-- The listings of views and of their version receipts over a namespace or a warehouse, and the drop
-- without an expected version (crates/lakecat-store/src/memory.rs and records.rs).
use lakecat.Prelude.{
  Text, Text-discrete, texts_less, text_less, ltb, List, [], ◌∷◌, none, some, Bool, true, false,
  holds, keep, ◌&&◌, if◌then◌else◌,
}
use lakecat.Prelude.Lists.{sort, split}
use lakecat.Prelude.Map.{Map, text_key}
use lakecat.Prelude.Results.{LakeCatResult, ok, collect, ◌>>=◌, ◌>>◌}
use lakecat.Core.Names.{WarehouseName, Namespace, TableName, storage_key}
use lakecat.Records.Types.{DateTime, Principal, ViewRecord, ViewVersionReceipt}
use lakecat.Records.External.{External}
use lakecat.Records.Views.{validate_view_record_map_scope}
use lakecat.Records.Receipts.{
  MemoryViewVersionReceipt, validate_memory_view_receipt_scope, validate_view_receipt_chains,
}
use lakecat.Memory.State.{MemoryState, Query}
use lakecat.Memory.Views.{drop_view_if_version}

-- the three parts of a view's key, if there are three
unfoldable pub parts_match : (Text → Text → Bool) → List Text → Bool
parts_match test (w ∷ ns ∷ name ∷ []) = test w ns
parts_match test _ = false

unfoldable pub memory_view_receipt_key_matches_namespace : Text → WarehouseName → Namespace → Bool
memory_view_receipt_key_matches_namespace view_key warehouse namespace =
    parts_match
      (λ w ns.
        holds (Text-discrete w warehouse) && holds (Text-discrete ns (storage_key namespace)))
      (split 0x1f view_key)

unfoldable pub view_key_matches_warehouse : Text → WarehouseName → Bool
view_key_matches_warehouse view_key warehouse =
    parts_match (λ w ns. holds (Text-discrete w warehouse)) (split 0x1f view_key)

-- `then_with`, on tests of `<` in both directions
abbrev pub then_with : (less greater rest : Bool) → Bool
then_with less greater rest = if less then true else if greater then false else rest

unfoldable pub listed_before : ViewVersionReceipt → ViewVersionReceipt → Bool
listed_before left right =
    then_with (texts_less left.namespace right.namespace)
      (texts_less right.namespace left.namespace)
      (then_with (text_less left.name right.name) (text_less right.name left.name) (
        then_with (ltb left.view_version right.view_version)
          (ltb right.view_version left.view_version) (ltb left.recorded_at right.recorded_at)))

unfoldable pub view_before : ViewRecord → ViewRecord → Bool
view_before left right =
    then_with (texts_less left.namespace right.namespace)
      (texts_less right.namespace left.namespace) (text_less left.name right.name)

-- `filter`, on the entries of a map
unfoldable pub views_of : WarehouseName → Map Text ViewRecord → Map Text ViewRecord
views_of warehouse views = keep (λ entry. view_key_matches_warehouse entry.0 warehouse) views

module _ ⦃ext : External⦄ where
  unfoldable pub list_namespace_view_version_receipts :
      WarehouseName → Namespace → Query (List ViewVersionReceipt)
  list_namespace_view_version_receipts warehouse namespace state = do
    receipts ←
        collect
          (λ (row : MemoryViewVersionReceipt).
            validate_memory_view_receipt_scope row warehouse namespace none >> ok row.receipt)
          (keep
            (λ (row : MemoryViewVersionReceipt).
              memory_view_receipt_key_matches_namespace row.view_key warehouse namespace)
            state.view_version_receipts)
    validate_view_receipt_chains receipts
    ok receipts

  unfoldable pub list_warehouse_view_version_receipts :
      WarehouseName → Query (List ViewVersionReceipt)
  list_warehouse_view_version_receipts warehouse state = do
    receipts ←
        collect
          (λ (row : MemoryViewVersionReceipt).
            validate_memory_view_receipt_scope row warehouse row.receipt.namespace
              (some row.receipt.name)
            >> ok row.receipt)
          (keep
            (λ (row : MemoryViewVersionReceipt). view_key_matches_warehouse row.view_key warehouse)
            state.view_version_receipts)
    let sorted = sort listed_before receipts
    validate_view_receipt_chains sorted
    ok sorted

  unfoldable pub list_warehouse_views : WarehouseName → Query (List ViewRecord)
  list_warehouse_views warehouse state = do
    views ←
        collect
          (λ (entry : Text × ViewRecord).
            validate_view_record_map_scope entry.1 entry.0 >> ok entry.1)
          (views_of warehouse state.views)
    ok (sort view_before views)

  unfoldable pub drop_view :
      DateTime
      → WarehouseName
      → Namespace
      → TableName
      → Principal
      → MemoryState
      → LakeCatResult ViewRecord × MemoryState
  drop_view now warehouse namespace view principal state =
      drop_view_if_version now warehouse namespace view principal none state
