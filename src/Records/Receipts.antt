-- ===== src/Records/Receipts.antt =====
-- Chains of view version receipts (crates/lakecat-store/src/records.rs).
use lakecat.Prelude.{
  Text, ℕ, ◌+◌, ◌^◌, ◌==◌, ltb, Bool, true, false, not, Option, none, some, List, [], ◌∷◌,
  Text-discrete, Texts-discrete, holds, is_some, ◌&&◌, ◌||◌, if◌then◌else◌, ℕ_discrete,
}
use mathlib.Core.Option.{get_or}
use lakecat.Prelude.Map
use lakecat.Prelude.Map.{Map, text_key}
use lakecat.Prelude.Results.{
  LakeCatResult, ok, invalid_argument, internal, reject, ensure, ensure_that, if_some, for_each,
  ◌>>=◌, ◌>>◌,
}
use lakecat.Core.Names.{WarehouseName, Namespace, TableName}
use lakecat.Records.Types.{ViewVersionOperation, upsert, drop, ViewVersionReceipt}
use lakecat.Records.External.{External}
use lakecat.Records.Metadata.{option_discrete, location_discrete}
use lakecat.Records.Evidence.{content_hash_json, validate_sha256_evidence}
use lakecat.Records.Views.{view_stable_id, view_key_parts}

-- A row of `MemoryState::view_version_receipts`.
pub record MemoryViewVersionReceipt : Type 0 where
  pub view_key : Text
  pub receipt : ViewVersionReceipt

unfoldable pub version_option_discrete : Discrete (Option ℕ)
version_option_discrete = option_discrete ℕ_discrete

abbrev pub view_version_operation_order : ViewVersionOperation → ℕ
view_version_operation_order upsert = 0
view_version_operation_order drop = 1

-- `u64::saturating_add(1)`
abbrev pub saturating_suc : ℕ → ℕ
saturating_suc n = if ltb (n + 1) (2 ^ 64) then n + 1 else n

-- the comparison by version, instant and operation: `left` stands before `right`
unfoldable pub receipt_before : ViewVersionReceipt → ViewVersionReceipt → Bool
receipt_before left right =
    if ltb left.view_version right.view_version
    then true
    else if ltb right.view_version left.view_version
    then false
    else if ltb left.recorded_at right.recorded_at
    then true
    else if ltb right.recorded_at left.recorded_at
    then false
    else ltb (view_version_operation_order left.operation)
        (view_version_operation_order right.operation)

-- `sort_by` with this comparison, which keeps the order of equal receipts
unfoldable pub insert_receipt :
    ViewVersionReceipt → List ViewVersionReceipt → List ViewVersionReceipt
insert_receipt r [] = r ∷ []
insert_receipt r (s ∷ ss) =
    let rest = insert_receipt r ss in if receipt_before s r then s ∷ rest else r ∷ s ∷ ss

unfoldable pub sort_receipts : List ViewVersionReceipt → List ViewVersionReceipt
sort_receipts [] = []
sort_receipts (r ∷ rs) = insert_receipt r (sort_receipts rs)

-- the last of the greatest receipts: `max_by`
unfoldable pub max_receipt : List ViewVersionReceipt → Option ViewVersionReceipt
max_receipt [] = none
max_receipt (r ∷ rs) = elim (max_receipt rs) [
  | none ↦ some r
  | some s ↦ some (if receipt_before s r then r else s)
]

module _ ⦃ext : External⦄ where
  -- the `match` on the operation in `ViewVersionReceipt::validate`
  unfoldable pub validate_operation : ViewVersionReceipt → LakeCatResult (Unit {0})
  validate_operation receipt = elim receipt.operation [
    | upsert ↦ if_some receipt.previous_view_version (λ previous.
        ensure (ltb previous receipt.view_version) (
          invalid_argument "view upsert receipt previous version must be less than receipt version"
            []))
    | drop ↦
        ensure_that
          (version_option_discrete receipt.previous_view_version (some receipt.view_version))
          (invalid_argument "view drop receipt previous version must equal receipt version" [])
  ]

  -- `ViewVersionReceipt::validate`
  unfoldable pub validate_receipt : ViewVersionReceipt → LakeCatResult (Unit {0})
  validate_receipt receipt = do
    ensure_that
        (Text-discrete receipt.stable_id
          (view_stable_id receipt.warehouse receipt.namespace receipt.name))
        (invalid_argument "view receipt stable id does not match receipt identity" [])
    reject (receipt.view_version == 0)
        (invalid_argument "view receipt version must be greater than zero" [])
    validate_operation receipt
    validate_sha256_evidence receipt.view_hash "view receipt hash must be a SHA-256 digest"
    if_some receipt.previous_receipt_hash (λ hash.
        validate_sha256_evidence hash "previous view receipt hash must be a SHA-256 digest")

  unfoldable pub view_receipt_hash : ViewVersionReceipt → LakeCatResult Text
  view_receipt_hash receipt = content_hash_json (ext.view_receipt_value receipt)

  abbrev pub is_upsert : ViewVersionOperation → Bool
  is_upsert upsert = true
  is_upsert drop = false

  -- The first receipt of a chain.
  unfoldable pub chain_start : ViewVersionReceipt → LakeCatResult (Unit {0})
  chain_start receipt = do
    validate_receipt receipt
    reject
        (not (is_upsert receipt.operation)
          || not (receipt.view_version == 1)
          || is_some receipt.previous_view_version
          || is_some receipt.previous_receipt_hash)
        (internal "view receipt chain must begin with version 1 upsert without previous links" [])

  -- A receipt after `previous`.
  unfoldable pub chain_step : ViewVersionReceipt → ViewVersionReceipt → LakeCatResult (Unit {0})
  chain_step previous receipt = do
    validate_receipt receipt
    previous_hash ← view_receipt_hash previous
    ensure_that (location_discrete receipt.previous_receipt_hash (some previous_hash))
        (internal "view receipt chain previous links must match the prior receipt" [])
    let linked =
        holds (version_option_discrete receipt.previous_view_version (some previous.view_version))
    elim receipt.operation [
      | upsert ↦
          ensure (linked && receipt.view_version == saturating_suc previous.view_version)
            (internal "view receipt chain upsert transition is invalid" [])
      | drop ↦
          ensure (linked && receipt.view_version == previous.view_version)
            (internal "view receipt chain drop transition is invalid" [])
    ]

  unfoldable pub chain_rest :
      ViewVersionReceipt → List ViewVersionReceipt → LakeCatResult (Unit {0})
  chain_rest previous [] = ok tt
  chain_rest previous (receipt ∷ receipts) = do
    chain_step previous receipt
    chain_rest receipt receipts

  -- the loop over one sorted chain
  unfoldable pub validate_chain : List ViewVersionReceipt → LakeCatResult (Unit {0})
  validate_chain [] = ok tt
  validate_chain (receipt ∷ receipts) = do chain_start receipt; chain_rest receipt receipts

  unfoldable pub group_receipts : List ViewVersionReceipt → Map Text (List ViewVersionReceipt)
  group_receipts [] = []
  group_receipts (r ∷ rs) =
      let grouped = group_receipts rs in
      Map.insert r.stable_id (r ∷ get_or (Map.get r.stable_id grouped) []) grouped

  unfoldable pub validate_view_receipt_chains : List ViewVersionReceipt → LakeCatResult (Unit {0})
  validate_view_receipt_chains receipts =
      for_each (λ chain. validate_chain (sort_receipts chain))
        (Map.values (group_receipts receipts))

  unfoldable pub latest_view_receipt_evidence :
      List ViewVersionReceipt → LakeCatResult (Option (ℕ × Text))
  latest_view_receipt_evidence receipts = do
    validate_view_receipt_chains receipts
    elim (max_receipt receipts) [
      | none ↦ ok none
      | some receipt ↦ (do
        validate_receipt receipt
        hash ← view_receipt_hash receipt
        ok (some (receipt.view_version, hash)))
    ]

  unfoldable pub validate_memory_view_receipt_scope :
      MemoryViewVersionReceipt
      → WarehouseName
      → Namespace
      → Option TableName
      → LakeCatResult (Unit {0})
  validate_memory_view_receipt_scope row warehouse namespace view = do
    let mismatch = internal "view receipt row scope does not match receipt identity" []
    ensure_that
        (Text-discrete row.view_key
          (view_key_parts row.receipt.warehouse row.receipt.namespace row.receipt.name))
        mismatch
    ensure
        (holds (Text-discrete row.receipt.warehouse warehouse)
          && holds (Texts-discrete row.receipt.namespace namespace))
        mismatch
    if_some view (λ name. ensure_that (Text-discrete row.receipt.name name) mismatch)
    validate_receipt row.receipt
