-- ===== src/Records/Metadata.antt =====
-- What is read from a table's metadata (crates/lakecat-store/src/records.rs), and the derived
-- equality of optional locations and versions.
use mathlib.Core.Option.{get_or}
use lakecat.Prelude.{Text, text, zero, suc, ℕ_discrete, Option, none, some, Text-discrete, refl}
use lakecat.Prelude.Options.{◌>>=◌}
use lakecat.Prelude.Json
use lakecat.Prelude.Json.{Json, ℤ, pos, negsuc, as_str, as_i64, try_i32}
use lakecat.Records.Types.{TableRecord}

unfoldable pub ℤ-discrete : Discrete ℤ
ℤ-discrete (pos a) (pos b) = elim (ℕ_discrete a b) [
  | yes p ↦ yes (λ i. pos (p i))
  | no n ↦ no (λ e. n (cc))
]
ℤ-discrete (pos a) (negsuc b) = no (λ e. cc)
ℤ-discrete (negsuc a) (pos b) = no (λ e. cc)
ℤ-discrete (negsuc a) (negsuc b) = elim (ℕ_discrete a b) [
  | yes p ↦ yes (λ i. negsuc (p i))
  | no n ↦ no (λ e. n (cc))
]

module _ {ℓ} {A : Type ℓ} where
  unfoldable pub option_discrete : Discrete A → Discrete (Option A)
  option_discrete d none none = yes refl
  option_discrete d none (some b) = no (λ e. cc)
  option_discrete d (some a) none = no (λ e. cc)
  option_discrete d (some a) (some b) = elim (d a b) [
    | yes p ↦ yes (λ i. some (p i))
    | no n ↦ no (λ e. n (cc))
  ]

unfoldable pub location_discrete : Discrete (Option Text)
location_discrete = option_discrete Text-discrete

unfoldable pub version_discrete : Discrete (Option ℤ)
version_discrete = option_discrete ℤ-discrete

unfoldable pub table_metadata_format_version : Json → Option ℤ
table_metadata_format_version metadata = do
  value ← Json.get metadata (text "format-version")
  number ← as_i64 value
  try_i32 number

unfoldable pub table_commit_format_version : TableRecord → Option ℤ
table_commit_format_version table = table_metadata_format_version table.metadata

-- -1 stands for a table with no snapshot
abbrev pub normalize_table_commit_snapshot_id : Option ℤ → Option ℤ
normalize_table_commit_snapshot_id none = none
normalize_table_commit_snapshot_id (some (pos n)) = some (pos n)
normalize_table_commit_snapshot_id (some (negsuc zero)) = some (pos 0)
normalize_table_commit_snapshot_id (some (negsuc (suc n))) = some (negsuc (suc n))

unfoldable pub table_commit_snapshot_id : TableRecord → Option ℤ
table_commit_snapshot_id table =
    let current : Option ℤ = (do
      value ← Json.get table.metadata (text "current-snapshot-id")
      as_i64 value) in
    normalize_table_commit_snapshot_id (some (get_or current (pos 0)))

unfoldable pub table_commit_policy_hash : Option Json → Option Text
table_commit_policy_hash authorization_receipt = do
  receipt ← authorization_receipt
  value ← Json.get receipt (text "policy_hash")
  as_str value
