-- ===== src/Memory/Profiles.antt =====
-- Storage profiles (crates/lakecat-store/src/memory.rs).
use mathlib.Core.Option.{get_or}
use lakecat.Prelude.{Text-discrete, text_less, holds, keep, Bool, List}
use lakecat.Prelude.Lists.{sort}
use lakecat.Prelude.Map.{text_key, get, insert, values}
use lakecat.Prelude.Results.{ok, if_some, for_each, ◌>>=◌, ◌>>◌}
use lakecat.Core.Names.{WarehouseName}
use lakecat.Records.Types.{TableRecord}
use lakecat.Records.External.{External}
use lakecat.Records.Profiles.{StorageProfile, storage_profile_key}
use lakecat.Records.Profiles.Checks.{validate_profile, validate_storage_profile_map_scope}
use lakecat.Records.Profiles.Match.{storage_profile_match, inferred_for_table}
use lakecat.Memory.State.{Update, Query}

abbrev pub profile_before : StorageProfile → StorageProfile → Bool
profile_before left right = text_less left.profile_id right.profile_id

module _ ⦃ext : External⦄ where
  unfoldable pub upsert_storage_profile : StorageProfile → Update StorageProfile
  upsert_storage_profile profile state = do
    validate_profile profile
    let key = storage_profile_key profile.warehouse profile.profile_id
    if_some (get key state.storage_profiles)
        (λ existing. validate_storage_profile_map_scope existing key)
    ok (profile, record state { storage_profiles = insert key profile state.storage_profiles })

  unfoldable pub list_storage_profiles : WarehouseName → Query (List StorageProfile)
  list_storage_profiles warehouse state = do
    for_each (λ entry. validate_storage_profile_map_scope entry.1 entry.0) state.storage_profiles
    ok (
        sort profile_before (
          keep (λ profile. holds (Text-discrete profile.warehouse warehouse))
            (values state.storage_profiles)))

  unfoldable pub storage_profile_for_table : TableRecord → Query StorageProfile
  storage_profile_for_table table state = do
    for_each (λ entry. validate_storage_profile_map_scope entry.1 entry.0) state.storage_profiles
    matched ← storage_profile_match (values state.storage_profiles) table
    ok (get_or matched (inferred_for_table table))
