-- ===== src/Records/Profiles/Match.antt =====
-- The choice of the storage profile of a table (crates/lakecat-store/src/helpers.rs), and the
-- profiles that are made rather than stored (records.rs).
use lakecat.Prelude.{
  Text, Text-discrete, text, text_len, is_blank, ltb, ◌==◌, holds, ℕ, Bool, true, false, ◌&&◌,
  Option, none, some, List, [], ◌∷◌, ◌++◌, keep,
}
use lakecat.Prelude.Map.{Map, text_key, insert}
use lakecat.Prelude.Results.{
  LakeCatError, LakeCatResult, ok, err, invalid_argument, reject, if_some, ◌>>◌,
}
use lakecat.Core.Names.{WarehouseName, stable_id}
use lakecat.Records.Types.{TableRecord}
use lakecat.Records.External.{External}
use lakecat.Records.Evidence.{content_hash_bytes}
use lakecat.Records.Locations.{location_matches_storage_profile_prefix}
use lakecat.Records.Profiles.{
  StorageProfile, StorageProvider, CredentialIssuanceMode, file, governed_read_required,
  local_file_no_secret, from_location, provider_str, mode_str,
}
use lakecat.Records.Profiles.Checks.{
  validate_profile_id, validate_location_prefix_path, validate_location_prefix_provider,
  validate_issuance_mode_provider, validate_secret_ref, validate_secret_ref_issuance_mode,
  lacks_secret, validate_storage_profile_public_config,
}

abbrev pub prefix_len : StorageProfile → ℕ
prefix_len profile = text_len profile.location_prefix

-- the filters of `storage_profile_match`
unfoldable pub is_candidate : TableRecord → StorageProfile → Bool
is_candidate table profile =
    holds (Text-discrete profile.warehouse table.ident.warehouse)
    && location_matches_storage_profile_prefix table.location profile.location_prefix

module _ ⦃ext : External⦄ where
  -- `StorageProfile::new`
  unfoldable pub new_storage_profile :
      Text
      → WarehouseName
      → Text
      → StorageProvider
      → CredentialIssuanceMode
      → Option Text
      → Map Text Text
      → LakeCatResult StorageProfile
  new_storage_profile profile_id warehouse location_prefix provider issuance_mode secret_ref
        public_config =
      do
        validate_profile_id profile_id
        reject (is_blank location_prefix)
            (invalid_argument "storage profile location prefix must not be empty" [])
        validate_location_prefix_path location_prefix
        validate_location_prefix_provider location_prefix provider
        validate_issuance_mode_provider issuance_mode provider location_prefix
        if_some secret_ref validate_secret_ref
        validate_secret_ref_issuance_mode secret_ref issuance_mode
        reject (lacks_secret issuance_mode secret_ref)
            (invalid_argument "short-lived-secret-ref issuance mode requires a secret reference" [])
        validate_storage_profile_public_config public_config
        ok (record {
          profile_id = profile_id;
          warehouse = warehouse;
          location_prefix = location_prefix;
          provider = provider;
          issuance_mode = issuance_mode;
          secret_ref = secret_ref;
          public_config = public_config;
        })

  unfoldable pub ambiguous : TableRecord → (current profile : StorageProfile) → LakeCatError
  ambiguous table current profile =
      invalid_argument
        "ambiguous storage profile match for {}; location-prefix-hash={}; profile-ids={},{}"
        (stable_id table.ident
          ∷ content_hash_bytes profile.location_prefix
          ∷ current.profile_id
          ∷ profile.profile_id
          ∷ [])

  -- the loop, over the candidates
  unfoldable pub best_of :
      TableRecord
      → Option StorageProfile
      → List StorageProfile
      → LakeCatResult (Option StorageProfile)
  best_of table best [] = ok best
  best_of table none (profile ∷ profiles) = best_of table (some profile) profiles
  best_of table (some current) (profile ∷ profiles) =
      elim (ltb (prefix_len current) (prefix_len profile)) [
        | true ↦ best_of table (some profile) profiles
        | false ↦ elim (prefix_len profile == prefix_len current) [
          | true ↦ err (ambiguous table current profile)
          | false ↦ best_of table (some current) profiles
        ]
      ]

  unfoldable pub storage_profile_match :
      List StorageProfile → TableRecord → LakeCatResult (Option StorageProfile)
  storage_profile_match profiles table = best_of table none (keep (is_candidate table) profiles)

abbrev pub inferred_mode : StorageProvider → CredentialIssuanceMode
inferred_mode file = local_file_no_secret
inferred_mode _ = governed_read_required

abbrev pub needs_governed_read : CredentialIssuanceMode → Text
needs_governed_read governed_read_required = text "true"
needs_governed_read _ = text "false"

-- `StorageProfile::inferred_for_table`
unfoldable pub inferred_for_table : TableRecord → StorageProfile
inferred_for_table table =
    let provider = from_location table.location in
    let issuance_mode = inferred_mode provider in
    record {
      profile_id = table.ident.warehouse ++ (b':' ∷ provider_str provider);
      warehouse = table.ident.warehouse;
      location_prefix = table.location;
      provider = provider;
      issuance_mode = issuance_mode;
      secret_ref = none;
      public_config =
          insert (text "lakecat.governed-read-required") (needs_governed_read issuance_mode) (
            insert (text "lakecat.storage-provider") (provider_str provider)
              (insert (text "lakecat.credential-mode") (mode_str issuance_mode) []));
    }

unfoldable pub can_return_public_credential : StorageProfile → Bool
can_return_public_credential profile = is_local profile.issuance_mode
  where
    is_local : CredentialIssuanceMode → Bool
    is_local local_file_no_secret = true
    is_local _ = false
