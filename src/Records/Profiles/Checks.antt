-- ===== src/Records/Profiles/Checks.antt =====
-- The checks on storage profiles in crates/lakecat-store/src/records.rs and helpers.rs.
use lakecat.Prelude.{
  Text, Text-discrete, text, trim, to_ascii_lowercase, all, Bool, true, false, not, ◌&&◌, ◌||◌,
  Option, none, some, List, [], ◌∷◌, ◌++◌, String,
}
use lakecat.Prelude.Map.{Map, text_key, keys}
use lakecat.Prelude.Results.{
  LakeCatError, LakeCatResult, ok, err, invalid_argument, internal, reject, ensure, ensure_that,
  if_some, for_each, ok_or, ◌>>=◌, ◌>>◌,
}
use lakecat.Core.Names.{is_empty, is_name_char}
use lakecat.Records.External.{External, Url}
use lakecat.Records.Evidence.{
  content_hash_bytes, embeds_raw_secret_material, location_has_query_fragment_or_userinfo,
}
use lakecat.Records.Locations.{location_has_dot_path_segment, secret_ref_has_dot_path_segment}
use lakecat.Records.Views.{validate_public_config, public_config_key_hash_context}
use lakecat.Core.Parse.{is_one_of}
use lakecat.Records.Profiles.{
  StorageProfile, StorageProvider, CredentialIssuanceMode, file, s3, gcs, azure, unknown,
  governed_read_required, local_file_no_secret, short_lived_secret_ref, from_location, provider_str,
  same_provider, storage_profile_key,
}

-- `RESERVED_STORAGE_PROFILE_PUBLIC_CONFIG_KEYS`
abbrev reserved_storage_profile_public_config_keys : List String
reserved_storage_profile_public_config_keys =
    "lakecat.storage-profile-id" ∷ "lakecat.storage-provider" ∷ "lakecat.credential-mode"
    ∷ "lakecat.governed-read-required" ∷ "lakecat.authorization-principal"
    ∷ "lakecat.max-credential-ttl-seconds" ∷ "lakecat.credential-kind" ∷ []

module _ ⦃ext : External⦄ where
  unfoldable pub storage_profile_id_hash_context : Text → Text
  storage_profile_id_hash_context profile_id =
      text "storage-profile-id-hash=" ++ content_hash_bytes profile_id

  unfoldable pub storage_profile_prefix_hash_context : Text → Text
  storage_profile_prefix_hash_context location_prefix =
      text "storage-profile-prefix-hash=" ++ content_hash_bytes location_prefix

  unfoldable pub secret_ref_hash_context : Text → Text
  secret_ref_hash_context secret_ref = text "secret-ref-hash=" ++ content_hash_bytes secret_ref

  unfoldable pub validate_profile_id : Text → LakeCatResult (Unit {0})
  validate_profile_id profile_id = do
    reject (is_empty profile_id) (invalid_argument "storage profile id must not be empty" [])
    ensure (all is_name_char profile_id) (
        invalid_argument "storage profile id contains unsupported characters; {}"
          (storage_profile_id_hash_context profile_id ∷ []))

  unfoldable pub validate_location_prefix_path : Text → LakeCatResult (Unit {0})
  validate_location_prefix_path location_prefix = do
    reject (location_has_query_fragment_or_userinfo location_prefix) (
        invalid_argument
          "storage profile location prefix must not include query strings, fragments, or userinfo; {}"
          (storage_profile_prefix_hash_context location_prefix ∷ []))
    reject (location_has_dot_path_segment location_prefix) (
        invalid_argument "storage profile location prefix must not include dot path segments; {}"
          (storage_profile_prefix_hash_context location_prefix ∷ []))

  unfoldable pub validate_location_prefix_provider :
      Text → StorageProvider → LakeCatResult (Unit {0})
  validate_location_prefix_provider location_prefix provider = do
    let detected = from_location location_prefix
    reject (not (same_provider detected unknown) && not (same_provider detected provider)) (
        invalid_argument
          "storage profile provider '{}' does not match location prefix provider '{}'; {}"
          (provider_str provider
            ∷ provider_str detected
            ∷ storage_profile_prefix_hash_context location_prefix
            ∷ []))
    reject (same_provider detected unknown && not (same_provider provider unknown)) (
        invalid_argument "storage profile location prefix is not supported by provider '{}'; {}"
          (provider_str provider ∷ storage_profile_prefix_hash_context location_prefix ∷ []))

  unfoldable pub validate_issuance_mode_provider :
      CredentialIssuanceMode → StorageProvider → Text → LakeCatResult (Unit {0})
  validate_issuance_mode_provider governed_read_required provider location_prefix = ok tt
  validate_issuance_mode_provider local_file_no_secret provider location_prefix =
      ensure (same_provider provider file) (
        invalid_argument "local-file-no-secret issuance mode requires file provider, got '{}'; {}"
          (provider_str provider ∷ storage_profile_prefix_hash_context location_prefix ∷ []))
  validate_issuance_mode_provider short_lived_secret_ref provider location_prefix =
      ensure
        (same_provider provider s3 || same_provider provider gcs || same_provider provider azure)
        (invalid_argument
          "short-lived-secret-ref issuance mode requires s3, gcs, or azure provider, got '{}'; {}"
          (provider_str provider ∷ storage_profile_prefix_hash_context location_prefix ∷ []))

  abbrev secret_error : String → Text → LakeCatError
  secret_error message secret_ref =
      invalid_argument message (secret_ref_hash_context secret_ref ∷ [])

  unfoldable pub validate_secret_url : Text → Url → LakeCatResult (Unit {0})
  validate_secret_url trimmed parsed = do
    ensure (is_one_of parsed.scheme ("typesec" ∷ "vault" ∷ "aws-sm" ∷ "gcp-sm" ∷ "azure-kv" ∷ [])) (
        secret_error "storage profile secret reference must use an external secret-store URI; {}"
          trimmed)
    reject (parsed.has_query || parsed.has_fragment || not (is_empty parsed.username)) (
        secret_error
          "storage profile secret reference must not include query strings, fragments, or userinfo; {}"
          trimmed)
    reject parsed.has_password (
        secret_error
          "storage profile secret reference must not include query strings, fragments, or userinfo; {}"
          trimmed)
    reject (secret_ref_has_dot_path_segment trimmed) (
        secret_error "storage profile secret reference must not include dot path segments; {}"
          trimmed)
    reject (embeds_raw_secret_material trimmed) (
        secret_error "storage profile secret reference must not embed raw secret material; {}"
          trimmed)

  unfoldable pub validate_secret_ref : Text → LakeCatResult (Unit {0})
  validate_secret_ref secret_ref = do
    let trimmed = trim secret_ref
    reject (is_empty trimmed)
        (invalid_argument "storage profile secret reference must not be empty" [])
    parsed ← ok_or (ext.url_parse trimmed) (
        secret_error
          "storage profile secret reference must be a valid external secret-store URI; {}" trimmed)
    validate_secret_url trimmed parsed

  unfoldable pub validate_secret_ref_issuance_mode :
      Option Text → CredentialIssuanceMode → LakeCatResult (Unit {0})
  validate_secret_ref_issuance_mode none issuance_mode = ok tt
  validate_secret_ref_issuance_mode (some secret_ref) short_lived_secret_ref = ok tt
  validate_secret_ref_issuance_mode (some secret_ref) issuance_mode = err (
      secret_error
        "storage profile secret reference requires short-lived-secret-ref issuance mode; {}"
        secret_ref)

  -- a short-lived secret without its reference
  unfoldable pub lacks_secret : CredentialIssuanceMode → Option Text → Bool
  lacks_secret short_lived_secret_ref none = true
  lacks_secret issuance_mode secret_ref = false

  unfoldable pub validate_storage_profile_public_config : Map Text Text → LakeCatResult (Unit {0})
  validate_storage_profile_public_config config = do
    validate_public_config config
    for_each
        (λ key.
          reject (is_one_of (to_ascii_lowercase key) reserved_storage_profile_public_config_keys) (
            invalid_argument
              "storage profile public config key is reserved for LakeCat credential evidence; {}"
              (public_config_key_hash_context key ∷ [])))
        (keys config)

  -- `StorageProfile::validate`
  unfoldable pub validate_profile : StorageProfile → LakeCatResult (Unit {0})
  validate_profile profile = do
    validate_profile_id profile.profile_id
    validate_location_prefix_path profile.location_prefix
    validate_location_prefix_provider profile.location_prefix profile.provider
    validate_issuance_mode_provider profile.issuance_mode profile.provider profile.location_prefix
    if_some profile.secret_ref validate_secret_ref
    validate_secret_ref_issuance_mode profile.secret_ref profile.issuance_mode
    reject (lacks_secret profile.issuance_mode profile.secret_ref)
        (invalid_argument "short-lived-secret-ref issuance mode requires a secret reference" [])
    validate_storage_profile_public_config profile.public_config

  unfoldable pub validate_storage_profile_map_scope :
      StorageProfile → Text → LakeCatResult (Unit {0})
  validate_storage_profile_map_scope profile profile_key = do
    validate_profile profile
    ensure_that
        (Text-discrete (storage_profile_key profile.warehouse profile.profile_id) profile_key)
        (internal "storage profile row scope does not match profile identity" [])
