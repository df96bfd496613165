-- ===== src/Records/Profiles.antt =====
-- Storage profiles: `StorageProfile`, `StorageProvider` and `CredentialIssuanceMode` of
-- crates/lakecat-store/src/records.rs, and their checks in helpers.rs.
pub mod Checks
pub mod Match
pub mod Longest
pub mod Secrets
use lakecat.Prelude.{
  Text, Text-discrete, text, trim, to_ascii_lowercase, starts_with, any, holds, if◌then◌else◌, Bool,
  true, false, ◌||◌, Option, List, [], ◌∷◌, ◌++◌, String,
}
use lakecat.Prelude.Map.{Map}
use lakecat.Prelude.Results.{LakeCatResult, ok, err, invalid_argument}
use lakecat.Core.Names.{WarehouseName}
use lakecat.Core.Parse.{is_one_of}

pub data StorageProvider : Type 0 where
  file s3 gcs azure unknown : StorageProvider

pub data CredentialIssuanceMode : Type 0 where
  governed_read_required local_file_no_secret short_lived_secret_ref : CredentialIssuanceMode

pub record StorageProfile : Type 0 where
  pub profile_id : Text
  pub warehouse : WarehouseName
  pub location_prefix : Text
  pub provider : StorageProvider
  pub issuance_mode : CredentialIssuanceMode
  pub secret_ref : Option Text
  pub public_config : Map Text Text

-- `StorageProvider::from_location`
unfoldable pub from_location : Text → StorageProvider
from_location location =
    if starts_with location (text "file://")
    then file
    else if starts_with location (text "s3://") || starts_with location (text "s3a://")
    then s3
    else if starts_with location (text "gs://")
    then gcs
    else if starts_with location (text "az://")
        || starts_with location (text "abfs://")
        || starts_with location (text "abfss://")
    then azure
    else unknown

-- `StorageProvider::as_str`
unfoldable pub provider_str : StorageProvider → Text
provider_str file = text "file"
provider_str s3 = text "s3"
provider_str gcs = text "gcs"
provider_str azure = text "azure"
provider_str unknown = text "unknown"

-- `StorageProvider::from_str`
unfoldable pub provider_from_str : Text → LakeCatResult StorageProvider
provider_from_str given =
    let value = to_ascii_lowercase (trim given) in
    if is_one_of value ("file" ∷ "local-file" ∷ [])
    then ok file
    else if is_one_of value ("s3" ∷ "s3a" ∷ [])
    then ok s3
    else if is_one_of value ("gcs" ∷ "gs" ∷ [])
    then ok gcs
    else if is_one_of value ("azure" ∷ "az" ∷ "abfs" ∷ "abfss" ∷ [])
    then ok azure
    else if is_one_of value ("unknown" ∷ [])
    then ok unknown
    else err (invalid_argument "unknown storage provider: {other}" (value ∷ []))

-- `CredentialIssuanceMode::as_str`
unfoldable pub mode_str : CredentialIssuanceMode → Text
mode_str governed_read_required = text "governed-read-required"
mode_str local_file_no_secret = text "local-file-no-secret"
mode_str short_lived_secret_ref = text "short-lived-secret-ref"

-- `CredentialIssuanceMode::from_str`
unfoldable pub mode_from_str : Text → LakeCatResult CredentialIssuanceMode
mode_from_str given =
    let value = to_ascii_lowercase (trim given) in
    if is_one_of value ("governed-read-required" ∷ "governed" ∷ [])
    then ok governed_read_required
    else if is_one_of value ("local-file-no-secret" ∷ "no-secret" ∷ [])
    then ok local_file_no_secret
    else if is_one_of value ("short-lived-secret-ref" ∷ "secret-ref" ∷ "short-lived" ∷ [])
    then ok short_lived_secret_ref
    else err (invalid_argument "unknown credential issuance mode: {other}" (value ∷ []))

-- The derived `PartialEq`.
unfoldable pub same_provider : StorageProvider → StorageProvider → Bool
same_provider file file = true
same_provider s3 s3 = true
same_provider gcs gcs = true
same_provider azure azure = true
same_provider unknown unknown = true
same_provider _ _ = false

unfoldable pub storage_profile_key : WarehouseName → Text → Text
storage_profile_key warehouse profile_id = warehouse ++ (b':' ∷ profile_id)
