-- ===== src/Records/Profiles/Secrets.antt =====
-- What a storage profile that passes its checks may hold, and the names of providers and issuance
-- modes (crates/lakecat-store/src/records.rs).
use lakecat.Prelude.{
  Text, ◌≡◌, ◌≢◌, refl, true, false, Option, none, some, any, is_some, subst, trim,
  to_ascii_lowercase, Text-discrete, text,
}
use lakecat.Prelude.Results.{ok, ensure, >>-eq-ok, reject-eq-ok}
use lakecat.Records.External.{External}
use lakecat.Records.Profiles.{
  StorageProfile, StorageProvider, CredentialIssuanceMode, file, s3, gcs, azure, unknown,
  governed_read_required, local_file_no_secret, short_lived_secret_ref, provider_str,
  provider_from_str, mode_str, mode_from_str, same_provider,
}
use lakecat.Records.Profiles.Checks.{
  validate_profile, validate_issuance_mode_provider, validate_secret_ref_issuance_mode,
  lacks_secret,
}

-- What the checks leave of the ways to issue credentials.
pub record Guarded (profile : StorageProfile) : Type 0 where
  -- a secret is referred to exactly when short-lived credentials are issued from it
  pub has_reference :
      profile.issuance_mode ≡ short_lived_secret_ref → is_some profile.secret_ref ≡ true
  pub uses_reference :
      is_some profile.secret_ref ≡ true → profile.issuance_mode ≡ short_lived_secret_ref
  -- and only for the object stores; no secret is needed only for files
  pub is_object_store :
      profile.issuance_mode ≡ short_lived_secret_ref
      → (profile.provider ≢ file) × (profile.provider ≢ unknown)
  pub is_local_file : profile.issuance_mode ≡ local_file_no_secret → profile.provider ≡ file

module _ ⦃ext : External⦄ where
  lacks_secret-reference :
      (mode : CredentialIssuanceMode) (secret : Option Text)
      → lacks_secret mode secret ≡ false
      → mode ≡ short_lived_secret_ref
      → is_some secret ≡ true
  unfolding lacks_secret
  lacks_secret-reference mode (some t) h e = refl
  lacks_secret-reference governed_read_required none h e = cc
  lacks_secret-reference local_file_no_secret none h e = cc
  lacks_secret-reference short_lived_secret_ref none h e = cc

  validate_secret_ref_issuance_mode-uses :
      (secret : Option Text) (mode : CredentialIssuanceMode)
      → validate_secret_ref_issuance_mode secret mode ≡ ok tt
      → is_some secret ≡ true
      → mode ≡ short_lived_secret_ref
  unfolding validate_secret_ref_issuance_mode
  validate_secret_ref_issuance_mode-uses none mode h e = cc
  validate_secret_ref_issuance_mode-uses (some t) governed_read_required h e = cc
  validate_secret_ref_issuance_mode-uses (some t) local_file_no_secret h e = cc
  validate_secret_ref_issuance_mode-uses (some t) short_lived_secret_ref h e = refl

  object_store :
      (provider : StorageProvider) (t : Text)
      → validate_issuance_mode_provider short_lived_secret_ref provider t ≡ ok tt
      → (provider ≢ file) × (provider ≢ unknown)
  unfolding validate_issuance_mode_provider ensure same_provider
  object_store file t h = cc
  object_store s3 t h = ((λ e. cc), λ e. cc)
  object_store gcs t h = ((λ e. cc), λ e. cc)
  object_store azure t h = ((λ e. cc), λ e. cc)
  object_store unknown t h = cc

  local_file :
      (provider : StorageProvider) (t : Text)
      → validate_issuance_mode_provider local_file_no_secret provider t ≡ ok tt
      → provider ≡ file
  unfolding validate_issuance_mode_provider ensure same_provider
  local_file file t h = refl
  local_file s3 t h = cc
  local_file gcs t h = cc
  local_file azure t h = cc
  local_file unknown t h = cc

  -- A profile that passes its checks refers to a secret exactly when it issues short-lived credentials,
  -- and then it is for an object store; one that needs no secret is for local files.
  pub validate_profile-Guarded :
      (profile : StorageProfile) → validate_profile profile ≡ ok tt → Guarded profile
  unfolding validate_profile
  validate_profile-Guarded profile h =
      let mode = >>-eq-ok _ _ (>>-eq-ok _ _ (>>-eq-ok _ _ (>>-eq-ok _ _ h).1).1).1 in
      let uses = >>-eq-ok _ _ (>>-eq-ok _ _ mode.1).1 in
      let needs = >>-eq-ok _ _ uses.1 in
      record {
        has_reference =
            lacks_secret-reference profile.issuance_mode profile.secret_ref
              (reject-eq-ok _ _ needs.0);
        uses_reference =
            validate_secret_ref_issuance_mode-uses profile.secret_ref profile.issuance_mode uses.0;
        is_object_store = λ e. object_store profile.provider profile.location_prefix (
            subst
              (λ m.
                validate_issuance_mode_provider m profile.provider profile.location_prefix ≡ ok tt)
              e mode.0);
        is_local_file = λ e. local_file profile.provider profile.location_prefix (
            subst
              (λ m.
                validate_issuance_mode_provider m profile.provider profile.location_prefix ≡ ok tt)
              e mode.0);
      }

-- The names of providers and issuance modes are read back as what they name.
pub provider_from_str-provider_str :
    (provider : StorageProvider) → provider_from_str (provider_str provider) ≡ ok provider
unfolding provider_from_str provider_str trim to_ascii_lowercase any Text-discrete text
provider_from_str-provider_str file = refl
provider_from_str-provider_str s3 = refl
provider_from_str-provider_str gcs = refl
provider_from_str-provider_str azure = refl
provider_from_str-provider_str unknown = refl

pub mode_from_str-mode_str :
    (mode : CredentialIssuanceMode) → mode_from_str (mode_str mode) ≡ ok mode
unfolding mode_from_str mode_str trim to_ascii_lowercase any Text-discrete text
mode_from_str-mode_str governed_read_required = refl
mode_from_str-mode_str local_file_no_secret = refl
mode_from_str-mode_str short_lived_secret_ref = refl
