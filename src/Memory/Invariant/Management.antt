-- ===== src/Memory/Invariant/Management.antt =====
-- The operations on servers, projects, warehouses, storage profiles and governed scan grants keep the
-- invariant (crates/lakecat-store/src/memory.rs): they write to none of its rows.
use lakecat.Prelude.{◌≡◌, Option, none, some, inl, inr, Bool-cases}
use lakecat.Prelude.Map.{text_key}
use lakecat.Prelude.Results.{ok, >>=-eq-ok, >>-eq-ok, ok-pair, err-ne-ok}
use lakecat.Records.External.{External}
use lakecat.Records.Profiles.{StorageProfile}
use lakecat.Records.Management.{ServerRecord, ProjectRecord, WarehouseRecord}
use lakecat.Governed.Grants.{GovernedScanGrant, has_same_stable_evidence}
use lakecat.Memory.State.{MemoryState}
use lakecat.Memory.Management.{upsert_server, upsert_project, upsert_warehouse}
use lakecat.Memory.Profiles.{upsert_storage_profile}
use lakecat.Memory.Grants.{saved, save_governed_scan_grant}
use lakecat.Memory.Invariant.{Invariant}

module _ ⦃ext : External⦄ where
  pub upsert_server-Invariant :
      (r stored : ServerRecord) (s s' : MemoryState)
      → upsert_server r s ≡ ok (stored, s')
      → Invariant s
      → Invariant s'
  unfolding upsert_server
  upsert_server-Invariant r stored s s' h i = rw (ok-pair (>>-eq-ok _ _ (>>-eq-ok _ _ h).1).1).1 i

  pub upsert_project-Invariant :
      (r stored : ProjectRecord) (s s' : MemoryState)
      → upsert_project r s ≡ ok (stored, s')
      → Invariant s
      → Invariant s'
  unfolding upsert_project
  upsert_project-Invariant r stored s s' h i =
      rw (ok-pair (>>-eq-ok _ _ (>>-eq-ok _ _ (>>-eq-ok _ _ h).1).1).1).1 i

  pub upsert_warehouse-Invariant :
      (r stored : WarehouseRecord) (s s' : MemoryState)
      → upsert_warehouse r s ≡ ok (stored, s')
      → Invariant s
      → Invariant s'
  unfolding upsert_warehouse
  upsert_warehouse-Invariant r stored s s' h i =
      rw (ok-pair (>>-eq-ok _ _ (>>-eq-ok _ _ (>>=-eq-ok _ _ (>>-eq-ok _ _ h).1).2).1).1).1 i

  pub upsert_storage_profile-Invariant :
      (r stored : StorageProfile) (s s' : MemoryState)
      → upsert_storage_profile r s ≡ ok (stored, s')
      → Invariant s
      → Invariant s'
  unfolding upsert_storage_profile
  upsert_storage_profile-Invariant r stored s s' h i =
      rw (ok-pair (>>-eq-ok _ _ (>>-eq-ok _ _ h).1).1).1 i

  saved-Invariant :
      (g stored : GovernedScanGrant) (s s' : MemoryState) (row : Option GovernedScanGrant)
      → saved g s row ≡ ok (stored, s')
      → Invariant s
      → Invariant s'
  unfolding saved
  saved-Invariant g stored s s' none h i = rw (ok-pair h).1 i
  saved-Invariant g stored s s' (some existing) h i =
      elim (Bool-cases (has_same_stable_evidence existing g)) [
        | inl same ↦ rw (ok-pair (rw same at h)).1 i
        | inr differs ↦ absurd (err-ne-ok (rw differs at h))
      ]

  pub save_governed_scan_grant-Invariant :
      (g stored : GovernedScanGrant) (s s' : MemoryState)
      → save_governed_scan_grant g s ≡ ok (stored, s')
      → Invariant s
      → Invariant s'
  unfolding save_governed_scan_grant
  save_governed_scan_grant-Invariant g stored s s' h i =
      saved-Invariant g stored s s' _ (>>-eq-ok _ _ h).1 i
