-- ===== src/Tests/Profiles.antt =====
-- Storage profiles, the rows of a small deployment and a governed scan grant, and their theorems there.
use lakecat.Prelude.{
  Text, text, all, ◌<◌, ◌≡◌, ◌⊎◌, refl, true, Option, none, some, [], ◌∷◌, ◌++◌, keep, All, arith,
  ℕ,
}
use lakecat.Prelude.Json.{pos}
use lakecat.Prelude.Results.{ok, err}
use lakecat.Records.Types.{AuditStamp}
use lakecat.Records.Profiles.{StorageProfile, file, local_file_no_secret}
use lakecat.Records.Profiles.Checks.{validate_profile}
use lakecat.Records.Profiles.Match.{prefix_len, is_candidate, ambiguous, storage_profile_match}
use lakecat.Records.Profiles.Longest.{
  Chosen, storage_profile_match-longest, storage_profile_match-order,
}
use lakecat.Records.Profiles.Secrets.{Guarded, validate_profile-Guarded}
use lakecat.Records.Management.{ServerRecord, ProjectRecord, WarehouseRecord}
use lakecat.Memory.State.{MemoryState, empty}
use lakecat.Memory.Management.{upsert_server, upsert_project, upsert_warehouse}
use lakecat.Memory.Management.Links.{IsLinked}
use lakecat.Memory.Management.Runs.{Managed, Managed-IsLinked}
use lakecat.Memory.Grants.{
  save_governed_scan_grant, load_governed_scan_grant, AreValid, save_governed_scan_grant-once,
}
use lakecat.Governed.Checks.{is_lower_hexdigit, validate_governed_scan_projection}
use lakecat.Governed.Proofs.{
  GovernedScanProof, GovernedScanProofEvidence, governed_scan_proof_version, issue,
  validate_integrity,
}
use lakecat.Governed.Issued.{
  evidence_of, Bounded, issue-validate_integrity, validate_governed_scan_projection-Bounded,
}
use lakecat.Governed.Grants.{GovernedScanGrant, has_same_stable_evidence}
use lakecat.Tests.Model.{model}
use lakecat.Tests.Rules.{rules}
use lakecat.Tests.Sample.{sample, documented, owner, orders, orders_table, after, repeat}

abbrev local : Text → Text → StorageProfile
local profile_id location_prefix = record {
  profile_id = profile_id;
  warehouse = text "w";
  location_prefix = location_prefix;
  provider = file;
  issuance_mode = local_file_no_secret;
  secret_ref = none;
  public_config = [];
}

abbrev broad : StorageProfile
broad = local (text "a") (text "file:///w")

abbrev twin : StorageProfile
twin = local (text "b") (text "file:///w")

abbrev narrow : StorageProfile
narrow = local (text "c") (text "file:///w/orders")

chosen : storage_profile_match (broad ∷ narrow ∷ []) orders_table ≡ ok (some narrow)
unfolding model rules
chosen = refl

storage_profile_match-longest_example :
    Chosen (some narrow) (keep (is_candidate orders_table) (broad ∷ narrow ∷ []))
    ⊎ ((◌≡◌ {A = Option StorageProfile} (some narrow) none)
        × (keep (is_candidate orders_table) (broad ∷ narrow ∷ []) ≡ []))
storage_profile_match-longest_example =
    storage_profile_match-longest orders_table (broad ∷ narrow ∷ []) (some narrow) chosen

candidates : All (λ p. is_candidate orders_table p ≡ true) (broad ∷ twin ∷ narrow ∷ [])
unfolding model rules
candidates = (refl, (refl, (refl, tt)))

same_len : prefix_len broad ≡ prefix_len twin
same_len = refl

longer : prefix_len twin < prefix_len narrow
unfolding model rules
longer = omega arith

storage_profile_match-order_example :
    (storage_profile_match (broad ∷ twin ∷ narrow ∷ []) orders_table
      ≡ err (ambiguous orders_table broad twin))
    × (storage_profile_match (narrow ∷ broad ∷ twin ∷ []) orders_table ≡ ok (some narrow))
storage_profile_match-order_example =
    storage_profile_match-order orders_table broad twin narrow [] candidates same_len longer

broad_valid : validate_profile broad ≡ ok tt
unfolding model rules
broad_valid = refl

validate_profile-Guarded_example : Guarded broad
validate_profile-Guarded_example = validate_profile-Guarded broad broad_valid

abbrev stamp : AuditStamp
stamp = record { principal = owner; at = 1 }

abbrev server : ServerRecord
server = record {
  server_id = text "main";
  display_name = none;
  endpoint_url = none;
  properties = [];
  created = stamp;
  updated_at = 1;
}

abbrev shop : ProjectRecord
shop = record {
  project_id = text "shop";
  server_id = some (text "main");
  display_name = none;
  properties = [];
  created = stamp;
  updated_at = 1;
}

abbrev warehouse : WarehouseRecord
warehouse = record {
  warehouse = text "w";
  project_id = text "shop";
  storage_root = some (text "file:///w");
  properties = [];
  created = stamp;
  updated_at = 1;
}

abbrev with_server : MemoryState
with_server = after empty (upsert_server server empty)

abbrev with_project : MemoryState
with_project = after with_server (upsert_project shop with_server)

abbrev with_warehouse : MemoryState
with_warehouse = after with_project (upsert_warehouse warehouse with_project)

server_runs : upsert_server server empty ≡ ok (server, with_server)
unfolding model rules
server_runs = refl

project_runs : upsert_project shop with_server ≡ ok (shop, with_project)
unfolding model rules
project_runs = refl

warehouse_runs : upsert_warehouse warehouse with_project ≡ ok (warehouse, with_warehouse)
unfolding model rules
warehouse_runs = refl

managed : Managed with_warehouse
managed =
    Managed.warehouse_upserted warehouse warehouse
      (Managed.project_upserted shop shop
        (Managed.server_upserted server server Managed.start server_runs) project_runs)
      warehouse_runs

Managed-IsLinked_example : IsLinked with_warehouse
Managed-IsLinked_example = Managed-IsLinked managed

lower : (t : Text) → all is_lower_hexdigit (repeat 64 b'a') ≡ true
unfolding model rules
lower t = refl

abbrev digest_of : ℕ → Text
digest_of c = text "sha256:" ++ repeat 64 c

abbrev digest : Text
digest = digest_of b'a'

abbrev evidence : GovernedScanProofEvidence
evidence = record {
  catalog_identity = text "lakecat://w";
  table = orders;
  table_version = 1;
  snapshot_id = pos 7;
  plan_task_digest = digest;
  principal_subject = text "ann";
  purpose = text "audit";
  effective_projection = text "id" ∷ text "name" ∷ [];
  identity_context_digest = digest_of b'b';
  authorization_receipt_digest = digest_of b'c';
  policy_decision_digest = digest_of b'd';
}

abbrev proof : GovernedScanProof
proof = record {
  version = text "lakecat.governed-scan-proof.v2";
  grant_id = digest;
  catalog_identity = evidence.catalog_identity;
  table = evidence.table;
  table_version = evidence.table_version;
  snapshot_id = evidence.snapshot_id;
  plan_task_digest = evidence.plan_task_digest;
  principal_subject = evidence.principal_subject;
  purpose = evidence.purpose;
  effective_projection = evidence.effective_projection;
  identity_context_digest = evidence.identity_context_digest;
  authorization_receipt_digest = evidence.authorization_receipt_digest;
  policy_decision_digest = evidence.policy_decision_digest;
}

issued : issue evidence ≡ ok proof
unfolding model rules
issued = refl

issue-validate_integrity_example :
    (proof.version ≡ governed_scan_proof_version)
    × (evidence_of proof ≡ evidence)
    × (validate_integrity proof ≡ ok tt)
issue-validate_integrity_example = issue-validate_integrity documented lower evidence proof issued

projection_passes : validate_governed_scan_projection evidence.effective_projection ≡ ok tt
unfolding model rules
projection_passes = refl

validate_governed_scan_projection-Bounded_example : Bounded evidence.effective_projection
validate_governed_scan_projection-Bounded_example =
    validate_governed_scan_projection-Bounded evidence.effective_projection projection_passes

abbrev grant : GovernedScanGrant
grant = record {
  proof = proof;
  principal = owner;
  requested_projection = [];
  policy_engine = text "local";
  policy_hash_digest = none;
  authorization_context_digest = digest;
  read_restriction_digest = digest;
  table_metadata_digest = digest;
  issued_at = 4;
}

abbrev with_grant : MemoryState
with_grant = after empty (save_governed_scan_grant grant empty)

grant_runs : save_governed_scan_grant grant empty ≡ ok (grant, with_grant)
unfolding model rules
grant_runs = refl

save_governed_scan_grant-once_example :
    (has_same_stable_evidence grant grant ≡ true)
    × (load_governed_scan_grant grant.proof.grant_id with_grant ≡ ok grant)
    × (save_governed_scan_grant grant with_grant ≡ ok (grant, with_grant))
    × AreValid with_grant
save_governed_scan_grant-once_example =
    save_governed_scan_grant-once grant grant empty with_grant tt grant_runs
