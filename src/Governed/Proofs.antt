-- ===== src/Governed/Proofs.antt =====
-- The proofs of crates/lakecat-core/src/governed_scan.rs and their digests
-- (governed_scan/digest.rs, and `content_hash_domain_json` of lib.rs).
use lakecat.Prelude.{Text, Text-discrete, text, ℕ, List, [], ◌∷◌, ◌++◌, map}
use lakecat.Prelude.Json.{
  Json, Items, Fields, ℤ, null, bool, num, float, str, arr, obj, nil, cons, end, field, set_field,
  pos, object, array, is_negative,
}
use lakecat.Prelude.Results.{
  LakeCatResult, ok, invalid_argument, internal, conflict, reject, ensure_that, ok_or, ◌>>=◌, ◌>>◌,
}
use lakecat.Core.Names.{TableIdent}
use lakecat.Records.External.{External}
use lakecat.Governed.Checks.{
  validate_governed_sha256_digest, validate_governed_scan_text, validate_governed_scan_table,
  validate_governed_scan_projection,
}

abbrev pub governed_scan_proof_version : Text
governed_scan_proof_version = text "lakecat.governed-scan-proof.v2"

pub record GovernedScanProofEvidence : Type 0 where
  pub catalog_identity : Text
  pub table : TableIdent
  pub table_version : ℕ
  pub snapshot_id : ℤ
  pub plan_task_digest : Text
  pub principal_subject : Text
  pub purpose : Text
  pub effective_projection : List Text
  pub identity_context_digest : Text
  pub authorization_receipt_digest : Text
  pub policy_decision_digest : Text

-- The fields of `GovernedScanProofFields`, which a proof wraps.
pub record GovernedScanProof : Type 0 where
  pub version : Text
  pub grant_id : Text
  pub catalog_identity : Text
  pub table : TableIdent
  pub table_version : ℕ
  pub snapshot_id : ℤ
  pub plan_task_digest : Text
  pub principal_subject : Text
  pub purpose : Text
  pub effective_projection : List Text
  pub identity_context_digest : Text
  pub authorization_receipt_digest : Text
  pub policy_decision_digest : Text

-- `ProofFields` of governed_scan/validation.rs
pub record ProofFields : Type 0 where
  pub catalog_identity : Text
  pub table : TableIdent
  pub snapshot_id : ℤ
  pub plan_task_digest : Text
  pub principal_subject : Text
  pub purpose : Text
  pub effective_projection : List Text
  pub identity_context_digest : Text
  pub authorization_receipt_digest : Text
  pub policy_decision_digest : Text

-- `ProofDigestFields` of governed_scan/digest.rs
pub record ProofDigestFields : Type 0 where
  pub version : Text
  pub catalog_identity : Text
  pub table : TableIdent
  pub table_version : ℕ
  pub snapshot_id : ℤ
  pub plan_task_digest : Text
  pub principal_subject : Text
  pub purpose : Text
  pub effective_projection : List Text
  pub identity_context_digest : Text
  pub authorization_receipt_digest : Text
  pub policy_decision_digest : Text

-- `canonicalize_json`: the members of each object in the order of their keys
unfoldable mutual
  pub canonicalize_json : Json → Json
  canonicalize_json (arr xs) = arr (canonical_items xs)
  canonicalize_json (obj fs) = obj (canonical_fields fs)
  canonicalize_json null = null
  canonicalize_json (bool b) = bool b
  canonicalize_json (num z) = num z
  canonicalize_json (float f) = float f
  canonicalize_json (str t) = str t

  pub canonical_items : Items → Items
  canonical_items nil = nil
  canonical_items (cons x xs) = cons (canonicalize_json x) (canonical_items xs)

  pub canonical_fields : Fields → Fields
  canonical_fields end = end
  canonical_fields (field k v fs) = set_field k (canonicalize_json v) (canonical_fields fs)

unfoldable pub validate_fields : ProofFields → LakeCatResult (Unit {0})
validate_fields fields = do
  reject (is_negative fields.snapshot_id)
      (invalid_argument "governed scan proof snapshot identifier must not be negative" [])
  validate_governed_scan_text fields.catalog_identity
  validate_governed_scan_table fields.table
  validate_governed_scan_text fields.principal_subject
  validate_governed_scan_text fields.purpose
  validate_governed_scan_projection fields.effective_projection
  validate_governed_sha256_digest fields.plan_task_digest "plan task"
  validate_governed_sha256_digest fields.identity_context_digest "identity context"
  validate_governed_sha256_digest fields.authorization_receipt_digest "authorization receipt"
  validate_governed_sha256_digest fields.policy_decision_digest "policy decision"

unfoldable pub validate_evidence : GovernedScanProofEvidence → LakeCatResult (Unit {0})
validate_evidence evidence = validate_fields (record {
  catalog_identity = evidence.catalog_identity;
  table = evidence.table;
  snapshot_id = evidence.snapshot_id;
  plan_task_digest = evidence.plan_task_digest;
  principal_subject = evidence.principal_subject;
  purpose = evidence.purpose;
  effective_projection = evidence.effective_projection;
  identity_context_digest = evidence.identity_context_digest;
  authorization_receipt_digest = evidence.authorization_receipt_digest;
  policy_decision_digest = evidence.policy_decision_digest;
})

unfoldable pub validate_proof_structure : GovernedScanProof → LakeCatResult (Unit {0})
validate_proof_structure proof = do
  ensure_that (Text-discrete proof.version governed_scan_proof_version)
      (invalid_argument "unsupported governed scan proof version" [])
  validate_governed_sha256_digest proof.grant_id "grant id"
  validate_fields (record {
    catalog_identity = proof.catalog_identity;
    table = proof.table;
    snapshot_id = proof.snapshot_id;
    plan_task_digest = proof.plan_task_digest;
    principal_subject = proof.principal_subject;
    purpose = proof.purpose;
    effective_projection = proof.effective_projection;
    identity_context_digest = proof.identity_context_digest;
    authorization_receipt_digest = proof.authorization_receipt_digest;
    policy_decision_digest = proof.policy_decision_digest;
  })

-- `From<&GovernedScanProofEvidence>` and `From<&GovernedScanProof>` for `ProofDigestFields`
unfoldable pub evidence_digest_fields : GovernedScanProofEvidence → ProofDigestFields
evidence_digest_fields evidence = record {
  version = governed_scan_proof_version;
  catalog_identity = evidence.catalog_identity;
  table = evidence.table;
  table_version = evidence.table_version;
  snapshot_id = evidence.snapshot_id;
  plan_task_digest = evidence.plan_task_digest;
  principal_subject = evidence.principal_subject;
  purpose = evidence.purpose;
  effective_projection = evidence.effective_projection;
  identity_context_digest = evidence.identity_context_digest;
  authorization_receipt_digest = evidence.authorization_receipt_digest;
  policy_decision_digest = evidence.policy_decision_digest;
}

unfoldable pub proof_digest_fields : GovernedScanProof → ProofDigestFields
proof_digest_fields proof = record {
  version = governed_scan_proof_version;
  catalog_identity = proof.catalog_identity;
  table = proof.table;
  table_version = proof.table_version;
  snapshot_id = proof.snapshot_id;
  plan_task_digest = proof.plan_task_digest;
  principal_subject = proof.principal_subject;
  purpose = proof.purpose;
  effective_projection = proof.effective_projection;
  identity_context_digest = proof.identity_context_digest;
  authorization_receipt_digest = proof.authorization_receipt_digest;
  policy_decision_digest = proof.policy_decision_digest;
}

module _ ⦃ext : External⦄ where
  unfoldable pub content_hash_domain_json : Text → Json → LakeCatResult Text
  content_hash_domain_json domain value = do
    encoded ← ok_or (ext.to_writer value) (internal "failed to encode JSON: {err}" [])
    ok (text "sha256:" ++ ext.sha256_hex (domain ++ (0 ∷ encoded)))

  unfoldable pub domain_hash : Text → Json → LakeCatResult Text
  domain_hash domain evidence = content_hash_domain_json domain (canonicalize_json evidence)

  -- the derived `Serialize` of `ProofDigestFields`
  unfoldable pub digest_fields_value : ProofDigestFields → Json
  digest_fields_value fields = object (
      ("version", str fields.version)
      ∷ ("catalogIdentity", str fields.catalog_identity)
      ∷ ("table", ext.table_ident_value fields.table)
      ∷ ("tableVersion", num (pos fields.table_version))
      ∷ ("snapshotId", num fields.snapshot_id)
      ∷ ("planTaskDigest", str fields.plan_task_digest)
      ∷ ("principalSubject", str fields.principal_subject)
      ∷ ("purpose", str fields.purpose)
      ∷ ("effectiveProjection", array (map str fields.effective_projection))
      ∷ ("identityContextDigest", str fields.identity_context_digest)
      ∷ ("authorizationReceiptDigest", str fields.authorization_receipt_digest)
      ∷ ("policyDecisionDigest", str fields.policy_decision_digest)
      ∷ [])

  unfoldable pub proof_digest_from_evidence : GovernedScanProofEvidence → LakeCatResult Text
  proof_digest_from_evidence evidence =
      domain_hash (text "lakecat.governed-scan-proof.digest.v2")
        (digest_fields_value (evidence_digest_fields evidence))

  unfoldable pub proof_digest_from_proof : GovernedScanProof → LakeCatResult Text
  proof_digest_from_proof proof =
      domain_hash (text "lakecat.governed-scan-proof.digest.v2")
        (digest_fields_value (proof_digest_fields proof))

  -- `GovernedScanProof::issue`
  unfoldable pub issue : GovernedScanProofEvidence → LakeCatResult GovernedScanProof
  issue evidence = do
    validate_evidence evidence
    grant_id ← proof_digest_from_evidence evidence
    ok (record {
      version = governed_scan_proof_version;
      grant_id = grant_id;
      catalog_identity = evidence.catalog_identity;
      table = evidence.table;
      table_version = evidence.table_version;
      snapshot_id = evidence.snapshot_id;
      plan_task_digest = evidence.plan_task_digest;
      principal_subject = evidence.principal_subject;
      purpose = evidence.purpose;
      effective_projection = evidence.effective_projection;
      identity_context_digest = evidence.identity_context_digest;
      authorization_receipt_digest = evidence.authorization_receipt_digest;
      policy_decision_digest = evidence.policy_decision_digest;
    })

  -- `GovernedScanProof::validate_integrity`
  unfoldable pub validate_integrity : GovernedScanProof → LakeCatResult (Unit {0})
  validate_integrity proof = do
    validate_proof_structure proof
    digest ← proof_digest_from_proof proof
    ensure_that (Text-discrete digest proof.grant_id)
        (conflict "governed scan proof integrity validation failed" [])
