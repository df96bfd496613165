-- ===== src/Governed/Issued.antt =====
-- An issued proof passes its integrity check, and the bounds of what the checks accept
-- (crates/lakecat-core/src/governed_scan.rs and governed_scan/validation.rs).
use lakecat.Prelude.{
  Text, text, text_len, all, length, ℕ, ◌+◌, ◌≤◌, ◌<◌, ◌≡◌, refl, sym, ap, true, some, List, [],
  ◌∷◌, ◌++◌, All, arith, subst,
}
use lakecat.Prelude.Json.{Json}
use lakecat.Prelude.Results.{
  ok, ensure, ensure_that, ◌>>=◌, ◌>>◌, >>=-eq-ok, >>-eq-ok, ok-injective, reject-eq-ok,
  ensure-eq-ok,
}
use lakecat.Records.External.{External, IsDocumented}
use lakecat.Prelude.Lists.{strip_prefix-append}
use lakecat.Governed.Checks.{
  is_lower_hexdigit, is_canonical_digest, validate_governed_sha256_digest, add_lengths,
  validate_governed_scan_text, validate_string_budget, validate_fields_of, validate_projection,
  validate_governed_scan_projection, max_governed_scan_text_bytes,
  max_governed_scan_projection_fields, max_governed_scan_projection_bytes,
}
use lakecat.Governed.Proofs.{
  GovernedScanProof, GovernedScanProofEvidence, governed_scan_proof_version, validate_evidence,
  validate_proof_structure, evidence_digest_fields, proof_digest_fields, content_hash_domain_json,
  domain_hash, proof_digest_from_evidence, proof_digest_from_proof, issue, validate_integrity,
}

-- The evidence that a proof holds.
abbrev pub evidence_of : GovernedScanProof → GovernedScanProofEvidence
evidence_of proof = record {
  catalog_identity = proof.catalog_identity;
  table = proof.table;
  table_version = proof.table_version;
  snapshot_id = proof.snapshot_id;
  plan_task_digest = proof.plan_task_digest;
  principal_subject = proof.principal_subject;
  purpose = proof.purpose;
  effective_projection = proof.effective_projection;
  identity_context_digest = proof.identity_context_digest;
  authorization_receipt_digest = proof.authorization_receipt_digest;
  policy_decision_digest = proof.policy_decision_digest;
}

module _ ⦃ext : External⦄ (doc : IsDocumented ext)
    (lower : (t : Text) → all is_lower_hexdigit (ext.sha256_hex t) ≡ true) where
  canonical : (t : Text) → is_canonical_digest (some (ext.sha256_hex t)) ≡ true
  unfolding is_canonical_digest
  canonical t = let long = doc.digest_len t in let hex = lower t in ground arith

  digest_passes :
      (t : Text)
      → validate_governed_sha256_digest (text "sha256:" ++ ext.sha256_hex t) "grant id" ≡ ok tt
  unfolding validate_governed_sha256_digest ensure
  digest_passes t = rw (strip_prefix-append (text "sha256:") (ext.sha256_hex t), canonical t) refl

  -- A domain hash is the digest of some text.
  domain_hash-passes :
      (domain : Text) (evidence : Json) {digest : Text}
      → domain_hash domain evidence ≡ ok digest
      → validate_governed_sha256_digest digest "grant id" ≡ ok tt
  unfolding domain_hash content_hash_domain_json
  domain_hash-passes domain evidence h =
      let a = >>=-eq-ok _ _ h in
      subst (λ d. validate_governed_sha256_digest d "grant id" ≡ ok tt) (ok-injective a.2)
        (digest_passes (domain ++ (0 ∷ a.0)))

  -- A proof of the current version that is named by the digest of what it holds.
  proof_passes :
      (proof : GovernedScanProof)
      → proof.version ≡ governed_scan_proof_version
      → validate_evidence (evidence_of proof) ≡ ok tt
      → proof_digest_from_evidence (evidence_of proof) ≡ ok proof.grant_id
      → validate_integrity proof ≡ ok tt
  unfolding validate_integrity validate_proof_structure validate_evidence proof_digest_from_proof
      proof_digest_from_evidence evidence_digest_fields proof_digest_fields ◌>>=◌ ◌>>◌ ensure_that
  proof_passes proof current valid digest =
      let named = domain_hash-passes _ _ digest in ground arith

  -- A proof that is issued from evidence has the version of the schema, holds the evidence field by
  -- field and passes the check of its integrity, if SHA-256 digests are printed in lower case.
  pub issue-validate_integrity :
      (evidence : GovernedScanProofEvidence) (proof : GovernedScanProof)
      → issue evidence ≡ ok proof
      → (proof.version ≡ governed_scan_proof_version)
        × (evidence_of proof ≡ evidence)
        × (validate_integrity proof ≡ ok tt)
  unfolding issue
  issue-validate_integrity evidence proof h =
      let a = >>-eq-ok _ _ h in
      let b = >>=-eq-ok _ _ a.1 in
      let same = ok-injective b.2 in
      (
        ap (λ (p : GovernedScanProof). p.version) (sym same),
        ap evidence_of (sym same),
        subst (λ p. validate_integrity p ≡ ok tt) same (proof_passes _ refl a.0 b.1),
      )

pub bytes : List Text → ℕ
bytes [] = 0
bytes (t ∷ ts) = text_len t + bytes ts

validate_governed_scan_text-short :
    (value : Text)
    → validate_governed_scan_text value ≡ ok tt
    → text_len value ≤ max_governed_scan_text_bytes
unfolding validate_governed_scan_text
validate_governed_scan_text-short value h = let e = reject-eq-ok _ _ h in ground arith

add_lengths-bytes :
    (total sum : ℕ) (values : List Text)
    → add_lengths total values ≡ ok sum
    → (sum ≡ total + bytes values)
      × All (λ value. text_len value ≤ max_governed_scan_text_bytes) values
unfolding add_lengths bytes
add_lengths-bytes total sum [] h = (let e = ok-injective h in omega arith, tt)
add_lengths-bytes total sum (value ∷ values) h =
    let a = >>-eq-ok _ _ h in
    let ih = add_lengths-bytes (total + text_len value) sum values (>>-eq-ok _ _ a.1).1 in
    (omega (arith, ih.0), (validate_governed_scan_text-short value a.0, ih.1))

-- The bounds of a projection that a proof may hold.
pub record Bounded (fields : List Text) : Type 0 where
  pub some_field : 0 < length fields
  pub few : length fields ≤ max_governed_scan_projection_fields
  pub short : All (λ field. text_len field ≤ max_governed_scan_text_bytes) fields
  pub small : bytes fields ≤ max_governed_scan_projection_bytes

-- A projection that passes the check of a proof has 1 to 256 fields, each of at most 4096 bytes of
-- UTF-8 and all of at most 65536.
pub validate_governed_scan_projection-Bounded :
    (fields : List Text) → validate_governed_scan_projection fields ≡ ok tt → Bounded fields
unfolding validate_governed_scan_projection validate_projection validate_fields_of
    validate_string_budget
validate_governed_scan_projection-Bounded [] h = cc (ensure-eq-ok _ _ h)
validate_governed_scan_projection-Bounded (field ∷ fields) h =
    let a = >>-eq-ok _ _ h in
    let b = >>-eq-ok _ _ a.1 in
    let c = >>=-eq-ok _ _ b.0 in
    let d = add_lengths-bytes 0 c.0 (field ∷ fields) c.1 in
    let few = reject-eq-ok _ _ a.0 in
    let small = reject-eq-ok _ _ c.2 in
    record { some_field = omega arith; few = ground arith; short = d.1; small = ground arith }
