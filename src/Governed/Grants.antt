-- ===== src/Governed/Grants.antt =====
-- The grants of crates/lakecat-store/src/governed_scan.rs, and the derived equality of proofs.
use lakecat.Prelude.{
  Text, Text-discrete, Texts-discrete, holds, ◌==◌, ℕ, Bool, true, ◌&&◌, Option, List, [], ◌≡◌,
  refl, arith,
}
use lakecat.Prelude.Results.{LakeCatResult, conflict, if_some, ensure_that, ◌>>◌}
use lakecat.Core.Names.{TableIdent-discrete}
use lakecat.Records.Types.{Principal, PrincipalKind, DateTime}
use lakecat.Records.External.{External}
use lakecat.Records.Metadata.{ℤ-discrete, option_discrete}
use lakecat.Records.Events.{same_principal, same_kind}
use lakecat.Governed.Checks.{
  validate_governed_sha256_digest, validate_governed_scan_text,
  validate_governed_scan_requested_projection,
}
use lakecat.Governed.Proofs.{GovernedScanProof, validate_integrity}

pub record GovernedScanGrant : Type 0 where
  pub proof : GovernedScanProof
  pub principal : Principal
  pub requested_projection : List Text
  pub policy_engine : Text
  pub policy_hash_digest : Option Text
  pub authorization_context_digest : Text
  pub read_restriction_digest : Text
  pub table_metadata_digest : Text
  pub issued_at : DateTime

-- The derived `PartialEq`.
unfoldable pub same_proof : GovernedScanProof → GovernedScanProof → Bool
same_proof a b =
    holds (Text-discrete a.version b.version)
    && holds (Text-discrete a.grant_id b.grant_id)
    && holds (Text-discrete a.catalog_identity b.catalog_identity)
    && holds (TableIdent-discrete a.table b.table)
    && a.table_version == b.table_version
    && holds (ℤ-discrete a.snapshot_id b.snapshot_id)
    && holds (Text-discrete a.plan_task_digest b.plan_task_digest)
    && holds (Text-discrete a.principal_subject b.principal_subject)
    && holds (Text-discrete a.purpose b.purpose)
    && holds (Texts-discrete a.effective_projection b.effective_projection)
    && holds (Text-discrete a.identity_context_digest b.identity_context_digest)
    && holds (Text-discrete a.authorization_receipt_digest b.authorization_receipt_digest)
    && holds (Text-discrete a.policy_decision_digest b.policy_decision_digest)

unfoldable pub has_same_stable_evidence : GovernedScanGrant → GovernedScanGrant → Bool
has_same_stable_evidence self other =
    same_proof self.proof other.proof
    && same_principal self.principal other.principal
    && holds (Texts-discrete self.requested_projection other.requested_projection)
    && holds (Text-discrete self.policy_engine other.policy_engine)
    && holds (option_discrete Text-discrete self.policy_hash_digest other.policy_hash_digest)
    && holds (Text-discrete self.authorization_context_digest other.authorization_context_digest)
    && holds (Text-discrete self.read_restriction_digest other.read_restriction_digest)
    && holds (Text-discrete self.table_metadata_digest other.table_metadata_digest)

unfoldable pub validate_governed_scan_grant_id : Text → LakeCatResult (Unit {0})
validate_governed_scan_grant_id value = validate_governed_sha256_digest value "grant id"

module _ ⦃ext : External⦄ where
  -- `GovernedScanGrant::validate`
  unfoldable pub validate_grant : GovernedScanGrant → LakeCatResult (Unit {0})
  validate_grant grant = do
    validate_governed_scan_text grant.principal.subject
    validate_governed_scan_text grant.policy_engine
    validate_governed_scan_requested_projection grant.requested_projection
    validate_governed_sha256_digest grant.authorization_context_digest "authorization context"
    validate_governed_sha256_digest grant.read_restriction_digest "read restriction"
    validate_governed_sha256_digest grant.table_metadata_digest "table metadata"
    if_some grant.policy_hash_digest (λ digest. validate_governed_sha256_digest digest "policy")
    validate_integrity grant.proof
    ensure_that (Text-discrete grant.principal.subject grant.proof.principal_subject)
        (conflict "governed scan grant principal does not match its proof" [])

holds_refl : {A : Type 0} {x : A} (d : Dec (x ≡ x)) → holds d ≡ true
holds_refl (yes p) = refl
holds_refl (no n) = absurd (n refl)

same_kind_refl : (k : PrincipalKind) → same_kind k k ≡ true
unfolding same_kind
same_kind_refl PrincipalKind.anonymous = refl
same_kind_refl PrincipalKind.human = refl
same_kind_refl PrincipalKind.service = refl
same_kind_refl PrincipalKind.agent = refl

==_refl : (n : ℕ) → n == n ≡ true
==_refl n = ground arith

same_proof_refl : (p : GovernedScanProof) → same_proof p p ≡ true
unfolding same_proof
same_proof_refl p = simp (
  holds_refl (Text-discrete p.version p.version),
  holds_refl (Text-discrete p.grant_id p.grant_id),
  holds_refl (Text-discrete p.catalog_identity p.catalog_identity),
  holds_refl (TableIdent-discrete p.table p.table),
  ==_refl p.table_version,
  holds_refl (ℤ-discrete p.snapshot_id p.snapshot_id),
  holds_refl (Text-discrete p.plan_task_digest p.plan_task_digest),
  holds_refl (Text-discrete p.principal_subject p.principal_subject),
  holds_refl (Text-discrete p.purpose p.purpose),
  holds_refl (Texts-discrete p.effective_projection p.effective_projection),
  holds_refl (Text-discrete p.identity_context_digest p.identity_context_digest),
  holds_refl (Text-discrete p.authorization_receipt_digest p.authorization_receipt_digest),
  holds_refl (Text-discrete p.policy_decision_digest p.policy_decision_digest),
)

pub has_same_stable_evidence_refl : (g : GovernedScanGrant) → has_same_stable_evidence g g ≡ true
unfolding has_same_stable_evidence same_principal
has_same_stable_evidence_refl g = simp (
  same_proof_refl g.proof,
  holds_refl (Text-discrete g.principal.subject g.principal.subject),
  same_kind_refl g.principal.kind,
  holds_refl (Texts-discrete g.requested_projection g.requested_projection),
  holds_refl (Text-discrete g.policy_engine g.policy_engine),
  holds_refl (option_discrete Text-discrete g.policy_hash_digest g.policy_hash_digest),
  holds_refl (Text-discrete g.authorization_context_digest g.authorization_context_digest),
  holds_refl (Text-discrete g.read_restriction_digest g.read_restriction_digest),
  holds_refl (Text-discrete g.table_metadata_digest g.table_metadata_digest),
)
