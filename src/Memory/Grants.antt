-- ===== src/Memory/Grants.antt =====
-- The governed scan grants of crates/lakecat-store/src/memory.rs, and that a grant is saved once.
use lakecat.Prelude.{
  Text, if◌then◌else◌, true, Option, none, some, [], ◌≡◌, refl, sym, subst, inl, inr, Bool-cases,
  Option-cases,
}
use lakecat.Prelude.Map.{
  text_key, get, insert, get-insert_self, Entries, Entries-insert, Entries-get,
}
use lakecat.Prelude.Results.{
  err-ne-ok, LakeCatResult, ok, err, not_found, conflict, ok_or, ◌>>=◌, ◌>>◌, >>-eq-ok, ok-pair,
}
use lakecat.Records.External.{External}
use lakecat.Governed.Proofs.{validate_integrity, validate_proof_structure}
use lakecat.Governed.Grants.{
  GovernedScanGrant, has_same_stable_evidence, has_same_stable_evidence_refl,
  validate_governed_scan_grant_id, validate_grant,
}
use lakecat.Memory.State.{MemoryState, Update, Query}

module _ ⦃ext : External⦄ where
  -- the branch for a grant that is there, and the one for a new grant
  unfoldable pub saved :
      GovernedScanGrant
      → MemoryState
      → Option GovernedScanGrant
      → LakeCatResult (GovernedScanGrant × MemoryState)
  saved grant state (some existing) =
      if has_same_stable_evidence existing grant
      then ok (existing, state)
      else err (conflict "governed scan grant id was reused with different evidence" [])
  saved grant state none = ok (
    grant,
    record state {
      governed_scan_grants = insert grant.proof.grant_id grant state.governed_scan_grants;
    },
  )

  unfoldable pub save_governed_scan_grant : GovernedScanGrant → Update GovernedScanGrant
  save_governed_scan_grant grant state = do
    validate_grant grant
    saved grant state (get grant.proof.grant_id state.governed_scan_grants)

  unfoldable pub load_governed_scan_grant : Text → Query GovernedScanGrant
  load_governed_scan_grant grant_id state = do
    validate_governed_scan_grant_id grant_id
    grant ←
        ok_or (get grant_id state.governed_scan_grants) (not_found "governed scan grant" grant_id)
    validate_grant grant
    ok grant

  -- the grants of a state are valid
  abbrev pub AreValid : MemoryState → Type 0
  AreValid s = Entries (λ k g. validate_grant g ≡ ok tt) s.governed_scan_grants

  -- What is known of a save that succeeds.
  record Saved (g stored : GovernedScanGrant) (s' : MemoryState) : Type 0 where
    row : get g.proof.grant_id s'.governed_scan_grants ≡ some stored
    same : has_same_stable_evidence stored g ≡ true
    valid : validate_grant stored ≡ ok tt
    all_valid : AreValid s'

  grant_id-valid :
      (g : GovernedScanGrant)
      → validate_grant g ≡ ok tt
      → validate_governed_scan_grant_id g.proof.grant_id ≡ ok tt
  unfolding validate_grant validate_integrity validate_proof_structure
      validate_governed_scan_grant_id
  grant_id-valid g h =
      let texts = >>-eq-ok _ _ (>>-eq-ok _ _ (>>-eq-ok _ _ h).1).1 in
      let digests = >>-eq-ok _ _ (>>-eq-ok _ _ (>>-eq-ok _ _ texts.1).1).1 in
      let proof = >>-eq-ok _ _ (>>-eq-ok _ _ digests.1).1 in
      (>>-eq-ok _ _ (>>-eq-ok _ _ (>>-eq-ok _ _ proof.0).0).1).0

  saved-Saved :
      (g stored : GovernedScanGrant) (s s' : MemoryState)
      → validate_grant g ≡ ok tt
      → AreValid s
      → saved g s (get g.proof.grant_id s.governed_scan_grants) ≡ ok (stored, s')
      → Saved g stored s'
  unfolding saved
  saved-Saved g stored s s' valid inv h =
      elim (Option-cases (get g.proof.grant_id s.governed_scan_grants)) [
        | inl absent ↦
            let p = ok-pair (rw (absent, saved) at h) in
            subst (λ x. Saved g x s') (sym p.0) (subst (λ t. Saved g g t) (sym p.1) fresh)
        | inr found ↦ old found.0 found.1 (rw (found.1, saved) at h)
      ]
    where
      fresh :
          Saved g g
            (record s { governed_scan_grants = insert g.proof.grant_id g s.governed_scan_grants })
      fresh = record {
        row = get-insert_self g.proof.grant_id g s.governed_scan_grants;
        same = has_same_stable_evidence_refl g;
        valid = valid;
        all_valid =
            Entries-insert (λ k g. validate_grant g ≡ ok tt) g.proof.grant_id g
              s.governed_scan_grants valid inv;
      }

      kept :
          (existing : GovernedScanGrant)
          → get g.proof.grant_id s.governed_scan_grants ≡ some existing
          → has_same_stable_evidence existing g ≡ true
          → Saved g existing s
      kept existing found same = record {
        row = found;
        same = same;
        valid =
            Entries-get (λ k g. validate_grant g ≡ ok tt) g.proof.grant_id s.governed_scan_grants
              inv found;
        all_valid = inv;
      }

      old :
          (existing : GovernedScanGrant)
          → get g.proof.grant_id s.governed_scan_grants ≡ some existing
          → ◌≡◌ {A = LakeCatResult (GovernedScanGrant × MemoryState)}
              (if has_same_stable_evidence existing g
                then ok (existing, s)
                else err (conflict "governed scan grant id was reused with different evidence" []))
              (ok (stored, s'))
          → Saved g stored s'
      old existing found h = elim (Bool-cases (has_same_stable_evidence existing g)) [
        | inl same ↦
            let p = ok-pair (rw same at h) in
            subst (λ x. Saved g x s') (sym p.0)
              (subst (λ t. Saved g existing t) (sym p.1) (kept existing found same))
        | inr differs ↦ absurd (err-ne-ok (rw differs at h))
      ]

  -- From a state whose grants are valid, a grant that is saved is stored with the evidence that was
  -- given: it loads by its identifier, saving it again gives the stored one and changes nothing, and
  -- the grants of the new state are valid.
  pub save_governed_scan_grant-once :
      (g stored : GovernedScanGrant) (s s' : MemoryState)
      → AreValid s
      → save_governed_scan_grant g s ≡ ok (stored, s')
      → (has_same_stable_evidence stored g ≡ true)
        × (load_governed_scan_grant g.proof.grant_id s' ≡ ok stored)
        × (save_governed_scan_grant g s' ≡ ok (stored, s'))
        × AreValid s'
  unfolding save_governed_scan_grant load_governed_scan_grant saved ok_or ◌>>=◌ ◌>>◌
  save_governed_scan_grant-once g stored s s' inv h =
      let a = >>-eq-ok _ _ h in
      let known = saved-Saved g stored s s' a.0 inv a.1 in
      let row = known.row in
      (
        known.same,
        rw (grant_id-valid g a.0, row, known.valid) refl,
        rw (a.0, row, known.same) refl,
        known.all_valid,
      )
