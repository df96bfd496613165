-- ===== src/Memory/Policies/Publish.antt =====
-- `publish_model` (crates/lakecat-store/src/memory.rs): what a publication appends.
use mathlib.Core.Option.{get_or}
use lakecat.Prelude.{
  Text, ℕ, ◌+◌, ◌%◌, ◌^◌, ◌==◌, [], ◌∷◌, ◌++◌, Option, none, some, true, false, ◌≡◌, ◌≢◌, refl, ap,
  sym, ◌∙◌, arith, ◌⊎◌, inl, inr, Bool-cases,
}
use lakecat.Prelude.Map.{text_key, insert, get-insert_self, get-insert_ne}
use lakecat.Prelude.Results.{
  LakeCatResult, LakeCatError, ok, err, >>-eq-ok, reject-eq-ok, ok-injective,
}
use lakecat.Records.Types.{DateTime, ModelPublication, CatalogAuditEvent, OutboxEvent}
use lakecat.Records.External.{External}
use lakecat.Records.Policies.{validate_publication, model_publication_key}
use lakecat.Memory.State.{MemoryState}
use lakecat.Memory.Policies.{
  current_version, same_version, publications_of, with_entry, version_mismatch, published_state,
  append_publication, prepare_publication, publish_model,
}

same_version-eq : (a b : Option ℕ) → same_version a b ≡ true → a ≡ b
unfolding same_version
same_version-eq none none h = refl
same_version-eq none (some b) h = cc
same_version-eq (some a) none h = cc
same_version-eq (some a) (some b) h = ap some (ground arith)

module _ ⦃ext : External⦄ where
  -- The two ends of the compare-and-swap, for the publications it leaves.
  pub append_publication-cases :
      (key : Text) (p : ModelPublication) (expected : Option ℕ)
      (events : CatalogAuditEvent × OutboxEvent) (s : MemoryState)
      → (append_publication key p expected events s ≡ (err version_mismatch, with_entry key s))
        ⊎ ((s' : MemoryState) × (append_publication key p expected events s ≡ (ok p, s'))
            × (s'.model_publications
                ≡ insert key (publications_of key s ++ p ∷ []) s.model_publications)
            × (current_version (publications_of key s) ≡ expected)
            × (p.version ≡ (get_or (current_version (publications_of key s)) 0 + 1) % 2 ^ 64)
            × ((s'.tables ≡ s.tables)
                × (s'.soft_deletes ≡ s.soft_deletes)
                × (s'.views ≡ s.views)
                × (s'.policy_bindings ≡ s.policy_bindings)))
  unfolding append_publication
  append_publication-cases key p expected events s =
      let current = current_version (publications_of key s) in
      elim (Bool-cases (same_version current expected)) [
        | inr differs ↦ inl (rw (differs, append_publication) refl)
        | inl same ↦ elim (Bool-cases (p.version == (get_or current 0 + 1) % 2 ^ 64)) [
          | inr skips ↦ inl (rw (same, skips, append_publication) refl)
          | inl follows ↦ inr (
            published_state key p events s,
            rw (same, follows, append_publication) refl,
            refl,
            same_version-eq current expected same,
            ground arith,
            (refl, refl, refl, refl),
          )
        ]
      ]

  pub publish_model-cases :
      (now : DateTime) (p : ModelPublication) (expected : Option ℕ) (s : MemoryState)
      → ((e : LakeCatError) × (publish_model now p expected s ≡ (err e, s)))
        ⊎ ((events : CatalogAuditEvent × OutboxEvent) × (prepare_publication now p s ≡ ok events)
            × (publish_model now p expected s
                ≡ append_publication
                    (model_publication_key p.warehouse p.model_id)
                    p
                    expected
                    events
                    s))
  unfolding publish_model
  publish_model-cases now p expected s = split (prepare_publication now p s) refl
    where
      split :
          (r : LakeCatResult (CatalogAuditEvent × OutboxEvent))
          → prepare_publication now p s ≡ r
          → ((e : LakeCatError) × (publish_model now p expected s ≡ (err e, s)))
            ⊎ ((events : CatalogAuditEvent × OutboxEvent) × (prepare_publication now p s
                  ≡ ok events)
                × (publish_model now p expected s
                    ≡ append_publication
                        (model_publication_key p.warehouse p.model_id)
                        p
                        expected
                        events
                        s))
      split (ok events) prepared = inr (events, prepared, rw (prepared, publish_model) refl)
      split (err e) prepared = inl (e, rw (prepared, publish_model) refl)

  pub prepared-positive :
      (now : DateTime) (p : ModelPublication) (s : MemoryState)
      (events : CatalogAuditEvent × OutboxEvent)
      → prepare_publication now p s ≡ ok events
      → (p.version == 0) ≡ false
  unfolding prepare_publication validate_publication
  prepared-positive now p s events h =
      reject-eq-ok _ _ (>>-eq-ok _ _ (>>-eq-ok _ _ (>>-eq-ok _ _ h).0).1).0

module _ ⦃ext : External⦄ (now : DateTime) (p : ModelPublication) (expected : Option ℕ)
    (s : MemoryState) where
  -- A publication that succeeds answers with what it was given, expects the version that the model
  -- stands at, comes next after the publications so far, and leaves every other model as it is.
  pub publish_model-appends :
      (r : ModelPublication) (s' : MemoryState)
      → publish_model now p expected s ≡ (ok r, s')
      → (r ≡ p)
        × (current_version (publications_of (model_publication_key p.warehouse p.model_id) s)
            ≡ expected)
        × (publications_of (model_publication_key p.warehouse p.model_id) s'
            ≡ publications_of (model_publication_key p.warehouse p.model_id) s ++ p ∷ [])
        × ((k : Text)
            → model_publication_key p.warehouse p.model_id ≢ k
            → publications_of k s' ≡ publications_of k s)
  publish_model-appends r s' h = elim (publish_model-cases now p expected s) [
    | inl refused ↦ cc (sym refused.1 ∙ h)
    | inr prepared ↦
        let key = model_publication_key p.warehouse p.model_id in
        elim (append_publication-cases key p expected prepared.0 s) [
          | inl mismatch ↦ cc (sym mismatch ∙ sym prepared.2 ∙ h)
          | inr appended ↦
              let same = sym appended.1 ∙ (sym prepared.2 ∙ h) in
              let state : s' ≡ appended.0 = sym (ap (λ x. x.1) same) in
              (
                ok-injective (sym (ap (λ x. x.0) same)),
                appended.3,
                rw
                    (
                      state,
                      appended.2,
                      get-insert_self key (publications_of key s ++ p ∷ []) s.model_publications,
                    )
                    refl,
                λ k ne.
                    rw
                      (
                        state,
                        appended.2,
                        get-insert_ne key k (publications_of key s ++ p ∷ []) s.model_publications
                            ne,
                      )
                      refl,
              )
        ]
  ]

  -- A publication touches neither tables nor views nor policy bindings.
  pub publish_model-kept :
      ((publish_model now p expected s).1.tables ≡ s.tables)
      × ((publish_model now p expected s).1.soft_deletes ≡ s.soft_deletes)
      × ((publish_model now p expected s).1.views ≡ s.views)
      × ((publish_model now p expected s).1.policy_bindings ≡ s.policy_bindings)
  publish_model-kept = elim (publish_model-cases now p expected s) [
    | inl refused ↦ rw refused.1 (refl, refl, refl, refl)
    | inr prepared ↦
        elim (append_publication-cases (model_publication_key p.warehouse p.model_id) p expected
          prepared.0 s) [
            | inl mismatch ↦ rw (prepared.2, mismatch) (refl, refl, refl, refl)
            | inr appended ↦ rw (prepared.2, appended.1) appended.5
          ]
  ]
