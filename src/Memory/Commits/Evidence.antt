-- ===== src/Memory/Commits/Evidence.antt =====
-- What a commit leaves in the history and in the outbox (crates/lakecat-store/src/memory.rs).
use lakecat.Prelude.{
  Text, text, Text-discrete, text_less, [], ◌∷◌, ◌++◌, ◌≡◌, refl, ap, sym, ◌∙◌, none, some, inl,
  inr,
}
use lakecat.Prelude.Results.{ok, >>=-eq-ok, ok-injective}
use lakecat.Prelude.Json
use lakecat.Prelude.Json.{Json, object}
use lakecat.Core.Names.{TableIdent, table_key}
use lakecat.Records.Types.{DateTime, TableRecord, TableCommit, TableCommitRecord, OutboxEvent}
use lakecat.Records.External.{External}
use lakecat.Records.Events.{get_str}
use lakecat.Records.Documented.{outbox_event_from_payload-typed}
use lakecat.Memory.State.{MemoryState}
use lakecat.Memory.Commits.{
  commit_table, find_commit_replay, commit_record, committed_state, commit_outbox_payload,
}
use lakecat.Memory.Commits.Cases.{commit_table-cases}
use lakecat.Memory.Commits.Swap.{Applied, apply_commit-Applied, Applied-sequence}

module _ ⦃ext : External⦄ where
  commit-event_type :
      (ident : TableIdent) (commit : TableCommit) (row : TableCommitRecord) (hash : Text)
      → get_str (commit_outbox_payload ident commit row hash) "event-type"
        ≡ some (text "table.commit")
  unfolding get_str commit_outbox_payload text Text-discrete Json.get object text_less
  commit-event_type ident commit row hash = refl

  commit_record-pointers :
      (ident : TableIdent) (commit : TableCommit) (hash : Text) (a b : TableRecord)
      (row : TableCommitRecord)
      → commit_record ident commit hash a b ≡ ok row
      → (row.table ≡ ident)
        × (row.previous_metadata_location ≡ a.metadata_location)
        × (row.new_metadata_location ≡ commit.new_metadata_location)
        × (row.principal ≡ commit.principal)
  unfolding commit_record
  commit_record-pointers ident commit hash a b row h =
      let same = sym (ok-injective ((>>=-eq-ok _ _ h).2)) in
      (
        ap (λ (r : TableCommitRecord). r.table) same,
        ap (λ (r : TableCommitRecord). r.previous_metadata_location) same,
        ap (λ (r : TableCommitRecord). r.new_metadata_location) same,
        ap (λ (r : TableCommitRecord). r.principal) same,
      )

module _ ⦃ext : External⦄ (now : DateTime) (ident : TableIdent) (commit : TableCommit)
    (s : MemoryState) (t : TableRecord) (s' : MemoryState) where
  -- One row of history, and one pending event.
  abbrev pub Evidenced : Type 0
  Evidenced =
      (row : TableCommitRecord) × (event : OutboxEvent) × (s'.commits
        ≡ s.commits ++ record { table_key = table_key ident; row = row } ∷ [])
      × (row.table ≡ ident)
      × (row.previous_metadata_location ≡ commit.expected_previous_metadata_location)
      × (row.new_metadata_location ≡ commit.new_metadata_location)
      × (row.principal ≡ commit.principal)
      × (row.sequence_number ≡ t.version)
      × (s'.outbox_events ≡ s.outbox_events ++ event ∷ [])
      × (event.event_type ≡ text "table.commit")
      × (event.created_at ≡ t.updated_at)
      × (event.delivered_at ≡ none)

  Applied-Evidenced : {hash : Text} → Applied now ident commit hash s t s' → Evidenced
  unfolding committed_state
  Applied-Evidenced {hash} a =
      let r = commit_record-pointers ident commit hash a.current _ a.row a.recorded in
      let e = outbox_event_from_payload-typed _ _ a.event a.evented in
      (
        a.row,
        a.event,
        ap (λ (x : MemoryState). x.commits) a.state,
        r.0,
        r.1 ∙ a.pointer,
        r.2,
        r.3,
        Applied-sequence now ident commit s t s' a,
        ap (λ (x : MemoryState). x.outbox_events) a.state,
        typed (sym e.0 ∙ commit-event_type ident commit a.row a.audit_hash),
        e.2 ∙ sym (ap (λ (x : TableRecord). x.updated_at) a.result),
        e.3,
      )
    where
      typed : {x y : Text} → some x ≡ some y → x ≡ y
      typed p = cc

  -- A commit without an idempotency key that succeeds leaves evidence: it appends one row to the
  -- history, from the pointer it expected to its new one, under the version of the table that it
  -- returns, and one pending event of the type table.commit to the outbox.
  pub commit_table-Evidenced :
      commit.idempotency_key ≡ none → commit_table now ident commit s ≡ ok (t, s') → Evidenced
  unfolding find_commit_replay
  commit_table-Evidenced keyless h = elim ((commit_table-cases now ident commit s t s' h).1) [
    | inl replayed ↦ cc (rw keyless at (replayed.0))
    | inr applied ↦ Applied-Evidenced (apply_commit-Applied now ident commit _ s t s' applied.1)
  ]
