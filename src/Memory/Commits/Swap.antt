-- ===== src/Memory/Commits/Swap.antt =====
-- A commit that is applied: compare-and-swap on the metadata pointer.
use lakecat.Prelude.{
  Text, ℕ, ◌+◌, ◌%◌, ◌^◌, ◌≡◌, ◌≢◌, ◌<◌, ◌==◌, false, inl, inr, ap, sym, subst, ◌∙◌, Option, none,
  some, arith,
}
use lakecat.Prelude.Map.{text_key, get, get-insert_self, get-insert_ne}
use lakecat.Prelude.Results.{
  ok, >>=-eq-ok, >>-eq-ok, ensure_that-eq-ok, ok_or-eq-ok, ok-pair, ok-injective, reject-eq-ok,
}
use lakecat.Core.Names.{TableIdent, table_key}
use lakecat.Records.Types.{DateTime, TableRecord, TableCommit, TableCommitRecord, OutboxEvent}
use lakecat.Records.External.{External}
use lakecat.Records.Tables.Scope.{validate_table_record_identity-eq}
use lakecat.Records.Tables.{
  validate_for_table, validate_table_record_identity, validate_table_record_map_scope,
}
use lakecat.Memory.State.{MemoryState}
use lakecat.Records.Events.Outbox.{outbox_event_from_payload}
use lakecat.Memory.Commits.{
  commit_outbox_payload, apply_commit, commit_table, committed_table, commit_record,
  committed_state, find_commit_replay,
}
use lakecat.Memory.Commits.Cases.{commit_table-cases}

module _ ⦃ext : External⦄ where
  pub record Applied (now : DateTime) (ident : TableIdent) (commit : TableCommit)
      (request_hash : Text) (s : MemoryState) (t : TableRecord) (s' : MemoryState) : Type 0 where
    pub current : TableRecord
    pub row : TableCommitRecord
    pub audit_hash : Text
    pub event : OutboxEvent
    pub found : get (table_key ident) s.tables ≡ some current
    pub keyed : validate_table_record_map_scope current (table_key ident) ≡ ok tt
    pub identified : validate_table_record_identity current ident ≡ ok tt
    pub pointer : current.metadata_location ≡ commit.expected_previous_metadata_location
    pub result : t ≡ committed_table now commit request_hash current
    pub recorded :
        commit_record ident commit request_hash current
          (committed_table now commit request_hash current)
        ≡ ok row
    pub valid : validate_for_table row ident ≡ ok tt
    pub evented :
        outbox_event_from_payload
          (commit_outbox_payload ident commit row audit_hash)
          (committed_table now commit request_hash current).updated_at
        ≡ ok event
    pub state :
        s'
        ≡ committed_state ident commit request_hash
            (committed_table now commit request_hash current)
            row
            audit_hash
            event
            s

  pub apply_commit-Applied :
      (now : DateTime) (ident : TableIdent) (commit : TableCommit) (request_hash : Text)
      (s : MemoryState) (t : TableRecord) (s' : MemoryState)
      → apply_commit now ident commit request_hash s ≡ ok (t, s')
      → Applied now ident commit request_hash s t s'
  unfolding apply_commit
  apply_commit-Applied now ident commit request_hash s t s' h =
      let a = >>=-eq-ok _ _ h in
      let b = >>-eq-ok _ _ a.2 in
      let c = >>-eq-ok _ _ b.1 in
      let d = >>-eq-ok _ _ c.1 in
      let r = >>=-eq-ok _ _ d.1 in
      let v = >>-eq-ok _ _ r.2 in
      let hashed = >>=-eq-ok _ _ v.1 in
      let evented = >>=-eq-ok _ _ hashed.2 in
      let done = ok-pair evented.2 in
      record {
        current = a.0;
        row = r.0;
        audit_hash = hashed.0;
        event = evented.0;
        found = ok_or-eq-ok _ _ a.1;
        keyed = b.0;
        identified = c.0;
        pointer = ensure_that-eq-ok _ _ d.0;
        result = done.0;
        recorded = r.1;
        valid = v.0;
        evented = evented.1;
        state = done.1;
      }

-- A `u64`.
abbrev pub IsU64 : ℕ → Type 0
IsU64 n = n < 2 ^ 64

wrapped_suc : (n v : ℕ) → v ≡ (n + 1) % 2 ^ 64 → (v == 0) ≡ false → IsU64 n → v ≡ n + 1
wrapped_suc n v e h fits = omega (arith, nonzero v h)
  where
    nonzero : (m : ℕ) → (m == 0) ≡ false → m ≢ 0
    nonzero m q z = ground arith

module _ ⦃ext : External⦄ where
  pub validate_for_table-positive :
      (row : TableCommitRecord) (ident : TableIdent)
      → validate_for_table row ident ≡ ok tt
      → (row.sequence_number == 0) ≡ false
  unfolding validate_for_table
  validate_for_table-positive row ident h = reject-eq-ok _ _ (>>-eq-ok _ _ (>>-eq-ok _ _ h).1).0

  pub commit_record-version :
      (ident : TableIdent) (commit : TableCommit) (hash : Text) (a b : TableRecord)
      (row : TableCommitRecord)
      → commit_record ident commit hash a b ≡ ok row
      → (row.sequence_number ≡ b.version) × (row.request_hash ≡ hash)
  unfolding commit_record
  commit_record-version ident commit hash a b row h =
      let done = ok-injective ((>>=-eq-ok _ _ h).2) in
      (
        ap (λ (r : TableCommitRecord). r.sequence_number) (sym done),
        ap (λ (r : TableCommitRecord). r.request_hash) (sym done),
      )

module _ ⦃ext : External⦄ (now : DateTime) (ident : TableIdent) (commit : TableCommit)
    (s : MemoryState) (t : TableRecord) (s' : MemoryState) where
  abbrev pub Swapped : Type 0
  Swapped =
      (current : TableRecord) × (get (table_key ident) s.tables ≡ some current)
      × (current.metadata_location ≡ commit.expected_previous_metadata_location)
      × (get (table_key ident) s'.tables ≡ some t)
      × (t.metadata_location ≡ commit.new_metadata_location)
      × (t.ident ≡ ident)
      × (t.location ≡ current.location)
      × (t.created ≡ current.created)
      × (IsU64 current.version → t.version ≡ current.version + 1)
      × ((k : Text) → table_key ident ≢ k → get k s'.tables ≡ get k s.tables)

  -- the record of an applied commit carries the version of the table that it returns
  pub Applied-sequence :
      {hash : Text} (a : Applied now ident commit hash s t s') → a.row.sequence_number ≡ t.version
  Applied-sequence {hash} a =
      (commit_record-version ident commit hash a.current _ a.row a.recorded).0
      ∙ sym (ap (λ (r : TableRecord). r.version) a.result)

  pub Applied-Swapped : {hash : Text} → Applied now ident commit hash s t s' → Swapped
  unfolding committed_table committed_state
  Applied-Swapped a = (
    a.current,
    a.found,
    a.pointer,
    rw (a.state, a.result) (get-insert_self (table_key ident) _ s.tables),
    ap (λ (r : TableRecord). r.metadata_location) a.result,
    ap (λ (r : TableRecord). r.ident) a.result
        ∙ validate_table_record_identity-eq a.current ident a.identified,
    ap (λ (r : TableRecord). r.location) a.result,
    ap (λ (r : TableRecord). r.created) a.result,
    λ fits.
        wrapped_suc a.current.version t.version (ap (λ (r : TableRecord). r.version) a.result)
          (subst (λ (n : ℕ). (n == 0) ≡ false) (Applied-sequence a)
            (validate_for_table-positive a.row ident a.valid))
          fits,
    λ k ne. rw a.state (get-insert_ne (table_key ident) k _ s.tables ne),
  )

  -- A commit that carries no idempotency key succeeds only if the stored metadata pointer is the
  -- expected one. It then stores the table that it returns: at the new pointer, one version on
  -- (for a version that is a `u64`), with its identity, location and creation stamp kept, and it
  -- touches no other table.
  pub commit_table-swap :
      commit.idempotency_key ≡ none → commit_table now ident commit s ≡ ok (t, s') → Swapped
  unfolding find_commit_replay
  commit_table-swap keyless h = elim ((commit_table-cases now ident commit s t s' h).1) [
    | inl replayed ↦ cc (rw keyless at (replayed.0))
    | inr applied ↦ Applied-Swapped (apply_commit-Applied now ident commit _ s t s' applied.1)
  ]

module _ ⦃ext : External⦄ (ident : TableIdent) (now later : DateTime) (first second : TableCommit)
    (s s₁ s₂ : MemoryState) (t₁ t₂ : TableRecord) where
  -- Of two commits to one table without idempotency keys, the second succeeds only if it expects
  -- the pointer that the first has written: a writer that read the table before the first commit
  -- loses no update, unless that commit left the pointer where it was.
  pub commit_table_chain :
      first.idempotency_key ≡ none
      → second.idempotency_key ≡ none
      → commit_table now ident first s ≡ ok (t₁, s₁)
      → commit_table later ident second s₁ ≡ ok (t₂, s₂)
      → second.expected_previous_metadata_location ≡ first.new_metadata_location
  commit_table_chain k₁ k₂ h₁ h₂ =
      let a = commit_table-swap now ident first s t₁ s₁ k₁ h₁ in
      let b = commit_table-swap later ident second s₁ t₂ s₂ k₂ h₂ in
      sym b.2 ∙ (ap (λ (r : TableRecord). r.metadata_location) (same_table a.3 b.1) ∙ a.4)
    where
      same_table : {o : Option TableRecord} {a b : TableRecord} → o ≡ some a → o ≡ some b → b ≡ a
      same_table p q = cc
