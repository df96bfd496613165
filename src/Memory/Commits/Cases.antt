-- ===== src/Memory/Commits/Cases.antt =====
-- A successful `commit_table` either answers from the kept replays or applies the commit.
use mathlib.Core.Option
use lakecat.Prelude.{Text, ◌≡◌, Option, none, some, ◌⊎◌, inl, inr, false}
use lakecat.Prelude.Map.{text_key, contains_key}
use lakecat.Prelude.Results.{ok, >>=-eq-ok, >>-eq-ok, reject-eq-ok}
use lakecat.Core.Names.{TableIdent, table_key}
use lakecat.Records.Types.{DateTime, TableRecord, TableCommit}
use lakecat.Records.External.{External}
use lakecat.Records.Tables.{validate_commit}
use lakecat.Memory.State.{MemoryState}
use lakecat.Memory.Commits.{commit_table, commit_request_hash, find_commit_replay, apply_commit}

module _ ⦃ext : External⦄ where
  -- What a successful commit has passed before the lookup of a replay.
  pub record Checked (ident : TableIdent) (commit : TableCommit) (s : MemoryState) : Type 0 where
    pub valid : validate_commit commit ≡ ok tt
    pub live : contains_key (table_key ident) s.soft_deletes ≡ false
    pub hash : Text
    pub hashed : commit_request_hash commit ≡ ok hash

  abbrev pub lookup_hash : (commit : TableCommit) → Text → Text
  lookup_hash commit hash = Option.get_or commit.idempotency_request_hash hash

  pub commit_table-cases :
      (now : DateTime) (ident : TableIdent) (commit : TableCommit) (s : MemoryState)
      (t : TableRecord) (s' : MemoryState)
      → commit_table now ident commit s ≡ ok (t, s')
      → (c : Checked ident commit s) × (((find_commit_replay ident commit.idempotency_key
                (lookup_hash commit c.hash)
                s
              ≡ ok (some t))
            × (s' ≡ s))
          ⊎ ((find_commit_replay ident commit.idempotency_key (lookup_hash commit c.hash) s
                ≡ ok none)
              × (apply_commit now ident commit c.hash s ≡ ok (t, s'))))
  unfolding commit_table
  commit_table-cases now ident commit s t s' h =
      let a = >>-eq-ok _ _ h in
      let b = >>-eq-ok _ _ a.1 in
      let c = >>=-eq-ok _ _ b.1 in
      let d = >>=-eq-ok _ _ c.2 in
      (
        record { valid = a.0; live = reject-eq-ok _ _ b.0; hash = c.0; hashed = c.1 },
        split c.0 d.0 d.1 d.2,
      )
    where
      split :
          (hash : Text) (replay : Option TableRecord)
          → find_commit_replay ident commit.idempotency_key (lookup_hash commit hash) s ≡ ok replay
          → (elim replay [
            | some response ↦ ok (response, s)
            | none ↦ apply_commit now ident commit hash s
          ])
            ≡ ok (t, s')
          → ((find_commit_replay ident commit.idempotency_key (lookup_hash commit hash) s
                ≡ ok (some t))
              × (s' ≡ s))
            ⊎ ((find_commit_replay ident commit.idempotency_key (lookup_hash commit hash) s
                  ≡ ok none)
                × (apply_commit now ident commit hash s ≡ ok (t, s')))
      split hash (some response) found e = inl (cc, cc)
      split hash none found e = inr (found, e)
