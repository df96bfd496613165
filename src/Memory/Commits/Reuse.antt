-- ===== src/Memory/Commits/Reuse.antt =====
-- An idempotency key that has been used: what another request with it gets.
use lakecat.Prelude.{
  Text, Text-discrete, ◌≡◌, ◌≢◌, refl, sym, ◌∙◌, Option, none, some, inl, inr, arith, false, [],
  ◌∷◌, ◌++◌, subst,
}
use lakecat.Prelude.Map.{text_key, get, contains_key}
use lakecat.Prelude.Results.{
  LakeCatResult, LakeCatError, ok, err, internal, ◌>>=◌, ◌>>◌, reject, ensure_that, >>-eq-ok,
  ensure_that-eq-ok, ok-injective, map_err-eq-ok,
}
use lakecat.Core.Names.{TableIdent, table_key, stable_id}
use lakecat.Records.Types.{DateTime, TableRecord, TableCommit}
use lakecat.Records.External.{External}
use lakecat.Records.Evidence.{
  validate_idempotency_record_request_hash, validate_idempotency_request_hash_shape,
  validate_idempotency_key_shape,
}
use lakecat.Records.Tables.Commit.{validate_commit-ValidCommit}
use lakecat.Records.Tables.{
  validate_commit, validate_table_record_identity, validate_idempotency_record_table_key,
}
use lakecat.Memory.State.{MemoryState, IdempotencyReplay}
use lakecat.Memory.Commits.{
  commit_table, commit_request_hash, find_commit_replay, find_replay, idem_key, reused,
  replay_table_commit,
}
use lakecat.Memory.Commits.Cases.{Checked, lookup_hash, commit_table-cases}
use lakecat.Memory.Commits.Swap.{apply_commit-Applied}
use lakecat.Memory.Commits.Replay.{Applied-replay}

-- What a lookup that finds an answer says of the row.
record Kept (ident : TableIdent) (key hash : Text) (s : MemoryState) : Type 0 where
  row : IdempotencyReplay
  found : get (idem_key ident key) s.idempotency ≡ some row
  scoped : row.table_key ≡ table_key ident
  shaped : validate_idempotency_record_request_hash row.request_hash ≡ ok tt
  hashed : row.request_hash ≡ hash

find_replay-Kept :
    (ident : TableIdent) (key hash : Text) (s : MemoryState) (t : TableRecord)
    → find_replay ident key hash s ≡ ok (some t)
    → Kept ident key hash s
unfolding find_replay validate_idempotency_record_table_key
find_replay-Kept ident key hash s t h = split (get (idem_key ident key) s.idempotency) refl h
  where
    split :
        (o : Option IdempotencyReplay)
        → get (idem_key ident key) s.idempotency ≡ o
        → (elim o [
          | none ↦ ok none
          | some replay ↦
              validate_idempotency_record_table_key replay.table_key ident
              >> (validate_idempotency_record_request_hash replay.request_hash
                  >> (ensure_that (Text-discrete replay.request_hash hash) (reused ident)
                      >> (validate_table_record_identity replay.response ident
                          >> ok (some replay.response))))
        ])
          ≡ ok (some t)
        → Kept ident key hash s
    split none found e = cc
    split (some row) found e =
        let a = >>-eq-ok _ _ e in
        let b = >>-eq-ok _ _ a.1 in
        let c = >>-eq-ok _ _ b.1 in
        record {
          row = row;
          found = found;
          scoped = ensure_that-eq-ok _ _ a.0;
          shaped = b.0;
          hashed = ensure_that-eq-ok _ _ c.0;
        }

keyed_lookup :
    (ident : TableIdent) (commit : TableCommit) (key : Text) (s : MemoryState)
    → commit.idempotency_key ≡ some key
    → (hash : Text) {r : LakeCatResult (Option TableRecord)}
    → find_commit_replay ident commit.idempotency_key hash s ≡ r
    → find_replay ident key hash s ≡ r
unfolding find_commit_replay
keyed_lookup ident commit key s keyed hash e = rw keyed at e

-- the error of a row of another table
abbrev pub other_table : LakeCatError
other_table = internal "idempotency record row scope does not match requested table" []

module _ ⦃ext : External⦄ where
  -- A commit with a key that has succeeded is found again.
  commit_table-found :
      (now : DateTime) (ident : TableIdent) (commit : TableCommit) (key : Text) (s : MemoryState)
      (t : TableRecord) (s' : MemoryState)
      → commit.idempotency_key ≡ some key
      → commit_table now ident commit s ≡ ok (t, s')
      → (c : Checked ident commit s) × (find_replay ident key (lookup_hash commit c.hash) s'
          ≡ ok (some t))
  commit_table-found now ident commit key s t s' keyed h =
      let cases = commit_table-cases now ident commit s t s' h in
      let c = cases.0 in
      (
        c,
        keyed_lookup ident commit key s' keyed _ (elim cases.1 [
          | inl replayed ↦ rw replayed.1 replayed.0
          | inr applied ↦
              Applied-replay now now ident commit key s t s' c keyed
                (apply_commit-Applied now ident commit c.hash s t s' applied.1)
        ]),
      )

  -- It has left its row.
  commit_table-Kept :
      (now : DateTime) (ident : TableIdent) (commit : TableCommit) (key : Text) (s : MemoryState)
      (t : TableRecord) (s' : MemoryState)
      → commit.idempotency_key ≡ some key
      → commit_table now ident commit s ≡ ok (t, s')
      → (hash : Text) × (commit_request_hash commit ≡ ok hash)
        × Kept ident key (lookup_hash commit hash) s'
  commit_table-Kept now ident commit key s t s' keyed h =
      let found = commit_table-found now ident commit key s t s' keyed h in
      (
        found.0.hash,
        found.0.hashed,
        find_replay-Kept ident key (lookup_hash commit found.0.hash) s' t found.1,
      )

  Kept-shape :
      (ident : TableIdent) (key hash : Text) (s : MemoryState)
      → Kept ident key hash s
      → validate_idempotency_request_hash_shape hash ≡ ok tt
  unfolding validate_idempotency_record_request_hash
  Kept-shape ident key hash s k =
      subst (λ h. validate_idempotency_request_hash_shape h ≡ ok tt) k.hashed
        (map_err-eq-ok _ _ k.shaped)

  -- The reading of a kept answer agrees with the commit: after a commit with a key has succeeded,
  -- `replay_table_commit` with its key and its request hash succeeds with the table it answered.
  pub replay_table_commit-answers :
      (now : DateTime) (ident : TableIdent) (commit : TableCommit) (key : Text) (s : MemoryState)
      (t : TableRecord) (s' : MemoryState)
      → commit.idempotency_key ≡ some key
      → commit_table now ident commit s ≡ ok (t, s')
      → (hash : Text) × (commit_request_hash commit ≡ ok hash)
        × (replay_table_commit ident key (lookup_hash commit hash) s' ≡ ok (some t))
  unfolding replay_table_commit ◌>>=◌ ◌>>◌
  replay_table_commit-answers now ident commit key s t s' keyed h =
      let found = commit_table-found now ident commit key s t s' keyed h in
      let kept = find_replay-Kept ident key (lookup_hash commit found.0.hash) s' t found.1 in
      let shaped : validate_idempotency_key_shape key ≡ ok tt =
        (validate_commit-ValidCommit commit found.0.valid).key_shape key keyed in
      (
        found.0.hash,
        found.0.hashed,
        rw (shaped, Kept-shape ident key (lookup_hash commit found.0.hash) s' kept, found.1) refl,
      )

  find_replay-reused :
      (ident : TableIdent) (key hash other : Text) (s : MemoryState)
      → Kept ident key hash s
      → hash ≢ other
      → find_replay ident key other s ≡ err (reused ident)
  unfolding find_replay validate_idempotency_record_table_key ensure_that ◌>>=◌ ◌>>◌
  find_replay-reused ident key hash other s k differs =
      let found = k.found in
      let scoped = k.scoped in let shaped = k.shaped in let hashed = k.hashed in ground arith

  -- The lookup of the commit decides, once the checks before it pass.
  commit_table-refused :
      (now : DateTime) (ident : TableIdent) (commit : TableCommit) (key hash : Text)
      (s : MemoryState) (e : LakeCatError)
      → validate_commit commit ≡ ok tt
      → contains_key (table_key ident) s.soft_deletes ≡ false
      → commit_request_hash commit ≡ ok hash
      → commit.idempotency_key ≡ some key
      → find_replay ident key (lookup_hash commit hash) s ≡ err e
      → commit_table now ident commit s ≡ err e
  unfolding commit_table find_commit_replay ◌>>=◌ ◌>>◌ reject
  commit_table-refused now ident commit key hash s e valid live hashed keyed refused =
      rw (valid, live, hashed, keyed, refused) refl

  -- An idempotency key belongs to one request: after a commit with a key has succeeded, a valid
  -- commit to the table with the key and another request hash is a conflict.
  pub commit_table-reused :
      (now later : DateTime) (ident : TableIdent) (first second : TableCommit) (key : Text)
      (s : MemoryState) (t : TableRecord) (s' : MemoryState) (first_hash second_hash : Text)
      → first.idempotency_key ≡ some key
      → second.idempotency_key ≡ some key
      → commit_table now ident first s ≡ ok (t, s')
      → contains_key (table_key ident) s'.soft_deletes ≡ false
      → validate_commit second ≡ ok tt
      → commit_request_hash first ≡ ok first_hash
      → commit_request_hash second ≡ ok second_hash
      → lookup_hash first first_hash ≢ lookup_hash second second_hash
      → commit_table later ident second s' ≡ err (reused ident)
  commit_table-reused now later ident first second key s t s' first_hash second_hash k₁ k₂ h live
        valid hashed₁ hashed₂ differs =
      let kept = commit_table-Kept now ident first key s t s' k₁ h in
      let same : kept.0 ≡ first_hash = ok-injective (sym kept.1 ∙ hashed₁) in
      commit_table-refused later ident second key second_hash s' (reused ident) valid live hashed₂
        k₂
        (find_replay-reused ident key (lookup_hash first kept.0) (lookup_hash second second_hash) s'
          kept.2 (rw same differs))

  find_replay-collides :
      (a b : TableIdent) (key hash other : Text) (s : MemoryState)
      → stable_id a ≡ stable_id b
      → table_key a ≢ table_key b
      → Kept a key hash s
      → find_replay b key other s ≡ err other_table
  unfolding find_replay idem_key validate_idempotency_record_table_key ensure_that ◌>>=◌ ◌>>◌
  find_replay-collides a b key hash other s same differs k =
      let found : get (stable_id b ++ (b':' ∷ key)) s.idempotency ≡ some k.row =
        rw same at k.found in
      let scoped = k.scoped in ground arith

  -- The rows are kept by the stable ids of the tables, which do not tell tables apart as their keys
  -- do: after a commit with an idempotency key has succeeded on one table, a valid commit with that
  -- key to another table of the same stable id, whose metadata is hashed and which is not
  -- soft-deleted, is an internal error.
  pub commit_table-collides :
      (now later : DateTime) (a b : TableIdent) (first second : TableCommit) (key : Text)
      (s : MemoryState) (t : TableRecord) (s' : MemoryState) (hash : Text)
      → stable_id a ≡ stable_id b
      → table_key a ≢ table_key b
      → first.idempotency_key ≡ some key
      → second.idempotency_key ≡ some key
      → commit_table now a first s ≡ ok (t, s')
      → contains_key (table_key b) s'.soft_deletes ≡ false
      → validate_commit second ≡ ok tt
      → commit_request_hash second ≡ ok hash
      → commit_table later b second s' ≡ err other_table
  commit_table-collides now later a b first second key s t s' hash same differs k₁ k₂ h live valid
        hashed =
      let kept = commit_table-Kept now a first key s t s' k₁ h in
      commit_table-refused later b second key hash s' other_table valid live hashed k₂ (
        find_replay-collides a b key (lookup_hash first kept.0) (lookup_hash second hash) s' same
          differs kept.2)
