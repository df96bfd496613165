-- ===== src/Memory/Commits/Replay.antt =====
-- Idempotency: a commit with a key is applied once, and answered from the kept row after that.
use lakecat.Prelude.{Text, ◌≡◌, refl, subst, true, some, inl, inr, arith, Bool, false}
use lakecat.Prelude.Map.{Map, text_key, get, contains_key, get-insert_self}
use lakecat.Prelude.Results.{ok, ◌>>=◌, ◌>>◌, reject, ensure, ensure_that, map_err}
use lakecat.Core.Names.{TableIdent, table_key}
use lakecat.Records.Types.{DateTime, TableRecord, TableCommit}
use lakecat.Records.External.{External}
use lakecat.Records.Evidence.{
  is_sha256, validate_idempotency_request_hash_shape, validate_idempotency_record_request_hash,
}
use lakecat.Records.Tables.Scope.{
  validate_table_record_identity-eq, validate_table_record_identity-valid,
}
use lakecat.Records.Tables.Commit.{
  validate_commit-ValidCommit, validate_table-ValidTable, ValidTable-validate_table, base_metadata,
  base_metadata-valid, set_twice-format, is_object-set, validate_for_table-sha256,
  lookup_hash-sha256,
}
use lakecat.Records.Tables.{
  validate_commit, validate_table, validate_table_record_identity,
  validate_idempotency_record_table_key,
}
use lakecat.Memory.State.{MemoryState, IdempotencyReplay}
use lakecat.Memory.Commits.{
  commit_table, commit_request_hash, find_commit_replay, find_replay, idem_key, remember,
  committed_state, committed_table,
}
use lakecat.Memory.Commits.Cases.{Checked, lookup_hash, commit_table-cases}
use lakecat.Memory.Commits.Swap.{Applied, apply_commit-Applied, commit_record-version}

-- A kept row of the table, with the hash that is looked up, is the answer.
pub find_replay-kept :
    (ident : TableIdent) (key hash : Text) (s : MemoryState) (row : IdempotencyReplay)
    → get (idem_key ident key) s.idempotency ≡ some row
    → row.table_key ≡ table_key ident
    → row.request_hash ≡ hash
    → is_sha256 hash ≡ Bool.true
    → validate_table_record_identity row.response ident ≡ ok tt
    → find_replay ident key hash s ≡ ok (some row.response)
unfolding find_replay validate_idempotency_record_table_key validate_idempotency_record_request_hash
    validate_idempotency_request_hash_shape map_err ensure ensure_that ◌>>=◌ ◌>>◌
find_replay-kept ident key hash s row found keyed hashed shaped valid = ground arith

-- A commit keeps its table valid.
pub committed_table-valid :
    (now : DateTime) (commit : TableCommit) (hash : Text) (current : TableRecord)
    → validate_commit commit ≡ ok tt
    → validate_table current ≡ ok tt
    → validate_table (committed_table now commit hash current) ≡ ok tt
unfolding committed_table
committed_table-valid now commit hash current hc ht =
    let vc = validate_commit-ValidCommit commit hc in
    let vt = validate_table-ValidTable current ht in
    let base = base_metadata-valid commit current vc vt in
    ValidTable-validate_table (committed_table now commit hash current) (record {
      location = vt.location;
      metadata_location = vc.location;
      metadata_object =
          is_object-set _ _ _ (is_object-set (base_metadata commit current) _ _ base.0);
      metadata_format =
          set_twice-format (base_metadata commit current) _ _ "table metadata" base.0 base.1;
    })

pub validate_table_record_identity-intro :
    (t : TableRecord) (ident : TableIdent)
    → validate_table t ≡ ok tt
    → t.ident ≡ ident
    → validate_table_record_identity t ident ≡ ok tt
unfolding validate_table_record_identity ◌>>◌ ◌>>=◌ ensure_that
validate_table_record_identity-intro t ident h e = ground arith

module _ ⦃ext : External⦄ (ident : TableIdent) (commit : TableCommit) where
  remember-keyed :
      (hash key : Text) (t : TableRecord) (rows : Map Text IdempotencyReplay)
      → commit.idempotency_key ≡ some key
      → get (idem_key ident key) (remember ident commit hash t rows)
        ≡ some (record {
          table_key = table_key ident;
          request_hash = lookup_hash commit hash;
          response = t;
        })
  unfolding remember
  remember-keyed hash key t rows keyed = ground (
    arith,
    get-insert_self (idem_key ident key)
        (record {
          table_key = table_key ident;
          request_hash = lookup_hash commit hash;
          response = t;
        })
        rows,
  )

  -- A commit that passes the checks and whose request is kept is answered from the kept row.
  commit_table-replays :
      (later : DateTime) (s : MemoryState) (t : TableRecord) (hash : Text)
      → validate_commit commit ≡ ok tt
      → contains_key (table_key ident) s.soft_deletes ≡ false
      → commit_request_hash commit ≡ ok hash
      → find_commit_replay ident commit.idempotency_key (lookup_hash commit hash) s ≡ ok (some t)
      → commit_table later ident commit s ≡ ok (t, s)
  unfolding commit_table ◌>>=◌ ◌>>◌ reject
  commit_table-replays later s t hash valid live hashed found = rw (valid, live, hashed, found)

module _ ⦃ext : External⦄ (now later : DateTime) (ident : TableIdent) (commit : TableCommit)
    (key : Text) (s : MemoryState) (t : TableRecord) (s' : MemoryState) where
  Applied-found :
      (c : Checked ident commit s)
      → commit.idempotency_key ≡ some key
      → Applied now ident commit c.hash s t s'
      → find_replay ident key (lookup_hash commit c.hash) s' ≡ ok (some t)
  unfolding committed_state
  Applied-found c keyed a =
      let table = committed_table now commit c.hash a.current in
      let valid =
        validate_table_record_identity-intro table ident
          (committed_table-valid now commit c.hash a.current c.valid
            (validate_table_record_identity-valid a.current ident a.identified))
          (unfold committed_table in
            validate_table_record_identity-eq a.current ident a.identified) in
      let shaped = lookup_hash-sha256 commit c.hash (validate_commit-ValidCommit commit c.valid) (
        subst (λ h. is_sha256 h ≡ true)
          (commit_record-version ident commit c.hash a.current table a.row a.recorded).1
          (validate_for_table-sha256 a.row ident a.valid)) in
      rw a.result (
        find_replay-kept ident key (lookup_hash commit c.hash) s' _
          (rw a.state (remember-keyed ident commit c.hash key table s.idempotency keyed)) refl refl
          shaped valid)

  -- After an applied commit the lookup of the same request finds its answer.
  pub Applied-replay :
      (c : Checked ident commit s)
      → commit.idempotency_key ≡ some key
      → Applied now ident commit c.hash s t s'
      → find_commit_replay ident commit.idempotency_key (lookup_hash commit c.hash) s' ≡ ok (some t)
  unfolding find_commit_replay
  Applied-replay c keyed a = rw keyed (Applied-found c keyed a)

  Applied-live :
      {hash : Text}
      → contains_key (table_key ident) s.soft_deletes ≡ false
      → Applied now ident commit hash s t s'
      → contains_key (table_key ident) s'.soft_deletes ≡ false
  unfolding committed_state
  Applied-live live a = rw a.state live

  -- A commit with an idempotency key that has succeeded may be sent again at any later time: it
  -- succeeds with the same table and leaves the state, history and events included, as it is.
  pub commit_table-retry :
      commit.idempotency_key ≡ some key
      → commit_table now ident commit s ≡ ok (t, s')
      → commit_table later ident commit s' ≡ ok (t, s')
  commit_table-retry keyed h =
      let cases = commit_table-cases now ident commit s t s' h in
      let c = cases.0 in
      elim cases.1 [
        | inl replayed ↦
            rw replayed.1 (
              commit_table-replays ident commit later s t c.hash c.valid c.live c.hashed replayed.0)
        | inr applied ↦
            let a = apply_commit-Applied now ident commit c.hash s t s' applied.1 in
            commit_table-replays ident commit later s' t c.hash c.valid (Applied-live c.live a)
              c.hashed (Applied-replay c keyed a)
      ]
