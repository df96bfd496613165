-- ===== src/Memory/Commits.antt =====
-- `commit_table`, `replay_table_commit` and `table_commit_records`
-- (crates/lakecat-store/src/memory.rs). `now` is the reading of the clock.
pub mod Cases
pub mod Swap
pub mod Replay
pub mod Reuse
pub mod Evidence
use mathlib.Core.Option
use lakecat.Prelude.{
  Text, text, ltb, leb, List, [], ◌∷◌, ◌++◌, ℕ, ◌+◌, ◌%◌, ◌^◌, Option, none, some, Bool, true,
  false, holds, Text-discrete, ◌≡◌, ◌&&◌, if◌then◌else◌, String, keep,
}
use lakecat.Prelude.Map.{Map, text_key, contains_key, get, insert}
use lakecat.Prelude.Results.{
  LakeCatResult, LakeCatError, ok, err, conflict, reject, ensure_that, ok_or, collect, ◌>>=◌, ◌>>◌,
}
use lakecat.Prelude.Json
use lakecat.Prelude.Json.{Json, null, num, str, pos, object, string, option, array, set}
use lakecat.Core.Names.{TableIdent, table_key, stable_id}
use lakecat.Records.Types.{DateTime, TableRecord, TableCommit, TableCommitRecord, OutboxEvent}
use lakecat.Records.External.{External}
use lakecat.Records.Metadata.{
  table_commit_format_version, table_commit_snapshot_id, table_commit_policy_hash,
  location_discrete,
}
use lakecat.Records.Evidence.{
  content_hash_bytes, content_hash_json, validate_idempotency_key_shape,
  validate_idempotency_request_hash_shape, validate_idempotency_record_request_hash,
}
use lakecat.Records.Tables.{
  validate_commit, validate_for_table, table_response_hash, validate_table_record_map_scope,
  validate_table_record_identity, validate_idempotency_record_table_key,
}
use lakecat.Records.Events.{audit_of}
use lakecat.Records.Events.Outbox.{outbox_event_from_payload}
use lakecat.Memory.State.{
  MemoryState, MemoryCommitRecord, IdempotencyReplay, Update, Query, table_not_found,
}

-- `format!("{}:{idempotency_key}", ident.stable_id())`
unfoldable pub idem_key : TableIdent → Text → Text
idem_key ident key = stable_id ident ++ (b':' ∷ key)

abbrev pub reused : TableIdent → LakeCatError
reused ident =
    conflict "idempotency key reused with different commit request for {}" (stable_id ident ∷ [])

-- The answer that the store keeps for a key, if it keeps one.
unfoldable pub find_replay :
    TableIdent → Text → Text → MemoryState → LakeCatResult (Option TableRecord)
find_replay ident key request_hash state = elim (get (idem_key ident key) state.idempotency) [
  | none ↦ ok none
  | some replay ↦ (do
    validate_idempotency_record_table_key replay.table_key ident
    validate_idempotency_record_request_hash replay.request_hash
    ensure_that (Text-discrete replay.request_hash request_hash) (reused ident)
    validate_table_record_identity replay.response ident
    ok (some replay.response))
]

-- the same for a commit, which may carry no key
unfoldable pub find_commit_replay :
    TableIdent → Option Text → Text → MemoryState → LakeCatResult (Option TableRecord)
find_commit_replay ident none request_hash state = ok none
find_commit_replay ident (some key) request_hash state = find_replay ident key request_hash state

-- the table after the commit; the version is a `u64` that wraps
unfoldable pub committed_table : DateTime → TableCommit → Text → TableRecord → TableRecord
committed_table now commit request_hash current =
    let version = (current.version + 1) % 2 ^ 64 in
    let metadata = Option.get_or commit.new_metadata current.metadata in
    record current {
      metadata_location = commit.new_metadata_location;
      staged = false;
      metadata =
          set (set metadata (text "lakecat:version") (num (pos version)))
            (text "lakecat:last-request-hash") (str request_hash);
      version = version;
      updated_at = now;
    }

module _ ⦃ext : External⦄ where
  unfoldable pub location_value : Option Text → Json
  location_value location = option (Option.map str location)

  unfoldable pub commit_request_hash : TableCommit → LakeCatResult Text
  commit_request_hash commit = content_hash_json (
      object (
        ("requirements", array commit.requirements)
        ∷ ("updates", array commit.updates)
        ∷ (
          "expected_previous_metadata_location",
          location_value commit.expected_previous_metadata_location,
        )
        ∷ ("new_metadata_location", location_value commit.new_metadata_location)
        ∷ ("new_metadata", option commit.new_metadata)
        ∷ []))

  unfoldable pub optional_location_hash : Option Text → Text
  optional_location_hash none = text "null"
  optional_location_hash (some location) = content_hash_bytes location

  unfoldable pub metadata_pointer_conflict : TableIdent → Option Text → Option Text → LakeCatError
  metadata_pointer_conflict ident expected actual =
      conflict
        "metadata pointer changed for {}; expected-metadata-location-hash={expected_hash}; actual-metadata-location-hash={actual_hash}"
        (stable_id ident ∷ optional_location_hash expected ∷ optional_location_hash actual ∷ [])

  -- the `TableCommitRecord` of a commit that takes `current` to `table`
  unfoldable pub commit_record :
      TableIdent → TableCommit → Text → TableRecord → TableRecord → LakeCatResult TableCommitRecord
  commit_record ident commit request_hash current table = do
    response_hash ← table_response_hash table
    ok (record {
      table = ident;
      previous_metadata_location = current.metadata_location;
      new_metadata_location = commit.new_metadata_location;
      sequence_number = table.version;
      principal = commit.principal;
      format_version = table_commit_format_version table;
      snapshot_id = table_commit_snapshot_id table;
      policy_hash = table_commit_policy_hash commit.authorization_receipt;
      request_hash = request_hash;
      response_hash = response_hash;
      idempotency_key_sha256 = Option.map content_hash_bytes commit.idempotency_key;
      committed_at = table.updated_at;
    })

  unfoldable pub commit_audit_payload : TableIdent → TableCommit → TableCommitRecord → Json
  commit_audit_payload ident commit row = object (
      ("event-type", string "table.commit")
      ∷ ("table", ext.table_ident_value ident)
      ∷ ("commit", ext.commit_record_value row)
      ∷ ("authorization-receipt", option commit.authorization_receipt)
      ∷ [])

  unfoldable pub commit_outbox_payload : TableIdent → TableCommit → TableCommitRecord → Text → Json
  commit_outbox_payload ident commit row audit_payload_hash = object (
      ("audit-event-id", str audit_payload_hash)
      ∷ ("event-type", string "table.commit")
      ∷ ("table", ext.table_ident_value ident)
      ∷ ("commit", ext.commit_record_value row)
      ∷ ("authorization-receipt", option commit.authorization_receipt)
      ∷ [])

  -- the idempotency rows after a commit
  unfoldable pub remember :
      TableIdent
      → TableCommit
      → Text
      → TableRecord
      → Map Text IdempotencyReplay
      → Map Text IdempotencyReplay
  remember ident commit request_hash table rows = elim commit.idempotency_key [
    | none ↦ rows
    | some key ↦
        insert (idem_key ident key)
          (record {
            table_key = table_key ident;
            request_hash = Option.get_or commit.idempotency_request_hash request_hash;
            response = table;
          })
          rows
  ]

  -- the writes of `commit_table`
  unfoldable pub committed_state :
      TableIdent
      → TableCommit
      → Text
      → TableRecord
      → TableCommitRecord
      → Text
      → OutboxEvent
      → MemoryState
      → MemoryState
  committed_state ident commit request_hash table row audit_payload_hash outbox_event state =
      record state {
        tables = insert (table_key ident) table state.tables;
        audit_events =
            state.audit_events
            ++ audit_of "table.commit" ident commit.principal audit_payload_hash
                (commit_audit_payload ident commit row) table.updated_at
              ∷ [];
        outbox_events = state.outbox_events ++ outbox_event ∷ [];
        commits = state.commits ++ record { table_key = table_key ident; row = row } ∷ [];
        idempotency = remember ident commit request_hash table state.idempotency;
      }

  -- the part of `commit_table` after the lookup of a replay
  unfoldable pub apply_commit : DateTime → TableIdent → TableCommit → Text → Update TableRecord
  apply_commit now ident commit request_hash state = do
    let key = table_key ident
    current ← ok_or (get key state.tables) (table_not_found ident)
    validate_table_record_map_scope current key
    validate_table_record_identity current ident
    ensure_that
        (location_discrete current.metadata_location commit.expected_previous_metadata_location)
        (metadata_pointer_conflict ident commit.expected_previous_metadata_location
          current.metadata_location)
    let table = committed_table now commit request_hash current
    row ← commit_record ident commit request_hash current table
    validate_for_table row ident
    let audit_payload = commit_audit_payload ident commit row
    audit_payload_hash ← content_hash_json audit_payload
    outbox_event ←
        outbox_event_from_payload (commit_outbox_payload ident commit row audit_payload_hash)
          table.updated_at
    ok (
      table,
      committed_state ident commit request_hash table row audit_payload_hash outbox_event state,
    )

  unfoldable pub commit_table : DateTime → TableIdent → TableCommit → Update TableRecord
  commit_table now ident commit state = do
    validate_commit commit
    reject (contains_key (table_key ident) state.soft_deletes) (table_not_found ident)
    request_hash ← commit_request_hash commit
    replay ←
        find_commit_replay ident commit.idempotency_key
          (Option.get_or commit.idempotency_request_hash request_hash) state
    elim replay [
      | some response ↦ ok (response, state)
      | none ↦ apply_commit now ident commit request_hash state
    ]

unfoldable pub replay_table_commit : TableIdent → Text → Text → Query (Option TableRecord)
replay_table_commit ident idempotency_key idempotency_request_hash state = do
  validate_idempotency_key_shape idempotency_key
  validate_idempotency_request_hash_shape idempotency_request_hash
  find_replay ident idempotency_key idempotency_request_hash state

-- helpers.rs
module _ ⦃ext : External⦄ where
  unfoldable pub validate_table_commit_record_memory_scope :
      MemoryCommitRecord → TableIdent → LakeCatResult (Unit {0})
  validate_table_commit_record_memory_scope commit ident = do
    ensure_that (Text-discrete commit.table_key (table_key ident))
        (LakeCatError.internal "table commit record row scope does not match requested table" [])
    validate_for_table commit.row ident

  abbrev pub in_range : ℕ → Option ℕ → ℕ → Bool
  in_range start none version = leb start version
  in_range start (some end) version = leb start version && leb version end

  unfoldable pub table_commit_records : TableIdent → ℕ → Option ℕ → Query (List TableCommitRecord)
  table_commit_records ident start_version end_version state =
      collect (λ commit. do validate_table_commit_record_memory_scope commit ident; ok commit.row)
        (keep
          (λ commit.
            holds (Text-discrete commit.table_key (table_key ident))
            && in_range start_version end_version commit.row.sequence_number)
          state.commits)
