-- ===== src/Memory/Rename.antt =====
-- `rename_table` (crates/lakecat-store/src/memory.rs).
pub mod Moves
use lakecat.Prelude.{
  Text, text, List, [], ◌∷◌, ◌++◌, ℕ, Option, none, some, Bool, true, false, not, any, holds,
  starts_with, Text-discrete, Texts-discrete, ◌≡◌, ◌&&◌, ◌||◌, if◌then◌else◌, xor_bool,
}
use lakecat.Prelude.Map.{Map, text_key, contains_key, get, insert, remove}
use lakecat.Prelude.Results.{
  LakeCatResult, ok, err, already_exists, invalid_argument, internal, reject, ensure, ensure_that,
  ok_or, ◌>>=◌, ◌>>◌,
}
use lakecat.Prelude.Json.{Json}
use lakecat.Core.Names.{TableIdent, table_key, stable_id}
use lakecat.Records.Types.{
  DateTime, Principal, TableRecord, PolicyBinding, CatalogAuditEvent, OutboxEvent,
}
use lakecat.Records.External.{External}
use lakecat.Records.Evidence.{validate_idempotency_record_request_hash}
use lakecat.Records.Tables.{
  validate_table, validate_table_record_map_scope, validate_table_record_identity,
  validate_idempotency_record_table_key,
}
use lakecat.Records.Events.Outbox.{table_rename_events}
use lakecat.Records.Policies.{validate_binding, validate_policy_binding_map_scope}
use lakecat.Memory.State.{
  MemoryState, MemoryCommitRecord, IdempotencyReplay, Update, namespace_not_found, table_not_found,
  namespace_exists,
}
use lakecat.Memory.Commits.{validate_table_commit_record_memory_scope}
use lakecat.Memory.Namespaces.{is_namespace_of}

-- the prefix of the idempotency keys of a table
unfoldable pub idempotency_prefix : TableIdent → Text
idempotency_prefix ident = stable_id ident ++ (b':' ∷ [])

abbrev pub retargeted : TableIdent → MemoryCommitRecord → MemoryCommitRecord
retargeted destination commit = record {
  table_key = table_key destination;
  row = record commit.row { table = destination };
}

abbrev pub moved : TableIdent → DateTime → TableRecord → TableRecord
moved destination renamed_at table = record table { ident = destination; updated_at = renamed_at }

unfoldable pub is_table_of : Option Text → Text → Bool
is_table_of none name = false
is_table_of (some t) name = holds (Text-discrete t name)

unfoldable pub is_bound_to : TableIdent → PolicyBinding → Bool
is_bound_to source binding =
    holds (Text-discrete binding.warehouse source.warehouse)
    && is_namespace_of binding.namespace source.namespace
    && is_table_of binding.table source.name

module _ ⦃ext : External⦄ (source destination : TableIdent) where
  -- the loop over the commits, with those of the source in place
  unfoldable pub rename_commits : List MemoryCommitRecord → LakeCatResult (List MemoryCommitRecord)
  rename_commits [] = ok []
  rename_commits (commit ∷ commits) =
      let rest = rename_commits commits in
      if holds (Text-discrete commit.table_key (table_key source))
      then (do
        validate_table_commit_record_memory_scope commit source
        validate_table_commit_record_memory_scope (retargeted destination commit) destination
        renamed ← rest
        ok (retargeted destination commit ∷ renamed))
      else (do renamed ← rest; ok (commit ∷ renamed))

  -- the checks of one idempotency row; the answer is whether it is the source's
  unfoldable pub check_replay : Text → IdempotencyReplay → LakeCatResult Bool
  check_replay key replay = do
    let keyed_to_source = starts_with key (idempotency_prefix source)
    let scoped_to_source = holds (Text-discrete replay.table_key (table_key source))
    reject (xor_bool keyed_to_source scoped_to_source)
        (internal "table rename found inconsistent source idempotency scope" [])
    if keyed_to_source
        then (do
          validate_idempotency_record_table_key replay.table_key source
          validate_idempotency_record_request_hash replay.request_hash
          validate_table_record_identity replay.response source)
        else ok tt
    reject
        (starts_with key (idempotency_prefix destination)
          || holds (Text-discrete replay.table_key (table_key destination)))
        (internal "table rename destination has orphaned idempotency state" [])
    ok keyed_to_source

  -- the loop over the idempotency rows: those that stay
  unfoldable pub retire_replays :
      Map Text IdempotencyReplay → LakeCatResult (Map Text IdempotencyReplay)
  retire_replays [] = ok []
  retire_replays ((key, replay) ∷ rows) = do
    retired ← check_replay key replay
    rest ← retire_replays rows
    ok (if retired then rest else (key, replay) ∷ rest)

  -- the loop over the policy bindings, with those of the table retargeted
  unfoldable pub rename_bindings :
      DateTime → Map Text PolicyBinding → LakeCatResult (Map Text PolicyBinding)
  rename_bindings renamed_at [] = ok []
  rename_bindings renamed_at ((key, binding) ∷ bindings) = do
    validate_policy_binding_map_scope binding key
    let renamed = record binding {
      namespace = some destination.namespace;
      table = some destination.name;
      updated_at = renamed_at;
    }
    let bound = is_bound_to source binding
    if bound then validate_binding renamed else ok tt
    rest ← rename_bindings renamed_at bindings
    ok ((key, if bound then renamed else binding) ∷ rest)

  -- the writes of `rename_table`
  unfoldable pub renamed_state :
      TableRecord
      → List MemoryCommitRecord
      → Map Text IdempotencyReplay
      → Map Text PolicyBinding
      → CatalogAuditEvent × OutboxEvent
      → MemoryState
      → MemoryState
  renamed_state renamed_table commits replays bindings events state = record state {
    tables = insert (table_key destination) renamed_table (remove (table_key source) state.tables);
    commits = commits;
    idempotency = replays;
    policy_bindings = bindings;
    audit_events = state.audit_events ++ events.0 ∷ [];
    outbox_events = state.outbox_events ++ events.1 ∷ [];
  }

  unfoldable pub rename_table : DateTime → Principal → Option Json → Update TableRecord
  rename_table renamed_at principal authorization_receipt state = do
    ensure_that (Text-discrete source.warehouse destination.warehouse)
        (invalid_argument "table rename cannot cross warehouses" [])
    ensure (namespace_exists destination.warehouse destination.namespace state)
        (namespace_not_found destination.namespace)
    reject (contains_key (table_key source) state.soft_deletes) (table_not_found source)
    source_table ← ok_or (get (table_key source) state.tables) (table_not_found source)
    validate_table_record_map_scope source_table (table_key source)
    validate_table_record_identity source_table source
    reject
        (contains_key (table_key destination) state.tables
          || contains_key (table_key destination) state.soft_deletes)
        (already_exists "table" (stable_id destination))
    reject
        (any (λ commit. holds (Text-discrete commit.table_key (table_key destination)))
          state.commits)
        (internal "table rename destination has orphaned commit history" [])
    let renamed_table = moved destination renamed_at source_table
    validate_table renamed_table
    commits ← rename_commits state.commits
    replays ← retire_replays state.idempotency
    bindings ← rename_bindings renamed_at state.policy_bindings
    events ← table_rename_events source renamed_table principal authorization_receipt renamed_at
    ok (renamed_table, renamed_state renamed_table commits replays bindings events state)
