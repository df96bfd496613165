-- ===== src/Tests/Commits.antt =====
-- Commits at concrete inputs.
use lakecat.Prelude.{
  Text, text, Text-discrete, none, some, ◌≡◌, ◌≢◌, refl, false, [], ◌∷◌, ◌++◌, not_holds,
}
use lakecat.Prelude.Results.{ok, err}
use lakecat.Prelude.Map.{contains_key, text_key}
use lakecat.Core.Names.{TableIdent, table_key, stable_id}
use lakecat.Records.Types.{TableRecord, TableCommit}
use lakecat.Records.Tables.{validate_commit}
use lakecat.Memory.State.{MemoryState, empty}
use lakecat.Memory.Namespaces.{create_namespace}
use lakecat.Memory.Tables.{create_table}
use lakecat.Memory.Commits.{commit_table, commit_request_hash, reused, replay_table_commit}
use lakecat.Memory.Commits.Cases.{lookup_hash}
use lakecat.Memory.Commits.Swap.{Swapped, commit_table-swap, commit_table_chain}
use lakecat.Memory.Commits.Evidence.{Evidenced, commit_table-Evidenced}
use lakecat.Memory.Commits.Replay.{commit_table-retry}
use lakecat.Memory.Commits.Reuse.{
  replay_table_commit-answers, commit_table-reused, commit_table-collides, other_table,
}
use lakecat.Tests.Model.{model}
use lakecat.Tests.Sample.{
  sample, orders, orders_table, with_orders, commit_of, after, result_of, repeat,
}

abbrev plain_state : MemoryState
plain_state =
    after with_orders (commit_table 5 orders (commit_of (text "m0") (text "m1") none) with_orders)

abbrev plain_table : TableRecord
plain_table =
    result_of orders_table
      (commit_table 5 orders (commit_of (text "m0") (text "m1") none) with_orders)

plain_runs :
    commit_table 5 orders (commit_of (text "m0") (text "m1") none) with_orders
    ≡ ok (plain_table, plain_state)
unfolding model
plain_runs = refl

commit_table-swap_example :
    Swapped 5 orders (commit_of (text "m0") (text "m1") none) with_orders plain_table plain_state
commit_table-swap_example =
    commit_table-swap 5 orders (commit_of (text "m0") (text "m1") none) with_orders plain_table
      plain_state refl plain_runs

abbrev next_state : MemoryState
next_state =
    after plain_state (commit_table 6 orders (commit_of (text "m1") (text "m2") none) plain_state)

abbrev next_table : TableRecord
next_table =
    result_of orders_table
      (commit_table 6 orders (commit_of (text "m1") (text "m2") none) plain_state)

next_runs :
    commit_table 6 orders (commit_of (text "m1") (text "m2") none) plain_state
    ≡ ok (next_table, next_state)
unfolding model
next_runs = refl

commit_table_chain_example : some (text "m1") ≡ some (text "m1")
commit_table_chain_example =
    commit_table_chain orders 5 6 (commit_of (text "m0") (text "m1") none)
      (commit_of (text "m1") (text "m2") none) with_orders plain_state next_state plain_table
      next_table refl refl plain_runs next_runs

abbrev keyed : TableCommit
keyed = commit_of (text "m0") (text "m1") (some (text "k"))

abbrev keyed_state : MemoryState
keyed_state = after with_orders (commit_table 5 orders keyed with_orders)

abbrev keyed_table : TableRecord
keyed_table = result_of orders_table (commit_table 5 orders keyed with_orders)

keyed_runs : commit_table 5 orders keyed with_orders ≡ ok (keyed_table, keyed_state)
unfolding model
keyed_runs = refl

commit_table-retry_example : commit_table 6 orders keyed keyed_state ≡ ok (keyed_table, keyed_state)
commit_table-retry_example =
    commit_table-retry 5 6 orders keyed (text "k") with_orders keyed_table keyed_state refl
      keyed_runs

-- Another request with the key.
abbrev other : TableCommit
other = record (commit_of (text "m1") (text "m2") (some (text "k"))) {
  idempotency_request_hash = some (text "sha256:" ++ repeat 64 b'b');
}

abbrev first_hash : Text
first_hash = text "sha256:" ++ repeat 64 b'a'

orders_live : contains_key (table_key orders) keyed_state.soft_deletes ≡ false
unfolding model
orders_live = refl

other_valid : validate_commit other ≡ ok tt
unfolding model
other_valid = refl

keyed_hashed : commit_request_hash keyed ≡ ok first_hash
unfolding model
keyed_hashed = refl

other_hashed : commit_request_hash other ≡ ok first_hash
unfolding model
other_hashed = refl

hashes_differ : first_hash ≢ text "sha256:" ++ repeat 64 b'b'
unfolding text Text-discrete
hashes_differ = not_holds (Text-discrete _ _) refl

commit_table-reused_example : commit_table 6 orders other keyed_state ≡ err (reused orders)
commit_table-reused_example =
    commit_table-reused 5 6 orders keyed other (text "k") with_orders keyed_table keyed_state
      first_hash first_hash refl refl keyed_runs orders_live other_valid keyed_hashed other_hashed
      hashes_differ

-- Two tables that differ in how a dot splits the namespace.
abbrev dotted : TableIdent
dotted = record orders { namespace = text "a.b" ∷ [] }

abbrev split : TableIdent
split = record orders { namespace = text "a" ∷ text "b" ∷ [] }

abbrev both_namespaces : MemoryState
both_namespaces = after empty (
    create_namespace (text "w") split.namespace
      (after empty (create_namespace (text "w") dotted.namespace empty)))

abbrev both_tables : MemoryState
both_tables = after empty (
    create_table (record orders_table { ident = split })
      (after empty (create_table (record orders_table { ident = dotted }) both_namespaces)))

abbrev dotted_state : MemoryState
dotted_state = after both_tables (commit_table 5 dotted keyed both_tables)

abbrev dotted_table : TableRecord
dotted_table = result_of orders_table (commit_table 5 dotted keyed both_tables)

dotted_runs : commit_table 5 dotted keyed both_tables ≡ ok (dotted_table, dotted_state)
unfolding model
dotted_runs = refl

same_stable_id : stable_id dotted ≡ stable_id split
unfolding model
same_stable_id = refl

other_table_key : table_key dotted ≢ table_key split
unfolding model
other_table_key = not_holds (Text-discrete _ _) refl

split_live : contains_key (table_key split) dotted_state.soft_deletes ≡ false
unfolding model
split_live = refl

keyed_valid : validate_commit keyed ≡ ok tt
unfolding model
keyed_valid = refl

commit_table-collides_example : commit_table 6 split keyed dotted_state ≡ err other_table
commit_table-collides_example =
    commit_table-collides 5 6 dotted split keyed keyed (text "k") both_tables dotted_table
      dotted_state first_hash same_stable_id other_table_key refl refl dotted_runs split_live
      keyed_valid keyed_hashed

replay_table_commit-answers_example :
    (hash : Text) × (commit_request_hash keyed ≡ ok hash)
    × (replay_table_commit orders (text "k") (lookup_hash keyed hash) keyed_state
        ≡ ok (some keyed_table))
replay_table_commit-answers_example =
    replay_table_commit-answers 5 orders keyed (text "k") with_orders keyed_table keyed_state refl
      keyed_runs

commit_table-Evidenced_example :
    Evidenced 5 orders (commit_of (text "m0") (text "m1") none) with_orders plain_table plain_state
commit_table-Evidenced_example =
    commit_table-Evidenced 5 orders (commit_of (text "m0") (text "m1") none) with_orders plain_table
      plain_state refl plain_runs
