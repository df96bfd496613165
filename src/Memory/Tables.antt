-- ===== src/Memory/Tables.antt =====
-- Creating, loading and listing tables (crates/lakecat-store/src/memory.rs).
use lakecat.Prelude.{List, not, holds, Text-discrete, ◌&&◌, keep}
use lakecat.Prelude.Map.{text_key, contains_key, get, insert, values}
use lakecat.Prelude.Results.{ok, already_exists, reject, ensure, ok_or, for_each, ◌>>=◌, ◌>>◌}
use lakecat.Core.Names.{WarehouseName, TableIdent, table_key, stable_id}
use lakecat.Records.Types.{TableRecord}
use lakecat.Records.Tables.{
  validate_table, validate_table_record_map_scope, validate_table_record_identity,
}
use lakecat.Memory.State.{Update, Query, namespace_not_found, table_not_found, namespace_exists}

unfoldable pub list_tables : WarehouseName → Query (List TableRecord)
list_tables warehouse state = do
  for_each (λ entry. validate_table_record_map_scope entry.1 entry.0) state.tables
  ok (
      keep
        (λ table.
          holds (Text-discrete table.ident.warehouse warehouse)
          && not (contains_key (table_key table.ident) state.soft_deletes))
        (values state.tables))

unfoldable pub create_table : TableRecord → Update TableRecord
create_table table state = do
  validate_table table
  ensure (namespace_exists table.ident.warehouse table.ident.namespace state)
      (namespace_not_found table.ident.namespace)
  let key = table_key table.ident
  reject (contains_key key state.tables) (already_exists "table" (stable_id table.ident))
  ok (table, record state { tables = insert key table state.tables })

unfoldable pub load_table : TableIdent → Query TableRecord
load_table ident state = do
  let key = table_key ident
  reject (contains_key key state.soft_deletes) (table_not_found ident)
  table ← ok_or (get key state.tables) (table_not_found ident)
  validate_table_record_map_scope table key
  validate_table_record_identity table ident
  ok table
