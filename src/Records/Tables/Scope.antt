-- ===== src/Records/Tables/Scope.antt =====
-- What the checks of a row against its key and its table say when they pass.
use lakecat.Prelude.{Text, ◌≡◌}
use lakecat.Prelude.Results.{ok, >>-eq-ok, ensure_that-eq-ok}
use lakecat.Core.Names.{TableIdent, table_key}
use lakecat.Records.Types.{TableRecord}
use lakecat.Records.Tables.{
  validate_table, validate_table_record_identity, validate_table_record_map_scope,
}

pub validate_table_record_identity-eq :
    (t : TableRecord) (ident : TableIdent)
    → validate_table_record_identity t ident ≡ ok tt
    → t.ident ≡ ident
unfolding validate_table_record_identity
validate_table_record_identity-eq t ident h = ensure_that-eq-ok _ _ (>>-eq-ok _ _ h).1

pub validate_table_record_identity-valid :
    (t : TableRecord) (ident : TableIdent)
    → validate_table_record_identity t ident ≡ ok tt
    → validate_table t ≡ ok tt
unfolding validate_table_record_identity
validate_table_record_identity-valid t ident h = (>>-eq-ok _ _ h).0

pub validate_table_record_map_scope-eq :
    (t : TableRecord) (key : Text)
    → validate_table_record_map_scope t key ≡ ok tt
    → table_key t.ident ≡ key
unfolding validate_table_record_map_scope
validate_table_record_map_scope-eq t key h = ensure_that-eq-ok _ _ (>>-eq-ok _ _ h).1
