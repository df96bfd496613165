-- ===== src/Security/Odrl.antt =====
-- The readers of ODRL policies in crates/lakecat-security/src/lib.rs: each takes from a policy what
-- it says of columns, rows, the purpose or the life of credentials.
use lakecat.Prelude.{
  Text, text, strip_prefix, Bool, true, false, Option, none, some, List, [], ◌∷◌, ◌++◌, String, map,
}
use lakecat.Prelude.Json.{Json, get, object, string}
use lakecat.Prelude.Options.{and_then}
use lakecat.Prelude.Results.{LakeCatResult, ok, invalid_argument, ok_or, ensure, ◌>>=◌, ◌>>◌}
use lakecat.Security.Columns.{has, dedup_columns}
use lakecat.Security.Jsonld.{
  or_else, flatten, get_in, jsonld_term, row_predicate_value, values_as_slice, string_list,
}

unfoldable pub constraint_operator : Json → Option Text
constraint_operator constraint =
    and_then (or_else (get constraint (text "operator")) (get constraint (text "odrl:operator")))
      jsonld_term

unfoldable pub constraint_left_operand : Json → Option Text
constraint_left_operand constraint =
    and_then
      (or_else (get constraint (text "leftOperand"))
        (or_else (get constraint (text "left-operand")) (get constraint (text "odrl:leftOperand"))))
      jsonld_term

unfoldable pub constraint_right_operand : Json → String → LakeCatResult Json
constraint_right_operand constraint label =
    ok_or
      (or_else (get constraint (text "rightOperand")) (
        or_else (get constraint (text "right-operand"))
          (get constraint (text "odrl:rightOperand"))))
      (invalid_argument "ODRL {label} constraint must include a right operand" (text label ∷ []))

-- the operator without the prefix of the vocabulary
unfoldable pub normalized : Text → Text
normalized operator = unwrap (
    or_else (strip_prefix (text "odrl:") operator)
      (strip_prefix (text "http://www.w3.org/ns/odrl/2/") operator))
  where
    unwrap : Option Text → Text
    unwrap (some t) = t
    unwrap none = operator

unfoldable pub require_constraint_operator : Json → String → List String → LakeCatResult (Unit {0})
require_constraint_operator constraint label allowed = do
  operator ←
      ok_or (constraint_operator constraint)
        (invalid_argument "ODRL {label} constraint must include an operator" (text label ∷ []))
  ensure (has (normalized operator) (map text allowed)) (
      invalid_argument "ODRL {label} constraint uses unsupported operator {operator}"
        (text label ∷ operator ∷ []))

unfoldable pub constraints_of : List Json → List Json
constraints_of [] = []
constraints_of (permission ∷ rest) =
    values_as_slice (get permission (text "constraint")) ++ constraints_of rest

unfoldable pub odrl_constraints : Json → List Json
odrl_constraints odrl =
    constraints_of (values_as_slice (get odrl (text "permission")))
    ++ values_as_slice (get odrl (text "constraint"))

-- `constraint_left_operand(constraint).unwrap_or_default()` among the names
unfoldable pub is_about : List String → Json → Bool
is_about names constraint = elim (constraint_left_operand constraint) [
  | some left ↦ has left (map text names)
  | none ↦ has [] (map text names)
]

abbrev pub column_names : List String
column_names =
    "column" ∷ "columns" ∷ "allowed-columns" ∷ "allowedColumns" ∷ "lakecat:allowed-columns" ∷ []

unfoldable pub constraint_columns : Json → LakeCatResult (List Text)
constraint_columns constraint = do
  value ← constraint_right_operand constraint "allowed columns"
  require_constraint_operator constraint "allowed columns" ("eq" ∷ "isAnyOf" ∷ "isAllOf" ∷ [])
  string_list value "ODRL allowed columns"

unfoldable pub collect_columns : List Text → List Json → LakeCatResult (List Text)
collect_columns columns [] = ok columns
collect_columns columns (constraint ∷ rest) = elim (is_about column_names constraint) [
  | true ↦ constraint_columns constraint >>= λ found. collect_columns (columns ++ found) rest
  | false ↦ collect_columns columns rest
]

unfoldable pub none_if_empty : List Text → Option (List Text)
none_if_empty [] = none
none_if_empty (c ∷ cs) = some (dedup_columns (c ∷ cs))

-- the first of the members that are there
unfoldable pub first : List Json → Option Json
first [] = none
first (v ∷ vs) = some v

abbrev pub explicit_columns : Json → Option Json
explicit_columns odrl = first (
    flatten (
      get odrl (text "allowed-columns")
      ∷ get odrl (text "allowedColumns")
      ∷ get odrl (text "columns")
      ∷ get_in odrl "lakecat:read-restriction" "allowed-columns"
      ∷ get_in odrl "lakecat:read-restriction" "allowedColumns"
      ∷ get_in odrl "read-restriction" "allowed-columns"
      ∷ get_in odrl "readRestriction" "allowedColumns"
      ∷ []))

unfoldable pub allowed_columns_from_odrl : Json → LakeCatResult (Option (List Text))
allowed_columns_from_odrl odrl = elim (explicit_columns odrl) [
  | some value ↦ do columns ← string_list value "ODRL allowed columns"; ok (some columns)
  | none ↦ do columns ← collect_columns [] (odrl_constraints odrl); ok (none_if_empty columns)
]

unfoldable pub and_row_predicates : Json → Json → Json
and_row_predicates left right =
    object (("type", string "and") ∷ ("left", left) ∷ ("right", right) ∷ [])

-- `match predicate { Some(existing) => and_row_predicates(existing, next), None => next }`
unfoldable pub with_predicate : Option Json → Json → Json
with_predicate (some existing) next = and_row_predicates existing next
with_predicate none next = next

unfoldable pub constraint_predicate : Json → LakeCatResult Json
constraint_predicate constraint = do
  value ← constraint_right_operand constraint "row predicate"
  require_constraint_operator constraint "row predicate" ("eq" ∷ [])
  row_predicate_value value

unfoldable pub collect_predicates : Option Json → List Json → LakeCatResult (Option Json)
collect_predicates predicate [] = ok predicate
collect_predicates predicate (constraint ∷ rest) =
    elim (is_about ("row-predicate" ∷ "rowPredicate" ∷ "lakecat:row-predicate" ∷ []) constraint) [
      | true ↦ constraint_predicate constraint >>= λ next.
          collect_predicates (some (with_predicate predicate next)) rest
      | false ↦ collect_predicates predicate rest
    ]

abbrev pub explicit_predicate : Json → Option Json
explicit_predicate odrl = first (
    flatten (
      get odrl (text "row-predicate")
      ∷ get odrl (text "rowPredicate")
      ∷ get odrl (text "lakecat:row-predicate")
      ∷ get_in odrl "lakecat:read-restriction" "row-predicate"
      ∷ get_in odrl "lakecat:read-restriction" "rowPredicate"
      ∷ get_in odrl "read-restriction" "row-predicate"
      ∷ get_in odrl "readRestriction" "rowPredicate"
      ∷ []))

unfoldable pub row_predicate_from_odrl : Json → LakeCatResult (Option Json)
row_predicate_from_odrl odrl = elim (explicit_predicate odrl) [
  | some value ↦ do predicate ← row_predicate_value value; ok (some predicate)
  | none ↦ collect_predicates none (odrl_constraints odrl)
]
