-- ===== src/Security/Restriction.antt =====
-- `ReadRestriction` of crates/lakecat-security/src/lib.rs: what the ODRL policies of a table leave
-- of its columns, rows and credentials.
use lakecat.Prelude.{
  Text, ℕ, Bool, not, ◌&&◌, ◌||◌, Option, none, some, List, [], ◌∷◌, ◌++◌, is_some,
}
use lakecat.Prelude.Json.{Json}
use lakecat.Prelude.Results.{LakeCatResult, ok, conflict, reject, ◌>>=◌, ◌>>◌}
use lakecat.Core.Names.{is_empty}
use lakecat.Records.External.{External}
use lakecat.Records.Evidence.{content_hash_json}
use lakecat.Security.Columns.{intersect_columns, retain_allowed_columns}
use lakecat.Security.Odrl.{allowed_columns_from_odrl, row_predicate_from_odrl, with_predicate}
use lakecat.Security.Terms.{least, with_purpose, purpose_from_odrl, ttl_from_odrl}

pub record ReadRestriction : Type 0 where
  pub allowed_columns : Option (List Text)
  pub row_predicate : Option Json
  pub purpose : Option Text
  pub max_credential_ttl_seconds : Option ℕ
  pub policy_hashes : List Text

unfoldable pub unrestricted : ReadRestriction
unrestricted = record {
  allowed_columns = none;
  row_predicate = none;
  purpose = none;
  max_credential_ttl_seconds = none;
  policy_hashes = [];
}

unfoldable pub is_unrestricted : ReadRestriction → Bool
is_unrestricted r =
    not (is_some r.allowed_columns)
    && not (is_some r.row_predicate)
    && not (is_some r.purpose)
    && not (is_some r.max_credential_ttl_seconds)

unfoldable pub requires_governed_read : ReadRestriction → Bool
requires_governed_read r = is_some r.allowed_columns || is_some r.row_predicate

-- What one policy adds to each part of the restriction so far.
unfoldable pub merge_columns : (existing columns : Option (List Text)) → Option (List Text)
merge_columns existing none = existing
merge_columns (some existing) (some columns) = some (intersect_columns existing columns)
merge_columns none (some columns) = some columns

unfoldable pub merge_predicates : (existing row_predicate : Option Json) → Option Json
merge_predicates existing none = existing
merge_predicates existing (some row_predicate) = some (with_predicate existing row_predicate)

unfoldable pub merge_purposes : (existing purpose : Option Text) → LakeCatResult (Option Text)
merge_purposes existing none = ok existing
merge_purposes existing (some purpose) = do agreed ← with_purpose existing purpose; ok (some agreed)

unfoldable pub merge_ttls : (existing ttl : Option ℕ) → Option ℕ
merge_ttls existing none = existing
merge_ttls (some existing) (some ttl) = some (least existing ttl)
merge_ttls none (some ttl) = some ttl

module _ ⦃ext : External⦄ where
  unfoldable pub add_policy : ReadRestriction → Json → LakeCatResult ReadRestriction
  add_policy restriction odrl = do
    policy_hash ← content_hash_json odrl
    columns ← allowed_columns_from_odrl odrl
    row_predicate ← row_predicate_from_odrl odrl
    purpose ← purpose_from_odrl odrl
    agreed ← merge_purposes restriction.purpose purpose
    ttl ← ttl_from_odrl odrl
    ok (record {
      allowed_columns = merge_columns restriction.allowed_columns columns;
      row_predicate = merge_predicates restriction.row_predicate row_predicate;
      purpose = agreed;
      max_credential_ttl_seconds = merge_ttls restriction.max_credential_ttl_seconds ttl;
      policy_hashes = restriction.policy_hashes ++ policy_hash ∷ [];
    })

  unfoldable pub add_policies : ReadRestriction → List Json → LakeCatResult ReadRestriction
  add_policies restriction [] = ok restriction
  add_policies restriction (odrl ∷ policies) =
      add_policy restriction odrl >>= λ next. add_policies next policies

  unfoldable pub from_odrl_policies : List Json → LakeCatResult ReadRestriction
  from_odrl_policies policies = add_policies unrestricted policies

unfoldable pub project : Option (List Text) → List Text → LakeCatResult (List Text)
project none requested = ok requested
project (some allowed) requested = do
  reject (is_empty allowed)
      (conflict "read restriction leaves no columns available for scan planning" [])
  narrowed requested
  where
    narrowed : List Text → LakeCatResult (List Text)
    narrowed [] = ok allowed
    narrowed (c ∷ cs) = do
      let projection = retain_allowed_columns (c ∷ cs) allowed
      reject (is_empty projection)
          (conflict "requested projection is outside the governed read restriction" [])
      ok projection

unfoldable pub effective_projection : ReadRestriction → List Text → LakeCatResult (List Text)
effective_projection r requested_projection = project r.allowed_columns requested_projection

unfoldable pub effective_stats_fields : ReadRestriction → List Text → List Text
effective_stats_fields r requested = fields r.allowed_columns
  where
    fields : Option (List Text) → List Text
    fields none = requested
    fields (some allowed) = retain_allowed_columns requested allowed

unfoldable pub mandatory_filters : ReadRestriction → List Json
mandatory_filters r = filters r.row_predicate
  where
    filters : Option Json → List Json
    filters none = []
    filters (some p) = p ∷ []
