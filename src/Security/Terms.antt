-- ===== src/Security/Terms.antt =====
-- The readers of the purpose and of the life of credentials in crates/lakecat-security/src/lib.rs.
use lakecat.Prelude.{
  Text, Text-discrete, text, leb, if◌then◌else◌, ℕ, true, false, Option, none, some, List, [], ◌∷◌,
  String,
}
use lakecat.Prelude.Json.{Json, get}
use lakecat.Prelude.Results.{LakeCatResult, ok, err, invalid_argument, conflict, ok_or, ◌>>=◌, ◌>>◌}
use lakecat.Security.Jsonld.{
  flatten, get_in, jsonld_string_value, nonblank_jsonld_string, require_nonblank_string, ttl_value,
}
use lakecat.Security.Odrl.{
  constraint_right_operand, require_constraint_operator, is_about, odrl_constraints,
}

unfoldable pub agree : {P : Type 0} → Dec P → Text → Text → LakeCatResult Text
agree (yes p) existing next = ok existing
agree (no n) existing next = err (
    conflict "ODRL read restriction carries conflicting purposes {existing} and {next}"
      (existing ∷ next ∷ []))

-- the `match` on the purpose so far
unfoldable pub with_purpose : Option Text → Text → LakeCatResult Text
with_purpose (some existing) next = agree (Text-discrete existing next) existing next
with_purpose none next = ok next

unfoldable pub constraint_purpose : Json → LakeCatResult Text
constraint_purpose constraint = do
  require_constraint_operator constraint "purpose" ("eq" ∷ [])
  right_operand ← constraint_right_operand constraint "purpose"
  value ←
      ok_or (jsonld_string_value right_operand)
        (invalid_argument "ODRL purpose constraint must use a string right operand" [])
  require_nonblank_string value "ODRL purpose constraint"

unfoldable pub collect_purposes : Option Text → List Json → LakeCatResult (Option Text)
collect_purposes purpose [] = ok purpose
collect_purposes purpose (constraint ∷ rest) =
    elim (is_about ("purpose" ∷ "lakecat:purpose" ∷ []) constraint) [
      | true ↦ constraint_purpose constraint >>= λ next.
          with_purpose purpose next >>= λ agreed. collect_purposes (some agreed) rest
      | false ↦ collect_purposes purpose rest
    ]

unfoldable pub explicit_purpose : Option Json → LakeCatResult (Option Text)
explicit_purpose none = ok none
explicit_purpose (some value) = do t ← nonblank_jsonld_string "ODRL purpose" value; ok (some t)

unfoldable pub purpose_from_odrl : Json → LakeCatResult (Option Text)
purpose_from_odrl odrl = do
  purpose ← explicit_purpose (get odrl (text "purpose"))
  collect_purposes purpose (odrl_constraints odrl)

-- `u64::min`
abbrev pub least : ℕ → ℕ → ℕ
least a b = if leb a b then a else b

unfoldable pub tighten_ttl : Option ℕ → Option ℕ → Option ℕ
tighten_ttl (some existing) (some next) = some (least existing next)
tighten_ttl (some existing) none = some existing
tighten_ttl none next = next

unfoldable pub explicit_ttls : Option ℕ → List Json → LakeCatResult (Option ℕ)
explicit_ttls ttl [] = ok ttl
explicit_ttls ttl (value ∷ rest) = do
  next ← ttl_value value
  explicit_ttls (tighten_ttl ttl next) rest

abbrev pub ttl_names : List String
ttl_names =
    "max-credential-ttl-seconds" ∷ "maxCredentialTtlSeconds" ∷ "credential-ttl" ∷ "credentialTtl"
    ∷ "lakecat:max-credential-ttl-seconds" ∷ "lakecat:credential-ttl" ∷ []

unfoldable pub constraint_ttl : Json → LakeCatResult (Option ℕ)
constraint_ttl constraint = do
  value ← constraint_right_operand constraint "max credential TTL"
  require_constraint_operator constraint "max credential TTL" ("eq" ∷ "lteq" ∷ "lt" ∷ [])
  ttl_value value

unfoldable pub collect_ttls : Option ℕ → List Json → LakeCatResult (Option ℕ)
collect_ttls ttl [] = ok ttl
collect_ttls ttl (constraint ∷ rest) = elim (is_about ttl_names constraint) [
  | true ↦ constraint_ttl constraint >>= λ next. collect_ttls (tighten_ttl ttl next) rest
  | false ↦ collect_ttls ttl rest
]

unfoldable pub ttl_from_odrl : Json → LakeCatResult (Option ℕ)
ttl_from_odrl odrl = do
  ttl ← explicit_ttls none (
      flatten (
        get odrl (text "max-credential-ttl-seconds")
        ∷ get odrl (text "maxCredentialTtlSeconds")
        ∷ get_in odrl "lakecat:read-restriction" "max-credential-ttl-seconds"
        ∷ get_in odrl "lakecat:read-restriction" "maxCredentialTtlSeconds"
        ∷ get_in odrl "read-restriction" "max-credential-ttl-seconds"
        ∷ get_in odrl "readRestriction" "maxCredentialTtlSeconds"
        ∷ []))
  collect_ttls ttl (odrl_constraints odrl)
