-- ===== src/Security/Receipts.antt =====
-- Authorization receipts of crates/lakecat-security/src/lib.rs and the checks by which a capability
-- is made from one. What serde derives is a parameter.
use lakecat.Prelude.{
  holds, Text, Text-discrete, text, Bool, map, Option, none, some, List, [], ◌∷◌, String, is_some,
}
use lakecat.Prelude.Json.{Json, get, str, option, object, array}
use lakecat.Prelude.Options.{and_then}
use lakecat.Prelude.Results.{
  LakeCatError, LakeCatResult, ok, invalid_argument, conflict, reject, ensure, ensure_that, ok_or,
  ◌>>=◌, ◌>>◌,
}
use lakecat.Core.Names.{TableIdent, TableIdent-discrete}
use lakecat.Records.Types.{Principal, DateTime}
use lakecat.Records.External.{External}
use lakecat.Records.Evidence.{content_hash_json}
use lakecat.Security.Actions.{CatalogAction, same_action, debug_name}
use lakecat.Security.Restriction.{ReadRestriction, unrestricted}

pub record AuthorizationRequest : Type 0 where
  pub principal : Principal
  pub action : CatalogAction
  pub table : Option TableIdent
  pub context : Json

pub record AuthorizationReceipt : Type 0 where
  pub principal : Principal
  pub action : CatalogAction
  pub table : Option TableIdent
  pub allowed : Bool
  pub engine : Text
  pub policy_hash : Option Text
  pub context : Json
  pub checked_at : DateTime

-- the derived `Deserialize` and `Serialize`
pub record Codecs : Type 0 where
  pub restriction_from_value : Json → Option ReadRestriction
  pub action_value : CatalogAction → Json

pub record Capability (Resource : Type 0) : Type 0 where
  pub receipt : AuthorizationReceipt
  pub resource : Resource

pub record TableReadScope : Type 0 where
  pub table : TableIdent
  pub restriction : ReadRestriction

pub record TableRenameTarget : Type 0 where
  pub source : TableIdent
  pub destination : TableIdent

-- `TableRenameTarget::new`
unfoldable pub new_rename_target :
    (source destination : TableIdent) → LakeCatResult TableRenameTarget
new_rename_target source destination = do
  ensure_that (Text-discrete source.warehouse destination.warehouse)
      (invalid_argument "table rename target cannot cross warehouses" [])
  ok (record { source = source; destination = destination })

abbrev pub wrong_action : AuthorizationReceipt → String → LakeCatError
wrong_action receipt action_description =
    invalid_argument "authorization receipt action {:?} cannot {action_description}"
      (debug_name receipt.action ∷ text action_description ∷ [])

-- `receipt.table.as_ref() == Some(table)`
unfoldable pub is_for_table : Option TableIdent → TableIdent → Bool
is_for_table none table = Bool.false
is_for_table (some t) table = holds (TableIdent-discrete t table)

unfoldable pub catalog_capability_from_receipt :
    AuthorizationReceipt → CatalogAction → String → LakeCatResult (Capability (Unit {0}))
catalog_capability_from_receipt receipt expected_action action_description = do
  ensure receipt.allowed (conflict "authorization receipt is not allowed" [])
  ensure (same_action receipt.action expected_action) (wrong_action receipt action_description)
  reject (is_some receipt.table)
      (invalid_argument "catalog authorization receipt must not be table-scoped" [])
  ok (record { receipt = receipt; resource = tt })

unfoldable pub validate_table_authorization_receipt :
    AuthorizationReceipt → TableIdent → CatalogAction → String → LakeCatResult (Unit {0})
validate_table_authorization_receipt receipt table expected_action action_description = do
  ensure receipt.allowed (conflict "authorization receipt is not allowed" [])
  ensure (same_action receipt.action expected_action) (wrong_action receipt action_description)
  ensure (is_for_table receipt.table table)
      (invalid_argument "authorization receipt table does not match authorized table" [])
  ok tt

unfoldable pub table_capability_from_receipt :
    AuthorizationReceipt
    → TableIdent
    → CatalogAction
    → String
    → LakeCatResult (Capability TableIdent)
table_capability_from_receipt receipt table expected_action action_description = do
  validate_table_authorization_receipt receipt table expected_action action_description
  ok (record { receipt = receipt; resource = table })

module _ ⦃codecs : Codecs⦄ where
  unfoldable pub receipt_restriction : Option Json → LakeCatResult ReadRestriction
  receipt_restriction none = ok unrestricted
  receipt_restriction (some value) =
      ok_or (codecs.restriction_from_value value)
        (invalid_argument "authorization receipt carries invalid read restriction: {err}" [])

  unfoldable pub table_read_capability_from_receipt :
      AuthorizationReceipt
      → TableIdent
      → CatalogAction
      → String
      → LakeCatResult (Capability TableReadScope)
  table_read_capability_from_receipt receipt table expected_action action_description = do
    capability ← table_capability_from_receipt receipt table expected_action action_description
    restriction ← receipt_restriction (get capability.receipt.context (text "read-restriction"))
    ok (record {
      receipt = capability.receipt;
      resource = record { table = capability.resource; restriction = restriction };
    })

  unfoldable pub hashed :
      ⦃ext : External⦄ → AuthorizationReceipt → List Text → LakeCatResult AuthorizationReceipt
  hashed receipt [] = ok receipt
  hashed ⦃ext⦄ receipt (h ∷ hs) = do
    policy_hash ← content_hash_json (
        object (
          ("engine", str receipt.engine)
          ∷ ("governance-policy-hash", option (and_then receipt.policy_hash (λ t. some (str t))))
          ∷ ("read-restriction-policy-hashes", array (map str (h ∷ hs)))
          ∷ ("action", codecs.action_value receipt.action)
          ∷ ("table", option (and_then receipt.table (λ t. some (ext.table_ident_value t))))
          ∷ []))
    ok (record receipt { policy_hash = some policy_hash })

  -- `AuthorizationReceipt::with_read_restriction_policy_hash`
  unfoldable pub with_read_restriction_policy_hash :
      ⦃ext : External⦄ → AuthorizationReceipt → LakeCatResult AuthorizationReceipt
  with_read_restriction_policy_hash receipt = elim (get receipt.context (text "read-restriction")) [
    | none ↦ ok receipt
    | some value ↦ do
      restriction ←
          ok_or (codecs.restriction_from_value value)
            (invalid_argument "authorization receipt carries invalid read restriction: {err}" [])
      hashed receipt restriction.policy_hashes
  ]
