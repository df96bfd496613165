-- ===== src/Records/Policies.antt =====
-- Policy bindings and model publications (crates/lakecat-store/src/records.rs and helpers.rs).
pub mod Scope
pub mod Governs
use lakecat.Prelude.{
  Text, text, ℕ, ◌==◌, ltb, text_len, all, keep, is_blank, is_ascii_alphanumeric, Bool, true, false,
  not, Option, none, some, List, [], ◌∷◌, ◌++◌, String, Text-discrete, Texts-discrete, text_less,
  ◌≡◌, holds, is_some, ◌&&◌, ◌||◌, if◌then◌else◌,
}
use lakecat.Prelude.Results.{
  LakeCatResult, ok, err, invalid_argument, internal, reject, ensure, ensure_that, ok_or, if_some,
  for_each, ◌>>=◌, ◌>>◌,
}
use lakecat.Prelude.Json.{is_object, is_array}
use lakecat.Core.Names.{WarehouseName, Namespace, TableName, TableIdent, is_empty, is_name_char}
use lakecat.Records.Types.{PolicyBinding, ModelPublication, DateTime}
use lakecat.Records.External.{External}
use lakecat.Records.Evidence.{content_hash_bytes, validate_idempotency_request_hash_shape}

unfoldable pub policy_binding_key : WarehouseName → Text → Text
policy_binding_key warehouse policy_id = warehouse ++ (b':' ∷ policy_id)

unfoldable pub model_publication_key : WarehouseName → Text → Text
model_publication_key warehouse model_id = warehouse ++ (b':' ∷ model_id)

module _ ⦃ext : External⦄ where
  unfoldable pub policy_id_hash_context : Text → Text
  policy_id_hash_context policy_id = text "policy-id-hash=" ++ content_hash_bytes policy_id

  unfoldable pub validate_policy_id : Text → LakeCatResult (Unit {0})
  validate_policy_id policy_id = do
    reject (is_empty policy_id) (invalid_argument "policy id must not be empty" [])
    ensure (all is_name_char policy_id) (
        invalid_argument "policy id contains unsupported characters; {}"
          (policy_id_hash_context policy_id ∷ []))

  -- `PolicyBinding::validate`
  unfoldable pub validate_binding : PolicyBinding → LakeCatResult (Unit {0})
  validate_binding binding = do
    validate_policy_id binding.policy_id
    reject (is_some binding.table && not (is_some binding.namespace))
        (invalid_argument "table-scoped policy binding requires namespace" [])

  unfoldable pub validate_policy_binding_map_scope : PolicyBinding → Text → LakeCatResult (Unit {0})
  validate_policy_binding_map_scope binding binding_key = do
    validate_binding binding
    ensure_that (Text-discrete (policy_binding_key binding.warehouse binding.policy_id) binding_key)
        (internal "policy binding row scope does not match binding identity" [])

  -- `ModelPublication::validate`
  unfoldable pub validate_publication : ModelPublication → LakeCatResult (Unit {0})
  validate_publication publication = do
    reject (is_blank publication.model_id || ltb 255 (text_len publication.model_id))
        (invalid_argument "model publication id must be between 1 and 255 characters" [])
    reject (publication.version == 0)
        (invalid_argument "model publication version must be positive" [])
    ensure (is_some (ext.url_parse publication.artifact_uri))
        (invalid_argument "model artifact URI must be absolute" [])
    validate_idempotency_request_hash_shape publication.artifact_hash
    ensure (is_object publication.physical_bindings || is_array publication.physical_bindings)
        (invalid_argument "model physical bindings must be an object or array" [])
    for_each validate_policy_id publication.policy_binding_ids

-- the `match` of `PolicyBinding::applies_to_table`
unfoldable pub in_scope : Option Namespace → Option TableName → TableIdent → Bool
in_scope none none table = true
in_scope (some namespace) none table = holds (Texts-discrete namespace table.namespace)
in_scope (some namespace) (some table_name) table =
    holds (Texts-discrete namespace table.namespace) && holds (Text-discrete table_name table.name)
in_scope none (some table_name) table = false

unfoldable pub applies_to_table : PolicyBinding → TableIdent → Bool
applies_to_table binding table =
    if holds (Text-discrete binding.warehouse table.warehouse)
    then in_scope binding.namespace binding.table table
    else false

-- `sort_by` on policy ids: a stable sort by insertion
unfoldable pub insert_binding : PolicyBinding → List PolicyBinding → List PolicyBinding
insert_binding b [] = b ∷ []
insert_binding b (c ∷ cs) =
    let rest = insert_binding b cs in
    if text_less c.policy_id b.policy_id then c ∷ rest else b ∷ c ∷ cs

unfoldable pub sort_bindings : List PolicyBinding → List PolicyBinding
sort_bindings [] = []
sort_bindings (b ∷ bs) = insert_binding b (sort_bindings bs)

unfoldable pub policy_bindings_for_table : List PolicyBinding → TableIdent → List PolicyBinding
policy_bindings_for_table bindings table =
    sort_bindings (keep (λ binding. binding.enforced && applies_to_table binding table) bindings)
