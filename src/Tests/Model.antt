-- ===== src/Tests/Model.antt =====
-- Every function of the model, opened together for the tests.
use lakecat.Prelude.{
  ℕ, text, text_less, texts_less, text_len, is_ascii_hexdigit, is_blank, trim, to_ascii_lowercase,
  starts_with, strip_prefix, contains, join, to_string, is_whitespace, any, all, keep,
  Text-discrete, Texts-discrete, ℕ_discrete,
}
use lakecat.Core.Names.{
  validate_name, new_warehouse_name, new_table_name, new_namespace, path, encode_parts, storage_key,
  stable_id, table_key, both_parts, TableIdent-discrete,
}
use lakecat.Records.Evidence.{
  content_hash_bytes, content_hash_json, location_has_query_fragment_or_userinfo, is_sha256,
  validate_sha256_evidence, validate_idempotency_request_hash_shape,
  validate_idempotency_record_request_hash, validate_outbox_event_id_shape,
  validate_idempotency_key_shape, embeds_raw_secret_material, is_blank_some,
  validate_commit_record_metadata_location,
}
use lakecat.Records.Metadata.{
  ℤ-discrete, option_discrete, location_discrete, version_discrete, table_metadata_format_version,
  table_commit_format_version, table_commit_snapshot_id, table_commit_policy_hash,
}
use lakecat.Records.Tables.{
  validate_table_metadata_format_version, validate_table, validate_commit, validate_for_table,
  table_response_hash, validate_soft_delete, validate_table_record_identity,
  validate_table_record_map_scope, validate_soft_delete_record_map_scope,
  validate_idempotency_record_table_key,
}
use lakecat.Records.Events.{
  same_kind, same_principal, get_str, strings_of, audit_payload_namespace_matches,
  receipt_principal, validate_audit_payload_authorization_principal, named_scope,
  validate_audit_payload_table_scope, validate_recordable, new_audit_event, audit_event_id,
}
use lakecat.Records.Events.Outbox.{
  table_member, audit_outbox_payload, outbox_event_from_payload, event_context, event_type_context,
  validate_pending, receipt_member, table_rename_events,
}
use lakecat.Records.Policies.{
  policy_binding_key, model_publication_key, policy_id_hash_context, validate_policy_id,
  validate_binding, validate_policy_binding_map_scope, validate_publication, in_scope,
  applies_to_table, insert_binding, sort_bindings, policy_bindings_for_table,
}
use lakecat.Records.Properties.{
  validate_namespace_property_keys, new_properties, to_set, first_overlap, new_property_update,
  remove_all, extend, apply,
}
use lakecat.Records.Views.{
  validate_column, validate_columns, view_key_parts, view_key, view_stable_id,
  validate_expected_view_version, require_expected_view_version, public_config_key_hash_context,
  validate_public_config, validate_view, validate_view_record_scope, validate_view_record_map_scope,
  with_next_version_after_history, upsert_receipt, drop_receipt,
}
use lakecat.Records.Receipts.{
  version_option_discrete, receipt_before, insert_receipt, sort_receipts, max_receipt,
  validate_operation, validate_receipt, view_receipt_hash, chain_start, chain_step, chain_rest,
  validate_chain, group_receipts, validate_view_receipt_chains, latest_view_receipt_evidence,
  validate_memory_view_receipt_scope,
}
use lakecat.Memory.State.{namespace_exists, is_member}
use lakecat.Memory.Namespaces.{
  create_namespace_with_properties, create_namespace, list_namespaces, load_namespace_properties,
  load_namespace, update_namespace_properties, is_prefix, namespace_is_descendant,
  retired_table_keys, check_soft_deletes, is_namespace_of, drop_namespace,
}
use lakecat.Memory.Tables.{list_tables, create_table, load_table}
use lakecat.Memory.Commits.{
  idem_key, find_replay, find_commit_replay, committed_table, location_value, commit_request_hash,
  optional_location_hash, metadata_pointer_conflict, commit_record, commit_audit_payload,
  commit_outbox_payload, remember, committed_state, apply_commit, commit_table, replay_table_commit,
  validate_table_commit_record_memory_scope, table_commit_records,
}
use lakecat.Memory.Rename.{
  idempotency_prefix, is_table_of, is_bound_to, rename_commits, check_replay, retire_replays,
  rename_bindings, renamed_state, rename_table,
}
use lakecat.Memory.SoftDeletes.{
  soft_delete_of, deleted_payload, deleted_state, soft_delete_table, restored_payload,
  restored_outbox_payload, restored_state, restore_table,
}
use lakecat.Memory.Views.{
  insert_view, sort_views, receipts_of, upserted_state, store_view, upsert_view,
  upsert_view_if_version, list_view_version_receipts, load_view, record_drop, find_droppable,
  drop_view_if_version, list_views,
}
use lakecat.Memory.Policies.{
  upsert_policy_binding, list_policy_bindings,
  policy_bindings_for_table as policy_bindings_for_table_policies, policy_bindings_for_tables,
  publication_payload, publication_events, require_bindings, current_version, same_version,
  append_publication, prepare_publication, publish_model, model_publications,
}
use lakecat.Memory.Outbox.{
  event_before, insert_event, sort_events, deliver, record_audit_event, pending_outbox_events,
  check_due, mark_outbox_delivered,
}
use lakecat.Prelude.Results.{
  ◌>>=◌, ◌>>◌, reject, ensure, ensure_that, ok_or, if_some, map_err, for_each, collect,
}
use lakecat.Prelude.Map.{get, contains_key, insert, remove, retain_keys}
use lakecat.Prelude.Json.{get_field, set_field, get as get_json, set, object, array}

-- To unfold this is to unfold all that it names.
unfoldable pub model : ℕ
unfolding text text_less texts_less text_len is_ascii_hexdigit is_blank trim to_ascii_lowercase
    starts_with strip_prefix contains join to_string is_whitespace any all keep Text-discrete
    Texts-discrete ℕ_discrete validate_name new_warehouse_name new_table_name new_namespace path
    encode_parts storage_key stable_id table_key both_parts TableIdent-discrete content_hash_bytes
    content_hash_json location_has_query_fragment_or_userinfo is_sha256 validate_sha256_evidence
    validate_idempotency_request_hash_shape validate_idempotency_record_request_hash
    validate_outbox_event_id_shape validate_idempotency_key_shape embeds_raw_secret_material
    is_blank_some validate_commit_record_metadata_location ℤ-discrete option_discrete
    location_discrete version_discrete table_metadata_format_version table_commit_format_version
    table_commit_snapshot_id table_commit_policy_hash validate_table_metadata_format_version
    validate_table validate_commit validate_for_table table_response_hash validate_soft_delete
    validate_table_record_identity validate_table_record_map_scope
    validate_soft_delete_record_map_scope validate_idempotency_record_table_key same_kind
    same_principal get_str strings_of audit_payload_namespace_matches receipt_principal
    validate_audit_payload_authorization_principal named_scope validate_audit_payload_table_scope
    validate_recordable new_audit_event audit_event_id table_member audit_outbox_payload
    outbox_event_from_payload event_context event_type_context validate_pending receipt_member
    table_rename_events policy_binding_key model_publication_key policy_id_hash_context
    validate_policy_id validate_binding validate_policy_binding_map_scope validate_publication
    in_scope applies_to_table insert_binding sort_bindings policy_bindings_for_table
    validate_namespace_property_keys new_properties to_set first_overlap new_property_update
    remove_all extend apply validate_column validate_columns view_key_parts view_key view_stable_id
    validate_expected_view_version require_expected_view_version public_config_key_hash_context
    validate_public_config validate_view validate_view_record_scope validate_view_record_map_scope
    with_next_version_after_history upsert_receipt drop_receipt version_option_discrete
    receipt_before insert_receipt sort_receipts max_receipt validate_operation validate_receipt
    view_receipt_hash chain_start chain_step chain_rest validate_chain group_receipts
    validate_view_receipt_chains latest_view_receipt_evidence validate_memory_view_receipt_scope
    namespace_exists is_member create_namespace_with_properties create_namespace list_namespaces
    load_namespace_properties load_namespace update_namespace_properties is_prefix
    namespace_is_descendant retired_table_keys check_soft_deletes is_namespace_of drop_namespace
    list_tables create_table load_table idem_key find_replay find_commit_replay committed_table
    location_value commit_request_hash optional_location_hash metadata_pointer_conflict
    commit_record commit_audit_payload commit_outbox_payload remember committed_state apply_commit
    commit_table replay_table_commit validate_table_commit_record_memory_scope table_commit_records
    idempotency_prefix is_table_of is_bound_to rename_commits check_replay retire_replays
    rename_bindings renamed_state rename_table soft_delete_of deleted_payload deleted_state
    soft_delete_table restored_payload restored_outbox_payload restored_state restore_table
    insert_view sort_views receipts_of upserted_state store_view upsert_view upsert_view_if_version
    list_view_version_receipts load_view record_drop find_droppable drop_view_if_version list_views
    upsert_policy_binding list_policy_bindings policy_bindings_for_table_policies
    policy_bindings_for_tables publication_payload publication_events require_bindings
    current_version same_version append_publication prepare_publication publish_model
    model_publications event_before insert_event sort_events deliver record_audit_event
    pending_outbox_events check_due mark_outbox_delivered ◌>>=◌ ◌>>◌ reject ensure ensure_that ok_or
    if_some map_err for_each collect get contains_key insert remove retain_keys get_field set_field
    get_json set object array
model = 0
