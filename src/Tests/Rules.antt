-- ===== src/Tests/Rules.antt =====
-- The functions of the services, of security, of profiles and of governed scans, opened together for
-- the tests.
use lakecat.Prelude.{ℕ}
use lakecat.Prelude.Decimal.{value_from, parse_digits, parse_u64}
use lakecat.Prelude.Lists.{insert_sorted, sort, split}
use lakecat.Records.Locations.{
  hex_value, escape, decode, percent_decode_segment, is_dot_path_segment, before_query,
  location_has_dot_path_segment, secret_ref_has_dot_path_segment, ends_with_slash,
  location_matches_storage_profile_prefix,
}
use lakecat.Records.Profiles.{
  from_location, provider_str, provider_from_str, mode_str, mode_from_str, same_provider,
  storage_profile_key,
}
use lakecat.Records.Profiles.Checks.{
  storage_profile_id_hash_context, storage_profile_prefix_hash_context, secret_ref_hash_context,
  validate_profile_id, validate_location_prefix_path, validate_location_prefix_provider,
  validate_issuance_mode_provider, validate_secret_url, validate_secret_ref,
  validate_secret_ref_issuance_mode, lacks_secret, validate_storage_profile_public_config,
  validate_profile, validate_storage_profile_map_scope,
}
use lakecat.Records.Profiles.Match.{
  is_candidate, new_storage_profile, ambiguous, best_of, storage_profile_match, inferred_for_table,
  can_return_public_credential,
}
use lakecat.Records.Management.{
  project_id_hash_context, server_endpoint_url_hash_context, warehouse_storage_root_hash_context,
  validate_project_id, validate_server_endpoint_url, validate_warehouse_storage_root_path,
  validate_server, validate_project, validate_warehouse, validate_server_record_map_scope,
  validate_project_record_map_scope, validate_warehouse_record_map_scope,
}
use lakecat.Memory.Management.{
  upsert_server, list_servers, load_server, check_server, upsert_project, list_projects,
  load_project, upsert_warehouse, load_warehouse, list_warehouses, list_project_warehouses,
}
use lakecat.Memory.Profiles.{
  upsert_storage_profile, list_storage_profiles, storage_profile_for_table,
}
use lakecat.Memory.Views.Listings.{
  parts_match, memory_view_receipt_key_matches_namespace, view_key_matches_warehouse, listed_before,
  view_before, views_of, list_namespace_view_version_receipts, list_warehouse_view_version_receipts,
  list_warehouse_views, drop_view,
}
use lakecat.Memory.Grants.{saved, save_governed_scan_grant, load_governed_scan_grant}
use lakecat.Security.Actions.{action_name, debug_name, discriminant, same_action}
use lakecat.Security.Columns.{
  has, insert_seen, keep_flags, kept, push_new, dedup_columns, to_seen, retain_allowed_columns,
  intersect_columns,
}
use lakecat.Security.Jsonld.{
  flatten, get_in, jsonld_term, jsonld_string_value, jsonld_u64_value, require_nonblank_string,
  nonblank_jsonld_string, ttl_value, row_predicate_value, values_as_slice, string_alone,
  string_object, raw_strings, string_list,
}
use lakecat.Security.Odrl.{
  constraint_operator, constraint_left_operand, constraint_right_operand, normalized,
  require_constraint_operator, constraints_of, odrl_constraints, is_about, constraint_columns,
  collect_columns, none_if_empty, first, allowed_columns_from_odrl, and_row_predicates,
  with_predicate, constraint_predicate, collect_predicates, row_predicate_from_odrl,
}
use lakecat.Security.Terms.{
  agree, with_purpose, constraint_purpose, collect_purposes, explicit_purpose, purpose_from_odrl,
  tighten_ttl, explicit_ttls, constraint_ttl, collect_ttls, ttl_from_odrl,
}
use lakecat.Security.Restriction.{
  unrestricted, is_unrestricted, requires_governed_read, merge_columns, merge_predicates,
  merge_purposes, merge_ttls, add_policy, add_policies, from_odrl_policies, project,
  effective_projection, effective_stats_fields, mandatory_filters,
}
use lakecat.Security.Receipts.{
  new_rename_target, is_for_table, catalog_capability_from_receipt,
  validate_table_authorization_receipt, table_capability_from_receipt, receipt_restriction,
  table_read_capability_from_receipt, hashed, with_read_restriction_policy_hash,
}
use lakecat.Security.Capabilities.{
  table_action, table_description, read_action, read_description, catalog_action,
  catalog_description, table_from_receipt, catalog_from_receipt, read_from_receipt,
  rename_from_receipt, resource_name,
}
use lakecat.Service.Namespaces.{
  parse_rest_namespace, rest_table_ident, parent_of, namespace_parent, is_immediate_child,
  encode_page_token, decode_page_token, token_offset, from_parts, request_of, from_query, page_of,
  children_of, namespace_page,
}
use lakecat.Service.Outbox.{
  ids_of, total, drain_response, reject_duplicates, gather, project_event, with_first, go_on,
  project_all, finish, marked, acknowledge, drain_batch, drain_outbox_once,
}
use lakecat.Governed.Checks.{
  is_canonical_digest, validate_governed_sha256_digest, validate_governed_scan_text, add_lengths,
  validate_string_budget, validate_governed_scan_table, validate_fields_of, validate_projection,
  validate_governed_scan_projection, validate_governed_scan_requested_projection,
}
use lakecat.Governed.Proofs.{
  validate_fields, validate_evidence, validate_proof_structure, content_hash_domain_json,
  domain_hash, evidence_digest_fields, proof_digest_fields, digest_fields_value,
  proof_digest_from_evidence, proof_digest_from_proof, issue, validate_integrity, canonicalize_json,
  canonical_items, canonical_fields,
}
use lakecat.Governed.Grants.{
  same_proof, has_same_stable_evidence, validate_governed_scan_grant_id, validate_grant,
}
use lakecat.Prelude.Json.{list_of}

-- To unfold this is to unfold all that it names.
unfoldable pub rules : ℕ
unfolding value_from parse_digits parse_u64 insert_sorted sort split hex_value escape decode
    percent_decode_segment is_dot_path_segment before_query location_has_dot_path_segment
    secret_ref_has_dot_path_segment ends_with_slash location_matches_storage_profile_prefix
    from_location provider_str provider_from_str mode_str mode_from_str same_provider
    storage_profile_key storage_profile_id_hash_context storage_profile_prefix_hash_context
    secret_ref_hash_context validate_profile_id validate_location_prefix_path
    validate_location_prefix_provider validate_issuance_mode_provider validate_secret_url
    validate_secret_ref validate_secret_ref_issuance_mode lacks_secret
    validate_storage_profile_public_config validate_profile validate_storage_profile_map_scope
    is_candidate new_storage_profile ambiguous best_of storage_profile_match inferred_for_table
    can_return_public_credential project_id_hash_context server_endpoint_url_hash_context
    warehouse_storage_root_hash_context validate_project_id validate_server_endpoint_url
    validate_warehouse_storage_root_path validate_server validate_project validate_warehouse
    validate_server_record_map_scope validate_project_record_map_scope
    validate_warehouse_record_map_scope upsert_server list_servers load_server check_server
    upsert_project list_projects load_project upsert_warehouse load_warehouse list_warehouses
    list_project_warehouses upsert_storage_profile list_storage_profiles storage_profile_for_table
    parts_match memory_view_receipt_key_matches_namespace view_key_matches_warehouse listed_before
    view_before views_of list_namespace_view_version_receipts list_warehouse_view_version_receipts
    list_warehouse_views drop_view saved save_governed_scan_grant load_governed_scan_grant
    action_name debug_name discriminant same_action has insert_seen keep_flags kept push_new
    dedup_columns to_seen retain_allowed_columns intersect_columns flatten get_in jsonld_term
    jsonld_string_value jsonld_u64_value require_nonblank_string nonblank_jsonld_string ttl_value
    row_predicate_value values_as_slice string_alone string_object raw_strings string_list
    constraint_operator constraint_left_operand constraint_right_operand normalized
    require_constraint_operator constraints_of odrl_constraints is_about constraint_columns
    collect_columns none_if_empty first allowed_columns_from_odrl and_row_predicates with_predicate
    constraint_predicate collect_predicates row_predicate_from_odrl agree with_purpose
    constraint_purpose collect_purposes explicit_purpose purpose_from_odrl tighten_ttl explicit_ttls
    constraint_ttl collect_ttls ttl_from_odrl unrestricted is_unrestricted requires_governed_read
    merge_columns merge_predicates merge_purposes merge_ttls add_policy add_policies
    from_odrl_policies project effective_projection effective_stats_fields mandatory_filters
    new_rename_target is_for_table catalog_capability_from_receipt
    validate_table_authorization_receipt table_capability_from_receipt receipt_restriction
    table_read_capability_from_receipt hashed with_read_restriction_policy_hash table_action
    table_description read_action read_description catalog_action catalog_description
    table_from_receipt catalog_from_receipt read_from_receipt rename_from_receipt resource_name
    parse_rest_namespace rest_table_ident parent_of namespace_parent is_immediate_child
    encode_page_token decode_page_token token_offset from_parts request_of from_query page_of
    children_of namespace_page ids_of total drain_response reject_duplicates gather project_event
    with_first go_on project_all finish marked acknowledge drain_batch drain_outbox_once
    is_canonical_digest validate_governed_sha256_digest validate_governed_scan_text add_lengths
    validate_string_budget validate_governed_scan_table validate_fields_of validate_projection
    validate_governed_scan_projection validate_governed_scan_requested_projection validate_fields
    validate_evidence validate_proof_structure content_hash_domain_json domain_hash
    evidence_digest_fields proof_digest_fields digest_fields_value proof_digest_from_evidence
    proof_digest_from_proof issue validate_integrity canonicalize_json canonical_items
    canonical_fields same_proof has_same_stable_evidence validate_governed_scan_grant_id
    validate_grant list_of
rules = 0
