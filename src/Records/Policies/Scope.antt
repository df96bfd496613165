-- ===== src/Records/Policies/Scope.antt =====
-- The check of a policy binding against its key (crates/lakecat-store/src/helpers.rs).
use lakecat.Prelude.{Text, ◌≡◌, arith}
use lakecat.Prelude.Results.{ok, ◌>>=◌, ◌>>◌, ensure_that, >>-eq-ok, ensure_that-eq-ok}
use lakecat.Records.Types.{PolicyBinding}
use lakecat.Records.External.{External}
use lakecat.Records.Policies.{
  validate_binding, validate_policy_binding_map_scope, policy_binding_key,
}

module _ ⦃ext : External⦄ where
  pub validate_policy_binding_map_scope-eq :
      (b : PolicyBinding) (k : Text)
      → validate_policy_binding_map_scope b k ≡ ok tt
      → policy_binding_key b.warehouse b.policy_id ≡ k
  unfolding validate_policy_binding_map_scope
  validate_policy_binding_map_scope-eq b k h = ensure_that-eq-ok _ _ (>>-eq-ok _ _ h).1

  pub validate_policy_binding_map_scope-intro :
      (b : PolicyBinding) (k : Text)
      → validate_binding b ≡ ok tt
      → policy_binding_key b.warehouse b.policy_id ≡ k
      → validate_policy_binding_map_scope b k ≡ ok tt
  unfolding validate_policy_binding_map_scope ◌>>◌ ◌>>=◌ ensure_that
  validate_policy_binding_map_scope-intro b k h e = ground arith
