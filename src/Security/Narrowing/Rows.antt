-- ===== src/Security/Narrowing/Rows.antt =====
-- The row predicate of a read restriction of crates/lakecat-security/src/lib.rs.
use lakecat.Prelude.{
  all, ◌≡◌, refl, ap, sym, ◌∙◌, Bool, true, ◌&&◌, Option, none, some, List, arith,
}
use lakecat.Prelude.Json.{Json}
use lakecat.Prelude.Results.{ok}
use lakecat.Records.External.{External}
use lakecat.Security.Odrl.{row_predicate_from_odrl, with_predicate, and_row_predicates}
use lakecat.Security.Restriction.{
  ReadRestriction, unrestricted, merge_predicates, from_odrl_policies,
}
use lakecat.Security.Narrowing.{reads, Added, add_policies-all}

-- What a predicate says of a row is the reader's of Iceberg expressions; it is a conjunction on `and`.
module _ (meaning : Json → Bool)
    (conjunction : (l r : Json) → meaning (and_row_predicates l r) ≡ meaning l && meaning r) where
  pub passes : Option Json → Bool
  passes none = true
  passes (some predicate) = meaning predicate

  pub policy_passes : Json → Bool
  policy_passes odrl = reads (row_predicate_from_odrl odrl) passes

  passes-merge_predicates :
      (a b : Option Json) → passes (merge_predicates a b) ≡ passes a && passes b
  unfolding passes merge_predicates with_predicate
  passes-merge_predicates none none = refl
  passes-merge_predicates (some left) none = ground arith
  passes-merge_predicates none (some right) = refl
  passes-merge_predicates (some left) (some right) = conjunction left right

  -- A row passes the restriction that policies are read into exactly when it passes each of them,
  -- if `and` means a conjunction.
  pub from_odrl_policies-rows :
      ⦃ext : External⦄ (policies : List Json) (restriction : ReadRestriction)
      → from_odrl_policies policies ≡ ok restriction
      → passes restriction.row_predicate ≡ all policy_passes policies
  unfolding from_odrl_policies all unrestricted policy_passes passes
  from_odrl_policies-rows policies restriction h =
      add_policies-all (λ r. passes r.row_predicate) policy_passes narrows unrestricted policies
        restriction h
    where
      narrows :
          (r : ReadRestriction) (odrl : Json) (next : ReadRestriction)
          → Added r odrl next
          → passes next.row_predicate ≡ passes r.row_predicate && policy_passes odrl
      narrows r odrl next added =
          ap passes added.predicates_merged
          ∙ (passes-merge_predicates r.row_predicate added.row_predicate
              ∙ ap (λ m. passes r.row_predicate && reads m passes) (sym added.predicate_read))
