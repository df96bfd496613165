-- ===== src/Security/Narrowing/Projection.antt =====
-- The columns that a scan is given under a read restriction (crates/lakecat-security/src/lib.rs).
use lakecat.Prelude.{
  Text, all, ◌≡◌, ◌≢◌, refl, ap, sym, ◌∙◌, Bool, true, false, ◌&&◌, Option, none, some, List, [],
  ◌∷◌, subst,
}
use lakecat.Prelude.Json.{Json}
use lakecat.Prelude.Results.{ok, >>-eq-ok, ok-injective}
use lakecat.Records.External.{External}
use lakecat.Security.Columns.{has}
use lakecat.Security.Columns.Sets.{retain_allowed_columns_lem}
use lakecat.Security.Restriction.{
  ReadRestriction, from_odrl_policies, project, effective_projection,
}
use lakecat.Security.Narrowing.{allows, policy_allows, has-keep, from_odrl_policies-columns}

and_both : (a b : Bool) → a && b ≡ true → (a ≡ true) × (b ≡ true)
and_both true b h = (refl, h)
and_both false b h = cc

project-kept :
    (allowed : List Text) (r : Text) (requested columns : List Text) (c : Text)
    → project (some allowed) (r ∷ requested) ≡ ok columns
    → has c columns ≡ has c (r ∷ requested) && has c allowed
unfolding project
project-kept allowed r requested columns c h =
    ap (has c) (
      sym (ok-injective (>>-eq-ok _ _ (>>-eq-ok _ _ h).1).1)
      ∙ retain_allowed_columns_lem (r ∷ requested) allowed)
    ∙ has-keep c (λ d. has d allowed) (r ∷ requested)

project-allows :
    (allowed : Option (List Text)) (requested columns : List Text) (c : Text)
    → project allowed requested ≡ ok columns
    → has c columns ≡ true
    → (allows allowed c ≡ true) × (requested ≢ [] → has c requested ≡ true)
unfolding project
project-allows none requested columns c h m =
    (refl, λ ne. subst (λ cs. has c cs ≡ true) (sym (ok-injective h)) m)
project-allows (some allowed) [] columns c h m = (
  subst (λ cs. has c cs ≡ true) (sym (ok-injective (>>-eq-ok _ _ h).1)) m,
  λ ne. absurd (ne refl),
)
project-allows (some allowed) (r ∷ requested) columns c h m =
    let both =
      and_both (has c (r ∷ requested)) (has c allowed)
        (sym (project-kept allowed r requested columns c h) ∙ m) in
    (both.1, λ ne. both.0)

-- A column of the projection that a scan is given, under a restriction that policies are read into,
-- is allowed by all the policies and, if any columns are requested, is one of those.
pub effective_projection-allowed :
    ⦃ext : External⦄ (policies : List Json) (restriction : ReadRestriction)
    (requested columns : List Text) (column : Text)
    → from_odrl_policies policies ≡ ok restriction
    → effective_projection restriction requested ≡ ok columns
    → has column columns ≡ true
    → (all (policy_allows column) policies ≡ true) × (requested ≢ [] → has column requested ≡ true)
unfolding effective_projection
effective_projection-allowed policies restriction requested columns column read projected m =
    let known = project-allows restriction.allowed_columns requested columns column projected m in
    (sym (from_odrl_policies-columns policies restriction column read) ∙ known.0, known.1)
