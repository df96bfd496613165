-- ===== src/Security/Narrowing.antt =====
-- A read restriction of crates/lakecat-security/src/lib.rs permits what every policy permits.
pub mod Rows
pub mod Projection
use lakecat.Prelude.{
  Text, Text-discrete, any, all, keep, leb, holds, holds-sound, Bool-cases, ℕ, ◌≡◌, ◌≢◌, refl, ap,
  sym, ◌∙◌, inl, inr, Bool, true, false, ◌&&◌, Option, none, some, List, [], ◌∷◌, arith, subst,
}
use lakecat.Prelude.Json.{Json}
use lakecat.Prelude.Results.{LakeCatResult, ok, err, >>=-eq-ok, >>-eq-ok, ok-injective}
use lakecat.Records.External.{External}
use lakecat.Security.Columns.{has, intersect_columns}
use lakecat.Security.Columns.Sets.{retain_allowed_columns_lem}
use lakecat.Security.Odrl.{
  allowed_columns_from_odrl, row_predicate_from_odrl, with_predicate, and_row_predicates,
}
use lakecat.Security.Terms.{ttl_from_odrl}
use lakecat.Security.Restriction.{
  ReadRestriction, unrestricted, merge_columns, merge_predicates, merge_ttls, add_policy,
  add_policies, from_odrl_policies, project, effective_projection,
}

-- What a list of allowed columns, a bound on the life of credentials and a policy permit. A policy
-- that cannot be read permits nothing.
abbrev pub allows : Option (List Text) → Text → Bool
allows none column = true
allows (some columns) column = has column columns

abbrev pub lasts : Option ℕ → ℕ → Bool
lasts none seconds = true
lasts (some most) seconds = leb seconds most

abbrev pub reads {ℓ} : {A : Type ℓ} → LakeCatResult A → (A → Bool) → Bool
reads (ok a) p = p a
reads (err e) p = false

pub policy_allows : Text → Json → Bool
policy_allows column odrl =
    reads (allowed_columns_from_odrl odrl) (λ columns. allows columns column)

pub policy_lasts : ℕ → Json → Bool
policy_lasts seconds odrl = reads (ttl_from_odrl odrl) (λ ttl. lasts ttl seconds)

and_assoc : (a b c : Bool) → (a && b) && c ≡ a && (b && c)
and_assoc true b c = refl
and_assoc false b c = refl

pub has-keep : (c : Text) (p : Text → Bool) (xs : List Text) → has c (keep p xs) ≡ has c xs && p c
unfolding has keep any
has-keep c p [] = refl
has-keep c p (x ∷ xs) = elim (Bool-cases (holds (Text-discrete x c))) [
  | inl e ↦
      let same : p x ≡ p c = ap p (holds-sound (Text-discrete x c) e) in
      ground (arith, has-keep c p xs)
  | inr ne ↦ ground (arith, has-keep c p xs)
]

allows-merge_columns :
    (c : Text) (a b : Option (List Text)) → allows (merge_columns a b) c ≡ allows a c && allows b c
unfolding merge_columns intersect_columns
allows-merge_columns c none none = refl
allows-merge_columns c (some left) none = ground arith
allows-merge_columns c none (some right) = refl
allows-merge_columns c (some left) (some right) =
    ap (has c) (retain_allowed_columns_lem left right) ∙ has-keep c (λ d. has d right) left

lasts-merge_ttls : (n : ℕ) (a b : Option ℕ) → lasts (merge_ttls a b) n ≡ lasts a n && lasts b n
unfolding merge_ttls
lasts-merge_ttls n none none = refl
lasts-merge_ttls n (some a) none = ground arith
lasts-merge_ttls n none (some b) = refl
lasts-merge_ttls n (some a) (some b) = ground arith

module _ ⦃ext : External⦄ where
  -- The parts that a policy is read into, when it is added.
  pub record Added (restriction : ReadRestriction) (odrl : Json) (next : ReadRestriction)
      : Type 0 where
    pub columns : Option (List Text)
    pub row_predicate : Option Json
    pub ttl : Option ℕ
    pub columns_read : allowed_columns_from_odrl odrl ≡ ok columns
    pub predicate_read : row_predicate_from_odrl odrl ≡ ok row_predicate
    pub ttl_read : ttl_from_odrl odrl ≡ ok ttl
    pub columns_merged : next.allowed_columns ≡ merge_columns restriction.allowed_columns columns
    pub predicates_merged :
        next.row_predicate ≡ merge_predicates restriction.row_predicate row_predicate
    pub ttls_merged :
        next.max_credential_ttl_seconds ≡ merge_ttls restriction.max_credential_ttl_seconds ttl

  add_policy-Added :
      (restriction : ReadRestriction) (odrl : Json) (next : ReadRestriction)
      → add_policy restriction odrl ≡ ok next
      → Added restriction odrl next
  unfolding add_policy
  add_policy-Added restriction odrl next h =
      let a = >>=-eq-ok _ _ h in
      let b = >>=-eq-ok _ _ a.2 in
      let c = >>=-eq-ok _ _ b.2 in
      let d = >>=-eq-ok _ _ c.2 in
      let e = >>=-eq-ok _ _ d.2 in
      let f = >>=-eq-ok _ _ e.2 in
      let same = sym (ok-injective f.2) in
      record {
        columns = b.0;
        row_predicate = c.0;
        ttl = f.0;
        columns_read = b.1;
        predicate_read = c.1;
        ttl_read = f.1;
        columns_merged = ap (λ (r : ReadRestriction). r.allowed_columns) same;
        predicates_merged = ap (λ (r : ReadRestriction). r.row_predicate) same;
        ttls_merged = ap (λ (r : ReadRestriction). r.max_credential_ttl_seconds) same;
      }

  -- A test that each policy narrows by its own one is, at the end, passed when all of them are.
  pub add_policies-all :
      (p : ReadRestriction → Bool) (q : Json → Bool)
      → ((restriction : ReadRestriction) (odrl : Json) (next : ReadRestriction)
          → Added restriction odrl next
          → p next ≡ p restriction && q odrl)
      → (restriction : ReadRestriction) (policies : List Json) (last : ReadRestriction)
      → add_policies restriction policies ≡ ok last
      → p last ≡ p restriction && all q policies
  unfolding add_policies all
  add_policies-all p q step restriction [] last h =
      sym (ap p (ok-injective h)) ∙ and_true (p restriction)
    where
      and_true : (b : Bool) → b ≡ b && true
      and_true true = refl
      and_true false = refl
  add_policies-all p q step restriction (odrl ∷ policies) last h =
      let a = >>=-eq-ok _ _ h in
      add_policies-all p q step a.0 policies last a.2
      ∙ (ap (λ b. b && all q policies)
            (step restriction odrl a.0 (add_policy-Added restriction odrl a.0 a.1))
          ∙ and_assoc (p restriction) (q odrl) (all q policies))

  -- A restriction that policies are read into allows exactly the columns that all of them allow.
  pub from_odrl_policies-columns :
      (policies : List Json) (restriction : ReadRestriction) (column : Text)
      → from_odrl_policies policies ≡ ok restriction
      → allows restriction.allowed_columns column ≡ all (policy_allows column) policies
  unfolding from_odrl_policies all unrestricted policy_allows
  from_odrl_policies-columns policies restriction column h =
      add_policies-all (λ r. allows r.allowed_columns column) (policy_allows column) narrows
        unrestricted policies restriction h
    where
      narrows :
          (r : ReadRestriction) (odrl : Json) (next : ReadRestriction)
          → Added r odrl next
          → allows next.allowed_columns column
            ≡ allows r.allowed_columns column && policy_allows column odrl
      narrows r odrl next added =
          ap (λ cs. allows cs column) added.columns_merged
          ∙ (allows-merge_columns column r.allowed_columns added.columns
              ∙ ap (λ m. allows r.allowed_columns column && reads m (λ cs. allows cs column))
                  (sym added.columns_read))

  -- Credentials may live for a time under a restriction that policies are read into exactly when
  -- they may under all of them.
  pub from_odrl_policies-ttl :
      (policies : List Json) (restriction : ReadRestriction) (seconds : ℕ)
      → from_odrl_policies policies ≡ ok restriction
      → lasts restriction.max_credential_ttl_seconds seconds ≡ all (policy_lasts seconds) policies
  unfolding from_odrl_policies all unrestricted policy_lasts
  from_odrl_policies-ttl policies restriction seconds h =
      add_policies-all (λ r. lasts r.max_credential_ttl_seconds seconds) (policy_lasts seconds)
        narrows unrestricted policies restriction h
    where
      narrows :
          (r : ReadRestriction) (odrl : Json) (next : ReadRestriction)
          → Added r odrl next
          → lasts next.max_credential_ttl_seconds seconds
            ≡ lasts r.max_credential_ttl_seconds seconds && policy_lasts seconds odrl
      narrows r odrl next added =
          ap (λ ttl. lasts ttl seconds) added.ttls_merged
          ∙ (lasts-merge_ttls seconds r.max_credential_ttl_seconds added.ttl
              ∙ ap
                  (λ m.
                    lasts r.max_credential_ttl_seconds seconds
                    && reads m (λ ttl. lasts ttl seconds))
                  (sym added.ttl_read))
