-- ===== src/Security/Columns/Sets.antt =====
-- Both ways of crates/lakecat-security/src/lib.rs to drop repeated columns, and both to keep the
-- allowed ones, give the same lists.
use mathlib.Core.List.{append_assoc, append-nil}
use lakecat.Prelude.{
  Text, Text-discrete, any, keep, length, leb, ltb, holds, Bool-cases, ◌≡◌, refl, ap, sym, ◌∙◌,
  holds-sound, inl, inr, Bool, true, false, not, ◌&&◌, ◌||◌, List, [], ◌∷◌, ◌++◌, arith,
}
use lakecat.Security.Columns.{
  linear_column_lookup_max, has, insert_seen, keep_flags, kept, push_new, dedup_columns, to_seen,
  retain_allowed_columns,
}

-- Each column where it stands first.
pub first_occurrences : List Text → List Text
first_occurrences [] = []
first_occurrences (c ∷ cs) = c ∷ keep (λ d. not (holds (Text-discrete c d))) (first_occurrences cs)

-- A member that is equal to another is in the same sets.
has-same :
    (c d : Text) (seen : List Text) → holds (Text-discrete c d) ≡ true → has d seen ≡ has c seen
has-same c d seen e = ap (λ x. has x seen) (sym (holds-sound (Text-discrete c d) e))

has-insert_seen : (c d : Text) (seen : List Text) → has d (insert_seen c seen) ≡ has d (c ∷ seen)
unfolding has any insert_seen
has-insert_seen c d seen = elim (Bool-cases (has c seen)) [
  | inl old ↦ rw old (in_set old)
  | inr new ↦ rw new refl
]
  where
    in_set : has c seen ≡ true → has d seen ≡ has d (c ∷ seen)
    in_set old = elim (Bool-cases (holds (Text-discrete c d))) [
      | inl e ↦ rw e (has-same c d seen e ∙ old)
      | inr ne ↦ rw ne refl
    ]

has-append : (c d : Text) (out : List Text) → has d (out ++ c ∷ []) ≡ has d (c ∷ out)
unfolding has any
has-append c d [] = refl
has-append c d (x ∷ out) = ground (arith, has-append c d out)

keep-keep : (p q : Text → Bool) (xs : List Text) → keep p (keep q xs) ≡ keep (λ x. p x && q x) xs
unfolding keep
keep-keep p q [] = refl
keep-keep p q (x ∷ xs) = ground (arith, keep-keep p q xs)

keep-ext : (p q : Text → Bool) (xs : List Text) → ((x : Text) → p x ≡ q x) → keep p xs ≡ keep q xs
unfolding keep
keep-ext p q [] h = refl
keep-ext p q (x ∷ xs) h = ground (arith, h x, keep-ext p q xs h)

unseen : List Text → Text → Bool
unseen seen c = not (has c seen)

others : Text → Text → Bool
others c d = not (holds (Text-discrete c d))

-- What is left of the first occurrences of c ∷ cs, by whether c was seen.
module _ (c : Text) (cs seen : List Text) where
  and_unseen : (d : Text) → unseen seen d && others c d ≡ unseen (c ∷ seen) d
  unfolding unseen others has any
  and_unseen d = ground arith

  unseen_cons :
      has c seen ≡ false
      → keep (unseen seen) (c ∷ keep (others c) cs) ≡ c ∷ keep (unseen (c ∷ seen)) cs
  unfolding keep unseen
  unseen_cons new = rw new (
      ap (λ ds. c ∷ ds)
        (keep-keep (unseen seen) (others c) cs ∙ keep-ext _ (unseen (c ∷ seen)) cs and_unseen))

  other_unseen : has c seen ≡ true → (d : Text) → unseen seen d && others c d ≡ unseen seen d
  unfolding unseen others
  other_unseen old d = elim (Bool-cases (holds (Text-discrete c d))) [
    | inl e ↦ rw (e, has-same c d seen e, old) refl
    | inr ne ↦ ground arith
  ]

  seen_cons :
      has c seen ≡ true → keep (unseen seen) (c ∷ keep (others c) cs) ≡ keep (unseen seen) cs
  unfolding keep unseen
  seen_cons old =
      rw old
        (keep-keep (unseen seen) (others c) cs ∙ keep-ext _ (unseen seen) cs (other_unseen old))

unseen-append :
    (c : Text) (out : List Text) (d : Text) → unseen (out ++ c ∷ []) d ≡ unseen (c ∷ out) d
unfolding unseen
unseen-append c out d = ap not (has-append c d out)

kept_lem :
    (seen cs : List Text) → kept cs (keep_flags seen cs) ≡ keep (unseen seen) (first_occurrences cs)
unfolding kept keep_flags first_occurrences insert_seen others
kept_lem seen [] = unfold keep in refl
kept_lem seen (c ∷ cs) = elim (Bool-cases (has c seen)) [
  | inl old ↦ rw old (kept_lem seen cs ∙ sym (seen_cons c (first_occurrences cs) seen old))
  | inr new ↦ rw new (
      ap (λ ds. c ∷ ds) (kept_lem (c ∷ seen) cs)
      ∙ sym (unseen_cons c (first_occurrences cs) seen new))
]

push_new_lem :
    (out cs : List Text) → push_new out cs ≡ out ++ keep (unseen out) (first_occurrences cs)
unfolding push_new first_occurrences others
push_new_lem out [] = unfold keep in sym (append-nil out)
push_new_lem out (c ∷ cs) = elim (Bool-cases (has c out)) [
  | inl old ↦ rw old (
      push_new_lem out cs ∙ ap (λ ds. out ++ ds) (sym (seen_cons c (first_occurrences cs) out old)))
  | inr new ↦ rw new (
      push_new_lem (out ++ c ∷ []) cs
      ∙ (append_assoc out (c ∷ []) _
          ∙ ap (λ ds. out ++ ds)
              (ap (λ ds. c ∷ ds) (keep-ext _ _ (first_occurrences cs) (unseen-append c out))
                ∙ sym (unseen_cons c (first_occurrences cs) out new))))
]

unseen-nil : (cs : List Text) → keep (unseen []) cs ≡ cs
unfolding keep unseen has any
unseen-nil [] = refl
unseen-nil (c ∷ cs) = ap (λ ds. c ∷ ds) (unseen-nil cs)

-- Long and short column lists are both reduced to the first occurrences of their columns, in order.
pub dedup_columns-first : (columns : List Text) → dedup_columns columns ≡ first_occurrences columns
unfolding dedup_columns
dedup_columns-first columns = elim (Bool-cases (ltb linear_column_lookup_max (length columns))) [
  | inl long ↦ rw long (kept_lem [] columns ∙ unseen-nil (first_occurrences columns))
  | inr short ↦ rw short (push_new_lem [] columns ∙ unseen-nil (first_occurrences columns))
]

has-to_seen : (c : Text) (columns : List Text) → has c (to_seen columns) ≡ has c columns
unfolding to_seen has any
has-to_seen c [] = refl
has-to_seen c (d ∷ columns) =
    has-insert_seen d c (to_seen columns)
    ∙ ap (λ b. holds (Text-discrete d c) || b) (has-to_seen c columns)

-- Long and short lists of allowed columns keep the same requested ones.
pub retain_allowed_columns_lem :
    (requested allowed : List Text)
    → retain_allowed_columns requested allowed ≡ keep (λ c. has c allowed) requested
unfolding retain_allowed_columns
retain_allowed_columns_lem requested allowed =
    elim (Bool-cases (leb (length allowed) linear_column_lookup_max)) [
      | inl short ↦ rw short refl
      | inr long ↦ rw long (keep-ext _ _ requested (λ c. has-to_seen c allowed))
    ]
