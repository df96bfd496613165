-- ===== src/Records/Properties/Apply.antt =====
-- `NamespaceProperties::apply` (crates/lakecat-store/src/records.rs): what it makes of each key.
use lakecat.Prelude.{
  Text, Text-discrete, List, [], ◌∷◌, Option, none, some, Bool, true, false, any, holds, ◌≡◌, refl,
  ap, ◌∙◌, arith, inl, inr, Bool-cases, if◌then◌else◌, subst, All,
}
use lakecat.Prelude.Map.{
  Map, text_key, get, contains_key, insert, remove, get-insert, get-remove, contains_key-remove_old,
}
use lakecat.Records.Types.{NamespaceProperties, NamespacePropertyUpdate}
use lakecat.Records.Properties.{apply, remove_all, extend}

-- no key twice, as in every `BTreeMap`
abbrev pub Distinct : Map Text Text → Type 0
Distinct [] = Unit
Distinct ((k, v) ∷ m) = (contains_key k m ≡ false) × Distinct m

abbrev pub is_among : Text → List Text → Bool
is_among k ks = any (λ j. holds (Text-discrete j k)) ks

-- the first of two, if it is there
abbrev pub first_of : Option Text → Option Text → Option Text
first_of none o = o
first_of (some v) o = some v

get-remove_all :
    (k : Text) (ks : List Text) (m : Map Text Text)
    → get k (remove_all ks m).properties ≡ (if is_among k ks then none else get k m)
unfolding remove_all any
get-remove_all k [] m = refl
get-remove_all k (j ∷ ks) m = elim (Bool-cases (contains_key j m)) [
  | inl present ↦ rw present (get-remove_all k ks (remove j m) ∙ step)
  | inr absent ↦ rw absent (get-remove_all k ks (remove j m) ∙ step)
]
  where
    step :
        (if is_among k ks then none else get k (remove j m))
        ≡ (if is_among k (j ∷ ks) then none else get k m)
    step = ground (arith, get-remove j k m)

absent_none : (k : Text) (m : Map Text Text) → contains_key k m ≡ false → get k m ≡ none
unfolding contains_key
absent_none k m h = ground arith

get-extend :
    (k : Text) (m updates : Map Text Text)
    → Distinct updates
    → get k (extend m updates) ≡ first_of (get k updates) (get k m)
unfolding extend get contains_key
get-extend k m [] h = refl
get-extend k m ((j, v) ∷ updates) h = get-extend k (insert j v m) updates h.1 ∙ step
  where
    step :
        first_of (get k updates) (get k (insert j v m))
        ≡ first_of (get k ((j, v) ∷ updates)) (get k m)
    step = elim (Text-discrete j k) [
      | yes same ↦
          let absent : get k updates ≡ none =
            subst (λ i. get i updates ≡ none) same (absent_none j updates h.0) in
          ground (arith, get-insert j k v m)
      | no differs ↦ ground (arith, get-insert j k v m)
    ]

still_present :
    (j : Text) (m : Map Text Text) (ks : List Text)
    → All (λ k. contains_key k (remove j m) ≡ true) ks
    → All (λ k. contains_key k m ≡ true) ks
still_present j m [] h = tt
still_present j m (k ∷ ks) h = (contains_key-remove_old j k m h.0, still_present j m ks h.1)

removed-present :
    (ks : List Text) (m : Map Text Text)
    → All (λ k. contains_key k m ≡ true) (remove_all ks m).removed
unfolding remove_all
removed-present [] m = tt
removed-present (j ∷ ks) m =
    let rest =
      still_present j m (remove_all ks (remove j m)).removed (removed-present ks (remove j m)) in
    elim (Bool-cases (contains_key j m)) [
      | inl present ↦ rw present (present, rest)
      | inr absent ↦ rw absent rest
    ]

-- Applying an update sets every key that it updates to its new value, deletes every other key that
-- it removes, and leaves every further key as it is. Each key that it reports as removed was there.
pub apply-get :
    (properties : NamespaceProperties) (update : NamespacePropertyUpdate) (k : Text)
    → Distinct update.updates
    → (get k (apply properties update).0
        ≡ first_of
            (get k update.updates)
            (if is_among k update.removals then none else get k properties))
      × All (λ j. contains_key j properties ≡ true) (apply properties update).1.removed
unfolding apply
apply-get properties update k distinct = (
  get-extend k (remove_all update.removals properties).properties update.updates distinct
      ∙ ap (first_of (get k update.updates)) (get-remove_all k update.removals properties),
  removed-present update.removals properties,
)
