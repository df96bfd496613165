-- ===== src/Records/Properties.antt =====
-- Namespace properties (crates/lakecat-store/src/records.rs), and what their update does.
pub mod Apply
use lakecat.Prelude.{
  Text, text, ℕ, length, ◌==◌, any, Bool, true, false, not, Option, none, some, List, [], ◌∷◌,
  String, Text-discrete, ◌≡◌, refl, holds, is_some, ite, arith, if◌then◌else◌, Bool-cases, inl, inr,
  ◌||◌,
}
use lakecat.Prelude.Map
use lakecat.Prelude.Map.{
  Map, text_key, get, contains_key, insert, remove, keys, get-insert, get-remove,
}
use lakecat.Prelude.Results.{
  LakeCatResult, ok, err, invalid_argument, unprocessable_entity, reject, ensure, ◌>>=◌, ◌>>◌,
}
use lakecat.Core.Names.{is_empty}
use lakecat.Records.Types.{
  NamespaceProperties, NamespacePropertyUpdate, NamespacePropertyUpdateResult,
}

unfoldable pub validate_namespace_property_keys : List Text → LakeCatResult (Unit {0})
validate_namespace_property_keys ks =
    reject (any is_empty ks) (invalid_argument "namespace property keys must not be empty" [])

-- `NamespaceProperties::new`
unfoldable pub new_properties : Map Text Text → LakeCatResult NamespaceProperties
new_properties properties = do validate_namespace_property_keys (keys properties); ok properties

-- A `BTreeSet` from a list: the keys of a map.
unfoldable pub to_set : List Text → Map Text (Unit {0})
to_set [] = []
to_set (k ∷ ks) = insert k tt (to_set ks)

unfoldable pub first_overlap : List Text → Map Text Text → Option Text
first_overlap [] updates = none
first_overlap (k ∷ ks) updates =
    let rest = first_overlap ks updates in if contains_key k updates then some k else rest

-- `NamespacePropertyUpdate::new`
unfoldable pub new_property_update :
    List Text → Map Text Text → LakeCatResult NamespacePropertyUpdate
new_property_update removals updates = do
  validate_namespace_property_keys removals
  validate_namespace_property_keys (keys updates)
  let unique_removals = keys (to_set removals)
  ensure (length unique_removals == length removals)
      (invalid_argument "namespace property removals must contain unique keys" [])
  elim (first_overlap unique_removals updates) [
    | none ↦ ok (record { removals = unique_removals; updates = updates })
    | some overlap ↦ err (
        unprocessable_entity "namespace property key `{overlap}` cannot be both removed and updated"
          (overlap ∷ []))
  ]

-- the state of the loop over `removals`
pub record Removal : Type 0 where
  pub properties : Map Text Text
  pub removed : List Text
  pub missing : List Text

-- the loop over `removals`
unfoldable pub remove_all : List Text → Map Text Text → Removal
remove_all [] properties = record { properties = properties; removed = []; missing = [] }
remove_all (k ∷ ks) properties =
    let rest = remove_all ks (remove k properties) in
    if contains_key k properties
    then record rest { removed = k ∷ rest.removed }
    else record rest { missing = k ∷ rest.missing }

-- `BTreeMap::extend`
unfoldable pub extend : Map Text Text → Map Text Text → Map Text Text
extend properties [] = properties
extend properties ((k, v) ∷ more) = extend (insert k v properties) more

-- `NamespaceProperties::apply`
unfoldable pub apply :
    NamespaceProperties
    → NamespacePropertyUpdate
    → NamespaceProperties × NamespacePropertyUpdateResult
apply properties update =
    let rest = remove_all update.removals properties in
    (
      extend rest.properties update.updates,
      record { updated = keys update.updates; removed = rest.removed; missing = rest.missing },
    )
