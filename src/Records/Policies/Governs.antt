-- ===== src/Records/Policies/Governs.antt =====
-- Which tables a policy binding governs (`PolicyBinding::applies_to_table` in
-- crates/lakecat-store/src/records.rs).
use lakecat.Prelude.{
  Text-discrete, Texts-discrete, holds, holds-sound, true, false, not, Option, none, some, is_some,
  ◌≡◌, refl, ap, ◌⊎◌, inl, inr, ◌&&◌, arith, Bool-cases,
}
use lakecat.Prelude.Results.{ok, >>-eq-ok, reject-eq-ok}
use lakecat.Core.Names.{Namespace, TableName, TableIdent}
use lakecat.Records.Types.{PolicyBinding}
use lakecat.Records.External.{External}
use lakecat.Records.Policies.{in_scope, applies_to_table, validate_binding}

-- A binding governs the tables of its warehouse, of its namespace if it names one, and only the table
-- that it names, if it names one.
pub record Governs (table : TableIdent) (binding : PolicyBinding) : Type 0 where
  pub warehouse : binding.warehouse ≡ table.warehouse
  pub namespace : (binding.namespace ≡ none) ⊎ (binding.namespace ≡ some table.namespace)
  pub name : (binding.table ≡ none) ⊎ (binding.table ≡ some table.name)

holds_complete {ℓ} : {P : Type ℓ} (d : Dec P) → P → holds d ≡ true
holds_complete (yes p) q = refl
holds_complete (no n) q = absurd (n q)

in_scope-named :
    (namespace : Option Namespace) (name : Option TableName) (table : TableIdent)
    → in_scope namespace name table ≡ true
    → ((namespace ≡ none) ⊎ (namespace ≡ some table.namespace))
      × ((name ≡ none) ⊎ (name ≡ some table.name))
unfolding in_scope
in_scope-named none none table h = (inl refl, inl refl)
in_scope-named (some n) none table h =
    (inr (ap some (holds-sound (Texts-discrete n table.namespace) h)), inl refl)
in_scope-named (some n) (some t) table h = (
  inr (ap some (holds-sound (Texts-discrete n table.namespace) (ground arith))),
  inr (ap some (holds-sound (Text-discrete t table.name) (ground arith))),
)
in_scope-named none (some t) table h = cc

named-in_scope :
    (namespace : Option Namespace) (name : Option TableName) (table : TableIdent)
    → is_some name && not (is_some namespace) ≡ false
    → (namespace ≡ none) ⊎ (namespace ≡ some table.namespace)
    → (name ≡ none) ⊎ (name ≡ some table.name)
    → in_scope namespace name table ≡ true
unfolding in_scope
named-in_scope none none table valid n t = refl
named-in_scope none (some x) table valid n t = cc
named-in_scope (some y) name table valid (inl e) t = cc
named-in_scope (some y) none table valid (inr e) t =
    holds_complete (Texts-discrete y table.namespace) (cc)
named-in_scope (some y) (some x) table valid (inr e) (inl e') = cc
named-in_scope (some y) (some x) table valid (inr e) (inr e') =
    rw
      (
        holds_complete (Texts-discrete y table.namespace) (cc),
        holds_complete (Text-discrete x table.name) (cc),
      )
      refl

pub applies_to_table-Governs :
    (b : PolicyBinding) (table : TableIdent) → applies_to_table b table ≡ true → Governs table b
unfolding applies_to_table
applies_to_table-Governs b table h =
    elim (Bool-cases (holds (Text-discrete b.warehouse table.warehouse))) [
      | inl here ↦
          let named = in_scope-named b.namespace b.table table (rw here at h) in
          record {
            warehouse = holds-sound (Text-discrete b.warehouse table.warehouse) here;
            namespace = named.0;
            name = named.1;
          }
      | inr elsewhere ↦ cc (rw elsewhere at h)
    ]

module _ ⦃ext : External⦄ where
  -- The rule holds of valid bindings.
  pub Governs-applies_to_table :
      (b : PolicyBinding) (table : TableIdent)
      → validate_binding b ≡ ok tt
      → Governs table b
      → applies_to_table b table ≡ true
  unfolding applies_to_table validate_binding
  Governs-applies_to_table b table valid g =
      rw (holds_complete (Text-discrete b.warehouse table.warehouse) g.warehouse) (
        named-in_scope b.namespace b.table table (reject-eq-ok _ _ (>>-eq-ok _ _ valid).1)
          g.namespace g.name)
