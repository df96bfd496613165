-- ===== src/Tests/Lifecycle.antt =====
-- The life of a table, and the runs of the store, at concrete inputs.
use lakecat.Prelude.{
  Text, text, [], ◌∷◌, none, some, ◌≡◌, refl, List, All, Bool, false, true, keep, ◌≢◌, ◌⊎◌,
}
use mathlib.Core.List.{Mem}
use lakecat.Records.Policies.Governs.{Governs}
use lakecat.Prelude.Results.{ok, err}
use lakecat.Prelude.Map.{contains_key, get, text_key, values, Entries}
use lakecat.Core.Names.{TableIdent, table_key}
use lakecat.Records.Types.{TableRecord, PolicyBinding}
use lakecat.Records.Tables.{validate_commit}
use lakecat.Memory.State.{MemoryState, empty, table_not_found, namespace_exists}
use lakecat.Memory.Namespaces.{create_namespace_with_properties, drop_namespace}
use lakecat.Memory.Namespaces.Drops.{is_inside, drop_namespace-drops}
use lakecat.Memory.Rename.Moves.{rename_table-moves}
use lakecat.Memory.SoftDeletes.Restore.{restore_table-undoes}
use lakecat.Memory.Tables.{create_table, load_table, list_tables}
use lakecat.Memory.Commits.{commit_table}
use lakecat.Memory.Rename.{rename_table}
use lakecat.Memory.SoftDeletes.{soft_delete_table, restore_table}
use lakecat.Memory.Steps.{Step, Reachable}
use lakecat.Memory.Invariant.{Invariant}
use lakecat.Memory.Invariant.Runs.{Reachable-Invariant}
use lakecat.Memory.Invariant.Lists.{list_tables-total, create_table-loads}
use lakecat.Memory.SoftDeletes.Hides.{soft_delete_table-hides}
use lakecat.Prelude.Json.{null}
use lakecat.Memory.Policies.{upsert_policy_binding, policy_bindings_for_table}
use lakecat.Memory.Invariant.Bindings.{binds, count, policy_bindings_for_table-exact}
use lakecat.Tests.Model.{model}
use lakecat.Tests.Sample.{
  sample, owner, orders, orders_table, with_sales, with_orders, commit_of, after, result_of,
  documented, table_named,
}

sales_runs :
    create_namespace_with_properties (text "w") (text "sales" ∷ []) [] empty ≡ ok (tt, with_sales)
unfolding model
sales_runs = refl

orders_runs : create_table orders_table with_sales ≡ ok (orders_table, with_orders)
unfolding model
orders_runs = refl

sales_reached : Reachable with_sales
sales_reached =
    Reachable.next Reachable.start
      (Step.namespace_created (text "w") (text "sales" ∷ []) [] sales_runs)

orders_reached : Reachable with_orders
orders_reached =
    Reachable.next sales_reached (Step.table_created orders_table orders_table orders_runs)

Reachable-Invariant_example : Invariant with_orders
Reachable-Invariant_example = Reachable-Invariant orders_reached

list_tables-total_example :
    (tables : List TableRecord) × (list_tables (text "w") with_orders ≡ ok tables)
    × All
        (λ t.
          (t.ident.warehouse ≡ text "w")
          × (contains_key (table_key t.ident) with_orders.soft_deletes ≡ false))
        tables
    × All
        (λ t.
          (t.ident.warehouse ≢ text "w")
          ⊎ ((contains_key (table_key t.ident) with_orders.soft_deletes ≡ true) ⊎ Mem t tables))
        (values with_orders.tables)
list_tables-total_example = list_tables-total (text "w") with_orders orders_reached

create_table-loads_example :
    (orders_table ≡ orders_table)
    × (load_table orders with_sales ≡ err (table_not_found orders))
    × (load_table orders with_orders ≡ ok orders_table)
create_table-loads_example =
    create_table-loads orders_table orders_table with_sales with_orders sales_reached orders_runs

abbrev deleted : MemoryState
deleted = after with_orders (soft_delete_table orders owner none 7 with_orders)

delete_runs : soft_delete_table orders owner none 7 with_orders ≡ ok (orders_table, deleted)
unfolding model
delete_runs = refl

commit_valid : validate_commit (commit_of (text "m0") (text "m1") none) ≡ ok tt
unfolding model
commit_valid = refl

soft_delete_table-hides_example :
    (load_table orders with_orders ≡ ok orders_table)
    × (load_table orders deleted ≡ err (table_not_found orders))
    × (commit_table 8 orders (commit_of (text "m0") (text "m1") none) deleted
        ≡ err (table_not_found orders))
    × (soft_delete_table orders owner none 8 deleted ≡ err (table_not_found orders))
soft_delete_table-hides_example =
    soft_delete_table-hides orders owner none 7 8 (commit_of (text "m0") (text "m1") none)
      with_orders orders_table deleted delete_runs commit_valid

abbrev invoices : TableIdent
invoices = record orders { name = text "invoices" }

abbrev renamed : MemoryState
renamed = after with_orders (rename_table orders invoices 9 owner none with_orders)

abbrev renamed_table : TableRecord
renamed_table = result_of orders_table (rename_table orders invoices 9 owner none with_orders)

rename_runs : rename_table orders invoices 9 owner none with_orders ≡ ok (renamed_table, renamed)
unfolding model table_named
rename_runs = refl

rename_table-moves_example :
    (old : TableRecord) × (load_table orders with_orders ≡ ok old)
    × (renamed_table ≡ record old { ident = invoices; updated_at = 9 })
    × (load_table invoices renamed ≡ ok renamed_table)
    × (load_table orders renamed ≡ err (table_not_found orders))
rename_table-moves_example =
    rename_table-moves orders invoices 9 owner none with_orders renamed_table renamed rename_runs

restore_table-undoes_example :
    (s'' : MemoryState) × (restore_table orders owner none 9 deleted ≡ ok (orders_table, s''))
    × (load_table orders s'' ≡ ok orders_table)
    × (s''.tables ≡ with_orders.tables)
    × ((k : Text) → get k s''.soft_deletes ≡ get k with_orders.soft_deletes)
restore_table-undoes_example =
    restore_table-undoes documented orders owner owner none none 7 9 with_orders orders_table
      deleted delete_runs

abbrev dropped : MemoryState
dropped = after deleted (drop_namespace (text "w") (text "sales" ∷ []) deleted)

drop_runs : drop_namespace (text "w") (text "sales" ∷ []) deleted ≡ ok (text "sales" ∷ [], dropped)
unfolding model
drop_runs = refl

drop_namespace-drops_example :
    (text "sales" ∷ [] ≡ text "sales" ∷ [])
    × (namespace_exists (text "w") (text "sales" ∷ []) deleted ≡ true)
    × (namespace_exists (text "w") (text "sales" ∷ []) dropped ≡ false)
    × Entries (λ k t. is_inside (text "w") (text "sales" ∷ []) t ≡ false) dropped.tables
    × ((k : Text) (t : TableRecord)
        → get k deleted.tables ≡ some t
        → contains_key k deleted.soft_deletes ≡ false
        → get k dropped.tables ≡ some t)
drop_namespace-drops_example =
    drop_namespace-drops (text "w") (text "sales" ∷ []) (text "sales" ∷ []) deleted dropped
      drop_runs

abbrev binding : PolicyBinding
binding = record {
  policy_id = text "p1";
  warehouse = text "w";
  namespace = some (text "sales" ∷ []);
  table = some (text "orders");
  enforced = true;
  odrl = null;
  updated_at = 4;
}

abbrev with_binding : MemoryState
with_binding = after with_orders (upsert_policy_binding binding with_orders)

binding_runs : upsert_policy_binding binding with_orders ≡ ok (binding, with_binding)
unfolding model
binding_runs = refl

policy_bindings_for_table-exact_example :
    (bindings : List PolicyBinding) × (policy_bindings_for_table orders with_binding ≡ ok bindings)
    × All (λ b. (b.enforced ≡ true) × Governs orders b) bindings
    × All
        (λ b. (b.enforced ≡ false) ⊎ ((¬ Governs orders b) ⊎ Mem b bindings))
        (values with_binding.policy_bindings)
    × ((p : PolicyBinding → Bool)
        → count p bindings ≡ count p (keep (binds orders) (values with_binding.policy_bindings)))
policy_bindings_for_table-exact_example =
    policy_bindings_for_table-exact orders with_binding
      (Reachable.next orders_reached (Step.binding_upserted binding binding binding_runs))
