-- ===== src/Memory/Invariant/Bindings.antt =====
-- The lookup of the policies of a table (crates/lakecat-store/src/memory.rs and helpers.rs).
use lakecat.Prelude.{
  ℕ, suc, List, [], ◌∷◌, Bool, true, false, ◌≡◌, refl, ap, ◌∙◌, ◌&&◌, All, keep, length, text_less,
  inl, inr, Bool-cases, if◌then◌else◌, Text, ◌⊎◌, subst, arith,
}
use mathlib.Core.Logic.Or
use mathlib.Core.List.{Mem, Mem-prop, mem-cons, mem-cons_self, mem-cons_of_mem}
use lakecat.Prelude.Lists.{All-map}
use lakecat.Prelude.Listed.{keep-covers}
use lakecat.Prelude.Map.{Map, text_key, values, Entries}
use lakecat.Prelude.Results.{ok, ◌>>=◌, ◌>>◌, >>-eq-ok, for_each-ok}
use lakecat.Core.Names.{TableIdent}
use lakecat.Records.Types.{PolicyBinding}
use lakecat.Records.External.{External}
use lakecat.Records.Policies
use lakecat.Records.Policies.{
  applies_to_table, insert_binding, sort_bindings, validate_binding,
  validate_policy_binding_map_scope,
}
use lakecat.Records.Policies.Governs.{Governs, applies_to_table-Governs, Governs-applies_to_table}
use lakecat.Memory.State.{MemoryState}
use lakecat.Memory.Policies.{policy_bindings_for_table}
use lakecat.Memory.Steps.{Reachable}
use lakecat.Memory.Invariant.Runs.{Reachable-Invariant}
use lakecat.Memory.Invariant.Lists.{All-keep}

-- the test of the lookup
abbrev pub binds : TableIdent → PolicyBinding → Bool
binds table binding = binding.enforced && applies_to_table binding table

insert_binding-All :
    (p : PolicyBinding → Bool) (b : PolicyBinding) (bs : List PolicyBinding)
    → p b ≡ true
    → All (λ c. p c ≡ true) bs
    → All (λ c. p c ≡ true) (insert_binding b bs)
unfolding insert_binding
insert_binding-All p b [] h hs = (h, tt)
insert_binding-All p b (c ∷ cs) h hs = elim (Bool-cases (text_less c.policy_id b.policy_id)) [
  | inl later ↦ rw later (hs.0, insert_binding-All p b cs h hs.1)
  | inr here ↦ rw here (h, hs)
]

sort_bindings-All :
    (p : PolicyBinding → Bool) (bs : List PolicyBinding)
    → All (λ c. p c ≡ true) bs
    → All (λ c. p c ≡ true) (sort_bindings bs)
unfolding sort_bindings
sort_bindings-All p [] h = tt
sort_bindings-All p (b ∷ bs) h =
    insert_binding-All p b (sort_bindings bs) h.0 (sort_bindings-All p bs h.1)

-- How many pass a test.
abbrev pub count : (PolicyBinding → Bool) → List PolicyBinding → ℕ
count p bs = length (keep p bs)

count-insert_binding :
    (p : PolicyBinding → Bool) (b : PolicyBinding) (bs : List PolicyBinding)
    → count p (insert_binding b bs) ≡ count p (b ∷ bs)
unfolding insert_binding keep
count-insert_binding p b [] = refl
count-insert_binding p b (c ∷ cs) = elim (Bool-cases (text_less c.policy_id b.policy_id)) [
  | inl later ↦ rw later (swapped (p b) (p c) (count-insert_binding p b cs))
  | inr here ↦ rw here refl
]
  where
    swapped :
        (x y : Bool)
        → count p (insert_binding b cs) ≡ length (if x then b ∷ keep p cs else keep p cs)
        → length (if y then c ∷ keep p (insert_binding b cs) else keep p (insert_binding b cs))
          ≡ length (
              if x
              then b ∷ (if y then c ∷ keep p cs else keep p cs)
              else if y
              then c ∷ keep p cs
              else keep p cs)
    swapped true true ih = ap suc ih
    swapped true false ih = ih
    swapped false true ih = ap suc ih
    swapped false false ih = ih

count-sort_bindings :
    (p : PolicyBinding → Bool) (bs : List PolicyBinding) → count p (sort_bindings bs) ≡ count p bs
unfolding sort_bindings keep
count-sort_bindings p [] = refl
count-sort_bindings p (b ∷ bs) =
    count-insert_binding p b (sort_bindings bs) ∙ added (p b) (count-sort_bindings p bs)
  where
    added :
        (x : Bool)
        → count p (sort_bindings bs) ≡ count p bs
        → length (if x then b ∷ keep p (sort_bindings bs) else keep p (sort_bindings bs))
          ≡ length (if x then b ∷ keep p bs else keep p bs)
    added true ih = ap suc ih
    added false ih = ih

-- Two tests of all items are a test of both.
All-zip {ℓ κ μ} :
    {A : Type ℓ} (P : A → Type κ) (Q : A → Type μ) (xs : List A)
    → All P xs
    → All Q xs
    → All (λ x. P x × Q x) xs
All-zip P Q [] h k = tt
All-zip P Q (x ∷ xs) h k = ((h.0, k.0), All-zip P Q xs h.1 k.1)

module _ ⦃ext : External⦄ where
  bindings_valid :
      (m : Map Text PolicyBinding)
      → Entries (λ k b. validate_policy_binding_map_scope b k ≡ ok tt) m
      → All (λ b. validate_binding b ≡ ok tt) (values m)
  unfolding validate_policy_binding_map_scope
  bindings_valid [] h = tt
  bindings_valid ((k, b) ∷ m) h = ((>>-eq-ok _ _ h.0).0, bindings_valid m h.1)

  binds-Governs :
      (table : TableIdent) (b : PolicyBinding)
      → binds table b ≡ true
      → (b.enforced ≡ true) × Governs table b
  binds-Governs table b h = (ground arith, applies_to_table-Governs b table (ground arith))

  unbound_because :
      (table : TableIdent) (bindings : List PolicyBinding) (b : PolicyBinding)
      → (validate_binding b ≡ ok tt) × ((binds table b ≡ false) ⊎ Mem b bindings)
      → (b.enforced ≡ false) ⊎ ((¬ Governs table b) ⊎ Mem b bindings)
  unbound_because table bindings b (valid, inr m) = inr (inr m)
  unbound_because table bindings b (valid, inl dropped) = elim (Bool-cases b.enforced) [
    | inl enforced ↦
        inr (inl (λ g. let applies = Governs-applies_to_table b table valid g in ground arith))
    | inr lax ↦ inl lax
  ]

  -- Sorting loses no member.
  mem-insert_binding :
      (a b : PolicyBinding) (bs : List PolicyBinding) → Mem a (b ∷ bs) → Mem a (insert_binding b bs)
  unfolding insert_binding
  mem-insert_binding a b [] m = m
  mem-insert_binding a b (c ∷ cs) m = elim (Bool-cases (text_less c.policy_id b.policy_id)) [
    | inl later ↦ rw later (
        Or.elim Mem-prop (mem-cons.0 m)
          (λ e.
            mem-cons_of_mem c
              (mem-insert_binding a b cs (subst (λ x. Mem a (x ∷ cs)) e mem-cons_self)))
          (λ n.
            Or.elim Mem-prop (mem-cons.0 n)
              (λ e. subst (λ x. Mem a (x ∷ insert_binding b cs)) e mem-cons_self)
              (λ o. mem-cons_of_mem c (mem-insert_binding a b cs (mem-cons_of_mem b o)))))
    | inr here ↦ rw here m
  ]

  mem-sort_bindings :
      (a : PolicyBinding) (bs : List PolicyBinding) → Mem a bs → Mem a (sort_bindings bs)
  unfolding sort_bindings
  mem-sort_bindings a [] m = m
  mem-sort_bindings a (b ∷ bs) m = mem-insert_binding a b (sort_bindings bs) (
      Or.elim Mem-prop (mem-cons.0 m)
        (λ e. subst (λ x. Mem a (x ∷ sort_bindings bs)) e mem-cons_self)
        (λ n. mem-cons_of_mem b (mem-sort_bindings a bs n)))

  sorted_covers :
      (p : PolicyBinding → Bool) (bs : List PolicyBinding) (b : PolicyBinding)
      → (p b ≡ false) ⊎ Mem b (keep p bs)
      → (p b ≡ false) ⊎ Mem b (sort_bindings (keep p bs))
  sorted_covers p bs b (inl dropped) = inl dropped
  sorted_covers p bs b (inr m) = inr (mem-sort_bindings b (keep p bs) m)

  -- In every state that the operations reach, the lookup of the policies of a table succeeds. All
  -- bindings that it gives are enforced and govern the table, and every stored binding is not
  -- enforced, does not govern the table or is among them. It gives each as often as it is stored:
  -- as many pass any test as of the stored bindings that the source's test selects.
  pub policy_bindings_for_table-exact :
      (table : TableIdent) (s : MemoryState)
      → Reachable s
      → (bindings : List PolicyBinding) × (policy_bindings_for_table table s ≡ ok bindings)
        × All (λ b. (b.enforced ≡ true) × Governs table b) bindings
        × All
            (λ b. (b.enforced ≡ false) ⊎ ((¬ Governs table b) ⊎ Mem b bindings))
            (values s.policy_bindings)
        × ((p : PolicyBinding → Bool)
            → count p bindings ≡ count p (keep (binds table) (values s.policy_bindings)))
  unfolding policy_bindings_for_table Policies.policy_bindings_for_table ◌>>=◌ ◌>>◌
  policy_bindings_for_table-exact table s r =
      let stored = values s.policy_bindings in
      let bound = keep (binds table) stored in
      let scoped = (Reachable-Invariant r).3 in
      (
        sort_bindings bound,
        rw
            (for_each-ok (λ entry. validate_policy_binding_map_scope entry.1 entry.0)
              s.policy_bindings scoped)
            refl,
        All-map _ _ (binds-Governs table) _
            (sort_bindings-All (binds table) bound (All-keep (binds table) stored)),
        All-map _ _ (unbound_because table (sort_bindings bound)) stored (
            All-zip _ _ stored (bindings_valid s.policy_bindings scoped) (
              All-map _ _ (sorted_covers (binds table) stored) stored
                (keep-covers (binds table) stored))),
        λ p. count-sort_bindings p bound,
      )
