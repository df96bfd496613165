-- ===== src/Memory/Namespaces/Drops.antt =====
-- What `drop_namespace` removes (crates/lakecat-store/src/memory.rs).
use lakecat.Prelude.{
  Text, Text-discrete, Texts-discrete, List, [], ◌∷◌, some, Bool, true, false, not, any, holds,
  ◌&&◌, ◌≡◌, refl, ap, sym, ◌∙◌, subst, arith, All, inl, inr, Bool-cases,
}
use lakecat.Prelude.Map.{
  Map, text_key, texts_key, get, contains_key, insert, remove, retain_keys, get-insert_self,
  get-remove, get-retain_keys, Entries,
}
use lakecat.Prelude.Results.{
  ok, >>=-eq-ok, >>-eq-ok, ok_or-eq-ok, ensure-eq-ok, ok-pair, ok-injective,
}
use lakecat.Core.Names.{WarehouseName, Namespace}
use lakecat.Records.Types.{TableRecord, SoftDeleteRecord}
use lakecat.Records.External.{External}
use lakecat.Memory.State.{MemoryState, namespace_exists, is_member}
use lakecat.Memory.Namespaces.{drop_namespace, retired_table_keys, namespaces_of, retire}

-- a table in the namespace
abbrev pub is_inside : WarehouseName → Namespace → TableRecord → Bool
is_inside warehouse namespace t =
    holds (Text-discrete t.ident.warehouse warehouse)
    && holds (Texts-discrete t.ident.namespace namespace)

is_member-later :
    (j k : Text) (ks : List Text) → is_member j ks ≡ true → is_member j (k ∷ ks) ≡ true
unfolding is_member any
is_member-later j k ks h = ground arith

is_member-first : (k : Text) (ks : List Text) → is_member k (k ∷ ks) ≡ true
unfolding is_member any
is_member-first k ks = ground arith

-- every table of the namespace has its key among the keys
abbrev Covers : WarehouseName → Namespace → List Text → Map Text TableRecord → Type 0
Covers w ns ks tables = Entries (λ k t. is_inside w ns t ≡ true → is_member k ks ≡ true) tables

Covers-later :
    (w : WarehouseName) (ns : Namespace) (k : Text) (ks : List Text) (tables : Map Text TableRecord)
    → Covers w ns ks tables
    → Covers w ns (k ∷ ks) tables
Covers-later w ns k ks [] h = tt
Covers-later w ns k ks ((j, t) ∷ tables) h =
    ((λ inside. is_member-later j k ks (h.0 inside)), Covers-later w ns k ks tables h.1)

found_contained :
    {V : Type 0} (k : Text) (m : Map Text V) {v : V} → get k m ≡ some v → contains_key k m ≡ true
unfolding contains_key
found_contained k m found = rw found refl

abbrev Retires :
    WarehouseName
    → Namespace
    → Map Text SoftDeleteRecord
    → Map Text TableRecord
    → List Text
    → Type 0
Retires w ns deletes tables ks = All (λ k. contains_key k deletes ≡ true) ks × Covers w ns ks tables

-- The keys that are retired: each has a soft delete, and they are all in the namespace.
retired-Retires :
    (w : WarehouseName) (ns : Namespace) (deletes : Map Text SoftDeleteRecord)
    (tables : Map Text TableRecord) (ks : List Text)
    → retired_table_keys w ns deletes tables ≡ ok ks
    → Retires w ns deletes tables ks
unfolding retired_table_keys
retired-Retires w ns deletes [] ks h = subst (Retires w ns deletes []) (ok-injective h) (tt, tt)
retired-Retires w ns deletes ((k, t) ∷ tables) ks h =
    let a = >>-eq-ok _ _ h in
    elim (Bool-cases (is_inside w ns t)) [
      | inl inside ↦
          let b = >>=-eq-ok _ _ (rw inside at a.1) in
          let c = >>-eq-ok _ _ b.2 in
          let d = >>-eq-ok _ _ c.1 in
          let e = >>=-eq-ok _ _ d.1 in
          let rest = retired-Retires w ns deletes tables e.0 e.1 in
          subst (Retires w ns deletes ((k, t) ∷ tables)) (ok-injective e.2) (
            (found_contained k deletes (ok_or-eq-ok _ _ b.1), rest.0),
            ((λ _. is_member-first k e.0), Covers-later w ns k e.0 tables rest.1),
          )
      | inr outside ↦
          let rest = retired-Retires w ns deletes tables ks (rw outside at a.1) in
          (rest.0, ((λ inside. cc (sym outside ∙ inside)), rest.1))
    ]

live-not_retired :
    (k : Text) (deletes : Map Text SoftDeleteRecord) (ks : List Text)
    → All (λ j. contains_key j deletes ≡ true) ks
    → contains_key k deletes ≡ false
    → is_member k ks ≡ false
unfolding is_member any
live-not_retired k deletes [] h live = refl
live-not_retired k deletes (j ∷ ks) h live = elim (Text-discrete j k) [
  | yes same ↦ cc (sym live ∙ (sym (ap (λ i. contains_key i deletes) same) ∙ h.0))
  | no differs ↦ ground (arith, live-not_retired k deletes ks h.1 live)
]

not_covered :
    (inside member : Bool) → member ≡ false → (inside ≡ true → member ≡ true) → inside ≡ false
not_covered true member kept f = cc (sym kept ∙ f refl)
not_covered false member kept f = refl

retained-outside :
    (w : WarehouseName) (ns : Namespace) (ks : List Text) (tables : Map Text TableRecord)
    → Covers w ns ks tables
    → Entries (λ k t. is_inside w ns t ≡ false) (retain_keys (λ k. not (is_member k ks)) tables)
unfolding retain_keys
retained-outside w ns ks [] h = tt
retained-outside w ns ks ((k, t) ∷ tables) h = elim (Bool-cases (is_member k ks)) [
  | inl member ↦ rw member (retained-outside w ns ks tables h.1)
  | inr kept ↦ rw kept (
    not_covered (is_inside w ns t) (is_member k ks) kept h.0,
    retained-outside w ns ks tables h.1,
  )
]

dropped_namespace :
    (w : WarehouseName) (ns : Namespace) (s s' : MemoryState)
    → s'.namespaces ≡ insert w (remove ns (namespaces_of w s)) s.namespaces
    → namespace_exists w ns s' ≡ false
unfolding namespace_exists contains_key
dropped_namespace w ns s s' e =
    rw (e, get-insert_self w (remove ns (namespaces_of w s)) s.namespaces, namespace_exists)
      (ground (arith, get-remove ns ns (namespaces_of w s)))

kept_table :
    (k : Text) (t : TableRecord) (ks : List Text) (tables : Map Text TableRecord)
    → is_member k ks ≡ false
    → get k tables ≡ some t
    → get k (retain_keys (λ key. not (is_member key ks)) tables) ≡ some t
kept_table k t ks tables live found =
    get-retain_keys (λ key. not (is_member key ks)) k tables ∙ rw live found

module _ ⦃ext : External⦄ where
  drop_namespace-Dropped :
      (warehouse : WarehouseName) (namespace dropped : Namespace) (s s' : MemoryState)
      → drop_namespace warehouse namespace s ≡ ok (dropped, s')
      → (dropped ≡ namespace)
        × (namespace_exists warehouse namespace s ≡ true)
        × (keys : List Text) × (retired_table_keys warehouse namespace s.soft_deletes s.tables
            ≡ ok keys)
        × (s'
            ≡ retire keys (record s {
              namespaces =
                  insert warehouse (remove namespace (namespaces_of warehouse s)) s.namespaces;
            }))
  unfolding drop_namespace
  drop_namespace-Dropped warehouse namespace dropped s s' h =
      let a = >>-eq-ok _ _ h in
      let b = >>-eq-ok _ _ a.1 in
      let c = >>=-eq-ok _ _ b.1 in
      let d = >>-eq-ok _ _ c.2 in
      let e = >>-eq-ok _ _ d.1 in
      let f = >>-eq-ok _ _ e.1 in
      let g = >>-eq-ok _ _ f.1 in
      let done = ok-pair (>>-eq-ok _ _ g.1).1 in (done.0, ensure-eq-ok _ _ a.0, c.0, c.1, done.1)

  -- A drop of a namespace that succeeds removes the namespace and every table in it; and it loses
  -- no live table: one that has no soft delete is stored as before.
  pub drop_namespace-drops :
      (warehouse : WarehouseName) (namespace dropped : Namespace) (s s' : MemoryState)
      → drop_namespace warehouse namespace s ≡ ok (dropped, s')
      → (dropped ≡ namespace)
        × (namespace_exists warehouse namespace s ≡ true)
        × (namespace_exists warehouse namespace s' ≡ false)
        × Entries (λ k t. is_inside warehouse namespace t ≡ false) s'.tables
        × ((k : Text) (t : TableRecord)
            → get k s.tables ≡ some t
            → contains_key k s.soft_deletes ≡ false
            → get k s'.tables ≡ some t)
  drop_namespace-drops warehouse namespace dropped s s' h =
      let d = drop_namespace-Dropped warehouse namespace dropped s s' h in
      let keys = d.2 in
      let r = retired-Retires warehouse namespace s.soft_deletes s.tables keys d.3 in
      (
        d.0,
        d.1,
        dropped_namespace warehouse namespace s s' (ap (λ (x : MemoryState). x.namespaces) d.4),
        rw d.4 (retained-outside warehouse namespace keys s.tables r.1),
        λ k t found live.
            rw d.4 (
              kept_table k t keys s.tables (live-not_retired k s.soft_deletes keys r.0 live) found),
      )
