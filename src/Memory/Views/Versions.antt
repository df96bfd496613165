-- ===== src/Memory/Views/Versions.antt =====
-- What an upsert of a view stores (crates/lakecat-store/src/memory.rs).
use lakecat.Prelude.{
  Text, List, ℕ, ◌+◌, ◌^◌, ◌<◌, ◌==◌, ltb, Option, none, some, true, ◌≡◌, ◌≢◌, refl, ap, sym, ◌∙◌,
  subst, arith,
}
use lakecat.Prelude.Map.{text_key, get, get-insert_self, get-insert_ne}
use lakecat.Prelude.Results.{ok, >>=-eq-ok, >>-eq-ok, ensure-eq-ok, ok-pair, ok-injective, if_some}
use lakecat.Records.Types.{DateTime, ViewRecord, ViewVersionReceipt}
use lakecat.Records.External.{External}
use lakecat.Records.Views.{
  validate_view, view_key, max_version, version_of, keep_created, with_next_version_after_history,
  require_expected_view_version,
}
use lakecat.Records.Receipts.{latest_view_receipt_evidence}
use lakecat.Memory.State.{MemoryState}
use lakecat.Memory.Views.{
  store_view, upserted_state, upsert_view, upsert_view_if_version, first_of_latest, receipts_of,
}

-- The record under its next version.
abbrev pub next_view : ViewRecord → Option ViewRecord → Option ℕ → ViewRecord
next_view view previous latest =
    keep_created (record view { view_version = max_version (version_of previous) latest + 1 })
      previous

-- the latest version of the history, if there is one, is below n
abbrev pub AtMost : Option ℕ → ℕ → Type 0
AtMost none n = Unit
AtMost (some v) n = v < n

module _ ⦃ext : External⦄ where
  -- What an upsert that succeeds has read and written.
  pub record Stored (expected : Option ℕ) (view : ViewRecord) (s : MemoryState) (v : ViewRecord)
      (s' : MemoryState) : Type 0 where
    pub wanted :
        if_some expected (λ n. require_expected_view_version (get (view_key view) s.views) n)
        ≡ ok tt
    pub latest : Option (ℕ × Text)
    pub receipts : List ViewVersionReceipt
    pub listed : receipts_of (view_key view) view.warehouse view.namespace view.name s ≡ ok receipts
    pub read : latest_view_receipt_evidence receipts ≡ ok latest
    pub fits :
        ltb
          (max_version (version_of (get (view_key view) s.views)) (first_of_latest latest) + 1)
          (2 ^ 64)
        ≡ true
    pub result : v ≡ next_view view (get (view_key view) s.views) (first_of_latest latest)
    pub valid : validate_view v ≡ ok tt
    pub receipt : ViewVersionReceipt
    pub state : s' ≡ upserted_state (view_key view) v receipt s

  with_next-eq :
      (view : ViewRecord) (previous : Option ViewRecord) (latest : Option ℕ) (v : ViewRecord)
      → with_next_version_after_history view previous latest ≡ ok v
      → (ltb (max_version (version_of previous) latest + 1) (2 ^ 64) ≡ true)
        × (v ≡ next_view view previous latest)
        × (validate_view v ≡ ok tt)
  unfolding with_next_version_after_history
  with_next-eq view previous latest v h =
      let a = >>-eq-ok _ _ h in
      let b = >>-eq-ok _ _ a.1 in
      let same = ok-injective b.1 in
      (ensure-eq-ok _ _ a.0, sym same, subst (λ w. validate_view w ≡ ok tt) same b.0)

  pub store_view-Stored :
      (now : DateTime) (expected : Option ℕ) (view : ViewRecord) (s : MemoryState) (v : ViewRecord)
      (s' : MemoryState)
      → store_view now expected view s ≡ ok (v, s')
      → Stored expected view s v s'
  unfolding store_view
  store_view-Stored now expected view s v s' h =
      let a = >>-eq-ok _ _ h in
      let b = >>-eq-ok _ _ a.1 in
      let c = >>=-eq-ok _ _ b.1 in
      let d = >>=-eq-ok _ _ c.2 in
      let e = >>=-eq-ok _ _ d.2 in
      let f = >>=-eq-ok _ _ e.2 in
      let done = ok-pair f.2 in
      let next = with_next-eq view (get (view_key view) s.views) (first_of_latest d.0) e.0 e.1 in
      record {
        wanted = b.0;
        latest = d.0;
        receipts = c.0;
        listed = c.1;
        read = d.1;
        fits = next.0;
        result = done.0 ∙ next.1;
        valid = subst (λ w. validate_view w ≡ ok tt) (sym done.0) next.2;
        receipt = f.0;
        state = done.1 ∙ ap (λ w. upserted_state (view_key view) w f.0 s) (sym done.0);
      }

  pub upsert_view-Stored :
      (now : DateTime) (view : ViewRecord) (s : MemoryState) (v : ViewRecord) (s' : MemoryState)
      → upsert_view now view s ≡ ok (v, s')
      → Stored none view s v s'
  unfolding upsert_view
  upsert_view-Stored now view s v s' h = store_view-Stored now none view s v s' (>>-eq-ok _ _ h).1

  pub upsert_view_if_version-Stored :
      (now : DateTime) (view : ViewRecord) (expected : Option ℕ) (s : MemoryState) (v : ViewRecord)
      (s' : MemoryState)
      → upsert_view_if_version now view expected s ≡ ok (v, s')
      → Stored expected view s v s'
  unfolding upsert_view_if_version
  upsert_view_if_version-Stored now view expected s v s' h =
      store_view-Stored now expected view s v s' (>>-eq-ok _ _ (>>-eq-ok _ _ h).1).1

  view_key-next :
      (view : ViewRecord) (previous : Option ViewRecord) (latest : Option ℕ)
      → view_key (next_view view previous latest) ≡ view_key view
  unfolding view_key
  view_key-next view none latest = refl
  view_key-next view (some previous) latest = refl

  -- the stored view stands under its key
  pub Stored-key :
      {expected : Option ℕ} {view v : ViewRecord} {s s' : MemoryState}
      → Stored expected view s v s'
      → view_key v ≡ view_key view
  Stored-key {view = view} {s = s} d =
      rw d.result (view_key-next view (get (view_key view) s.views) (first_of_latest d.latest))

  require-version :
      (previous : Option ViewRecord) (n : ℕ)
      → require_expected_view_version previous n ≡ ok tt
      → (old : ViewRecord) × (previous ≡ some old) × (old.view_version ≡ n)
  unfolding require_expected_view_version
  require-version none n h = cc
  require-version (some old) n h =
      (old, refl, equal old.view_version n (ensure-eq-ok (old.view_version == n) _ h))
    where
      equal : (a b : ℕ) → (a == b) ≡ true → a ≡ b
      equal a b e = ground arith

  next_version-newer :
      (view old : ViewRecord) (latest : Option ℕ)
      → (old.view_version < (next_view view (some old) latest).view_version)
        × AtMost latest (next_view view (some old) latest).view_version
  next_version-newer view old none = (omega arith, tt)
  next_version-newer view old (some n) = (ground arith, ground arith)

  -- What becomes of the view at version n, and of the others.
  abbrev pub SwappedView : ViewRecord → ℕ → MemoryState → ViewRecord → MemoryState → Type 0
  SwappedView view n s v s' =
      (old : ViewRecord) × (get (view_key view) s.views ≡ some old)
      × (old.view_version ≡ n)
      × (n < v.view_version)
      × ((receipts : List ViewVersionReceipt) × (latest : Option (ℕ × Text)) × (receipts_of
              (view_key view) view.warehouse view.namespace view.name s
            ≡ ok receipts)
          × (latest_view_receipt_evidence receipts ≡ ok latest)
          × AtMost (first_of_latest latest) v.view_version)
      × (v.created ≡ old.created)
      × (v.sql ≡ view.sql)
      × (v.dialect ≡ view.dialect)
      × (v.columns ≡ view.columns)
      × (get (view_key view) s'.views ≡ some v)
      × ((k : Text) → view_key view ≢ k → get k s'.views ≡ get k s.views)

  -- An upsert that expects a version succeeds only if the stored view is at this version. What it
  -- answers is stored in place of the view: at a version above the stored one and above the latest
  -- one of the receipts, with the creation stamp of the stored view and with the query, dialect and
  -- columns that were sent. Every other view is left as it is.
  pub upsert_view_if_version-swap :
      (now : DateTime) (view : ViewRecord) (n : ℕ) (s : MemoryState) (v : ViewRecord)
      (s' : MemoryState)
      → upsert_view_if_version now view (some n) s ≡ ok (v, s')
      → SwappedView view n s v s'
  unfolding if_some upserted_state
  upsert_view_if_version-swap now view n s v s' h =
      let d = upsert_view_if_version-Stored now view (some n) s v s' h in
      let old = require-version (get (view_key view) s.views) n d.wanted in
      let result : v ≡ next_view view (some old.0) (first_of_latest d.latest) =
        d.result ∙ ap (λ p. next_view view p (first_of_latest d.latest)) old.1 in
      let newer = next_version-newer view old.0 (first_of_latest d.latest) in
      (
        old.0,
        old.1,
        old.2,
        subst (λ m. m < v.view_version) old.2
            (subst (λ (w : ViewRecord). old.0.view_version < w.view_version) (sym result) newer.0),
        (
          d.receipts,
          d.latest,
          d.listed,
          d.read,
          subst (λ (w : ViewRecord). AtMost (first_of_latest d.latest) w.view_version) (sym result)
              newer.1,
        ),
        ap (λ (w : ViewRecord). w.created) result,
        ap (λ (w : ViewRecord). w.sql) result,
        ap (λ (w : ViewRecord). w.dialect) result,
        ap (λ (w : ViewRecord). w.columns) result,
        rw d.state (get-insert_self (view_key view) v s.views),
        λ k ne. rw d.state (get-insert_ne (view_key view) k v s.views ne),
      )
