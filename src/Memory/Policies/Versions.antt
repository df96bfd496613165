-- ===== src/Memory/Policies/Versions.antt =====
-- `publish_model` (crates/lakecat-store/src/memory.rs): the versions of a model are 1, 2, 3, ...
use mathlib.Core.Option.{get_or}
use lakecat.Prelude.{
  Text, ℕ, suc, ◌+◌, ◌%◌, ◌^◌, ◌<◌, ◌==◌, length, List, [], ◌∷◌, ◌++◌, Option, none, some, false,
  ◌≡◌, ◌≢◌, refl, ap, ◌∙◌, arith, inl, inr,
}
use lakecat.Prelude.Map.{text_key, get, Entries, Entries-insert, Entries-get}
use lakecat.Records.Types.{DateTime, ModelPublication}
use lakecat.Records.External.{External}
use lakecat.Records.Policies.{model_publication_key}
use lakecat.Memory.State.{MemoryState}
use lakecat.Memory.Policies.{current_version, publications_of, publish_model}
use lakecat.Memory.Policies.Publish.{
  append_publication-cases, publish_model-cases, prepared-positive,
}

-- The versions from n on, without a gap.
abbrev pub NumberedFrom : ℕ → List ModelPublication → Type 0
NumberedFrom n [] = Unit
NumberedFrom n (p ∷ ps) = (p.version ≡ n) × NumberedFrom (suc n) ps

NumberedFrom-append :
    (n : ℕ) (ps : List ModelPublication) (p : ModelPublication)
    → NumberedFrom n ps
    → p.version ≡ n + length ps
    → NumberedFrom n (ps ++ p ∷ [])
NumberedFrom-append n [] p h e = (omega (arith, e), tt)
NumberedFrom-append n (q ∷ ps) p h e =
    (h.0, NumberedFrom-append (suc n) ps p h.1 (omega (arith, e)))

current_version-NumberedFrom :
    (n : ℕ) (p : ModelPublication) (ps : List ModelPublication)
    → NumberedFrom n (p ∷ ps)
    → current_version (p ∷ ps) ≡ some (n + length ps)
unfolding current_version
current_version-NumberedFrom n p [] h = ap some (omega (arith, h.0))
current_version-NumberedFrom n p (q ∷ ps) h =
    current_version-NumberedFrom (suc n) q ps h.1 ∙ ap some (omega arith)

last_number :
    (ps : List ModelPublication) → NumberedFrom 1 ps → get_or (current_version ps) 0 ≡ length ps
unfolding current_version
last_number [] h = refl
last_number (p ∷ ps) h = rw (current_version-NumberedFrom 1 p ps h) (omega arith)

publication_version :
    (version : ℕ) (current : ℕ)
    → version ≡ (current + 1) % 2 ^ 64
    → (version == 0) ≡ false
    → current < 2 ^ 64
    → version ≡ current + 1
publication_version version current e positive fits = omega (arith, nonzero version positive)
  where
    nonzero : (m : ℕ) → (m == 0) ≡ false → m ≢ 0
    nonzero m q z = ground arith

-- What holds of the publications of every model: their versions are 1, 2, 3, ..., and their number
-- is a `u64`.
abbrev pub IsNumbered : MemoryState → Type 0
IsNumbered s = Entries (λ k ps. NumberedFrom 1 ps × (length ps < 2 ^ 64)) s.model_publications

length-append :
    (ps : List ModelPublication) (p : ModelPublication) → length (ps ++ p ∷ []) ≡ length ps + 1
length-append [] p = refl
length-append (q ∷ ps) p = omega (arith, length-append ps p)

publications_of-IsNumbered :
    (key : Text) (s : MemoryState)
    → IsNumbered s
    → NumberedFrom 1 (publications_of key s) × (length (publications_of key s) < 2 ^ 64)
publications_of-IsNumbered key s h = after (get key s.model_publications) refl
  where
    after :
        (o : Option (List ModelPublication))
        → get key s.model_publications ≡ o
        → NumberedFrom 1 (get_or o []) × (length (get_or o []) < 2 ^ 64)
    after none e = (tt, omega arith)
    after (some ps) e =
        Entries-get (λ k ps. NumberedFrom 1 ps × (length ps < 2 ^ 64)) key s.model_publications h e

module _ ⦃ext : External⦄ (now : DateTime) (p : ModelPublication) (expected : Option ℕ)
    (s : MemoryState) where
  -- Where the versions of every model are 1, 2, 3, ... and their number is a `u64`, publishing a
  -- model whose version is a `u64` keeps them so, whether it succeeds or fails.
  pub publish_model-IsNumbered :
      p.version < 2 ^ 64 → IsNumbered s → IsNumbered (publish_model now p expected s).1
  publish_model-IsNumbered fits h = elim (publish_model-cases now p expected s) [
    | inl refused ↦ rw refused.1 h
    | inr prepared ↦
        let key = model_publication_key p.warehouse p.model_id in
        let old = publications_of-IsNumbered key s h in
        elim (append_publication-cases key p expected prepared.0 s) [
          | inl mismatch ↦
              rw (prepared.2, mismatch)
                (Entries-insert (λ k ps. NumberedFrom 1 ps × (length ps < 2 ^ 64)) key
                  (publications_of key s) s.model_publications old h)
          | inr appended ↦
              let version : p.version ≡ length (publications_of key s) + 1 =
                publication_version p.version _ appended.4
                  (prepared-positive now p s prepared.0 prepared.1)
                  (rw (last_number (publications_of key s) old.0) old.1)
                ∙ ap (λ (n : ℕ). n + 1) (last_number (publications_of key s) old.0) in
              rw (prepared.2, appended.1, appended.2)
                (Entries-insert (λ k ps. NumberedFrom 1 ps × (length ps < 2 ^ 64)) key
                  (publications_of key s ++ p ∷ []) s.model_publications
                  (
                    NumberedFrom-append 1 (publications_of key s) p old.0 (omega (arith, version)),
                    omega (arith, version, fits, length-append (publications_of key s) p),
                  )
                  h)
        ]
  ]
