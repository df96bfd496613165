-- ===== src/Prelude/Map.antt =====
-- `BTreeMap`: an association list in the order of its keys, with the laws of its operations.
use mathlib.Core.Path.{◌≡◌, refl, subst}
use mathlib.Core.Bool.{Bool, true, false, ◌&&◌}
use mathlib.Core.Logic.{◌≢◌, ite, if_pos, if_neg}
use mathlib.Core.Option.{Option, none, some}
use mathlib.Core.List.{List, [], ◌∷◌}
use native.Mathlib.Omega.{arith}
use lakecat.Prelude.Tests.{if◌then◌else◌, is_some, All}
use lakecat.Prelude.Texts.{Text, Text-discrete, Texts-discrete, text_less, texts_less}

-- The `Ord` instance of a key type.
pub record Key {ℓ} (K : Type ℓ) : Type ℓ where
  pub same : Discrete K
  pub less : K → K → Bool

instance abbrev pub text_key : Key Text
text_key = record { same = Text-discrete; less = text_less }

instance abbrev pub texts_key : Key (List Text)
texts_key = record { same = Texts-discrete; less = texts_less }

abbrev pub Map {ℓ} : Type ℓ → Type ℓ → Type ℓ
Map K V = List (K × V)

module _ {ℓ} {K V : Type ℓ} ⦃key : Key K⦄ where
  unfoldable pub get : K → Map K V → Option V
  get k [] = none
  get k ((j, v) ∷ m) = ite (key.same j k) (some v) (get k m)

  unfoldable pub contains_key : K → Map K V → Bool
  unfolding get
  contains_key k m = is_some (get k m)

  unfoldable pub insert : K → V → Map K V → Map K V
  insert k v [] = (k, v) ∷ []
  insert k v ((j, w) ∷ m) =
      let rest = insert k v m in
      ite (key.same j k) ((k, v) ∷ m) (if key.less k j then (k, v) ∷ (j, w) ∷ m else (j, w) ∷ rest)

  unfoldable pub remove : K → Map K V → Map K V
  remove k [] = []
  remove k ((j, w) ∷ m) = let rest = remove k m in ite (key.same j k) rest ((j, w) ∷ rest)

  -- `retain`, by a test of the key
  unfoldable pub retain_keys : (K → Bool) → Map K V → Map K V
  retain_keys p [] = []
  retain_keys p ((j, w) ∷ m) = let rest = retain_keys p m in if p j then (j, w) ∷ rest else rest

  pub get-insert :
      (k j : K) (v : V) (m : Map K V) → get j (insert k v m) ≡ ite (key.same k j) (some v) (get j m)
  unfolding get insert
  get-insert k j v [] = refl
  get-insert k j v ((i, w) ∷ m) = ground (arith, get-insert k j v m)

  pub get-insert_self : (k : K) (v : V) (m : Map K V) → get k (insert k v m) ≡ some v
  get-insert_self k v m = ground (arith, get-insert k k v m)

  pub get-insert_ne : (k j : K) (v : V) (m : Map K V) → k ≢ j → get j (insert k v m) ≡ get j m
  get-insert_ne k j v m ne = ground (arith, get-insert k j v m)

  pub get-remove : (k j : K) (m : Map K V) → get j (remove k m) ≡ ite (key.same k j) none (get j m)
  unfolding get remove
  get-remove k j [] = ground arith
  get-remove k j ((i, w) ∷ m) = ground (arith, get-remove k j m)

  pub get-retain_keys :
      (p : K → Bool) (k : K) (m : Map K V)
      → get k (retain_keys p m) ≡ (if p k then get k m else none)
  unfolding get retain_keys
  get-retain_keys p k [] = ground arith
  get-retain_keys p k ((i, w) ∷ m) = ground (arith, get-retain_keys p k m)

  -- A property of every entry.
  abbrev pub Entries {μ} : (K → V → Type μ) → Map K V → Type μ
  Entries P m = All (λ (e : K × V). P e.0 e.1) m

  pub Entries-insert {μ} :
      (P : K → V → Type μ) (k : K) (v : V) (m : Map K V)
      → P k v
      → Entries P m
      → Entries P (insert k v m)
  unfolding insert
  Entries-insert P k v [] p h = (p, tt)
  Entries-insert P k v ((j, w) ∷ m) p h = elim (key.same j k) [
    | yes q ↦ rw (if_pos _ q) (p, h.1)
    | no q ↦ rw (if_neg _ q) (after (key.less k j) (Entries-insert P k v m p h.1))
  ]
    where
      after :
          (b : Bool)
          → Entries P (insert k v m)
          → Entries P (if b then (k, v) ∷ (j, w) ∷ m else (j, w) ∷ insert k v m)
      after true ih = (p, h)
      after false ih = (h.0, ih)

  pub Entries-remove {μ} :
      (P : K → V → Type μ) (k : K) (m : Map K V) → Entries P m → Entries P (remove k m)
  unfolding remove
  Entries-remove P k [] h = tt
  Entries-remove P k ((j, w) ∷ m) h = elim (key.same j k) [
    | yes q ↦ rw (if_pos _ q) (Entries-remove P k m h.1)
    | no q ↦ rw (if_neg _ q) (h.0, Entries-remove P k m h.1)
  ]

  pub Entries-get {μ} :
      (P : K → V → Type μ) (k : K) (m : Map K V) {v : V} → Entries P m → get k m ≡ some v → P k v
  unfolding get
  Entries-get P k [] h e = cc
  Entries-get P k ((j, w) ∷ m) {v} h e = elim (key.same j k) [
    | yes q ↦ let same : w ≡ v = ground arith in subst (λ i. P i v) q (subst (P j) same h.0)
    | no q ↦ Entries-get P k m h.1 (ground arith)
  ]

  pub Entries-retain_keys {μ} :
      (P : K → V → Type μ) (p : K → Bool) (m : Map K V) → Entries P m → Entries P (retain_keys p m)
  unfolding retain_keys
  Entries-retain_keys P p [] h = tt
  Entries-retain_keys P p ((j, w) ∷ m) h = choose (p j) h.0 (Entries-retain_keys P p m h.1)
    where
      choose :
          (b : Bool)
          → P j w
          → Entries P (retain_keys p m)
          → Entries P (if b then (j, w) ∷ retain_keys p m else retain_keys p m)
      choose true q qs = (q, qs)
      choose false q qs = qs

  -- The keys of a map after a write.
  pub contains_key-insert_self :
      (k : K) (v : V) (m : Map K V) → contains_key k (insert k v m) ≡ true
  unfolding contains_key
  contains_key-insert_self k v m = ground (arith, get-insert_self k v m)

  pub contains_key-insert_mono :
      (k j : K) (v : V) (m : Map K V)
      → contains_key j m ≡ true
      → contains_key j (insert k v m) ≡ true
  unfolding contains_key
  contains_key-insert_mono k j v m h = ground (arith, get-insert k j v m)

  pub contains_key-insert_ne :
      (k j : K) (v : V) (m : Map K V)
      → k ≢ j
      → contains_key j (insert k v m) ≡ true
      → contains_key j m ≡ true
  unfolding contains_key
  contains_key-insert_ne k j v m ne e = ground (arith, get-insert k j v m)

  pub contains_key-remove_old :
      (k j : K) (m : Map K V) → contains_key j (remove k m) ≡ true → contains_key j m ≡ true
  unfolding contains_key
  contains_key-remove_old k j m e = ground (arith, get-remove k j m)

  pub contains_key-remove_ne :
      (k j : K) (m : Map K V) → k ≢ j → contains_key j m ≡ true → contains_key j (remove k m) ≡ true
  unfolding contains_key
  contains_key-remove_ne k j m ne h = ground (arith, get-remove k j m)

  pub contains_key-retain_keys :
      (p : K → Bool) (k : K) (m : Map K V)
      → contains_key k (retain_keys p m) ≡ (p k && contains_key k m)
  unfolding contains_key
  contains_key-retain_keys p k m = ground (arith, get-retain_keys p k m)

module _ {ℓ} {K V : Type ℓ} where
  abbrev pub keys : Map K V → List K
  keys [] = []
  keys ((k, v) ∷ m) = k ∷ keys m

  abbrev pub values : Map K V → List V
  values [] = []
  values ((k, v) ∷ m) = v ∷ values m
