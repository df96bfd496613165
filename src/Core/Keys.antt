-- ===== src/Core/Keys.antt =====
-- Internal keys keep identities apart: `storage_key` for every namespace, `table_key` for every
-- identity with a warehouse name that the constructor accepts. `stable_id` does not.
use mathlib.Core.List.{append-nil, append_assoc}
use lakecat.Prelude.{
  Text, text_len, join, to_string, all, ℕ, ◌≡◌, ◌≢◌, refl, ap, sym, ◌∙◌, false, inl, inr, String,
  true, Bool-cases, List, [], ◌∷◌, ◌++◌, arith,
}
use lakecat.Prelude.Decimal.{Lacks, to_string-injective, to_string-Lacks, split_first, split_len}
use lakecat.Prelude.Results.{ok, ensure-eq-ok, >>-eq-ok}
use lakecat.Core.Names.{
  TableIdent, Namespace, is_name_char, validate_name, encode_parts, storage_key, stable_id,
  table_key, path,
}

-- What may follow the components: the end, or a character that begins no component.
abbrev NoColon : Text → Type 0
NoColon [] = Unit
NoColon (c ∷ cs) = c ≢ b':'

encode_parts_assoc :
    (p : Text) (ps : List Text) (rest : Text)
    → encode_parts (p ∷ ps) ++ rest
      ≡ b':' ∷ (to_string (text_len p) ++ b':' ∷ (p ++ (encode_parts ps ++ rest)))
unfolding encode_parts
encode_parts_assoc p ps rest = simp append_assoc

encode_parts_split :
    (ps qs : List Text) (rest rest' : Text)
    → NoColon rest
    → NoColon rest'
    → encode_parts ps ++ rest ≡ encode_parts qs ++ rest'
    → (ps ≡ qs) × (rest ≡ rest')
unfolding encode_parts
encode_parts_split [] [] rest rest' h h' e = (refl, e)
encode_parts_split [] (q ∷ qs) (c ∷ cs) rest' h h' e = absurd (h (cc))
encode_parts_split [] (q ∷ qs) [] rest' h h' e = cc
encode_parts_split (p ∷ ps) [] rest (c ∷ cs) h h' e = absurd (h' (cc))
encode_parts_split (p ∷ ps) [] rest [] h h' e = cc
encode_parts_split (p ∷ ps) (q ∷ qs) rest rest' h h' e =
    let flat = sym (encode_parts_assoc p ps rest) ∙ (e ∙ encode_parts_assoc q qs rest') in
    let sized =
      split_first b':' (to_string (text_len p)) (to_string (text_len q))
        (p ++ (encode_parts ps ++ rest)) (q ++ (encode_parts qs ++ rest'))
        (to_string-Lacks (text_len p)) (to_string-Lacks (text_len q)) (cc (flat)) in
    let parted =
      split_len p q (encode_parts ps ++ rest) (encode_parts qs ++ rest')
        (to_string-injective (text_len p) (text_len q) sized.0) sized.1 in
    let tails = encode_parts_split ps qs rest rest' h h' parted.1 in
    (cc (parted.0, tails.0), tails.1)

storage_key_split :
    (a b : Namespace) (rest rest' : Text)
    → NoColon rest
    → NoColon rest'
    → storage_key a ++ rest ≡ storage_key b ++ rest'
    → (a ≡ b) × (rest ≡ rest')
unfolding storage_key
storage_key_split a b rest rest' h h' e = encode_parts_split a b rest rest' h h' (cc)

-- Two namespaces with one storage key are the same, whatever characters their components hold.
pub storage_key-injective : (a b : Namespace) → storage_key a ≡ storage_key b → a ≡ b
storage_key-injective a b e = (storage_key_split a b [] [] tt tt (rw (append-nil, append-nil) e)).0

all-Lacks : (c : ℕ) (t : Text) → is_name_char c ≡ false → all is_name_char t ≡ true → Lacks c t
unfolding all
all-Lacks c [] no_name h = tt
all-Lacks c (d ∷ ds) no_name h = elim (Bool-cases (is_name_char d)) [
  | inl good ↦ (λ e. cc (ap is_name_char e), all-Lacks c ds no_name (ground arith))
  | inr bad ↦ absurd (ground arith)
]

-- A name that the constructor accepts holds no character outside its alphabet.
pub validate_name-Lacks :
    (c : ℕ) (kind : String) (t : Text)
    → is_name_char c ≡ false
    → validate_name kind t ≡ ok tt
    → Lacks c t
unfolding validate_name
validate_name-Lacks c kind t no_name h = all-Lacks c t no_name (ensure-eq-ok _ _ (>>-eq-ok _ _ h).1)

-- Two table identities with one table key are the same, if `WarehouseName::new` accepts their
-- warehouses. Namespaces and table names may hold any characters.
pub table_key-injective :
    (a b : TableIdent)
    → validate_name "warehouse" a.warehouse ≡ ok tt
    → validate_name "warehouse" b.warehouse ≡ ok tt
    → table_key a ≡ table_key b
    → a ≡ b
unfolding table_key
table_key-injective a b ha hb e =
    let first =
      split_first 0x1f a.warehouse b.warehouse _ _
        (validate_name-Lacks 0x1f "warehouse" a.warehouse refl ha)
        (validate_name-Lacks 0x1f "warehouse" b.warehouse refl hb) e in
    let second =
      storage_key_split a.namespace b.namespace (0x1f ∷ a.name) (0x1f ∷ b.name) (omega arith)
        (omega arith) first.1 in
    let named : a.name ≡ b.name = cc (second.1) in
    λ i. record { warehouse = first.0 i; namespace = second.0 i; name = named i }

-- The human-readable identity is not an identity: joining two components by a dot, or writing the
-- dot inside one, gives the same text for different tables, all of them with accepted names.
pub stable_id_collides :
    (w : Text) (x y : Text) (parts : List Text) (n : Text)
    → stable_id (record { warehouse = w; namespace = (x ++ b'.' ∷ y) ∷ parts; name = n })
      ≡ stable_id (record { warehouse = w; namespace = x ∷ y ∷ parts; name = n })
unfolding stable_id path join
stable_id_collides w x y [] n = refl
stable_id_collides w x y (z ∷ zs) n = simp append_assoc
