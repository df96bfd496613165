-- ===== src/Core/Names.antt =====
-- Names, namespaces and table identities of crates/lakecat-core/src/lib.rs. The tuple structs
-- around one string (`WarehouseName`, `TableName`) are that string, `Namespace` is its components.
use lakecat.Prelude.{
  Text, Text-discrete, Texts-discrete, text, text_len, join, to_string, all, is_ascii_alphanumeric,
  ℕ, ◌==◌, ◌≡◌, ◌||◌, Bool, List, [], ◌∷◌, ◌++◌, String,
}
use lakecat.Prelude.Results.{LakeCatResult, ok, invalid_argument, reject, ensure, for_each, ◌>>◌}

abbrev pub WarehouseName : Type 0
WarehouseName = Text

abbrev pub TableName : Type 0
TableName = Text

abbrev pub Namespace : Type 0
Namespace = List Text

pub record TableIdent : Type 0 where
  pub warehouse : WarehouseName
  pub namespace : Namespace
  pub name : TableName

abbrev pub is_name_char : ℕ → Bool
is_name_char ch = is_ascii_alphanumeric ch || ch == b'_' || ch == b'-' || ch == b'.'

abbrev pub is_empty {ℓ} : {A : Type ℓ} → List A → Bool
is_empty [] = Bool.true
is_empty (x ∷ xs) = Bool.false

unfoldable pub validate_name : String → Text → LakeCatResult (Unit {0})
validate_name kind value = do
  reject (is_empty value) (invalid_argument "{kind} name must not be empty" (text kind ∷ []))
  ensure (all is_name_char value) (
      invalid_argument "{kind} name contains unsupported characters: {value}"
        (text kind ∷ value ∷ []))

unfoldable pub new_warehouse_name : Text → LakeCatResult WarehouseName
new_warehouse_name value = do validate_name "warehouse" value; ok value

unfoldable pub new_table_name : Text → LakeCatResult TableName
new_table_name value = do validate_name "table" value; ok value

unfoldable pub new_namespace : List Text → LakeCatResult Namespace
new_namespace parts = do
  reject (is_empty parts) (invalid_argument "namespace must contain at least one component" [])
  for_each (validate_name "namespace component") parts
  ok parts

-- `Namespace::path`, and its `Display`
unfoldable pub path : Namespace → Text
path ns = join (b'.' ∷ []) ns

-- the loop of `Namespace::storage_key`
unfoldable pub encode_parts : List Text → Text
encode_parts [] = []
encode_parts (part ∷ parts) =
    b':' ∷ (to_string (text_len part) ++ (b':' ∷ (part ++ encode_parts parts)))

-- `Namespace::storage_key`
unfoldable pub storage_key : Namespace → Text
storage_key ns = b'v' ∷ b'1' ∷ encode_parts ns

-- `TableIdent::stable_id`
unfoldable pub stable_id : TableIdent → Text
stable_id ident =
    text "lakecat:table:"
    ++ (ident.warehouse ++ (b':' ∷ (path ident.namespace ++ (b':' ∷ ident.name))))

-- `table_key` of crates/lakecat-store/src/helpers.rs
unfoldable pub table_key : TableIdent → Text
table_key ident = ident.warehouse ++ (0x1f ∷ (storage_key ident.namespace ++ (0x1f ∷ ident.name)))

unfoldable pub both_parts :
    {a b : TableIdent}
    → Dec (a.warehouse ≡ b.warehouse)
    → Dec (a.namespace ≡ b.namespace)
    → Dec (a.name ≡ b.name)
    → Dec (a ≡ b)
both_parts (yes p) (yes q) (yes r) =
    yes (λ i. record { warehouse = p i; namespace = q i; name = r i })
both_parts (no n) _ _ = no (λ e. n (λ i. (e i).warehouse))
both_parts (yes p) (no n) _ = no (λ e. n (λ i. (e i).namespace))
both_parts (yes p) (yes q) (no n) = no (λ e. n (λ i. (e i).name))

-- The derived `PartialEq`.
unfoldable pub TableIdent-discrete : Discrete TableIdent
TableIdent-discrete a b =
    both_parts (Text-discrete a.warehouse b.warehouse) (Texts-discrete a.namespace b.namespace)
      (Text-discrete a.name b.name)
