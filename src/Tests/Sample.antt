-- ===== src/Tests/Sample.antt =====
-- A concrete instance of what the store does not implement, and a small catalog.
use lakecat.Prelude.{
  all, is_ascii_hexdigit, text_len, Text, text, ℕ, zero, suc, Option, none, some, [], ◌∷◌, false,
  true, ◌≡◌, refl,
}
use lakecat.Prelude.Json
use lakecat.Prelude.Json.{Json, str, as_str, num, pos, object, null}
use lakecat.Prelude.Results.{LakeCatResult, ok, err}
use lakecat.Core.Names.{TableIdent}
use lakecat.Records.Types.{Principal, PrincipalKind, TableRecord, TableCommit}
use lakecat.Records.External.{External, IsDocumented}
use lakecat.Memory.State.{MemoryState, empty}
use lakecat.Memory.Namespaces.{create_namespace}
use lakecat.Memory.Tables.{create_table}
use lakecat.Tests.Model.{model}

abbrev pub repeat : ℕ → ℕ → Text
repeat zero c = []
repeat (suc n) c = c ∷ repeat n c

abbrev pub owner : Principal
owner = record { subject = text "ann"; kind = PrincipalKind.human }

abbrev pub orders : TableIdent
orders = record { warehouse = text "w"; namespace = text "sales" ∷ []; name = text "orders" }

unfoldable pub table_named : Json → Option TableIdent
unfolding model
table_named v = elim (Json.get v (text "name")) [
  | none ↦ none
  | some w ↦ elim (as_str w) [ none ↦ none | some name ↦ some (record orders { name = name }) ]
]

-- A digest that does not look at its text, and encoders that forget all but a table's name.
instance abbrev pub sample : External
sample = record {
  sha256_hex = λ t. repeat 64 b'a';
  to_writer = λ v. some [];
  url_parse = λ t. some (record {
    scheme = text "file";
    username = [];
    has_password = false;
    has_query = false;
    has_fragment = false;
  });
  to_rfc3339 = λ t. [];
  principal_value = λ p. null;
  principal_from_value = λ v. some owner;
  table_ident_value = λ i. object (("name", str i.name) ∷ []);
  table_ident_from_value = table_named;
  table_record_value = λ t. null;
  commit_record_value = λ r. null;
  soft_delete_value = λ d. null;
  view_value = λ v. null;
  view_receipt_value = λ r. null;
}

pub digits_len : text_len (repeat 64 b'a') ≡ 64
unfolding model
digits_len = refl

pub digits_hex : all is_ascii_hexdigit (repeat 64 b'a') ≡ true
unfolding model
digits_hex = refl

abbrev pub after {ℓ} : {A : Type ℓ} {S : Type ℓ} → S → LakeCatResult (A × S) → S
after s (ok p) = p.1
after s (err e) = s

abbrev pub metadata : Json
metadata = object (("format-version", num (pos 2)) ∷ [])

abbrev pub orders_table : TableRecord
orders_table = record {
  ident = orders;
  location = text "file:///w/orders";
  metadata_location = some (text "m0");
  metadata = metadata;
  created = record { principal = owner; at = 1 };
  updated_at = 1;
  version = 0;
  staged = false;
}

abbrev pub with_sales : MemoryState
with_sales = after empty (create_namespace (text "w") (text "sales" ∷ []) empty)

abbrev pub with_orders : MemoryState
with_orders = after with_sales (create_table orders_table with_sales)

abbrev pub commit_of : Text → Text → Option Text → TableCommit
commit_of from to key = record {
  requirements = [];
  updates = [];
  expected_previous_metadata_location = some from;
  new_metadata_location = some to;
  new_metadata = none;
  idempotency_key = key;
  idempotency_request_hash = none;
  principal = owner;
  authorization_receipt = none;
}

abbrev pub result_of : TableRecord → LakeCatResult (TableRecord × MemoryState) → TableRecord
result_of t (ok p) = p.0
result_of t (err e) = t

pub documented : IsDocumented sample
documented = record {
  digest_len = λ t. digits_len;
  digest_hex = λ t. digits_hex;
  encodes = λ v. ([], refl);
}
