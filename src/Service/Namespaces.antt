-- ===== src/Service/Namespaces.antt =====
-- crates/lakecat-service/src/namespace.rs: the namespaces of the REST paths and the pages of a
-- listing. `usize` has 64 bits.
use lakecat.Prelude.{
  Text, Texts-discrete, text, strip_prefix, to_string, texts_less, keep, length, leb, ltb, ◌==◌,
  holds, if◌then◌else◌, ℕ, suc, ◌+◌, ◌-◌, ◌^◌, Bool, ◌&&◌, Option, none, some, List, [], ◌∷◌, ◌++◌,
}
use lakecat.Prelude.Decimal.{parse_u64}
use lakecat.Prelude.Lists.{slice, take, sort, split}
use lakecat.Prelude.Options.{and_then}
use lakecat.Prelude.Results.{LakeCatResult, ok, invalid_argument, reject, ok_or, ◌>>=◌, ◌>>◌}
use lakecat.Core.Names.{Namespace, TableIdent, new_namespace, new_warehouse_name, new_table_name}

pub record ListNamespacesQuery : Type 0 where
  pub parent : Option Text
  pub page_token : Option Text
  pub page_size : Option ℕ

unfoldable pub parse_rest_namespace : Text → LakeCatResult Namespace
parse_rest_namespace value = new_namespace (split 0x1f value)

unfoldable pub rest_table_ident : (warehouse namespace table : Text) → LakeCatResult TableIdent
rest_table_ident warehouse namespace table = do
  w ← new_warehouse_name warehouse
  ns ← parse_rest_namespace namespace
  t ← new_table_name table
  ok (record { warehouse = w; namespace = ns; name = t })

unfoldable pub parent_of : Option Text → LakeCatResult (Option Namespace)
parent_of none = ok none
parent_of (some []) = ok none
parent_of (some (c ∷ cs)) = do ns ← parse_rest_namespace (c ∷ cs); ok (some ns)

unfoldable pub namespace_parent : ListNamespacesQuery → LakeCatResult (Option Namespace)
namespace_parent query = parent_of query.parent

pub record NamespacePage : Type 0 where
  pub namespaces : List Namespace
  pub next_page_token : Option Text

pub record PageRequest : Type 0 where
  pub offset : ℕ
  pub size : ℕ

unfoldable pub is_immediate_child : Option Namespace → Namespace → Bool
is_immediate_child (some parent) ns =
    length ns == suc (length parent) && holds (Texts-discrete (take (length parent) ns) parent)
is_immediate_child none ns = length ns == 1

abbrev pub page_token_prefix : Text
page_token_prefix = text "lakecat-v1:"

unfoldable pub encode_page_token : ℕ → Text
encode_page_token offset = page_token_prefix ++ to_string offset

unfoldable pub decode_page_token : Text → LakeCatResult ℕ
decode_page_token token =
    ok_or (and_then (strip_prefix page_token_prefix token) parse_u64)
      (invalid_argument "namespace page token is invalid" [])

abbrev pub default_page_size : ℕ
default_page_size = 1000

abbrev pub max_page_size : ℕ
max_page_size = 10000

abbrev pub least : ℕ → ℕ → ℕ
least a b = if leb a b then a else b

abbrev pub requested : Option ℕ → ℕ
requested (some size) = size
requested none = default_page_size

unfoldable pub token_offset : Option Text → LakeCatResult ℕ
token_offset none = ok 0
token_offset (some []) = ok 0
token_offset (some (c ∷ cs)) = decode_page_token (c ∷ cs)

unfoldable pub from_parts :
    (page_token : Option Text) (page_size : Option ℕ) → LakeCatResult PageRequest
from_parts page_token page_size = do
  let size = least (requested page_size) max_page_size
  reject (size == 0) (invalid_argument "namespace page size must be at least one" [])
  offset ← token_offset page_token
  ok (record { offset = offset; size = size })

unfoldable pub request_of :
    (page_token : Option Text) (page_size : Option ℕ) → LakeCatResult (Option PageRequest)
request_of none none = ok none
request_of (some t) size = do request ← from_parts (some t) size; ok (some request)
request_of none (some n) = do request ← from_parts none (some n); ok (some request)

-- `PageRequest::from_query`
unfoldable pub from_query : ListNamespacesQuery → LakeCatResult (Option PageRequest)
from_query query = request_of query.page_token query.page_size

-- `saturating_add`
abbrev pub saturating_add : ℕ → ℕ → ℕ
saturating_add a b = least (a + b) (2 ^ 64 - 1)

abbrev pub page_end : PageRequest → ℕ → ℕ
page_end request len = least (saturating_add request.offset request.size) len

unfoldable pub page_of : List Namespace → Option PageRequest → LakeCatResult NamespacePage
page_of namespaces none = ok (record { namespaces = namespaces; next_page_token = none })
page_of namespaces (some request) = do
  reject (ltb (length namespaces) request.offset)
      (invalid_argument "namespace page token points beyond the available results" [])
  let last = page_end request (length namespaces)
  ok (record {
    namespaces = slice request.offset last namespaces;
    next_page_token = if ltb last (length namespaces) then some (encode_page_token last) else none;
  })

-- The namespaces of a listing that a query pages through.
unfoldable pub children_of : Option Namespace → List Namespace → List Namespace
children_of parent namespaces = sort texts_less (keep (is_immediate_child parent) namespaces)

unfoldable pub namespace_page :
    List Namespace → Option Namespace → ListNamespacesQuery → LakeCatResult NamespacePage
namespace_page namespaces parent query = do
  page_request ← from_query query
  page_of (children_of parent namespaces) page_request
