-- ===== src/Service/Paging/Bounds.antt =====
-- The size of a page of namespaces is bounded (crates/lakecat-service/src/namespace.rs).
use lakecat.Prelude.{
  Text, length, ℕ, ◌-◌, ◌≤◌, ◌≡◌, ap, sym, subst, Option, none, some, List, arith,
}
use lakecat.Prelude.Lists.{slice, drop, take, length-take-le}
use lakecat.Prelude.Results.{ok, >>=-eq-ok, >>-eq-ok, ok-injective}
use lakecat.Core.Names.{Namespace}
use lakecat.Service.Namespaces.{
  NamespacePage, PageRequest, from_parts, from_query, request_of, page_of, page_end, children_of,
  namespace_page, least, max_page_size,
}
use lakecat.Service.Paging.{page_query}

from_parts-size :
    (token : Option Text) (size : ℕ) {request : PageRequest}
    → from_parts token (some size) ≡ ok request
    → request.size ≡ least size max_page_size
unfolding from_parts
from_parts-size token size h =
    let step = >>=-eq-ok _ _ (>>-eq-ok _ _ h).1 in
    ap (λ (r : PageRequest). r.size) (sym (ok-injective step.2))

from_query-size :
    (token : Option Text) (size : ℕ) {requests : Option PageRequest}
    → from_query (page_query token size) ≡ ok requests
    → (request : PageRequest) × (requests ≡ some request)
      × (request.size ≡ least size max_page_size)
unfolding from_query request_of
from_query-size none size h =
    let step = >>=-eq-ok _ _ h in
    (step.0, sym (ok-injective step.2), from_parts-size none size step.1)
from_query-size (some t) size h =
    let step = >>=-eq-ok _ _ h in
    (step.0, sym (ok-injective step.2), from_parts-size (some t) size step.1)

page_of-length :
    (xs : List Namespace) (request : PageRequest) {page : NamespacePage}
    → page_of xs (some request) ≡ ok page
    → length page.namespaces ≤ request.size
unfolding page_of
page_of-length xs request {page} h =
    let last = page_end request (length xs) in
    let e : page.namespaces ≡ slice request.offset last xs =
      ap (λ (p : NamespacePage). p.namespaces) (sym (ok-injective (>>-eq-ok _ _ h).1)) in
    rw e (slice_short (drop request.offset xs))
  where
    slice_short :
        (ys : List Namespace)
        → length (take (page_end request (length xs) - request.offset) ys) ≤ request.size
    slice_short ys =
        ground (arith, length-take-le (page_end request (length xs) - request.offset) ys)

-- A page of a query with a size holds at most that many namespaces, and at most ten thousand.
pub namespace_page_bounds :
    (namespaces : List Namespace) (parent : Option Namespace) (token : Option Text) (size : ℕ)
    {page : NamespacePage}
    → namespace_page namespaces parent (page_query token size) ≡ ok page
    → (length page.namespaces ≤ size) × (length page.namespaces ≤ max_page_size)
unfolding namespace_page
namespace_page_bounds namespaces parent token size {page} h =
    let step = >>=-eq-ok _ _ h in
    let sized = from_query-size token size step.1 in
    let short =
      page_of-length (children_of parent namespaces) sized.0
        (subst (λ r. page_of (children_of parent namespaces) r ≡ ok page) sized.1 step.2) in
    ground (arith, short, sized.2)
