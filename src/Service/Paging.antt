-- ===== src/Service/Paging.antt =====
-- The tokens of crates/lakecat-service/src/namespace.rs read back, and a
-- client that follows the tokens reads the whole listing.
pub mod Bounds
use mathlib.Core.List.{append-nil}
use lakecat.Prelude.{
  Text, to_string, length, ltb, if◌then◌else◌, Bool-cases, ℕ, zero, suc, ◌+◌, ◌-◌, ◌^◌, ◌≤◌, ◌<◌,
  ◌≡◌, ◌≢◌, text, refl, ap, sym, subst, ◌∙◌, inl, inr, Option, none, some, List, [], ◌∷◌, ◌++◌,
  arith,
}
use lakecat.Prelude.Decimal.{parse_u64-to_string}
use lakecat.Prelude.Lists.{
  strip_prefix-append, slice, drop, take, length-take-le, slice-append-drop, drop-length,
}
use lakecat.Prelude.Options.{and_then}
use lakecat.Prelude.Results.{
  LakeCatResult, ok, err, reject, ok_or, ◌>>=◌, ◌>>◌, >>=-eq-ok, >>-eq-ok, ok-injective,
}
use lakecat.Core.Names.{Namespace}
use lakecat.Service.Namespaces.{
  ListNamespacesQuery, NamespacePage, PageRequest, encode_page_token, decode_page_token,
  page_token_prefix, token_offset, from_parts, from_query, request_of, page_of, page_end,
  children_of, namespace_page, least, max_page_size,
}

-- A page token that the service hands out is read back as the offset that it was made of.
pub decode-encode_page_token :
    (offset : ℕ) → offset < 2 ^ 64 → decode_page_token (encode_page_token offset) ≡ ok offset
unfolding decode_page_token encode_page_token ok_or
decode-encode_page_token offset h =
    rw (strip_prefix-append page_token_prefix (to_string offset), parse_u64-to_string offset h) refl

token_offset-nonempty : (t : Text) → t ≢ [] → token_offset (some t) ≡ decode_page_token t
unfolding token_offset
token_offset-nonempty [] ne = absurd (ne refl)
token_offset-nonempty (c ∷ cs) ne = refl

prefix-ne : (t : Text) → page_token_prefix ++ t ≢ []
unfolding text
prefix-ne t e = cc

token_offset-encode_page_token :
    (offset : ℕ) → offset < 2 ^ 64 → token_offset (some (encode_page_token offset)) ≡ ok offset
token_offset-encode_page_token offset h =
    token_offset-nonempty (encode_page_token offset)
      (unfold encode_page_token in prefix-ne (to_string offset))
    ∙ decode-encode_page_token offset h

abbrev pub page_query : Option Text → ℕ → ListNamespacesQuery
page_query token size = record { parent = none; page_token = token; page_size = some size }

-- What a query with a size asks for.
from_query-sized :
    (token : Option Text) (size offset : ℕ)
    → 0 < size
    → token_offset token ≡ ok offset
    → from_query (page_query token size)
      ≡ ok (some (record { offset = offset; size = least size max_page_size }))
unfolding from_query request_of from_parts ◌>>=◌ ◌>>◌ reject
from_query-sized none size offset pos h = ground arith
from_query-sized (some t) size offset pos h = ground arith

module _ (xs : List Namespace) (offset size : ℕ) (within : offset ≤ length xs) where
  request_at : PageRequest
  request_at = record { offset = offset; size = size }

  last_at : ℕ
  last_at = page_end request_at (length xs)

  last_bounds :
      length xs < 2 ^ 64
      → (offset ≤ last_at)
        × (last_at ≤ length xs)
        × (last_at ≤ offset + size)
        × (0 < size → last_at < length xs → offset < last_at)
  unfolding last_at request_at
  last_bounds small = ground arith

  page_at : NamespacePage
  page_at = record {
    namespaces = slice offset last_at xs;
    next_page_token = if ltb last_at (length xs) then some (encode_page_token last_at) else none;
  }

  page_of-page : page_of xs (some request_at) ≡ ok page_at
  unfolding page_of request_at last_at page_at ◌>>◌ ◌>>=◌ reject
  page_of-page = ground arith

-- What the client does with a page: it asks for the next one, if the page has a token.
pub after_page :
    List Namespace → Option Text → (Text → Option (List Namespace)) → Option (List Namespace)
after_page found none next = some found
after_page found (some token) next = and_then (next token) (λ rest. some (found ++ rest))

-- The page from one place to another and the pages after it are what follows the first place.
after_page-slice :
    (xs : List Namespace) (from to : ℕ) (token : Text) (next : Text → Option (List Namespace))
    → from ≤ to
    → to ≤ length xs
    → (to < length xs → next token ≡ some (drop to xs))
    → after_page (slice from to xs) (if ltb to (length xs) then some token else none) next
      ≡ some (drop from xs)
unfolding after_page
after_page-slice xs from to token next le within rest = elim (Bool-cases (ltb to (length xs))) [
  | inl more ↦
      rw more (rw (rest (ground arith)) (ap (λ ys. some ys) (slice-append-drop from to xs le)))
  | inr done ↦
      let e : to ≡ length xs = ground arith in
      rw done (
        ap (λ ys. some ys)
          (sym (append-nil _)
            ∙ (ap (λ ys. slice from to xs ++ ys)
                  (sym (drop-length xs) ∙ ap (λ k. drop k xs) (sym e))
                ∙ slice-append-drop from to xs le)))
]

visit : LakeCatResult NamespacePage → (Text → Option (List Namespace)) → Option (List Namespace)
visit (ok found) next = after_page found.namespaces found.next_page_token next
visit (err e) next = none

-- A client that asks for pages of one size until a page has no token. `none` is an error of the
-- service, or that the requests ran out.
module _ (namespaces : List Namespace) (parent : Option Namespace) (size : ℕ) where
  pub follow_pages : (requests : ℕ) → Option Text → Option (List Namespace)
  follow_pages zero token = none
  follow_pages (suc requests) token =
      visit (namespace_page namespaces parent (page_query token size))
        λ t. follow_pages requests (some t)

  namespace_page_lem :
      (offset : ℕ) (token : Option Text)
      → 0 < size
      → (within : offset ≤ length (children_of parent namespaces)) → token_offset token ≡ ok offset
      → namespace_page namespaces parent (page_query token size)
        ≡ ok (page_at (children_of parent namespaces) offset (least size max_page_size) within)
  unfolding namespace_page ◌>>=◌
  namespace_page_lem offset token pos within h = rw (from_query-sized token size offset pos h) (
      unfold request_at in
      page_of-page (children_of parent namespaces) offset (least size max_page_size) within)

  follow_from :
      (requests offset : ℕ) (token : Option Text)
      → 0 < size
      → length (children_of parent namespaces) < 2 ^ 64
      → offset ≤ length (children_of parent namespaces)
      → length (children_of parent namespaces) < requests + offset
      → token_offset token ≡ ok offset
      → follow_pages requests token ≡ some (drop offset (children_of parent namespaces))
  unfolding follow_pages visit page_at
  follow_from zero offset token pos small within enough h = absurd (omega arith)
  follow_from (suc requests) offset token pos small within enough h =
      let xs = children_of parent namespaces in
      let limit = least size max_page_size in
      let last = last_at xs offset limit within in
      let bounds = last_bounds xs offset limit within small in
      ap (λ r. visit r (λ t. follow_pages requests (some t)))
        (namespace_page_lem offset token pos within h)
      ∙ (after_page-slice xs offset last (encode_page_token last)
          (λ t. follow_pages requests (some t)) bounds.0 bounds.1
          λ more.
            follow_from requests last (some (encode_page_token last)) pos small bounds.1
              (let further : offset < last = bounds.3 (ground arith) more in omega arith)
              (token_offset-encode_page_token last (omega arith)))

  -- A client that starts without a token and asks for pages of one positive size, at most as many
  -- times as there are namespaces and once more, gets all the immediate children, in the order in
  -- which a request without paging lists them, if they are fewer than 2^64.
  pub follow_pages-reads :
      0 < size
      → length (children_of parent namespaces) < 2 ^ 64
      → (page : NamespacePage) × (namespace_page namespaces parent
            (record { parent = none; page_token = none; page_size = none })
          ≡ ok page)
        × (page.next_page_token ≡ none)
        × (follow_pages (suc (length (children_of parent namespaces))) none ≡ some page.namespaces)
  unfolding namespace_page from_query request_of page_of ◌>>=◌ token_offset
  follow_pages-reads pos small = (
    record { namespaces = children_of parent namespaces; next_page_token = none },
    refl,
    refl,
    follow_from (suc (length (children_of parent namespaces))) 0 none pos small (omega arith)
        (omega arith) refl,
  )
