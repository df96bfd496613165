-- ===== src/Tests/Services.antt =====
-- Runs of the listing of namespaces, of security and of the outbox drain, and their theorems there.
use lakecat.Prelude.{
  Text, text, ℕ, suc, ◌+◌, ◌^◌, ◌<◌, ◌≤◌, ◌≡◌, ◌≢◌, ◌⊎◌, refl, length, all, keep, true, none, some,
  List, [], ◌∷◌, arith, ◌++◌,
}
use lakecat.Prelude.Lists.{sort}
use lakecat.Prelude.Json.{Json, object, array, string, num, pos, null}
use lakecat.Prelude.Results.{ok}
use lakecat.Core.Names.{Namespace}
use lakecat.Memory.Outbox.{event_before, is_due}
use lakecat.Memory.Outbox.Delivery.{is_left}
use lakecat.Service.Namespaces.{
  NamespacePage, encode_page_token, decode_page_token, children_of, namespace_page, max_page_size,
}
use lakecat.Service.Paging.{page_query, follow_pages, decode-encode_page_token, follow_pages-reads}
use lakecat.Service.Paging.Bounds.{namespace_page_bounds}
use lakecat.Service.Outbox.{Projector, ids_of, Drained, drain_outbox_once}
use lakecat.Service.Outbox.Drain.{HasFailed, Acknowledged, drain_outbox_once-acknowledges}
use lakecat.Security.Actions.{CatalogAction}
use lakecat.Security.Columns.{has, dedup_columns}
use lakecat.Security.Columns.Sets.{first_occurrences, dedup_columns-first}
use lakecat.Security.Restriction.{ReadRestriction, from_odrl_policies, effective_projection}
use lakecat.Security.Narrowing.{allows, policy_allows, from_odrl_policies-columns}
use lakecat.Security.Narrowing.Projection.{effective_projection-allowed}
use lakecat.Security.Receipts.{AuthorizationReceipt, Codecs}
use lakecat.Security.Capabilities.{TableKind, table_from_receipt}
use lakecat.Security.Capabilities.Grants.{
  Kind, Grants, Authorizes, action_of, Grants-Authorizes, Grants-unique,
}
use lakecat.Tests.Model.{model}
use lakecat.Tests.Rules.{rules}
use lakecat.Tests.Rows.{recorded}
use lakecat.Tests.Sample.{sample, owner, orders, after, repeat}
use lakecat.Memory.State.{MemoryState}
use lakecat.Memory.Namespaces.{create_namespace}

decode-encode_page_token_example : decode_page_token (encode_page_token 1500) ≡ ok 1500
decode-encode_page_token_example = decode-encode_page_token 1500 (omega arith)

-- Three namespaces under the root, one of them with a child.
abbrev listing : List Namespace
listing =
    (text "raw" ∷ []) ∷ (text "raw" ∷ text "old" ∷ []) ∷ (text "hr" ∷ []) ∷ (text "sales" ∷ []) ∷ []

listed : children_of none listing ≡ (text "hr" ∷ []) ∷ (text "raw" ∷ []) ∷ (text "sales" ∷ []) ∷ []
unfolding model rules
listed = refl

few : length (children_of none listing) < 2 ^ 64
few = rw listed (omega arith)

follow_pages-reads_example :
    (page : NamespacePage) × (namespace_page listing none
        (record { parent = none; page_token = none; page_size = none })
      ≡ ok page)
    × (page.next_page_token ≡ none)
    × (follow_pages listing none 2 (suc (length (children_of none listing))) none
        ≡ some page.namespaces)
follow_pages-reads_example = follow_pages-reads listing none 2 (omega arith) few

abbrev first_page : NamespacePage
first_page = record {
  namespaces = (text "hr" ∷ []) ∷ (text "raw" ∷ []) ∷ [];
  next_page_token = some (text "lakecat-v1:2");
}

first_page_of : namespace_page listing none (page_query none 2) ≡ ok first_page
unfolding model rules
first_page_of = refl

namespace_page_bounds_example :
    (length first_page.namespaces ≤ 2) × (length first_page.namespaces ≤ max_page_size)
namespace_page_bounds_example = namespace_page_bounds listing none none 2 first_page_of

abbrev doubled : List Text
doubled = text "id" ∷ text "name" ∷ text "id" ∷ []

dedup_columns-first_example : dedup_columns doubled ≡ first_occurrences doubled
dedup_columns-first_example = dedup_columns-first doubled

-- Two policies that allow the columns id, name and name, email.
abbrev policies : List Json
policies =
    object (("allowed-columns", array (string "id" ∷ string "name" ∷ [])) ∷ [])
    ∷ object (
        ("columns", array (string "name" ∷ string "email" ∷ []))
        ∷ ("max-credential-ttl-seconds", num (pos 300))
        ∷ [])
    ∷ []

abbrev restriction : ReadRestriction
restriction = record {
  allowed_columns = some (text "name" ∷ []);
  row_predicate = none;
  purpose = none;
  max_credential_ttl_seconds = some 300;
  policy_hashes = hash ∷ hash ∷ [];
}
  where
    hash : Text
    hash = text "sha256:aaaaaaaaaaaaaaaaaaaaaaaaaaaaaaaaaaaaaaaaaaaaaaaaaaaaaaaaaaaaaaaa"

restricted : from_odrl_policies policies ≡ ok restriction
unfolding model rules
restricted = refl

from_odrl_policies-columns_example :
    allows restriction.allowed_columns (text "email") ≡ all (policy_allows (text "email")) policies
from_odrl_policies-columns_example =
    from_odrl_policies-columns policies restriction (text "email") restricted

abbrev wanted : List Text
wanted = text "name" ∷ text "email" ∷ []

projected : effective_projection restriction wanted ≡ ok (text "name" ∷ [])
unfolding model rules
projected = refl

has_name : has (text "name") (text "name" ∷ []) ≡ true
unfolding model rules
has_name = refl

effective_projection-allowed_example :
    (all (policy_allows (text "name")) policies ≡ true)
    × (wanted ≢ [] → has (text "name") wanted ≡ true)
effective_projection-allowed_example =
    effective_projection-allowed policies restriction wanted (text "name" ∷ []) (text "name")
      restricted projected has_name

instance abbrev codecs : Codecs
codecs = record { restriction_from_value = λ v. none; action_value = λ a. null }

abbrev receipt : AuthorizationReceipt
receipt = record {
  principal = owner;
  action = CatalogAction.table_commit;
  table = some orders;
  allowed = true;
  engine = text "local";
  policy_hash = none;
  context = null;
  checked_at = 3;
}

committer :
    table_from_receipt TableKind.can_commit_table receipt orders
    ≡ ok (record { receipt = receipt; resource = orders })
unfolding model rules
committer = refl

commits : Grants receipt (Kind.table TableKind.can_commit_table) (some orders)
commits = Grants.of_table TableKind.can_commit_table orders _ committer

Grants-Authorizes_example :
    Authorizes receipt (action_of (Kind.table TableKind.can_commit_table)) (some orders)
Grants-Authorizes_example =
    Grants-Authorizes receipt (Kind.table TableKind.can_commit_table) (some orders) commits

-- Sinks that count the events they are given.
abbrev counting : Projector ℕ
counting = record {
  check_event = λ e. ok tt;
  project = λ e n. (
    ok (record {
      graph_events = 1;
      lineage_events = 1;
      lineage_event_hashes = [];
      open_lineage_hashes = [];
    }),
    n + 1,
  );
  check_receipt = λ e r. ok tt;
  summary = λ e r. ok null;
  check_response = λ r. ok tt;
}

-- Another namespace is created while the events are projected.
abbrev meanwhile : MemoryState
meanwhile = after recorded (create_namespace (text "w") (text "ops" ∷ []) recorded)

abbrev drained : Drained counting
drained = drain_outbox_once counting 9 10 recorded meanwhile 0

drain_runs :
    (drained.sinks ≡ 1)
    × (keep (is_due ((text "sha256:" ++ repeat 64 b'a') ∷ [])) drained.state.outbox_events ≡ [])
unfolding model rules
drain_runs = (refl, refl)

drain_outbox_once-acknowledges_example :
    HasFailed counting meanwhile drained
    ⊎ ((a : Acknowledged counting 9 10 recorded meanwhile 0 drained) × (keep
            (is_due (ids_of (sort event_before a.events)))
            drained.state.outbox_events
          ≡ [])
        × (keep (is_left (ids_of (sort event_before a.events))) drained.state.outbox_events
            ≡ keep (is_left (ids_of (sort event_before a.events))) meanwhile.outbox_events))
drain_outbox_once-acknowledges_example =
    drain_outbox_once-acknowledges counting 9 10 recorded meanwhile 0

Grants-unique_example :
    (Kind.table TableKind.can_commit_table ≡ Kind.table TableKind.can_commit_table)
    × (some orders ≡ some orders)
Grants-unique_example =
    Grants-unique receipt (Kind.table TableKind.can_commit_table)
      (Kind.table TableKind.can_commit_table) (some orders) (some orders) commits commits
