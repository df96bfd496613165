-- ===== src/Memory/Outbox.antt =====
-- The audit and outbox operations of crates/lakecat-store/src/memory.rs.
pub mod Delivery
pub mod Once
use lakecat.Prelude.{
  Text, text_less, List, [], ◌∷◌, ◌++◌, ℕ, ◌+◌, ltb, zero, suc, Option, none, some, Bool, true,
  false, any, holds, keep, is_some, not, Text-discrete, ◌≡◌, ◌&&◌, if◌then◌else◌,
}
use lakecat.Prelude.Results.{LakeCatResult, ok, err, internal, reject, for_each, ◌>>=◌, ◌>>◌}
use lakecat.Records.Types.{DateTime, CatalogAuditEvent, OutboxEvent}
use lakecat.Records.External.{External}
use lakecat.Records.Evidence.{validate_outbox_event_id_shape}
use lakecat.Records.Events.{validate_recordable, audit_event_id}
use lakecat.Records.Events.Outbox.{
  audit_outbox_payload, outbox_event_from_payload, validate_pending,
}
use lakecat.Memory.State.{MemoryState, Update, Query, is_member}

-- the comparison by instant and id
unfoldable pub event_before : OutboxEvent → OutboxEvent → Bool
event_before left right =
    if ltb left.created_at right.created_at
    then true
    else if ltb right.created_at left.created_at
    then false
    else text_less left.event_id right.event_id

unfoldable pub insert_event : OutboxEvent → List OutboxEvent → List OutboxEvent
insert_event e [] = e ∷ []
insert_event e (f ∷ fs) =
    let rest = insert_event e fs in if event_before f e then f ∷ rest else e ∷ f ∷ fs

unfoldable pub sort_events : List OutboxEvent → List OutboxEvent
sort_events [] = []
sort_events (e ∷ es) = insert_event e (sort_events es)

abbrev pub take {ℓ} : {A : Type ℓ} → ℕ → List A → List A
take zero xs = []
take (suc n) [] = []
take (suc n) (x ∷ xs) = x ∷ take n xs

abbrev pub is_for : Option Text → OutboxEvent → Bool
is_for none event = true
is_for (some sink) event = holds (Text-discrete event.sink sink)

abbrev pub is_pending : OutboxEvent → Bool
is_pending event = not (is_some event.delivered_at)

-- the pending events among `ids`
abbrev pub is_due : List Text → OutboxEvent → Bool
is_due ids event = is_pending event && is_member event.event_id ids

-- the second loop of `mark_outbox_delivered`
unfoldable pub deliver : DateTime → List Text → List OutboxEvent → ℕ × List OutboxEvent
deliver delivered_at ids [] = (0, [])
deliver delivered_at ids (event ∷ events) =
    let rest = deliver delivered_at ids events in
    if is_due ids event
    then (suc rest.0, record event { delivered_at = some delivered_at } ∷ rest.1)
    else (rest.0, event ∷ rest.1)

module _ ⦃ext : External⦄ where
  unfoldable pub record_audit_event : CatalogAuditEvent → Update (Unit {0})
  record_audit_event event state = do
    validate_recordable event
    event_id ← audit_event_id event
    outbox_event ← outbox_event_from_payload (audit_outbox_payload event_id event) event.created_at
    reject
        (any (λ candidate. holds (Text-discrete candidate.event_id outbox_event.event_id))
          state.outbox_events)
        (internal "duplicate audit event id would duplicate outbox replay evidence" [])
    ok (
      tt,
      record state {
        audit_events = state.audit_events ++ event ∷ [];
        outbox_events = state.outbox_events ++ outbox_event ∷ [];
      },
    )

  unfoldable pub pending_outbox_events : Option Text → ℕ → Query (List OutboxEvent)
  pending_outbox_events sink limit state = do
    let events = take limit (sort_events (keep (is_for sink) (keep is_pending state.outbox_events)))
    for_each validate_pending events
    ok events

  -- the first loop of `mark_outbox_delivered`
  unfoldable pub check_due : List Text → List OutboxEvent → LakeCatResult (Unit {0})
  check_due ids events = for_each validate_pending (keep (is_due ids) events)

  unfoldable pub mark_outbox_delivered : DateTime → List Text → Update ℕ
  mark_outbox_delivered now [] state = ok (0, state)
  mark_outbox_delivered now (id ∷ ids) state = do
    for_each validate_outbox_event_id_shape (id ∷ ids)
    check_due (id ∷ ids) state.outbox_events
    let delivered = deliver now (id ∷ ids) state.outbox_events
    ok (delivered.0, record state { outbox_events = delivered.1 })
