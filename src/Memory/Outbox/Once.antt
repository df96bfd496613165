-- ===== src/Memory/Outbox/Once.antt =====
-- `record_audit_event` (crates/lakecat-store/src/memory.rs): an event is recorded once.
use lakecat.Prelude.{
  Text, Text-discrete, List, [], ◌∷◌, ◌++◌, true, any, holds, ◌≡◌, refl, ap, arith,
}
use lakecat.Prelude.Results.{
  LakeCatError, ok, err, internal, ◌>>=◌, ◌>>◌, reject, >>=-eq-ok, >>-eq-ok, ok-pair,
}
use lakecat.Records.Types.{CatalogAuditEvent, OutboxEvent}
use lakecat.Records.External.{External}
use lakecat.Records.Events.{validate_recordable, audit_event_id}
use lakecat.Records.Events.Outbox.{audit_outbox_payload, outbox_event_from_payload}
use lakecat.Memory.State.{MemoryState}
use lakecat.Memory.Outbox.{record_audit_event}

any-last :
    (id : Text) (es : List OutboxEvent) (e : OutboxEvent)
    → e.event_id ≡ id
    → any (λ candidate. holds (Text-discrete candidate.event_id id)) (es ++ e ∷ []) ≡ true
unfolding any
any-last id [] e same = ground arith
any-last id (f ∷ es) e same = ground (arith, any-last id es e same)

abbrev pub duplicate : LakeCatError
duplicate = internal "duplicate audit event id would duplicate outbox replay evidence" []

module _ ⦃ext : External⦄ where
  -- What a recording that succeeds has computed and written.
  record Recorded (event : CatalogAuditEvent) (s s' : MemoryState) : Type 0 where
    valid : validate_recordable event ≡ ok tt
    id : Text
    identified : audit_event_id event ≡ ok id
    outbox : OutboxEvent
    built : outbox_event_from_payload (audit_outbox_payload id event) event.created_at ≡ ok outbox
    events : s'.outbox_events ≡ s.outbox_events ++ outbox ∷ []
    audits : s'.audit_events ≡ s.audit_events ++ event ∷ []

  record_audit_event-Recorded :
      (event : CatalogAuditEvent) (s s' : MemoryState)
      → record_audit_event event s ≡ ok (tt, s')
      → Recorded event s s'
  unfolding record_audit_event
  record_audit_event-Recorded event s s' h =
      let a = >>-eq-ok _ _ h in
      let b = >>=-eq-ok _ _ a.1 in
      let c = >>=-eq-ok _ _ b.2 in
      let done = ok-pair (>>-eq-ok _ _ c.2).1 in
      record {
        valid = a.0;
        id = b.0;
        identified = b.1;
        outbox = c.0;
        built = c.1;
        events = ap (λ (x : MemoryState). x.outbox_events) done.1;
        audits = ap (λ (x : MemoryState). x.audit_events) done.1;
      }

  record_audit_event-refuses :
      (event : CatalogAuditEvent) (s : MemoryState) (id : Text) (outbox : OutboxEvent)
      → validate_recordable event ≡ ok tt
      → audit_event_id event ≡ ok id
      → outbox_event_from_payload (audit_outbox_payload id event) event.created_at ≡ ok outbox
      → any (λ candidate. holds (Text-discrete candidate.event_id outbox.event_id)) s.outbox_events
        ≡ true
      → record_audit_event event s ≡ err duplicate
  unfolding record_audit_event reject ◌>>=◌ ◌>>◌
  record_audit_event-refuses event s id outbox valid identified built present =
      rw (valid, identified, built, present) refl

  -- An audit event is recorded once: the recording appends it to the audit log and one event to the
  -- outbox, and a second recording of the same event is an internal error.
  pub record_audit_event-once :
      (event : CatalogAuditEvent) (s s' : MemoryState)
      → record_audit_event event s ≡ ok (tt, s')
      → ((outbox : OutboxEvent) × (s'.outbox_events ≡ s.outbox_events ++ outbox ∷ []))
        × (s'.audit_events ≡ s.audit_events ++ event ∷ [])
        × (record_audit_event event s' ≡ err duplicate)
  record_audit_event-once event s s' h =
      let r = record_audit_event-Recorded event s s' h in
      (
        (r.outbox, r.events),
        r.audits,
        record_audit_event-refuses event s' r.id r.outbox r.valid r.identified r.built
            (rw r.events (any-last r.outbox.event_id s.outbox_events r.outbox refl)),
      )
