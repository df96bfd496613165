-- ===== src/Records/Documented.antt =====
-- What follows for the records from what is documented of the external code.
use lakecat.Prelude.{sym, ap, ◌∙◌, Text, text, ◌++◌, Option, some, ◌≡◌, refl}
use lakecat.Prelude.Results.{>>=-eq-ok, ok-injective, ok_or-eq-ok, ok, ◌>>=◌, ok_or}
use lakecat.Prelude.Json.{Json}
use lakecat.Records.Types.{DateTime, OutboxEvent}
use lakecat.Records.External.{External, IsDocumented}
use lakecat.Records.Evidence.{content_hash_json}
use lakecat.Records.Events.{get_str}
use lakecat.Records.Events.Outbox.{outbox_event_from_payload}

module _ ⦃ext : External⦄ where
  -- A new outbox event is pending and has the type that its payload names.
  pub outbox_event_from_payload-typed :
      (payload : Json) (now : DateTime) (event : OutboxEvent)
      → outbox_event_from_payload payload now ≡ ok event
      → (get_str payload "event-type" ≡ some event.event_type)
        × (event.payload ≡ payload)
        × (event.created_at ≡ now)
        × (event.delivered_at ≡ Option.none)
  unfolding outbox_event_from_payload
  outbox_event_from_payload-typed payload now event h =
      let a = >>=-eq-ok _ _ h in
      let b = >>=-eq-ok _ _ a.2 in
      let same = sym (ok-injective b.2) in
      (
        ok_or-eq-ok _ _ a.1 ∙ ap some (sym (ap (λ (e : OutboxEvent). e.event_type) same)),
        ap (λ (e : OutboxEvent). e.payload) same,
        ap (λ (e : OutboxEvent). e.created_at) same,
        ap (λ (e : OutboxEvent). e.delivered_at) same,
      )

module _ ⦃ext : External⦄ (doc : IsDocumented ext) where
  -- Every JSON value has a content hash.
  pub content_hash_json-total : (v : Json) → (hash : Text) × (content_hash_json v ≡ ok hash)
  unfolding content_hash_json ok_or ◌>>=◌
  content_hash_json-total v =
      let e = doc.encodes v in (text "sha256:" ++ ext.sha256_hex e.0, rw e.1 refl)

  -- A payload that names its event type has an outbox event.
  pub outbox_event_from_payload-total :
      (payload : Json) (event_type : Text) (now : DateTime)
      → get_str payload "event-type" ≡ some event_type
      → (event : OutboxEvent) × (outbox_event_from_payload payload now ≡ ok event)
  unfolding outbox_event_from_payload ok_or ◌>>=◌
  outbox_event_from_payload-total payload event_type now typed =
      let e = content_hash_json-total payload in
      (
        record {
          event_id = e.0;
          sink = text "lakecat.lineage-and-graph";
          event_type = event_type;
          payload = payload;
          created_at = now;
          delivered_at = Option.none;
        },
        rw (typed, e.1) refl,
      )
