-- ===== src/Service/Outbox.antt =====
-- `drain_outbox_once` of crates/lakecat-service/src/outbox.rs over the memory store: it projects the
-- pending events into the graph and the lineage sink and acknowledges them together. What becomes of
-- one event there is a parameter.
pub mod Drain
use lakecat.Prelude.{
  Text, Text-discrete, text, to_string, ◌==◌, holds, length, if◌then◌else◌, ℕ, ◌+◌, Bool, true,
  false, Option, none, some, List, [], ◌∷◌, ◌++◌, map,
}
use lakecat.Prelude.Lists.{sort}
use lakecat.Prelude.Json.{Json}
use lakecat.Prelude.Results.{
  LakeCatResult, LakeCatError, ok, err, conflict, reject, ensure, ◌>>=◌, ◌>>◌,
}
use lakecat.Records.Types.{DateTime, OutboxEvent}
use lakecat.Records.External.{External}
use lakecat.Records.Evidence.{content_hash_bytes}
use lakecat.Memory.State.{MemoryState, is_member}
use lakecat.Memory.Outbox.{event_before, pending_outbox_events, mark_outbox_delivered}

-- `OutboxProjectionReceipt`
pub record OutboxProjectionReceipt : Type 0 where
  pub graph_events : ℕ
  pub lineage_events : ℕ
  pub lineage_event_hashes : List Text
  pub open_lineage_hashes : List Text

-- The part of `LineageDrainResponse` that a drain fills in.
pub record LineageDrainResponse : Type 0 where
  pub delivered : ℕ
  pub event_types : List Text
  pub graph_events : ℕ
  pub lineage_events : ℕ
  pub events : List Json

-- The functions that a drain calls for each event and for the response: `validate_outbox_event_evidence`,
-- `project_outbox_event` on the state W of the two sinks, which it may leave changed when it fails,
-- `validate_projection_receipt_evidence`, `lineage_drain_event_summary` and
-- `validate_lineage_drain_response_manifest`.
pub record Projector (W : Type 0) : Type 0 where
  pub check_event : OutboxEvent → LakeCatResult (Unit {0})
  pub project : OutboxEvent → W → LakeCatResult OutboxProjectionReceipt × W
  pub check_receipt : OutboxEvent → OutboxProjectionReceipt → LakeCatResult (Unit {0})
  pub summary : OutboxEvent → OutboxProjectionReceipt → LakeCatResult Json
  pub check_response : LineageDrainResponse → LakeCatResult (Unit {0})

-- What the loop has gathered of one event.
pub record Projection : Type 0 where
  pub event : OutboxEvent
  pub receipt : OutboxProjectionReceipt
  pub summary : Json

abbrev pub sink : Text
sink = text "lakecat.lineage-and-graph"

unfoldable pub ids_of : List OutboxEvent → List Text
ids_of events = map (λ (event : OutboxEvent). event.event_id) events

unfoldable pub total : (OutboxProjectionReceipt → ℕ) → List Projection → ℕ
total f [] = 0
total f (p ∷ ps) = f p.receipt + total f ps

unfoldable pub drain_response : ℕ → List Projection → LineageDrainResponse
drain_response delivered projections = record {
  delivered = delivered;
  event_types = map (λ (p : Projection). p.event.event_type) projections;
  graph_events = total (λ (r : OutboxProjectionReceipt). r.graph_events) projections;
  lineage_events = total (λ (r : OutboxProjectionReceipt). r.lineage_events) projections;
  events = map (λ (p : Projection). p.summary) projections;
}

module _ ⦃ext : External⦄ {W : Type 0} (projector : Projector W) where
  -- the loop over `seen_event_ids`
  unfoldable pub reject_duplicates : List Text → List OutboxEvent → LakeCatResult (Unit {0})
  reject_duplicates seen [] = ok tt
  reject_duplicates seen (event ∷ events) = do
    reject (is_member event.event_id seen) (
        conflict "outbox pending batch contained duplicate event id hash {}"
          (content_hash_bytes event.event_id ∷ []))
    reject_duplicates (event.event_id ∷ seen) events

  -- what follows the projection of an event
  unfoldable pub gather :
      OutboxEvent → LakeCatResult OutboxProjectionReceipt → LakeCatResult Projection
  gather event projected = do
    receipt ← projected
    projector.check_receipt event receipt
    summary ← projector.summary event receipt
    ok (record { event = event; receipt = receipt; summary = summary })

  -- one round of the loop over the events
  unfoldable pub project_event : OutboxEvent → W → LakeCatResult Projection × W
  project_event event sinks = elim (projector.check_event event) [
    | err e ↦ (err e, sinks)
    | ok _ ↦
        let projected = projector.project event sinks in (gather event projected.0, projected.1)
  ]

  unfoldable pub with_first :
      Projection → LakeCatResult (List Projection) × W → LakeCatResult (List Projection) × W
  with_first p (ok ps, sinks) = (ok (p ∷ ps), sinks)
  with_first p (err e, sinks) = (err e, sinks)

  unfoldable pub go_on :
      LakeCatResult Projection × W
      → (W → LakeCatResult (List Projection) × W)
      → LakeCatResult (List Projection) × W
  go_on (err e, sinks) rest = (err e, sinks)
  go_on (ok p, sinks) rest = with_first p (rest sinks)

  -- the loop, which the first error ends
  unfoldable pub project_all : List OutboxEvent → W → LakeCatResult (List Projection) × W
  project_all [] sinks = (ok [], sinks)
  project_all (event ∷ events) sinks =
      go_on (project_event event sinks) (λ after. project_all events after)

  pub record Drained : Type 0 where
    pub result : LakeCatResult LineageDrainResponse
    pub state : MemoryState
    pub sinks : W

  unfoldable pub finish :
      List OutboxEvent → List Projection → ℕ → LakeCatResult LineageDrainResponse
  finish events projections delivered = do
    ensure (delivered == length events) (
        conflict
          "outbox drain acknowledgement mismatch: projected {projected} event(s) but marked {delivered} delivered"
          (to_string (length events) ∷ to_string delivered ∷ []))
    projector.check_response (drain_response delivered projections)
    ok (drain_response delivered projections)

  unfoldable pub marked :
      List OutboxEvent
      → List Projection
      → MemoryState
      → W
      → LakeCatResult (ℕ × MemoryState)
      → Drained
  marked events projections state sinks (err e) = record {
    result = err e;
    state = state;
    sinks = sinks;
  }
  marked events projections state sinks (ok (delivered, after)) = record {
    result = finish events projections delivered;
    state = after;
    sinks = sinks;
  }

  -- Acknowledgement is all-or-retry. The state is the one in which the store is locked for it.
  unfoldable pub acknowledge :
      DateTime → List OutboxEvent → MemoryState → LakeCatResult (List Projection) × W → Drained
  acknowledge now events state (err e, sinks) = record {
    result = err e;
    state = state;
    sinks = sinks;
  }
  acknowledge now events state (ok projections, sinks) =
      marked events projections state sinks (mark_outbox_delivered now (ids_of events) state)

  unfoldable pub drain_batch : DateTime → List OutboxEvent → MemoryState → W → Drained
  drain_batch now events state sinks = elim (reject_duplicates [] events) [
    | err e ↦ record { result = err e; state = state; sinks = sinks }
    | ok _ ↦ acknowledge now events state (project_all events sinks)
  ]

  -- The store is locked once to read the pending events of `state` and again to mark them, when all
  -- are projected. Other operations run in between: `later` is the state that they have left.
  unfoldable pub drain_outbox_once : DateTime → ℕ → (state later : MemoryState) → W → Drained
  drain_outbox_once now limit state later sinks =
      elim (pending_outbox_events (some sink) limit state) [
        | err e ↦ record { result = err e; state = later; sinks = sinks }
        | ok events ↦ drain_batch now (sort event_before events) later sinks
      ]
