-- ===== src/Service/Outbox/Drain.antt =====
-- A drain of the outbox (crates/lakecat-service/src/outbox.rs) acknowledges all the events that it
-- has projected, or none.
use lakecat.Prelude.{
  ℕ, keep, length, some, List, [], ◌∷◌, ◌≡◌, ◌⊎◌, inl, inr, refl, sym, ap, subst, arith,
}
use lakecat.Prelude.Lists.{sort}
use lakecat.Prelude.Results.{
  err-ne-ok, LakeCatResult, LakeCatError, ok, err, ok-injective, >>-eq-ok, ensure-eq-ok,
}
use lakecat.Records.Types.{DateTime, OutboxEvent}
use lakecat.Records.External.{External}
use lakecat.Memory.State.{MemoryState}
use lakecat.Memory.Outbox.{event_before, pending_outbox_events, mark_outbox_delivered, is_due}
use lakecat.Memory.Outbox.Delivery.{mark_outbox_delivered-delivers, is_left}
use lakecat.Service.Outbox.{
  Projector, Projection, sink, ids_of, project_all, Drained, marked, acknowledge, drain_batch,
  drain_outbox_once, LineageDrainResponse, drain_response, finish, reject_duplicates, go_on,
  with_first, project_event,
}

module _ ⦃ext : External⦄ {W : Type 0} (projector : Projector W) where
  -- One round after another, each on the sinks that the round before it left.
  pub data Rounds : List OutboxEvent → W → List Projection → W → Type 0 where
    done : {w : W} → Rounds [] w [] w
    round :
        {event : OutboxEvent} {events : List OutboxEvent} {p : Projection} {ps : List Projection}
        {w v u : W}
        → project_event projector event w ≡ (ok p, v)
        → Rounds events v ps u
        → Rounds (event ∷ events) w (p ∷ ps) u

  -- A drain that has marked events answers with an error, or with as many as it has projected.
  abbrev pub Answer :
      List OutboxEvent → List Projection → ℕ → LakeCatResult LineageDrainResponse → Type 0
  Answer batch projections delivered result =
      ((e : LakeCatError) × (result ≡ err e))
      ⊎ ((result ≡ ok (drain_response delivered projections)) × (delivered ≡ length batch))

  -- What a drain has acknowledged: a batch of events that were pending, all of which were projected
  -- before the ids of the batch were marked in the later state.
  pub record Acknowledged (now : DateTime) (limit : ℕ) (s later : MemoryState) (w : W)
      (d : Drained projector) : Type 0 where
    pub events : List OutboxEvent
    pub projections : List Projection
    pub delivered : ℕ
    pub were_pending : pending_outbox_events (some sink) limit s ≡ ok events
    pub were_projected : Rounds (sort event_before events) w projections d.sinks
    pub are_marked :
        mark_outbox_delivered now (ids_of (sort event_before events)) later
        ≡ ok (delivered, d.state)
    pub is_answered : Answer (sort event_before events) projections delivered d.result

  with_first-ok :
      (p : Projection) (q : LakeCatResult (List Projection) × W) (ps : List Projection) (u : W)
      → with_first projector p q ≡ (ok ps, u)
      → (rest : List Projection) × (q ≡ (ok rest, u)) × (ps ≡ p ∷ rest)
  unfolding with_first
  with_first-ok p (ok rest, v) ps u h = (
    rest,
    ap (λ (x : W). (ok rest, x)) (ap (λ (x : LakeCatResult (List Projection) × W). x.1) h),
    sym (ok-injective (ap (λ (x : LakeCatResult (List Projection) × W). x.0) h)),
  )
  with_first-ok p (err e, v) ps u h =
      absurd (err-ne-ok (ap (λ (x : LakeCatResult (List Projection) × W). x.0) h))

  go_on-Rounds :
      (event : OutboxEvent) (events : List OutboxEvent) (w : W) (r : LakeCatResult Projection × W)
      (ps : List Projection) (u : W)
      → project_event projector event w ≡ r
      → go_on projector r (λ v. project_all projector events v) ≡ (ok ps, u)
      → ((v : W) (rest : List Projection)
          → project_all projector events v ≡ (ok rest, u)
          → Rounds events v rest u)
      → Rounds (event ∷ events) w ps u
  unfolding go_on
  go_on-Rounds event events w (err e, v) ps u e0 h ih =
      absurd (err-ne-ok (ap (λ (x : LakeCatResult (List Projection) × W). x.0) h))
  go_on-Rounds event events w (ok p, v) ps u e0 h ih =
      let first = with_first-ok p (project_all projector events v) ps u h in
      subst (λ qs. Rounds (event ∷ events) w qs u) (sym first.2) (round e0 (ih v first.0 first.1))

  project_all-Rounds :
      (events : List OutboxEvent) (w : W) (ps : List Projection) (u : W)
      → project_all projector events w ≡ (ok ps, u)
      → Rounds events w ps u
  unfolding project_all
  project_all-Rounds [] w ps u h =
      subst (λ v. Rounds [] w ps v) (ap (λ (x : LakeCatResult (List Projection) × W). x.1) h)
        (subst (λ qs. Rounds [] w qs w)
          (ok-injective (ap (λ (x : LakeCatResult (List Projection) × W). x.0) h)) done)
  project_all-Rounds (event ∷ events) w ps u h =
      go_on-Rounds event events w (project_event projector event w) ps u refl h
        (λ v rest. project_all-Rounds events v rest u)

  -- What a drain that fails before it acknowledges anything leaves.
  pub record HasFailed (s : MemoryState) (d : Drained projector) : Type 0 where
    pub error : LakeCatError
    pub fails : d.result ≡ err error
    pub keeps_state : d.state ≡ s

  failed :
      (s : MemoryState) (e : LakeCatError) (u : W)
      → HasFailed s (record { result = err e; state = s; sinks = u })
  failed s e u = record { error = e; fails = refl; keeps_state = refl }

  finish-Answer :
      (batch : List OutboxEvent) (ps : List Projection) (n : ℕ)
      → Answer batch ps n (finish projector batch ps n)
  unfolding finish
  finish-Answer batch ps n = answered (finish projector batch ps n) refl
    where
      answered :
          (r : LakeCatResult LineageDrainResponse)
          → finish projector batch ps n ≡ r
          → Answer batch ps n r
      answered (err e) h = inl (e, refl)
      answered (ok response) h =
          let a = >>-eq-ok _ _ h in
          let counted = ensure-eq-ok _ _ a.0 in inr (sym (>>-eq-ok _ _ a.1).1, ground arith)

  -- Either the state is as it was, or the batch was acknowledged.
  abbrev Outcome : DateTime → ℕ → (s later : MemoryState) → W → Drained projector → Type 0
  Outcome now limit s later w d = HasFailed later d ⊎ Acknowledged now limit s later w d

  module _ (now : DateTime) (limit : ℕ) (s later : MemoryState) (w : W) (events : List OutboxEvent)
      (pending : pending_outbox_events (some sink) limit s ≡ ok events) where
    batch : List OutboxEvent
    batch = sort event_before events

    marked-Outcome :
        (ps : List Projection) (u : W) (r : LakeCatResult (ℕ × MemoryState))
        → Rounds batch w ps u
        → mark_outbox_delivered now (ids_of batch) later ≡ r
        → Outcome now limit s later w (marked projector batch ps later u r)
    unfolding marked batch
    marked-Outcome ps u (err e) rounds h = inl (failed later e u)
    marked-Outcome ps u (ok (delivered, after)) rounds h = inr (record {
      events = events;
      projections = ps;
      delivered = delivered;
      were_pending = pending;
      were_projected = rounds;
      are_marked = h;
      is_answered = finish-Answer batch ps delivered;
    })

    acknowledge-Outcome :
        (r : LakeCatResult (List Projection) × W)
        → project_all projector batch w ≡ r
        → Outcome now limit s later w (acknowledge projector now batch later r)
    unfolding acknowledge
    acknowledge-Outcome (err e, u) h = inl (failed later e u)
    acknowledge-Outcome (ok ps, u) h =
        marked-Outcome ps u (mark_outbox_delivered now (ids_of batch) later)
          (project_all-Rounds batch w ps u h) refl

    drain_batch-Outcome : Outcome now limit s later w (drain_batch projector now batch later w)
    unfolding drain_batch
    drain_batch-Outcome =
        elim (reject_duplicates projector [] batch)
          as (λ r. Outcome now limit s later w (elim r [
            | err e ↦ record { result = err e; state = later; sinks = w }
            | ok _ ↦ acknowledge projector now batch later (project_all projector batch w)
          ])) [
            | err e ↦ inl (failed later e w)
            | ok _ ↦ acknowledge-Outcome (project_all projector batch w) refl
          ]

  drain-Outcome :
      (now : DateTime) (limit : ℕ) (s later : MemoryState) (w : W)
      → Outcome now limit s later w (drain_outbox_once projector now limit s later w)
  unfolding drain_outbox_once
  drain-Outcome now limit s later w = by_pending (pending_outbox_events (some sink) limit s) refl
    where
      by_pending :
          (r : LakeCatResult (List OutboxEvent))
          → pending_outbox_events (some sink) limit s ≡ r
          → Outcome now limit s later w (elim r [
            | err e ↦ record { result = err e; state = later; sinks = w }
            | ok events ↦ drain_batch projector now (sort event_before events) later w
          ])
      by_pending (err e) h = inl (failed later e w)
      by_pending (ok events) h = unfold batch in drain_batch-Outcome now limit s later w events h

  -- Whatever other operations do between its reading of the pending events and its marking of them, a
  -- drain either fails and writes nothing to the store, or it has projected every event of its batch,
  -- one after another, before it marks their ids. Then no event with one of these ids is left pending,
  -- and the pending events with other ids are as they were; its answer is an error, or it has marked
  -- as many events as it has projected.
  pub drain_outbox_once-acknowledges :
      (now : DateTime) (limit : ℕ) (s later : MemoryState) (w : W)
      → let d = drain_outbox_once projector now limit s later w in
        HasFailed later d
        ⊎ ((a : Acknowledged now limit s later w d) × (keep
                (is_due (ids_of (sort event_before a.events)))
                d.state.outbox_events
              ≡ [])
            × (keep (is_left (ids_of (sort event_before a.events))) d.state.outbox_events
                ≡ keep (is_left (ids_of (sort event_before a.events))) later.outbox_events))
  drain_outbox_once-acknowledges now limit s later w = elim (drain-Outcome now limit s later w) [
    | inl f ↦ inl f
    | inr a ↦
        let d =
          mark_outbox_delivered-delivers now (ids_of (sort event_before a.events)) later a.delivered
            (drain_outbox_once projector now limit s later w).state a.are_marked in
        inr (a, d.1, d.2)
  ]
