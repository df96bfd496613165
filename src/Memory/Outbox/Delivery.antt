-- ===== src/Memory/Outbox/Delivery.antt =====
-- `mark_outbox_delivered` (crates/lakecat-store/src/memory.rs): what it delivers, and how often.
use lakecat.Prelude.{
  Text, ℕ, suc, List, [], ◌∷◌, Bool, true, false, not, keep, length, map, any, ◌≡◌, refl, ap, ◌∙◌,
  ◌&&◌, arith, Bool-cases, inl, inr, if◌then◌else◌,
}
use lakecat.Prelude.Results.{ok, ◌>>=◌, ◌>>◌, >>-eq-ok, ok-pair, for_each}
use lakecat.Records.Types.{DateTime, OutboxEvent}
use lakecat.Records.External.{External}
use lakecat.Records.Evidence.{validate_outbox_event_id_shape}
use lakecat.Memory.State.{MemoryState, is_member}
use lakecat.Memory.Outbox.{is_due, is_pending, deliver, check_due, mark_outbox_delivered}

deliver-count :
    (now : DateTime) (ids : List Text) (es : List OutboxEvent)
    → (deliver now ids es).0 ≡ length (keep (is_due ids) es)
unfolding deliver keep
deliver-count now ids [] = refl
deliver-count now ids (e ∷ es) = elim (Bool-cases (is_due ids e)) [
  | inl due ↦ rw due (ap suc (deliver-count now ids es))
  | inr rest ↦ rw rest (deliver-count now ids es)
]

deliver-none_left :
    (now : DateTime) (ids : List Text) (es : List OutboxEvent)
    → keep (is_due ids) (deliver now ids es).1 ≡ []
unfolding deliver keep
deliver-none_left now ids [] = refl
deliver-none_left now ids (e ∷ es) = elim (Bool-cases (is_due ids e)) [
  | inl due ↦ rw due (deliver-none_left now ids es)
  | inr rest ↦ rw (rest, rest) (deliver-none_left now ids es)
]

deliver-ids :
    (now : DateTime) (ids : List Text) (es : List OutboxEvent)
    → map (λ e. e.event_id) (deliver now ids es).1 ≡ map (λ e. e.event_id) es
unfolding deliver
deliver-ids now ids [] = refl
deliver-ids now ids (e ∷ es) = elim (Bool-cases (is_due ids e)) [
  | inl due ↦ rw due (ap (◌∷◌ e.event_id) (deliver-ids now ids es))
  | inr rest ↦ rw rest (ap (◌∷◌ e.event_id) (deliver-ids now ids es))
]

-- the pending events that are not among the ids
abbrev pub is_left : List Text → OutboxEvent → Bool
is_left ids e = is_pending e && not (is_member e.event_id ids)

due-not_left : (ids : List Text) (e : OutboxEvent) → is_due ids e ≡ true → is_left ids e ≡ false
due-not_left ids e h = ground arith

deliver-left :
    (now : DateTime) (ids : List Text) (es : List OutboxEvent)
    → keep (is_left ids) (deliver now ids es).1 ≡ keep (is_left ids) es
unfolding deliver keep
deliver-left now ids [] = refl
deliver-left now ids (e ∷ es) = elim (Bool-cases (is_due ids e)) [
  | inl due ↦ rw (due, due-not_left ids e due) (deliver-left now ids es)
  | inr rest ↦
      rw rest (ap (λ es'. if is_left ids e then e ∷ es' else es') (deliver-left now ids es))
]

deliver-settled :
    (now : DateTime) (ids : List Text) (es : List OutboxEvent)
    → keep (is_due ids) es ≡ []
    → deliver now ids es ≡ (0, es)
unfolding deliver keep
deliver-settled now ids [] h = refl
deliver-settled now ids (e ∷ es) h = elim (Bool-cases (is_due ids e)) [
  | inl due ↦ cc (rw due at h)
  | inr rest ↦ rw (rest, deliver-settled now ids es (rw rest at h)) refl
]

nothing_due : (es : List OutboxEvent) → keep (is_due []) es ≡ []
unfolding keep is_member any
nothing_due [] = refl
nothing_due (e ∷ es) = ground (arith, nothing_due es)

module _ ⦃ext : External⦄ where
  pub mark-state :
      (now : DateTime) (ids : List Text) (s : MemoryState) (n : ℕ) (s' : MemoryState)
      → mark_outbox_delivered now ids s ≡ ok (n, s')
      → (n ≡ (deliver now ids s.outbox_events).0)
        × (s' ≡ record s { outbox_events = (deliver now ids s.outbox_events).1 })
  unfolding mark_outbox_delivered
  mark-state now [] s n s' h =
      let settled = deliver-settled now [] s.outbox_events (nothing_due s.outbox_events) in
      rw settled (ok-pair h)
  mark-state now (id ∷ ids) s n s' h = ok-pair (>>-eq-ok _ _ (>>-eq-ok _ _ h).1).1

  -- A delivery that succeeds marks every pending event whose id it is given, and reports how many
  -- those were. None of them is left pending, the other pending events are left as they were, in
  -- their order, and no event is added or lost.
  pub mark_outbox_delivered-delivers :
      (now : DateTime) (ids : List Text) (s : MemoryState) (n : ℕ) (s' : MemoryState)
      → mark_outbox_delivered now ids s ≡ ok (n, s')
      → (n ≡ length (keep (is_due ids) s.outbox_events))
        × (keep (is_due ids) s'.outbox_events ≡ [])
        × (keep (is_left ids) s'.outbox_events ≡ keep (is_left ids) s.outbox_events)
        × (map (λ e. e.event_id) s'.outbox_events ≡ map (λ e. e.event_id) s.outbox_events)
  mark_outbox_delivered-delivers now ids s n s' h =
      let m = mark-state now ids s n s' h in
      let events = ap (λ (x : MemoryState). x.outbox_events) m.1 in
      (
        m.0 ∙ deliver-count now ids s.outbox_events,
        rw events (deliver-none_left now ids s.outbox_events),
        rw events (deliver-left now ids s.outbox_events),
        rw events (deliver-ids now ids s.outbox_events),
      )

  mark-shaped :
      (now : DateTime) (id : Text) (ids : List Text) (s s' : MemoryState) (n : ℕ)
      → mark_outbox_delivered now (id ∷ ids) s ≡ ok (n, s')
      → for_each validate_outbox_event_id_shape (id ∷ ids) ≡ ok tt
  unfolding mark_outbox_delivered
  mark-shaped now id ids s s' n h = (>>-eq-ok _ _ h).0

  same_shapes :
      (now later : DateTime) (ids : List Text) (s s' : MemoryState) (n : ℕ)
      → mark_outbox_delivered now ids s ≡ ok (n, s')
      → keep (is_due ids) s'.outbox_events ≡ []
      → mark_outbox_delivered later ids s' ≡ ok (0, s')
  unfolding mark_outbox_delivered check_due ◌>>=◌ ◌>>◌ for_each
  same_shapes now later [] s s' n h settled = refl
  same_shapes now later (id ∷ ids) s s' n h settled =
      let shaped = mark-shaped now id ids s s' n h in
      rw (shaped, settled, deliver-settled later (id ∷ ids) s'.outbox_events settled) refl

  -- A delivery that has succeeded may be reported again: the second report finds nothing to
  -- deliver, counts 0 and leaves the state as it is.
  pub mark_outbox_delivered-again :
      (now later : DateTime) (ids : List Text) (s : MemoryState) (n : ℕ) (s' : MemoryState)
      → mark_outbox_delivered now ids s ≡ ok (n, s')
      → mark_outbox_delivered later ids s' ≡ ok (0, s')
  mark_outbox_delivered-again now later ids s n s' h =
      same_shapes now later ids s s' n h (mark_outbox_delivered-delivers now ids s n s' h).1
