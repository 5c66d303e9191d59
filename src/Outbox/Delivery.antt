-- ===== src/Outbox/Delivery.antt =====
-- What a run of the relay leaves of the events.
use Prim.Native.String.{String}
use obbian_ribe_booking_app.Base.{
  ap, ◌∙◌, ℕ, ◌≡◌, refl, ◌==◌, ==-refl, Bool, true, false, Option, none, some, List, [], ◌∷◌,
  length, if◌then◌else◌, find, find-map_where,
}
use obbian_ribe_booking_app.Platform.{Platform}
use obbian_ribe_booking_app.World.{World, ◌>>◌, pure, ok}
use obbian_ribe_booking_app.Schema.{OutboxEvent, RideEventPayload}
use obbian_ribe_booking_app.Outbox.Relay.{
  claimed_patch, published_patch, failure_patch, dispatch, dispatch_all, batch, claim_batch,
  includes_event, record_answer, answer, relay_once,
}

-- What of an event is sent.
abbrev pub content : OutboxEvent → ℕ × String × String × ℕ × RideEventPayload × ℕ
content e = (e.id, e.topic, e.event_type, e.aggregate_id, e.payload, e.created_at)

module _ ⦃pf : Platform⦄ where
  abbrev pub event_row : World → ℕ → Option OutboxEvent
  event_row w id = find (λ e. e.id == id) (pf.rows w.outbox_events)

  -- Every event of the first state is in the second, with the same content.
  abbrev pub Retains : World → World → Type 0
  Retains v w =
      (id : ℕ) (e : OutboxEvent)
      → event_row v id ≡ some e
      → (f : OutboxEvent) × (event_row w id ≡ some f) × (content f ≡ content e)

  Retains-trans : (u v w : World) → Retains u v → Retains v w → Retains u w
  Retains-trans u v w p q id e at_e =
      let (f, at_f, same_f) = p id e at_e in
      let (g, at_g, same_g) = q id f at_f in (g, at_g, same_g ∙ same_f)

  update_event-row :
      (hit : OutboxEvent → Bool) (f : OutboxEvent → OutboxEvent) (w : World) (id : ℕ)
      {e : OutboxEvent}
      → ((e : OutboxEvent) → (f e).id ≡ e.id)
      → event_row w id ≡ some e
      → event_row (record w { outbox_events = pf.update hit f w.outbox_events }) id
        ≡ some (if hit e then f e else e)
  update_event-row hit f w id keeps at_e = rw (
    pf.rows-update hit f w.outbox_events,
    find-map_where (λ e. e.id == id) hit f (pf.rows w.outbox_events)
        (λ e. ap (λ i. i == id) (keeps e)),
    at_e,
  )

  update_event-Retains :
      (hit : OutboxEvent → Bool) (f : OutboxEvent → OutboxEvent) (w : World)
      → ((e : OutboxEvent) → content (f e) ≡ content e)
      → Retains w (record w { outbox_events = pf.update hit f w.outbox_events })
  update_event-Retains hit f w keeps id e at_e =
      (_, update_event-row hit f w id (λ e. ap (λ c. c.0) (keeps e)) at_e, kept (hit e))
    where
      kept : (b : Bool) → content (if b then f e else e) ≡ content e
      kept true = keeps e
      kept false = refl

module _ ⦃pf : Platform⦄ (broker_enabled : Bool) (max_attempts : ℕ)
    (send : OutboxEvent → Option String) where
  answer-content :
      (row : OutboxEvent) (o : Option String) (now : ℕ) (e : OutboxEvent)
      → content (record_answer broker_enabled max_attempts send row o now e) ≡ content e
  unfolding published_patch failure_patch
  answer-content row none now e = refl
  answer-content row (some message) now e = refl

  dispatch-Retains :
      (row : OutboxEvent) (w : World)
      → Retains w (dispatch broker_enabled max_attempts send row w).1
  unfolding dispatch
  dispatch-Retains row w =
      update_event-Retains (λ e. e.id == row.id) _ w
        (answer-content row (answer broker_enabled max_attempts send row) w.now)

  dispatch_all-Retains :
      (rows : List OutboxEvent) (w : World)
      → Retains w (dispatch_all broker_enabled max_attempts send rows w).1
  unfolding dispatch_all dispatch
  dispatch_all-Retains [] w = λ id e at_e. (e, at_e, refl)
  dispatch_all-Retains (row ∷ rows) w =
      let v = (dispatch broker_enabled max_attempts send row w).1 in
      Retains-trans w v (dispatch_all broker_enabled max_attempts send rows v).1
        (dispatch-Retains row w) (dispatch_all-Retains rows v)

  pub dispatch_all-ok :
      (rows : List OutboxEvent) (w : World)
      → (dispatch_all broker_enabled max_attempts send rows w).0 ≡ ok tt
  unfolding dispatch_all dispatch
  dispatch_all-ok [] w = refl
  dispatch_all-ok (row ∷ rows) w =
      dispatch_all-ok rows (dispatch broker_enabled max_attempts send row w).1

  after_dispatch :
      (rows : List OutboxEvent) (w : World)
      → Retains w ((dispatch_all broker_enabled max_attempts send rows >> pure (length rows)) w).1
  after_dispatch rows w = rw (dispatch_all-ok rows w) (dispatch_all-Retains rows w)

  -- A run of the relay loses no event and changes no content, whatever fails to be sent.
  pub relay_once-Retains : (w : World) → Retains w (relay_once broker_enabled max_attempts send w).1
  unfolding relay_once claim_batch dispatch_all claimed_patch
  relay_once-Retains w =
      let rows = batch broker_enabled max_attempts send w in
      let v = (claim_batch broker_enabled max_attempts send w).1 in
      Retains-trans w v (relay_once broker_enabled max_attempts send w).1
        (update_event-Retains (λ e. includes_event rows e.id) claimed_patch w (λ e. refl))
        (after_dispatch rows v)

  -- The dispatch of a row that is in the table publishes it if it can be sent, or if there is no
  -- broker. Otherwise it counts the attempt and puts the row back to PENDING, or to FAILED from the
  -- last attempt on.
  pub dispatch_lem :
      (row : OutboxEvent) (w : World)
      → event_row w row.id ≡ some row
      → let (result, w') = dispatch broker_enabled max_attempts send row w in
        (result ≡ ok tt)
        × (event_row w' row.id
            ≡ some (
                record_answer broker_enabled max_attempts send row
                  (answer broker_enabled max_attempts send row)
                  w.now
                  row))
  unfolding dispatch published_patch failure_patch
  dispatch_lem row w e = (
    refl,
    update_event-row (λ f. f.id == row.id) _ w row.id
          (λ f.
            ap (λ c. c.0)
              (answer-content row (answer broker_enabled max_attempts send row) w.now f))
          e
        ∙ ap
            (λ b. some (
              if b
              then record_answer broker_enabled max_attempts send row
                  (answer broker_enabled max_attempts send row) w.now row
              else row))
            (==-refl row.id),
  )
