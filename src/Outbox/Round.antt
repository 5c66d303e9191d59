-- ===== src/Outbox/Round.antt =====
-- One run of the relay as a change of each event (src/common/events/outbox.service.ts).
use Prim.Native.String.{String}
use obbian_ribe_booking_app.Base.{
  ℕ, zero, suc, ◌-◌, ◌≡◌, refl, sym, ap, ◌∙◌, ◌==◌, Bool, true, false, Option, List, [], ◌∷◌, inl,
  inr, map, length, ltb, if◌then◌else◌, select, map_where, Bool-cases,
}
use obbian_ribe_booking_app.Platform.{Platform}
use obbian_ribe_booking_app.World.{World, ok}
use obbian_ribe_booking_app.Schema.{OutboxEvent, OutboxStatus}
use obbian_ribe_booking_app.Outbox.Delivery.{dispatch_all-ok}
use obbian_ribe_booking_app.Outbox.Relay.{
  is_claimable, oldest, insert_oldest, first_events, includes_event, claimed_patch, dispatch,
  dispatch_all, batch, claim_batch, record_answer, answer, relay_once, processing_stale_ms,
}

unfoldable pub All : (OutboxEvent → Type 0) → List OutboxEvent → Type 0
All P [] = Unit
All P (e ∷ es) = P e × All P es

pub All-mono :
    (P Q : OutboxEvent → Type 0) (es : List OutboxEvent)
    → ((e : OutboxEvent) → P e → Q e)
    → All P es
    → All Q es
unfolding All
All-mono P Q [] f all = tt
All-mono P Q (e ∷ es) f (p, all) = (f e p, All-mono P Q es f all)

All-select :
    (P : OutboxEvent → Type 0) (p : OutboxEvent → Bool) (es : List OutboxEvent)
    → All P es
    → All P (select p es)
unfolding All select
All-select P p [] all = tt
All-select P p (e ∷ es) (q, all) = elim (Bool-cases (p e)) [
  | inl hit ↦ rw hit (q, All-select P p es all)
  | inr miss ↦ rw miss (All-select P p es all)
]

All-insert_oldest :
    (P : OutboxEvent → Type 0) (e : OutboxEvent) (es : List OutboxEvent)
    → P e
    → All P es
    → All P (insert_oldest e es)
unfolding All
All-insert_oldest P e [] q all = (q, tt)
All-insert_oldest P e (f ∷ fs) q (r, all) = elim (Bool-cases (ltb f.created_at e.created_at)) [
  | inl older ↦ rw older (r, All-insert_oldest P e fs q all)
  | inr newer ↦ rw newer (q, (r, all))
]

pub All-oldest : (P : OutboxEvent → Type 0) (es : List OutboxEvent) → All P es → All P (oldest es)
unfolding All oldest
All-oldest P [] all = tt
All-oldest P (e ∷ es) (q, all) = All-insert_oldest P e (oldest es) q (All-oldest P es all)

pub All-first_events :
    (P : OutboxEvent → Type 0) (n : ℕ) (es : List OutboxEvent)
    → All P es
    → All P (first_events n es)
unfolding All
All-first_events P zero es all = tt
All-first_events P (suc n) [] all = tt
All-first_events P (suc n) (e ∷ es) (q, all) = (q, All-first_events P n es all)

map_where-map :
    (p : OutboxEvent → Bool) (f : OutboxEvent → OutboxEvent) (es : List OutboxEvent)
    → map_where p f es ≡ map (λ e. if p e then f e else e) es
unfolding map_where
map_where-map p f [] = refl
map_where-map p f (e ∷ es) = ap (λ fs. (if p e then f e else e) ∷ fs) (map_where-map p f es)

map_id : (es : List OutboxEvent) → map (λ e. e) es ≡ es
map_id [] = refl
map_id (e ∷ es) = ap (λ fs. e ∷ fs) (map_id es)

pub map-map :
    (f g : OutboxEvent → OutboxEvent) (es : List OutboxEvent)
    → map f (map g es) ≡ map (λ e. f (g e)) es
map-map f g [] = refl
map-map f g (e ∷ es) = ap (λ fs. f (g e) ∷ fs) (map-map f g es)

-- Whether an event waits to be sent.
abbrev pub is_open : OutboxStatus → Bool
is_open OutboxStatus.pending = true
is_open OutboxStatus.processing = true
is_open _ = false

-- A bound on how many more times an event is sent.
unfoldable pub weight : ℕ → OutboxEvent → ℕ
weight max_attempts e = if is_open e.status then suc (max_attempts - e.attempts) else 0

module _ ⦃pf : Platform⦄ (broker_enabled : Bool) (max_attempts : ℕ)
    (send : OutboxEvent → Option String) where
  abbrev pub sent : ℕ → OutboxEvent → OutboxEvent → OutboxEvent
  sent now row e =
      record_answer broker_enabled max_attempts send row
        (answer broker_enabled max_attempts send row) now e

  -- What the dispatches of some rows make of an event.
  unfoldable pub through : ℕ → List OutboxEvent → OutboxEvent → OutboxEvent
  through now [] e = e
  through now (row ∷ rows) e = through now rows (if e.id == row.id then sent now row e else e)

  -- What a run that claims some rows makes of an event.
  unfoldable pub round : ℕ → List OutboxEvent → OutboxEvent → OutboxEvent
  round now rows e = through now rows (if includes_event rows e.id then claimed_patch e else e)

  dispatch_all-rows :
      (rows : List OutboxEvent) (w : World)
      → let v = (dispatch_all broker_enabled max_attempts send rows w).1 in
        (pf.rows v.outbox_events ≡ map (through w.now rows) (pf.rows w.outbox_events))
        × (v.now ≡ w.now)
  unfolding dispatch_all dispatch through
  dispatch_all-rows [] w = (sym (map_id (pf.rows w.outbox_events)), refl)
  dispatch_all-rows (row ∷ rows) w =
      let v = (dispatch broker_enabled max_attempts send row w).1 in
      let (ih, clock) = dispatch_all-rows rows v in
      (
        ih
            ∙ rw
                (
                  pf.rows-update (λ e. e.id == row.id) (sent w.now row) w.outbox_events,
                  map_where-map (λ e. e.id == row.id) (sent w.now row) (pf.rows w.outbox_events),
                  map-map (through w.now rows) (λ e. if e.id == row.id then sent w.now row e else e)
                      (pf.rows w.outbox_events),
                )
                refl,
        clock,
      )

  -- A run of the relay changes each event by itself and answers how many it has claimed.
  pub relay_once-round :
      (w : World)
      → let (result, v) = relay_once broker_enabled max_attempts send w in
        let rows = batch broker_enabled max_attempts send w in
        (result ≡ ok (length rows))
        × (pf.rows v.outbox_events ≡ map (round w.now rows) (pf.rows w.outbox_events))
        × (v.now ≡ w.now)
  unfolding relay_once claim_batch round
  relay_once-round w =
      let rows = batch broker_enabled max_attempts send w in
      let v = (claim_batch broker_enabled max_attempts send w).1 in
      let (changed, clock) = dispatch_all-rows rows v in
      rw (dispatch_all-ok broker_enabled max_attempts send rows v) (
        refl,
        changed
            ∙ rw
                (
                  pf.rows-update (λ e. includes_event rows e.id) claimed_patch w.outbox_events,
                  map_where-map (λ e. includes_event rows e.id) claimed_patch
                      (pf.rows w.outbox_events),
                )
                (map-map (through w.now rows)
                  (λ e. if includes_event rows e.id then claimed_patch e else e)
                  (pf.rows w.outbox_events)),
        clock,
      )

  -- What holds of all events holds of those that a run claims.
  pub All-batch :
      (P : OutboxEvent → Type 0) (w : World)
      → All P (pf.rows w.outbox_events)
      → All P (batch broker_enabled max_attempts send w)
  All-batch P w all =
      All-first_events P 100
        (oldest (select (is_claimable (w.now - processing_stale_ms)) (pf.rows w.outbox_events)))
        (All-oldest P
          (select (is_claimable (w.now - processing_stale_ms)) (pf.rows w.outbox_events))
          (All-select P (is_claimable (w.now - processing_stale_ms)) (pf.rows w.outbox_events) all))
