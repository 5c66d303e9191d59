-- ===== src/Outbox/Drain.antt =====
-- The loop of the relay worker (src/common/events/outbox-relay.worker.ts): it ends.
use Prim.Native.String.{String}
use obbian_ribe_booking_app.Base.{
  ℕ, zero, suc, ◌-◌, ◌<◌, ◌≡◌, refl, ap, subst, ==-refl, Bool, true, false, ◌&&◌, Option, List, [],
  ◌∷◌, inl, inr, length, ltb, leb, if◌then◌else◌, select, sum_by, Bool-cases, arith,
}
use obbian_ribe_booking_app.Platform.{Platform}
use obbian_ribe_booking_app.World.{World, ok}
use obbian_ribe_booking_app.Schema.{OutboxEvent}
use obbian_ribe_booking_app.Outbox.Relay.{
  is_claimable, includes_event, oldest, batch, relay_once, processing_stale_ms,
}
use obbian_ribe_booking_app.Outbox.Round.{
  All, All-mono, All-batch, All-oldest, All-first_events, weight, round, relay_once-round,
}
use obbian_ribe_booking_app.Outbox.Weight.{weight-round, round-id}
use obbian_ribe_booking_app.Outbox.Worker.{drain, repeat_if}
use obbian_ribe_booking_app.Outbox.Unique.{
  HasUniqueIds, All-both, map-HasUniqueIds, hit_elim, select_holds, is_claimable-is_open, Lighter,
  sum-weight,
}

module _ ⦃pf : Platform⦄ (broker_enabled : Bool) (max_attempts : ℕ)
    (send : OutboxEvent → Option String) where
  abbrev pub cutoff : World → ℕ
  cutoff w = w.now - processing_stale_ms

  abbrev pub events : World → List OutboxEvent
  events w = pf.rows w.outbox_events

  abbrev pub claimed : World → List OutboxEvent
  claimed w = batch broker_enabled max_attempts send w

  -- The rows that a run claims with the id of an event are that event.
  pub claimed_unique :
      (w : World)
      → HasUniqueIds (events w)
      → All (λ e. All (λ row. row.id ≡ e.id → row ≡ e) (claimed w)) (events w)
  unfolding HasUniqueIds
  claimed_unique w unique =
      All-mono (λ e. All (λ f. f.id ≡ e.id → f ≡ e) (events w))
        (λ e. All (λ row. row.id ≡ e.id → row ≡ e) (claimed w)) (events w)
        (λ e. All-batch broker_enabled max_attempts send (λ f. f.id ≡ e.id → f ≡ e) w) unique

  pub claimed-is_claimable : (w : World) → All (λ e. is_claimable (cutoff w) e ≡ true) (claimed w)
  claimed-is_claimable w =
      All-first_events (λ e. is_claimable (cutoff w) e ≡ true) 100
        (oldest (select (is_claimable (cutoff w)) (events w)))
        (All-oldest (λ e. is_claimable (cutoff w) e ≡ true)
          (select (is_claimable (cutoff w)) (events w))
          (select_holds (is_claimable (cutoff w)) (events w)))

  pub hit-is_claimable :
      (w : World) (e : OutboxEvent)
      → All (λ row. row.id ≡ e.id → row ≡ e) (claimed w)
      → includes_event (claimed w) e.id ≡ true
      → is_claimable (cutoff w) e ≡ true
  hit-is_claimable w e same hit = hit_elim (is_claimable (cutoff w) e ≡ true) e.id (claimed w) hit (
      All-mono (λ row. (row.id ≡ e.id → row ≡ e) × (is_claimable (cutoff w) row ≡ true))
        (λ row. row.id ≡ e.id → is_claimable (cutoff w) e ≡ true) (claimed w)
        (λ row (one, claims) i. subst (λ r. is_claimable (cutoff w) r ≡ true) (one i) claims)
        (All-both (λ row. row.id ≡ e.id → row ≡ e) (λ row. is_claimable (cutoff w) row ≡ true)
          (claimed w) same (claimed-is_claimable w)))

  lighter :
      (w : World)
      → HasUniqueIds (events w)
      → All
          (Lighter max_attempts
            (round broker_enabled max_attempts send w.now (claimed w))
            (λ e. includes_event (claimed w) e.id))
          (events w)
  lighter w unique =
      All-mono (λ e. All (λ row. row.id ≡ e.id → row ≡ e) (claimed w))
        (Lighter max_attempts (round broker_enabled max_attempts send w.now (claimed w))
          (λ e. includes_event (claimed w) e.id))
        (events w)
        (λ e same.
          weight-round broker_enabled max_attempts send w.now (claimed w) e
            (All-mono (λ row. row.id ≡ e.id → row ≡ e)
              (λ row. row.id ≡ e.id → row.attempts ≡ e.attempts) (claimed w)
              (λ row one i. ap (λ r. r.attempts) (one i)) same)
            (λ hit. is_claimable-is_open (cutoff w) e (hit-is_claimable w e same hit)))
        (claimed_unique w unique)

  -- A run that claims nothing claims nothing, and another one makes the events lighter.
  unclaimed :
      (w : World)
      → All (λ e. includes_event (claimed w) e.id ≡ false) (events w)
      → length (claimed w) ≡ 0
  unfolding All
  unclaimed w missed = go (claimed w) (
      All-batch broker_enabled max_attempts send (λ e. includes_event (claimed w) e.id ≡ false) w
        missed)
    where
      go :
          (rows : List OutboxEvent)
          → All (λ e. includes_event rows e.id ≡ false) rows
          → length rows ≡ 0
      go [] all = refl
      go (row ∷ rows) (miss, all) = absurd (ground (arith, ==-refl row.id))

  -- A bound on how many more times all events are sent.
  unfoldable pub total : World → ℕ
  total w = sum_by (weight max_attempts) (events w)

  pub relay_once-total :
      (w : World)
      → HasUniqueIds (events w)
      → 0 < length (claimed w)
      → total (relay_once broker_enabled max_attempts send w).1 < total w
  unfolding total
  relay_once-total w unique some_claimed =
      let (_, changed, _) = relay_once-round broker_enabled max_attempts send w in
      elim (sum-weight max_attempts (round broker_enabled max_attempts send w.now (claimed w))
        (λ e. includes_event (claimed w) e.id) (events w) (lighter w unique)) [
          | inl less ↦ rw changed less
          | inr missed ↦ absurd (omega (arith, unclaimed w missed))
        ]

  pub relay_once-HasUniqueIds :
      (w : World)
      → HasUniqueIds (events w)
      → HasUniqueIds (events (relay_once broker_enabled max_attempts send w).1)
  relay_once-HasUniqueIds w unique =
      let (_, changed, _) = relay_once-round broker_enabled max_attempts send w in
      rw changed (
        map-HasUniqueIds (round broker_enabled max_attempts send w.now (claimed w)) (events w)
          (round-id broker_enabled max_attempts send w.now (claimed w)) unique)

  -- One turn of the loop.
  pub drain-suc :
      (fuel : ℕ) (w : World)
      → drain broker_enabled max_attempts send (suc fuel) w ≡ (
          if ltb 0 (length (claimed w)) && leb 100 (length (claimed w))
          then drain broker_enabled max_attempts send fuel
              (relay_once broker_enabled max_attempts send w).1
          else (ok true, (relay_once broker_enabled max_attempts send w).1))
  unfolding drain
  drain-suc fuel w =
      let (answered, _, _) = relay_once-round broker_enabled max_attempts send w in
      rw answered (
        branch (ltb 0 (length (claimed w)) && leb 100 (length (claimed w)))
          (relay_once broker_enabled max_attempts send w).1)
    where
      branch :
          (b : Bool) (v : World)
          → repeat_if b (drain broker_enabled max_attempts send fuel) v
            ≡ (if b then drain broker_enabled max_attempts send fuel v else (ok true, v))
      branch true v = refl
      branch false v = refl

  -- If no two events have one id, the loop ends with any fuel above the weight of the events: for
  -- each event that is not settled, one more than the attempts that it has left.
  pub drain_ends :
      (fuel : ℕ) (w : World)
      → HasUniqueIds (events w)
      → total w < fuel
      → (drain broker_enabled max_attempts send fuel w).0 ≡ ok true
  drain_ends zero w unique enough = absurd (omega arith)
  drain_ends (suc fuel) w unique enough =
      elim (Bool-cases (ltb 0 (length (claimed w)) && leb 100 (length (claimed w)))) [
        | inl full ↦
            rw (drain-suc fuel w, full)
              (drain_ends fuel (relay_once broker_enabled max_attempts send w).1
                (relay_once-HasUniqueIds w unique)
                (omega (arith, relay_once-total w unique (ground arith))))
        | inr few ↦ rw (drain-suc fuel w, few) refl
      ]
