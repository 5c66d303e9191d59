-- ===== src/Outbox/Delivered.antt =====
-- What the loop of the relay worker delivers (src/common/events/outbox-relay.worker.ts).
use Prim.Native.String.{String}
use obbian_ribe_booking_app.Base.{
  ℕ, zero, suc, ◌-◌, ◌<◌, ◌≡◌, refl, sym, ap, ◌∙◌, ◌==◌, Bool, true, false, ◌&&◌, Option, none,
  List, [], ◌∷◌, inl, inr, map, length, ltb, leb, if◌then◌else◌, Bool-cases, arith,
}
use obbian_ribe_booking_app.Platform.{Platform}
use obbian_ribe_booking_app.World.{World, ok}
use obbian_ribe_booking_app.Schema.{OutboxEvent, same_outbox_status}
use obbian_ribe_booking_app.Outbox.Relay.{
  is_claimable, includes_event, relay_once, processing_stale_ms, claimed_patch, published_patch,
  answer,
}
use obbian_ribe_booking_app.Outbox.Round.{
  All, All-mono, through, round, relay_once-round, sent, map-map,
}
use obbian_ribe_booking_app.Outbox.Weight.{round-miss}
use obbian_ribe_booking_app.Outbox.Unique.{HasUniqueIds, All-both}
use obbian_ribe_booking_app.Outbox.Drain.{
  cutoff, events, claimed, claimed_unique, hit-is_claimable, relay_once-HasUniqueIds, drain-suc,
  total, relay_once-total,
}
use obbian_ribe_booking_app.Outbox.Worker.{drain, relay}
use obbian_ribe_booking_app.Outbox.Claimed.{claimed_complete, few_lt}

-- An event after a run of the loop in which every sending succeeds.
unfoldable pub delivered : ℕ → OutboxEvent → OutboxEvent
delivered now e = if is_claimable (now - processing_stale_ms) e then published_patch now e else e

map_ext :
    (f g : OutboxEvent → OutboxEvent) (es : List OutboxEvent)
    → All (λ e. f e ≡ g e) es
    → map f es ≡ map g es
unfolding All
map_ext f g [] all = refl
map_ext f g (e ∷ es) (same, all) = λ i. same i ∷ map_ext f g es all i

delivered-claimable :
    (now : ℕ) (e : OutboxEvent)
    → is_claimable (now - processing_stale_ms) e ≡ true
    → delivered now e ≡ published_patch now e
unfolding delivered
delivered-claimable now e h = rw h refl

delivered-published_patch :
    (now : ℕ) (e : OutboxEvent) → delivered now (published_patch now e) ≡ published_patch now e
unfolding delivered published_patch is_claimable same_outbox_status
delivered-published_patch now e = refl

module _ ⦃pf : Platform⦄ (broker_enabled : Bool) (max_attempts : ℕ)
    (send : OutboxEvent → Option String) where
  module _
      (succeeds : (row : OutboxEvent) → answer broker_enabled max_attempts send row ≡ none) where
    sent-published_patch :
        (now : ℕ) (row e : OutboxEvent)
        → sent broker_enabled max_attempts send now row e ≡ published_patch now e
    sent-published_patch now row e = rw (succeeds row) refl

    through-published :
        (now : ℕ) (rows : List OutboxEvent) (e : OutboxEvent)
        → through broker_enabled max_attempts send now rows (published_patch now e)
          ≡ published_patch now e
    unfolding through published_patch
    through-published now [] e = refl
    through-published now (row ∷ rows) e = elim (Bool-cases (e.id == row.id)) [
      | inl hit ↦
          rw (hit, sent-published_patch now row (published_patch now e))
            (through-published now rows e)
      | inr miss ↦ rw miss (through-published now rows e)
    ]

    through-hit :
        (now : ℕ) (rows : List OutboxEvent) (e : OutboxEvent)
        → includes_event rows e.id ≡ true
        → through broker_enabled max_attempts send now rows e ≡ published_patch now e
    unfolding through
    through-hit now [] e hit = absurd (ground arith)
    through-hit now (row ∷ rows) e hit = elim (Bool-cases (e.id == row.id)) [
      | inl here ↦ rw (here, sent-published_patch now row e) (through-published now rows e)
      | inr other ↦ rw other (through-hit now rows e (ground arith))
    ]

    round-hit :
        (now : ℕ) (rows : List OutboxEvent) (e : OutboxEvent)
        → includes_event rows e.id ≡ true
        → round broker_enabled max_attempts send now rows e ≡ published_patch now e
    unfolding round claimed_patch published_patch
    round-hit now rows e hit = rw hit (through-hit now rows (claimed_patch e) hit)

    -- Delivering what a run has left is delivering.
    delivered-round :
        (w : World) (e : OutboxEvent)
        → All (λ row. row.id ≡ e.id → row ≡ e) (claimed broker_enabled max_attempts send w)
        → delivered w.now (
            round broker_enabled max_attempts send w.now
              (claimed broker_enabled max_attempts send w)
              e)
          ≡ delivered w.now e
    delivered-round w e same =
        elim (Bool-cases (includes_event (claimed broker_enabled max_attempts send w) e.id)) [
          | inl hit ↦
              ap (delivered w.now)
                (round-hit w.now (claimed broker_enabled max_attempts send w) e hit)
              ∙ delivered-published_patch w.now e
              ∙ sym (
                  delivered-claimable w.now e
                    (hit-is_claimable broker_enabled max_attempts send w e same hit))
          | inr miss ↦ ap (delivered w.now) (
              round-miss broker_enabled max_attempts send w.now
                (claimed broker_enabled max_attempts send w) e miss)
        ]

    -- A run that does not fill its batch delivers all.
    few-delivered :
        (w : World) (e : OutboxEvent)
        → All (λ row. row.id ≡ e.id → row ≡ e) (claimed broker_enabled max_attempts send w)
        → (is_claimable (cutoff broker_enabled max_attempts send w) e ≡ true
            → includes_event (claimed broker_enabled max_attempts send w) e.id ≡ true)
        → round broker_enabled max_attempts send w.now
            (claimed broker_enabled max_attempts send w)
            e
          ≡ delivered w.now e
    unfolding delivered
    few-delivered w e same complete =
        elim (Bool-cases (is_claimable (cutoff broker_enabled max_attempts send w) e)) [
          | inl claims ↦
              rw claims
                (round-hit w.now (claimed broker_enabled max_attempts send w) e (complete claims))
          | inr settled ↦
              elim (Bool-cases (includes_event (claimed broker_enabled max_attempts send w) e.id)) [
                | inl hit ↦
                    absurd (
                      ground
                        (arith, hit-is_claimable broker_enabled max_attempts send w e same hit))
                | inr miss ↦ rw settled (
                    round-miss broker_enabled max_attempts send w.now
                      (claimed broker_enabled max_attempts send w) e miss)
              ]
        ]

    -- The claimed rows with the id of an event are that event, and they include it if the batch is not
    -- full and it can be claimed.
    after_few :
        (w : World)
        → HasUniqueIds (events broker_enabled max_attempts send w)
        → length (claimed broker_enabled max_attempts send w) < 100
        → map
            (round broker_enabled max_attempts send w.now
              (claimed broker_enabled max_attempts send w))
            (events broker_enabled max_attempts send w)
          ≡ map (delivered w.now) (events broker_enabled max_attempts send w)
    after_few w unique few =
        let rows = claimed broker_enabled max_attempts send w in
        let es = events broker_enabled max_attempts send w in
        map_ext (round broker_enabled max_attempts send w.now rows) (delivered w.now) es (
          All-mono
            (λ e.
              All (λ row. row.id ≡ e.id → row ≡ e) rows
              × (is_claimable (w.now - processing_stale_ms) e ≡ true
                  → includes_event rows e.id ≡ true))
            (λ e. round broker_enabled max_attempts send w.now rows e ≡ delivered w.now e) es
            (λ e (same, complete). few-delivered w e same complete)
            (All-both (λ e. All (λ row. row.id ≡ e.id → row ≡ e) rows)
              (λ e.
                is_claimable (w.now - processing_stale_ms) e ≡ true
                → includes_event rows e.id ≡ true)
              es (claimed_unique broker_enabled max_attempts send w unique)
              (claimed_complete broker_enabled max_attempts send w few)))

    after_full :
        (w : World)
        → HasUniqueIds (events broker_enabled max_attempts send w)
        → map (delivered w.now) (
            map
              (round broker_enabled max_attempts send w.now
                (claimed broker_enabled max_attempts send w))
              (events broker_enabled max_attempts send w))
          ≡ map (delivered w.now) (events broker_enabled max_attempts send w)
    after_full w unique =
        let rows = claimed broker_enabled max_attempts send w in
        let es = events broker_enabled max_attempts send w in
        map-map (delivered w.now) (round broker_enabled max_attempts send w.now rows) es
        ∙ map_ext (λ e. delivered w.now (round broker_enabled max_attempts send w.now rows e))
            (delivered w.now) es
            (All-mono (λ e. All (λ row. row.id ≡ e.id → row ≡ e) rows)
              (λ e.
                delivered w.now (round broker_enabled max_attempts send w.now rows e)
                ≡ delivered w.now e)
              es (λ e same. delivered-round w e same)
              (claimed_unique broker_enabled max_attempts send w unique))

    drain-delivered :
        (fuel : ℕ) (w : World)
        → HasUniqueIds (events broker_enabled max_attempts send w)
        → total broker_enabled max_attempts send w < fuel
        → events broker_enabled max_attempts send (drain broker_enabled max_attempts send fuel w).1
          ≡ map (delivered w.now) (events broker_enabled max_attempts send w)
    drain-delivered zero w unique enough = absurd (omega arith)
    drain-delivered (suc fuel) w unique enough =
        let (_, changed, clock) = relay_once-round broker_enabled max_attempts send w in
        let v = (relay_once broker_enabled max_attempts send w).1 in
        elim (Bool-cases (
          ltb 0 (length (claimed broker_enabled max_attempts send w))
          && leb 100 (length (claimed broker_enabled max_attempts send w)))) [
            | inl full ↦
                rw (drain-suc broker_enabled max_attempts send fuel w, full)
                  (drain-delivered fuel v
                      (relay_once-HasUniqueIds broker_enabled max_attempts send w unique)
                      (omega (
                        arith,
                        relay_once-total broker_enabled max_attempts send w unique (ground arith),
                      ))
                    ∙ (λ i. map (delivered (clock i)) (changed i))
                    ∙ after_full w unique)
            | inr few ↦
                rw (drain-suc broker_enabled max_attempts send fuel w, few)
                  (changed
                    ∙ after_few w unique
                        (few_lt (length (claimed broker_enabled max_attempts send w)) few))
          ]

    -- If every sending succeeds and no two events have one id, a tick of the worker, while no other
    -- runs and with fuel above the weight of the events, leaves every event that could be claimed
    -- at its start published and every other event as it was. Then its flag is down again.
    pub relay-delivered :
        (fuel : ℕ) (w : World)
        → HasUniqueIds (events broker_enabled max_attempts send w)
        → total broker_enabled max_attempts send w < fuel
        → let (running, v) = relay broker_enabled max_attempts send fuel false w in
          (running ≡ ok false)
          × (events broker_enabled max_attempts send v
              ≡ map (delivered w.now) (events broker_enabled max_attempts send w))
    unfolding relay
    relay-delivered fuel w unique enough = (refl, drain-delivered fuel w unique enough)
