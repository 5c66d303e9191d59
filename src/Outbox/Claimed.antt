-- ===== src/Outbox/Claimed.antt =====
-- What a batch of the relay that is not full holds (src/common/events/outbox.service.ts).
use Prim.Native.String.{String}
use obbian_ribe_booking_app.Base.{
  ℕ, zero, suc, ◌-◌, ◌<◌, ◌≡◌, refl, ap, ◌∙◌, ◌==◌, ==-refl, Bool, true, false, ◌&&◌, Option, List,
  [], ◌∷◌, inl, inr, length, ltb, leb, if◌then◌else◌, select, Bool-cases, arith,
}
use obbian_ribe_booking_app.Platform.{Platform}
use obbian_ribe_booking_app.World.{World}
use obbian_ribe_booking_app.Schema.{OutboxEvent}
use obbian_ribe_booking_app.Outbox.Relay.{
  is_claimable, includes_event, oldest, insert_oldest, first_events, processing_stale_ms,
}
use obbian_ribe_booking_app.Outbox.Round.{All, All-mono}
use obbian_ribe_booking_app.Outbox.Drain.{cutoff, events, claimed}

includes_event-insert_oldest :
    (e : OutboxEvent) (es : List OutboxEvent) (i : ℕ)
    → includes_event (insert_oldest e es) i ≡ (if e.id == i then true else includes_event es i)
includes_event-insert_oldest e [] i = refl
includes_event-insert_oldest e (f ∷ fs) i = elim (Bool-cases (ltb f.created_at e.created_at)) [
  | inl older ↦ rw older (ground (arith, includes_event-insert_oldest e fs i))
  | inr newer ↦ rw newer refl
]

includes_event-oldest :
    (es : List OutboxEvent) (i : ℕ) → includes_event (oldest es) i ≡ includes_event es i
unfolding oldest
includes_event-oldest [] i = refl
includes_event-oldest (e ∷ es) i =
    includes_event-insert_oldest e (oldest es) i
    ∙ ap (λ b. if e.id == i then true else b) (includes_event-oldest es i)

-- A cut that is longer than the list is the list.
first_events_all :
    (n : ℕ) (es : List OutboxEvent) → length (first_events n es) < n → first_events n es ≡ es
first_events_all zero es h = absurd (omega arith)
first_events_all (suc n) [] h = refl
first_events_all (suc n) (e ∷ es) h = ap (λ fs. e ∷ fs) (first_events_all n es (omega arith))

includes_event-select_cons :
    (p : OutboxEvent → Bool) (e : OutboxEvent) (es : List OutboxEvent) (i : ℕ)
    → includes_event (select p es) i ≡ true
    → includes_event (select p (e ∷ es)) i ≡ true
unfolding select
includes_event-select_cons p e es i h = ground (arith, h)

includes_event-select_head :
    (p : OutboxEvent → Bool) (e : OutboxEvent) (es : List OutboxEvent)
    → p e ≡ true
    → includes_event (select p (e ∷ es)) e.id ≡ true
unfolding select
includes_event-select_head p e es h = ground (arith, ==-refl e.id)

-- Every element that passes the test is among the selected ones.
select-includes_event :
    (p : OutboxEvent → Bool) (es : List OutboxEvent)
    → All (λ e. p e ≡ true → includes_event (select p es) e.id ≡ true) es
unfolding All
select-includes_event p [] = tt
select-includes_event p (e ∷ es) = (
  includes_event-select_head p e es,
  All-mono (λ f. p f ≡ true → includes_event (select p es) f.id ≡ true)
      (λ f. p f ≡ true → includes_event (select p (e ∷ es)) f.id ≡ true) es
      (λ f old h. includes_event-select_cons p e es f.id (old h)) (select-includes_event p es),
)

pub few_lt : (n : ℕ) → (ltb 0 n && leb 100 n) ≡ false → n < 100
few_lt n h = ground arith

module _ ⦃pf : Platform⦄ (broker_enabled : Bool) (max_attempts : ℕ)
    (send : OutboxEvent → Option String) where
  -- A batch that is not full is of all that can be claimed.
  pub claimed_complete :
      (w : World)
      → length (claimed broker_enabled max_attempts send w) < 100
      → All
          (λ e.
            is_claimable (cutoff broker_enabled max_attempts send w) e ≡ true
            → includes_event (claimed broker_enabled max_attempts send w) e.id ≡ true)
          (events broker_enabled max_attempts send w)
  claimed_complete w few =
      let p = is_claimable (w.now - processing_stale_ms) in
      let es = pf.rows w.outbox_events in
      All-mono (λ e. p e ≡ true → includes_event (select p es) e.id ≡ true)
        (λ e. p e ≡ true → includes_event (claimed broker_enabled max_attempts send w) e.id ≡ true)
        es
        (λ e old h.
          ap (λ rows. includes_event rows e.id) (first_events_all 100 (oldest (select p es)) few)
          ∙ includes_event-oldest (select p es) e.id
          ∙ old h)
        (select-includes_event p es)
