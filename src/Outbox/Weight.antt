-- ===== src/Outbox/Weight.antt =====
-- A bound on the runs of the relay: how often the events can still be sent
-- (src/common/events/outbox.service.ts).
use Prim.Native.String.{String}
use obbian_ribe_booking_app.Base.{
  ℕ, suc, ◌-◌, ◌≤◌, ◌<◌, ◌≡◌, refl, sym, ◌∙◌, ◌==◌, ==_iff, Bool, true, false, Option, none, some,
  List, [], ◌∷◌, ◌⊎◌, inl, inr, if◌then◌else◌, Bool-cases, arith,
}
use obbian_ribe_booking_app.Platform.{Platform}
use obbian_ribe_booking_app.Schema.{OutboxEvent}
use obbian_ribe_booking_app.Outbox.Relay.{
  includes_event, claimed_patch, published_patch, failure_patch, record_answer, answer,
}
use obbian_ribe_booking_app.Outbox.Round.{All, is_open, weight, sent, through, round}

-- The claimed rows with the id of an event have its attempts, and it has been claimable.
abbrev pub Agrees : ℕ → ℕ → List OutboxEvent → Type 0
Agrees id attempts = All (λ row. row.id ≡ id → row.attempts ≡ attempts)

weight_open :
    (max_attempts : ℕ) (e : OutboxEvent)
    → is_open e.status ≡ true
    → weight max_attempts e ≡ suc (max_attempts - e.attempts)
unfolding weight
weight_open max_attempts e h = rw h refl

module _ ⦃pf : Platform⦄ (broker_enabled : Bool) (max_attempts : ℕ)
    (send : OutboxEvent → Option String) where
  weight-record_answer :
      (o : Option String) (now : ℕ) (row e : OutboxEvent)
      → weight max_attempts (record_answer broker_enabled max_attempts send row o now e)
        ≤ max_attempts - row.attempts
  unfolding weight published_patch failure_patch
  weight-record_answer none now row e = omega arith
  weight-record_answer (some message) now row e = ground arith

  record_answer-id :
      (o : Option String) (now : ℕ) (row e : OutboxEvent)
      → (record_answer broker_enabled max_attempts send row o now e).id ≡ e.id
  unfolding published_patch failure_patch
  record_answer-id none now row e = refl
  record_answer-id (some message) now row e = refl

  through-id :
      (now : ℕ) (rows : List OutboxEvent) (e : OutboxEvent)
      → (through broker_enabled max_attempts send now rows e).id ≡ e.id
  unfolding through
  through-id now [] e = refl
  through-id now (row ∷ rows) e = through-id now rows _ ∙ one (e.id == row.id)
    where
      one :
          (b : Bool) → (if b then sent broker_enabled max_attempts send now row e else e).id ≡ e.id
      one true = record_answer-id (answer broker_enabled max_attempts send row) now row e
      one false = refl

  through-miss :
      (now : ℕ) (rows : List OutboxEvent) (e : OutboxEvent)
      → includes_event rows e.id ≡ false
      → through broker_enabled max_attempts send now rows e ≡ e
  unfolding through
  through-miss now [] e miss = refl
  through-miss now (row ∷ rows) e miss = elim (Bool-cases (e.id == row.id)) [
    | inl hit ↦ absurd (ground arith)
    | inr other ↦ rw other (through-miss now rows e (ground arith))
  ]

  weight-through :
      (now a : ℕ) (rows : List OutboxEvent) (e : OutboxEvent)
      → Agrees e.id a rows
      → weight max_attempts e ≤ max_attempts - a
      → weight max_attempts (through broker_enabled max_attempts send now rows e) ≤ max_attempts - a
  unfolding through All
  weight-through now a [] e agree h = h
  weight-through now a (row ∷ rows) e (same, agree) h = elim (Bool-cases (e.id == row.id)) [
    | inl hit ↦ rw hit (
        weight-through now a rows (sent broker_enabled max_attempts send now row e)
          (rw (record_answer-id (answer broker_enabled max_attempts send row) now row e) agree)
          (omega (
            arith,
            weight-record_answer (answer broker_enabled max_attempts send row) now row e,
            same (sym ((==_iff e.id row.id).0 hit)),
          )))
    | inr other ↦ rw other (weight-through now a rows e agree h)
  ]

  weight-through_hit :
      (now a : ℕ) (rows : List OutboxEvent) (e : OutboxEvent)
      → Agrees e.id a rows
      → includes_event rows e.id ≡ true
      → weight max_attempts (through broker_enabled max_attempts send now rows e) ≤ max_attempts - a
  unfolding through All
  weight-through_hit now a [] e agree hit = absurd (ground arith)
  weight-through_hit now a (row ∷ rows) e (same, agree) hit = elim (Bool-cases (e.id == row.id)) [
    | inl here ↦ rw here (
        weight-through now a rows (sent broker_enabled max_attempts send now row e)
          (rw (record_answer-id (answer broker_enabled max_attempts send row) now row e) agree)
          (omega (
            arith,
            weight-record_answer (answer broker_enabled max_attempts send row) now row e,
            same (sym ((==_iff e.id row.id).0 here)),
          )))
    | inr other ↦ rw other (weight-through_hit now a rows e agree (ground arith))
  ]

  pub round-id :
      (now : ℕ) (rows : List OutboxEvent) (e : OutboxEvent)
      → (round broker_enabled max_attempts send now rows e).id ≡ e.id
  unfolding round claimed_patch
  round-id now rows e = through-id now rows _ ∙ one (includes_event rows e.id)
    where
      one : (b : Bool) → (if b then claimed_patch e else e).id ≡ e.id
      one true = refl
      one false = refl

  pub round-miss :
      (now : ℕ) (rows : List OutboxEvent) (e : OutboxEvent)
      → includes_event rows e.id ≡ false
      → round broker_enabled max_attempts send now rows e ≡ e
  unfolding round
  round-miss now rows e miss = rw miss (through-miss now rows e miss)

  -- A run leaves an event as it is or makes it less heavy.
  pub weight-round :
      (now : ℕ) (rows : List OutboxEvent) (e : OutboxEvent)
      → Agrees e.id e.attempts rows
      → (includes_event rows e.id ≡ true → is_open e.status ≡ true)
      → ((includes_event rows e.id ≡ false)
          × (round broker_enabled max_attempts send now rows e ≡ e))
        ⊎ (weight max_attempts (round broker_enabled max_attempts send now rows e)
            < weight max_attempts e)
  unfolding round claimed_patch
  weight-round now rows e agree claims = elim (Bool-cases (includes_event rows e.id)) [
    | inl hit ↦ inr (
        rw hit (
          omega (
            arith,
            weight-through_hit now e.attempts rows (claimed_patch e) agree hit,
            weight_open max_attempts e (claims hit),
          )))
    | inr miss ↦ inl (miss, rw miss (through-miss now rows e miss))
  ]
