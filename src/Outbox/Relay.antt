-- ===== src/Outbox/Relay.antt =====
-- relayOnce and dispatch of src/common/events/outbox.service.ts, of one instance of the program. The
-- broker is a parameter: `send row` is the message of the error with which sending a row fails, cut to
-- 500 characters.
use Prim.Native.String.{String}
use obbian_ribe_booking_app.Base.{
  ℕ, zero, suc, ◌+◌, ◌-◌, ◌==◌, Bool, true, false, ◌&&◌, ◌||◌, Option, none, some, List, [], ◌∷◌,
  length, ltb, leb, if◌then◌else◌, select,
}
use obbian_ribe_booking_app.Platform.{Platform}
use obbian_ribe_booking_app.World.{World, Action, ◌>>=◌, ◌>>◌, pure, gets, modify, transaction}
use obbian_ribe_booking_app.Schema.{OutboxEvent, OutboxStatus, same_outbox_status}

abbrev pub processing_stale_ms : ℕ
processing_stale_ms = 120_000

-- Whether a row waits to be sent, or has been claimed and not updated since the cut-off.
unfoldable pub is_claimable : ℕ → OutboxEvent → Bool
is_claimable cutoff e =
    same_outbox_status e.status OutboxStatus.pending
    || (same_outbox_status e.status OutboxStatus.processing && ltb e.updated_at cutoff)

abbrev pub insert_oldest : OutboxEvent → List OutboxEvent → List OutboxEvent
insert_oldest e [] = e ∷ []
insert_oldest e (f ∷ fs) =
    let rest = insert_oldest e fs in if ltb f.created_at e.created_at then f ∷ rest else e ∷ f ∷ fs

-- ORDER BY createdAt
unfoldable pub oldest : List OutboxEvent → List OutboxEvent
oldest [] = []
oldest (e ∷ es) = insert_oldest e (oldest es)

abbrev pub first_events : ℕ → List OutboxEvent → List OutboxEvent
first_events zero es = []
first_events (suc n) [] = []
first_events (suc n) (e ∷ es) = e ∷ first_events n es

abbrev pub includes_event : List OutboxEvent → ℕ → Bool
includes_event [] i = false
includes_event (e ∷ es) i = if e.id == i then true else includes_event es i

unfoldable pub claimed_patch : OutboxEvent → OutboxEvent
claimed_patch e = record e { status = OutboxStatus.processing }

unfoldable pub published_patch : ℕ → OutboxEvent → OutboxEvent
published_patch now e = record e {
  status = OutboxStatus.published;
  published_at = some now;
  last_error = none;
}

-- After the failure of a row that has been tried `attempts` times before.
unfoldable pub failure_patch : ℕ → ℕ → String → OutboxEvent → OutboxEvent
failure_patch max_attempts attempts message e = record e {
  attempts = attempts + 1;
  last_error = some message;
  status = if leb max_attempts (attempts + 1) then OutboxStatus.failed else OutboxStatus.pending;
}

module _ ⦃pf : Platform⦄ (broker_enabled : Bool) (max_attempts : ℕ)
    (send : OutboxEvent → Option String) where
  abbrev pub update_event : ℕ → (OutboxEvent → OutboxEvent) → Action (Unit {0})
  update_event id f =
      modify (λ w. record w { outbox_events = pf.update (λ e. e.id == id) f w.outbox_events })

  -- What becomes of sending a row; without a broker, nothing fails.
  abbrev pub answer : OutboxEvent → Option String
  answer row = if broker_enabled then send row else none

  -- Published, or one failed attempt more.
  abbrev pub record_answer : OutboxEvent → Option String → ℕ → OutboxEvent → OutboxEvent
  record_answer row none now = published_patch now
  record_answer row (some message) now = failure_patch max_attempts row.attempts message

  unfoldable pub dispatch : OutboxEvent → Action (Unit {0})
  dispatch row =
      gets (λ w. w.now) >>= λ now. update_event row.id (record_answer row (answer row) now)

  unfoldable pub dispatch_all : List OutboxEvent → Action (Unit {0})
  dispatch_all [] = pure tt
  dispatch_all (row ∷ rows) = dispatch row >> dispatch_all rows

  abbrev pub batch : World → List OutboxEvent
  batch w =
      first_events 100
        (oldest (select (is_claimable (w.now - processing_stale_ms)) (pf.rows w.outbox_events)))

  -- The rows of the batch, all set to PROCESSING.
  unfoldable pub claim_batch : Action (List OutboxEvent)
  claim_batch = transaction (
      gets batch >>= λ rows.
      modify (λ w. record w {
        outbox_events = pf.update (λ e. includes_event rows e.id) claimed_patch w.outbox_events;
      })
      >> pure rows)

  unfoldable pub relay_once : Action ℕ
  relay_once = claim_batch >>= λ claimed. dispatch_all claimed >> pure (length claimed)
