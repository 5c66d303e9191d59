-- ===== src/Outbox/Worker.antt =====
-- src/common/events/outbox-relay.worker.ts: the runs of the relay that one tick makes. The loop takes
-- fuel and answers whether it has ended.
use Prim.Native.String.{String}
use obbian_ribe_booking_app.Base.{
  ℕ, zero, suc, Bool, true, false, ◌&&◌, Option, ltb, leb, if◌then◌else◌,
}
use obbian_ribe_booking_app.Platform.{Platform}
use obbian_ribe_booking_app.World.{Action, ◌>>=◌, ◌>>◌, pure, ignore_error}
use obbian_ribe_booking_app.Schema.{OutboxEvent}
use obbian_ribe_booking_app.Outbox.Relay.{relay_once}

-- `while (test) rest;`, with whether the loop has ended.
abbrev pub repeat_if : ⦃pf : Platform⦄ → Bool → Action Bool → Action Bool
repeat_if true rest = rest
repeat_if false rest = pure true

module _ ⦃pf : Platform⦄ (broker_enabled : Bool) (max_attempts : ℕ)
    (send : OutboxEvent → Option String) where
  -- Runs of the relay until one dispatches fewer than 100 events.
  unfoldable pub drain : ℕ → Action Bool
  drain zero = pure false
  drain (suc fuel) = relay_once broker_enabled max_attempts send >>= λ dispatched.
      repeat_if (ltb 0 dispatched && leb 100 dispatched) (drain fuel)

  -- A tick, which does nothing while another one runs; with the flag `running` afterwards.
  unfoldable pub relay : ℕ → Bool → Action Bool
  relay fuel running = if running then pure true else ignore_error (drain fuel) >> pure false
