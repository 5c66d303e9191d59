-- ===== src/Tests/Relay.antt =====
-- The worker of the outbox with one event.
use Prim.Native.String.{String}
use obbian_ribe_booking_app.Base.{◌≡◌, ◌<◌, refl, true, false, Option, none, arith}
use obbian_ribe_booking_app.World.{ok}
use obbian_ribe_booking_app.Schema.{OutboxEvent}
use obbian_ribe_booking_app.Rides.Service.{outbox_row}
use obbian_ribe_booking_app.Outbox.Round.{All, weight}
use obbian_ribe_booking_app.Outbox.Unique.{HasUniqueIds}
use obbian_ribe_booking_app.Outbox.Drain.{events, total, drain_ends}
use obbian_ribe_booking_app.Outbox.Delivered.{relay-delivered}
use obbian_ribe_booking_app.Outbox.Worker.{drain, relay}
use obbian_ribe_booking_app.Tests.Memory.{memory}
use obbian_ribe_booking_app.Tests.Payment.{with_event, broken}

one_id : HasUniqueIds (events true 8 broken with_event)
unfolding HasUniqueIds All
one_id = ((λ h. refl, tt), tt)

abbrev working : OutboxEvent → Option String
working e = none

light : total true 8 broken with_event < 20
unfolding total weight outbox_row
light = omega arith

light_working : total true 8 working with_event < 20
unfolding total weight outbox_row
light_working = omega arith

drain_ends_example : (drain true 8 broken 20 with_event).0 ≡ ok true
drain_ends_example = drain_ends true 8 broken 20 with_event one_id light

relay-delivered_example : (relay true 8 working 20 false with_event).0 ≡ ok false
relay-delivered_example =
    (relay-delivered true 8 working (λ row. refl) 20 with_event one_id light_working).0
