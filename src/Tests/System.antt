-- ===== src/Tests/System.antt =====
-- The ride 10 through a sequence of steps.
use obbian_ribe_booking_app.Base.{◌≡◌, true, some, List, [], ◌∷◌}
use obbian_ribe_booking_app.Schema.{Ride, RideStatus, CancellationReason}
use obbian_ribe_booking_app.Rides.StateMachine.Graph.{Reach}
use obbian_ribe_booking_app.Rides.Lifecycle.{CancelledBy}
use obbian_ribe_booking_app.Rides.Lifecycle.History.{ride_row}
use obbian_ribe_booking_app.Rides.Lifecycle.Calls.{Call}
use obbian_ribe_booking_app.System.{Step, run_system, run_system-Evolves}
use obbian_ribe_booking_app.Tests.Memory.{memory}
use obbian_ribe_booking_app.Tests.Ride.{a_ride, one_ride, ride_at}
use obbian_ribe_booking_app.Tests.Payment.{a_gateway}

abbrev some_steps : List Step
some_steps =
    Step.concludes 10 (some 7)
    ∷ Step.responds 10 8 true
    ∷ Step.calls (Call.arrives 7 10)
    ∷ Step.calls (Call.cancels 10 CancellationReason.system CancelledBy.driver)
    ∷ Step.verifies 10 77 88 "sig"
    ∷ Step.refunds 10
    ∷ []

run_system-Evolves_example :
    (s : Ride) × (ride_row (run_system a_gateway some_steps (one_ride RideStatus.matching)) 10
      ≡ some s)
    × Reach RideStatus.matching s.status
run_system-Evolves_example =
    run_system-Evolves a_gateway some_steps (one_ride RideStatus.matching) 10
      (a_ride RideStatus.matching) (ride_at RideStatus.matching)
