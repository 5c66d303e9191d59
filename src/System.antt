-- ===== src/System.antt =====
-- The whole backend: every sequence of the requests, the responses of drivers, the ends of matches and
-- the payments moves each ride along the diagram.
mod Matching
mod Payments
use Prim.Native.String.{String}
use obbian_ribe_booking_app.Base.{
  ℕ, ap, ◌∙◌, ◌≡◌, refl, ◌==◌, Bool, true, false, not, Option, none, some, List, [], ◌∷◌,
  if◌then◌else◌, find, find-map_where, Bool-cases, inl, inr, arith,
}
use obbian_ribe_booking_app.Platform.{Platform}
use obbian_ribe_booking_app.World.{
  World, Action, ◌>>◌, throw_if, gets, redis_call, publish, Failure, BusEvent, Outcome, ok, err,
}
use obbian_ribe_booking_app.Schema.{Ride, RideStatus, DriverStatus, Payment, PaymentStatus}
use obbian_ribe_booking_app.Drivers.Service.{update_status}
use obbian_ribe_booking_app.Rides.StateMachine.{is_terminal}
use obbian_ribe_booking_app.Rides.StateMachine.Graph.{Reach, Reach-of_is_terminal, here}
use obbian_ribe_booking_app.Rides.Lifecycle.History.{
  ride_row, Evolves, Evolves-refl, Evolves-trans, Keeps, Keeps-same, Keeps-pure, Keeps->>=,
  Keeps-transaction, get_ride-Keeps, or_throw-Keeps,
}
use obbian_ribe_booking_app.Rides.Lifecycle.Calls.{
  Call, after_call, after_call-Evolves, cancel-Keeps, transition-Keeps, gets-Keeps,
}
use obbian_ribe_booking_app.Matching.Service.{
  begin_matching, assign_driver, finalize_match, handle_no_drivers, claim_ride, withdraw_offer,
  after_claim, handle_driver_response, conclude, keep,
}
use obbian_ribe_booking_app.Matching.Assignment.{update_status-rides, acceptance-id}
use obbian_ribe_booking_app.Payments.Laws.{verify_payment_atomic}
use obbian_ribe_booking_app.Payments.Service.{
  Gateway, WebhookBody, find_payment, settle_payment, update_payment, update_payment_status,
  webhook_payment, webhook_ride, noted_ride, verify_payment, apply_webhook, failed_patch,
  handle_webhook, refund,
}
use obbian_ribe_booking_app.System.Matching.{handle_driver_response-Keeps, conclude-Keeps}
use obbian_ribe_booking_app.System.Payments.{
  verify_payment-Keeps, refund-Keeps, handle_webhook-Keeps,
}

-- A request that writes a ride, a response of a driver to an offer, the end of a match that has waited
-- for a claim, or a request to the payments.
pub data Step : Type 0 where
  calls : Call → Step
  responds : ℕ → ℕ → Bool → Step
  concludes : ℕ → Option ℕ → Step
  verifies : ℕ → ℕ → ℕ → String → Step
  notifies : WebhookBody → String → Step
  refunds : ℕ → Step

module _ ⦃pf : Platform⦄ (gateway : Gateway) where
  pub after_step : Step → World → World
  after_step (calls c) w = after_call c w
  after_step (responds ride driver accepted) w = (handle_driver_response ride driver accepted w).1
  after_step (concludes ride claim) w = (conclude ride claim w).1
  after_step (verifies ride order payment signature) w =
      (verify_payment gateway ride order payment signature w).1
  after_step (notifies body signature) w = (handle_webhook gateway body signature w).1
  after_step (refunds ride) w = (refund gateway ride w).1

  pub run_system : List Step → World → World
  run_system [] w = w
  run_system (s ∷ ss) w = run_system ss (after_step s w)

  after_step-Evolves : (s : Step) (w : World) → Evolves w (after_step s w)
  unfolding after_step
  after_step-Evolves (calls c) = after_call-Evolves c
  after_step-Evolves (responds ride driver accepted) =
      (handle_driver_response-Keeps ride driver accepted).evolves
  after_step-Evolves (concludes ride claim) = (conclude-Keeps ride claim).evolves
  after_step-Evolves (verifies ride order payment signature) =
      (verify_payment-Keeps gateway ride order payment signature).evolves
  after_step-Evolves (notifies body signature) =
      (handle_webhook-Keeps gateway body signature).evolves
  after_step-Evolves (refunds ride) = (refund-Keeps gateway ride).evolves

  -- Through any sequence of requests, single transition transactions, responses of drivers, ends of
  -- matches and payment requests, a ride that is in the table stays there, and its status only moves
  -- along the transition diagram.
  pub run_system-Evolves :
      (ss : List Step) (w : World) (ride_id : ℕ) (r : Ride)
      → ride_row w ride_id ≡ some r
      → (s : Ride) × (ride_row (run_system ss w) ride_id ≡ some s) × Reach r.status s.status
  unfolding run_system
  run_system-Evolves [] w = Evolves-refl w
  run_system-Evolves (s ∷ ss) w =
      Evolves-trans w (after_step s w) (run_system ss (after_step s w)) (after_step-Evolves s w)
        (run_system-Evolves ss (after_step s w))

  -- Through any sequence of requests, single transition transactions, responses of drivers, ends of
  -- matches and payment requests, a ride that is completed or cancelled keeps its status.
  pub run_system_of_is_terminal :
      (ss : List Step) (w : World) (ride_id : ℕ) (r : Ride)
      → ride_row w ride_id ≡ some r
      → is_terminal r.status ≡ true
      → (s : Ride) × (ride_row (run_system ss w) ride_id ≡ some s) × (s.status ≡ r.status)
  run_system_of_is_terminal ss w ride_id r e over =
      let (s, at, reach) = run_system-Evolves ss w ride_id r e in
      (s, at, Reach-of_is_terminal reach over)
