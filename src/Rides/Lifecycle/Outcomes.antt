-- ===== src/Rides/Lifecycle/Outcomes.antt =====
-- What cancelling and completing a ride comes to.
use obbian_ribe_booking_app.Base.{
  ℕ, ◌==◌, ◌≡◌, ◌+◌, ◌*◌, ◌-◌, ◌≤◌, ◌<◌, ◌⊎◌, refl, ap, ◌∙◌, true, false, not, some, find, arith,
  sub_ℕ,
}
use obbian_ribe_booking_app.Platform.{Platform}
use obbian_ribe_booking_app.World.{World, ok}
use obbian_ribe_booking_app.Schema.{
  Ride, Driver, DriverStatus, RideStatus, CancellationReason, FareConfig,
}
use obbian_ribe_booking_app.Pricing.Fare.{get_config, calculate_fare}
use obbian_ribe_booking_app.Drivers.Service.{complete_ride as restore_driver}
use obbian_ribe_booking_app.Drivers.Service.Laws.{
  driver_row, restored, driver_row-complete_ride, complete_ride-rides,
}
use obbian_ribe_booking_app.Rides.StateMachine.{allows_transition, can_cancel, is_terminal}
use obbian_ribe_booking_app.Rides.StateMachine.Graph.{can_cancel-not-is_terminal}
use obbian_ribe_booking_app.Rides.Service.{
  changed_ride, get_ride, transition, transition_as, ride_event_type, commit_transition,
  update_ride, write_ride_event,
}
use obbian_ribe_booking_app.Rides.Lifecycle.{
  CancelledBy, cancellation_fee, cancellation_patch, completion_patch, final_fare, cancel,
  cancel_checked, complete_ride,
}
use obbian_ribe_booking_app.Rides.Lifecycle.History.{ride_row}
use obbian_ribe_booking_app.Rides.Lifecycle.Transition.{transition_as_commits}

-- What a cancellation costs: nothing for the system, fifty rupees for a driver, and for a rider these
-- only after more than two minutes.
abbrev pub IsFee : CancelledBy → ℕ → ℕ → ℕ → Type 0
IsFee CancelledBy.rider created_at now fee =
    ((now ≤ created_at + 120_000) × (fee ≡ 0)) ⊎ ((created_at + 120_000 < now) × (fee ≡ 5000))
IsFee CancelledBy.driver created_at now fee = fee ≡ 5000
IsFee CancelledBy.system created_at now fee = fee ≡ 0

cancellation_fee-IsFee :
    (by : CancelledBy) (created_at now : ℕ)
    → IsFee by created_at now (cancellation_fee by created_at now)
unfolding cancellation_fee
cancellation_fee-IsFee CancelledBy.rider created_at now = ground arith
cancellation_fee-IsFee CancelledBy.driver created_at now = refl
cancellation_fee-IsFee CancelledBy.system created_at now = refl

legal_cancel :
    (s : RideStatus) → can_cancel s ≡ true → allows_transition s RideStatus.cancelled ≡ true
unfolding can_cancel allows_transition
legal_cancel s h = ground arith

cancellation_patch-id :
    (reason : CancellationReason) (fee now : ℕ) (r : Ride)
    → (cancellation_patch reason fee now r).id ≡ r.id
unfolding cancellation_patch
cancellation_patch-id reason fee now r = refl

module _ ⦃pf : Platform⦄ (ride_id : ℕ) where
  cancel-cancel_checked :
      (reason : CancellationReason) (by : CancelledBy) (w : World) (r : Ride)
      → ride_row w ride_id ≡ some r
      → can_cancel r.status ≡ true
      → cancel ride_id reason by w ≡ cancel_checked ride_id r reason by w
  unfolding cancel get_ride
  cancel-cancel_checked reason by w r e h = rw (e, h) refl

  cancel_checked_lem :
      (reason : CancellationReason) (by : CancelledBy) (w : World) (r s : Ride)
      → let patch = cancellation_patch reason (cancellation_fee by r.created_at w.now) w.now in
        (transition_as ride_id RideStatus.cancelled patch "RIDE_CANCELLED" w).0 ≡ ok s
        → ride_row (transition_as ride_id RideStatus.cancelled patch "RIDE_CANCELLED" w).1 ride_id
          ≡ some s
        → let (result, w') = cancel_checked ride_id r reason by w in
          (result
            ≡ ok (record {
              ride = s;
              refund_amount = sub_ℕ s.estimated_fare (cancellation_fee by r.created_at w.now);
            }))
          × (ride_row w' ride_id ≡ some s)
  unfolding cancel_checked
  cancel_checked_lem reason by w r s result row = rw result (refl, row)

  pub cancel_eq :
      (reason : CancellationReason) (by : CancelledBy) (w : World) (r : Ride)
      → ride_row w ride_id ≡ some r
      → is_terminal r.status ≡ false
      → let fee = cancellation_fee by r.created_at w.now in
        let s = changed_ride RideStatus.cancelled (cancellation_patch reason fee w.now) w.now r in
        let (result, w') = cancel ride_id reason by w in
        (result ≡ ok (record { ride = s; refund_amount = sub_ℕ r.estimated_fare fee }))
        × (ride_row w' ride_id ≡ some s)
  unfolding changed_ride cancellation_patch
  cancel_eq reason by w r e h =
      let fee = cancellation_fee by r.created_at w.now in
      let patch = cancellation_patch reason fee w.now in
      let open_ride : can_cancel r.status ≡ true = can_cancel-not-is_terminal r.status ∙ ap not h in
      let (result, row, event) =
        transition_as_commits ride_id RideStatus.cancelled patch "RIDE_CANCELLED" w r
          (cancellation_patch-id reason fee w.now) e (legal_cancel r.status open_ride) in
      rw (cancel-cancel_checked reason by w r e open_ride)
        (cancel_checked_lem reason by w r _ result row)

  -- Cancelling a ride that is not over succeeds. The fee is 50 rupees for a driver, and for a
  -- rider later than two minutes after the ride was created, and otherwise nothing. The row in the
  -- table is cancelled now, with the reason and that fee, and otherwise as before; the refund is
  -- the estimated fare less the fee as a signed amount.
  pub cancel_lem :
      (reason : CancellationReason) (by : CancelledBy) (w : World) (r : Ride)
      → ride_row w ride_id ≡ some r
      → is_terminal r.status ≡ false
      → (fee : ℕ) × (s : Ride) × IsFee by r.created_at w.now fee
        × (s ≡ record r {
          status = RideStatus.cancelled;
          cancellation_reason = some reason;
          cancellation_fee = fee;
          cancelled_at = some w.now;
          updated_at = w.now;
        })
        × ((cancel ride_id reason by w).0
            ≡ ok (record { ride = s; refund_amount = sub_ℕ r.estimated_fare fee }))
        × (ride_row (cancel ride_id reason by w).1 ride_id ≡ some s)
  unfolding changed_ride cancellation_patch
  cancel_lem reason by w r e h =
      let (result, row) = cancel_eq reason by w r e h in
      (
        cancellation_fee by r.created_at w.now,
        _,
        cancellation_fee-IsFee by r.created_at w.now,
        refl,
        result,
        row,
      )

  completion-id : (total now : ℕ) (r : Ride) → (completion_patch total now r).id ≡ r.id
  unfolding completion_patch
  completion-id total now r = refl

  complete_ride-eq :
      (w : World) (r : Ride) (c : FareConfig) (d : ℕ) {s : Ride}
      → ride_row w ride_id ≡ some r
      → get_config r.city r.ride_type w ≡ (ok c, w)
      → r.driver_id ≡ some d
      → let patch = completion_patch (final_fare c r) w.now in
        let change = transition ride_id RideStatus.completed patch w in
        change.0 ≡ ok s
        → complete_ride ride_id w ≡ (ok s, (restore_driver d r.pickup_lat r.pickup_lon change.1).1)
  unfolding complete_ride get_ride final_fare
  complete_ride-eq w r c d e config driven done = rw (e, config, done, driven) refl

  transition-drivers :
      (to : RideStatus) (patch : Ride → Ride) (w : World)
      → ((transition ride_id to patch w).1.drivers ≡ w.drivers)
        × ((transition ride_id to patch w).1.now ≡ w.now)
  unfolding transition transition_as get_ride commit_transition update_ride write_ride_event
  transition-drivers to patch w = ground arith

  complete_ride-changed :
      (w : World) (r : Ride) (c : FareConfig) (d : Driver)
      → ride_row w ride_id ≡ some r
      → allows_transition r.status RideStatus.completed ≡ true
      → get_config r.city r.ride_type w ≡ (ok c, w)
      → r.driver_id ≡ some d.user_id
      → driver_row w d.user_id ≡ some d
      → let s =
          changed_ride RideStatus.completed (completion_patch (final_fare c r) w.now) w.now r in
        let (result, w') = complete_ride ride_id w in
        (result ≡ ok s)
        × (ride_row w' ride_id ≡ some s)
        × (driver_row w' d.user_id ≡ some (restored w.now d))
  unfolding transition
  complete_ride-changed w r c d e legal config driven row =
      let patch = completion_patch (final_fare c r) w.now in
      let change = (transition ride_id RideStatus.completed patch w).1 in
      let (result, changed, event) =
        transition_as_commits ride_id RideStatus.completed patch
          (ride_event_type RideStatus.completed) w r (completion-id (final_fare c r) w.now) e
          legal in
      let (drivers, now) = transition-drivers RideStatus.completed patch w in
      rw (complete_ride-eq w r c d.user_id e config driven result) (
        refl,
        rw (complete_ride-rides d.user_id r.pickup_lat r.pickup_lon change) changed,
        driver_row-complete_ride d.user_id r.pickup_lat r.pickup_lon change
              (ap (λ t. find (λ d'. d'.user_id == d.user_id) (pf.rows t)) drivers ∙ row)
            ∙ ap (λ t. some (restored t d)) now,
      )

  pub complete_ride_lem :
      (w : World) (r : Ride) (c : FareConfig) (d : Driver)
      → ride_row w ride_id ≡ some r
      → allows_transition r.status RideStatus.completed ≡ true
      → get_config r.city r.ride_type w ≡ (ok c, w)
      → r.driver_id ≡ some d.user_id
      → driver_row w d.user_id ≡ some d
      → let fare = calculate_fare c (10 * r.distance_km) (60 * r.duration_min) in
        let s = record r {
          status = RideStatus.completed;
          total_fare = some (fare - r.promo_discount);
          completed_at = some w.now;
          updated_at = w.now;
        } in
        let (result, w') = complete_ride ride_id w in
        (result ≡ ok s)
        × (ride_row w' ride_id ≡ some s)
        × (driver_row w' d.user_id
            ≡ some (record d {
              status = DriverStatus.online;
              online_since = some w.now;
              total_rides = d.total_rides + 1;
              updated_at = w.now;
            }))
  unfolding changed_ride completion_patch final_fare restored
  complete_ride_lem = complete_ride-changed
