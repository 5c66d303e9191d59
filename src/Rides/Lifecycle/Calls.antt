-- ===== src/Rides/Lifecycle/Calls.antt =====
-- Every request that writes a ride, and every transaction of a transition, moves each ride along the
-- diagram.
use Prim.Native.String.{String}
use obbian_ribe_booking_app.Base.{
  ℕ, ◌≡◌, refl, Bool, true, Option, none, some, arith, find-append, ◌==◌, not, sub_ℕ,
}
use obbian_ribe_booking_app.Platform.{Platform}
use obbian_ribe_booking_app.World.{World, Job, Failure, pure, ◌>>=◌, gets, ignore_error, enqueue}
use obbian_ribe_booking_app.Schema.{Ride, same_status, RideStatus, RideType, CancellationReason}
use obbian_ribe_booking_app.Pricing.Fare.{get_config}
use obbian_ribe_booking_app.Drivers.Service.Laws.{complete_ride-rides}
use obbian_ribe_booking_app.Rides.StateMachine.{allows_transition, can_cancel}
use obbian_ribe_booking_app.Rides.StateMachine.Graph.{here}
use obbian_ribe_booking_app.Rides.Service.{
  RequestRideInput, create_ride, insert_ride, new_ride, get_ride, transition, commit_transition,
  write_requested,
}
use obbian_ribe_booking_app.Rides.Lifecycle.{
  CancelledBy, driver_arrive, driver_start, complete_ride, cancel, rate_ride,
  assert_assigned_driver, restore, rating_patch, Cancellation, cancellation_patch, completion_patch,
  cancellation_fee, cancel_checked, arrived, start, complete,
}
use obbian_ribe_booking_app.Rides.Lifecycle.History.{
  Evolves, Evolves-refl, Keeps, Keeps-same, Keeps-pure, Keeps->>=, Keeps-guard, Keeps-transaction,
  get_ride-Keeps, write_ride_event-Keeps, transition_as-Keeps, commit_transition-Keeps,
}

module _ ⦃pf : Platform⦄ where
  pub transition-Keeps :
      (ride_id : ℕ) (to : RideStatus) (patch : Ride → Ride)
      → ((r : Ride) → (patch r).id ≡ r.id)
      → Keeps (transition ride_id to patch)
  unfolding transition
  transition-Keeps ride_id to patch keeps = transition_as-Keeps ride_id to patch _ keeps

  pub gets-Keeps : {A : Type 0} (f : World → A) → Keeps (gets f)
  gets-Keeps f = record { evolves = Evolves-refl }

  get_config-Keeps : (city : String) (t : RideType) → Keeps (get_config city t)
  unfolding get_config
  get_config-Keeps city t = Keeps-same (get_config city t) (λ w. ground arith)

  restore-Keeps : (d : Option ℕ) (r : Ride) → Keeps (restore d r)
  restore-Keeps none r = Keeps-pure tt
  restore-Keeps (some d) r =
      Keeps-same (restore (some d) r) (complete_ride-rides d r.pickup_lat r.pickup_lon)

  driver_arrive-Keeps : (ride_id : ℕ) → Keeps (driver_arrive ride_id)
  unfolding driver_arrive
  driver_arrive-Keeps ride_id =
      Keeps->>= (gets (λ w. w.now)) _ (gets-Keeps _)
        (λ now. transition-Keeps ride_id _ _ (λ r. refl))

  driver_start-Keeps : (ride_id : ℕ) → Keeps (driver_start ride_id)
  unfolding driver_start
  driver_start-Keeps ride_id =
      Keeps->>= (gets (λ w. w.now)) _ (gets-Keeps _)
        (λ now. transition-Keeps ride_id _ _ (λ r. refl))

  completion_patch-id : (total now : ℕ) (r : Ride) → (completion_patch total now r).id ≡ r.id
  unfolding completion_patch
  completion_patch-id total now r = refl

  complete_ride-Keeps : (ride_id : ℕ) → Keeps (complete_ride ride_id)
  unfolding complete_ride
  complete_ride-Keeps ride_id = Keeps->>= _ _ (get_ride-Keeps ride_id) λ ride.
      Keeps->>= _ _ (get_config-Keeps ride.city ride.ride_type) λ config.
        Keeps->>= (gets (λ w. w.now)) _ (gets-Keeps _) λ now.
          Keeps->>= _ _
            (transition-Keeps ride_id _ (completion_patch _ now) (completion_patch-id _ now))
            λ completed. Keeps->>= _ _ (restore-Keeps ride.driver_id ride) λ _. Keeps-pure completed

  cancellation_patch-id :
      (reason : CancellationReason) (fee now : ℕ) (r : Ride)
      → (cancellation_patch reason fee now r).id ≡ r.id
  unfolding cancellation_patch
  cancellation_patch-id reason fee now r = refl

  cancel_checked-Keeps :
      (ride_id : ℕ) (ride : Ride) (reason : CancellationReason) (by : CancelledBy)
      → Keeps (cancel_checked ride_id ride reason by)
  unfolding cancel_checked
  cancel_checked-Keeps ride_id ride reason by = record {
    evolves = λ w.
        let fee = cancellation_fee by ride.created_at w.now in
        let patch = cancellation_patch reason fee w.now in
        (Keeps->>= _
            (λ c.
              pure {A = Cancellation}
                (record { ride = c; refund_amount = sub_ℕ c.estimated_fare fee }))
            (transition_as-Keeps ride_id RideStatus.cancelled patch "RIDE_CANCELLED"
              (cancellation_patch-id reason fee w.now))
            (λ c. Keeps-pure _)).evolves
          w;
  }

  pub cancel-Keeps :
      (ride_id : ℕ) (reason : CancellationReason) (by : CancelledBy)
      → Keeps (cancel ride_id reason by)
  unfolding cancel
  cancel-Keeps ride_id reason by = Keeps->>= _ _ (get_ride-Keeps ride_id) λ ride.
      Keeps-guard (not (can_cancel ride.status)) Failure.bad_request
        (cancel_checked ride_id ride reason by) λ _. cancel_checked-Keeps ride_id ride reason by

  rating_patch-id :
      (as_rider : Bool) (rating : ℕ) (r : Ride) → (rating_patch as_rider rating r).id ≡ r.id
  unfolding rating_patch
  rating_patch-id as_rider rating r = ground arith

  rate_ride-Keeps :
      (ride_id : ℕ) (as_rider : Bool) (rating : ℕ) → Keeps (rate_ride ride_id as_rider rating)
  unfolding rate_ride
  rate_ride-Keeps ride_id as_rider rating = Keeps->>= _ _ (get_ride-Keeps ride_id) λ ride.
      Keeps-guard (not (same_status ride.status RideStatus.completed)) Failure.bad_request
        (transition ride_id RideStatus.completed (rating_patch as_rider rating) >>= λ _. pure tt)
        λ _.
          Keeps->>= _ _
            (transition-Keeps ride_id _ (rating_patch as_rider rating)
              (rating_patch-id as_rider rating))
            λ _. Keeps-pure tt

  insert_ride-Keeps : (input : RequestRideInput) → Keeps (insert_ride input)
  unfolding insert_ride
  insert_ride-Keeps input = record {
    evolves = λ w i r e. (
      r,
      rw (pf.rows-insert (new_ride input w.next_id w.now) w.rides) (
          rw (find-append (λ s. s.id == i) (pf.rows w.rides) (new_ride input w.next_id w.now), e)
            refl),
      here,
    );
  }

  write_requested-Keeps : (r : Ride) → Keeps (write_requested r)
  unfolding write_requested
  write_requested-Keeps r = write_ride_event-Keeps _ r.id _

  create_ride-Keeps : (input : RequestRideInput) → Keeps (create_ride input)
  unfolding create_ride
  create_ride-Keeps input =
      Keeps->>= _ _
        (Keeps-transaction _ (
          Keeps->>= (insert_ride input) _ (insert_ride-Keeps input)
            λ saved. Keeps->>= _ _ (write_requested-Keeps saved) λ _. Keeps-pure saved))
        λ ride.
          Keeps->>= _ _
            (Keeps-same (ignore_error (enqueue (Job.match_ride ride.id))) (λ w. ground arith))
            λ _. Keeps-pure ride

-- The requests that write a ride, and the transaction of a transition on its own, which other
-- requests may run before and after.
pub data Call : Type 0 where
  requests : RequestRideInput → Call
  arrives starts completes : ℕ → ℕ → Call
  cancels : ℕ → CancellationReason → CancelledBy → Call
  rates : ℕ → Bool → ℕ → Call
  commits :
      (ride_id : ℕ) (observed to : RideStatus) (patch : Ride → Ride) (event_type : String)
      → ((r : Ride) → (patch r).id ≡ r.id)
      → allows_transition observed to ≡ true
      → Call

module _ ⦃pf : Platform⦄ where
  pub after_call : Call → World → World
  after_call (requests input) w = (create_ride input w).1
  after_call (arrives user ride) w = (arrived user ride w).1
  after_call (starts user ride) w = (start user ride w).1
  after_call (completes user ride) w = (complete user ride w).1
  after_call (cancels ride reason by) w = (cancel ride reason by w).1
  after_call (rates ride as_rider rating) w = (rate_ride ride as_rider rating w).1
  after_call (commits ride observed to patch event_type _ _) w =
      (commit_transition ride observed to patch event_type w).1

  assert_assigned_driver-Keeps : (ride user : ℕ) → Keeps (assert_assigned_driver ride user)
  unfolding assert_assigned_driver get_ride
  assert_assigned_driver-Keeps ride user =
      Keeps-same (assert_assigned_driver ride user) (λ w. ground arith)

  pub after_call-Evolves : (c : Call) (w : World) → Evolves w (after_call c w)
  unfolding after_call arrived start complete
  after_call-Evolves (requests input) = (create_ride-Keeps input).evolves
  after_call-Evolves (arrives user ride) =
      (Keeps->>= _ _ (assert_assigned_driver-Keeps ride user)
        (λ _. driver_arrive-Keeps ride)).evolves
  after_call-Evolves (starts user ride) =
      (Keeps->>= _ _ (assert_assigned_driver-Keeps ride user)
        (λ _. driver_start-Keeps ride)).evolves
  after_call-Evolves (completes user ride) =
      (Keeps->>= _ _ (assert_assigned_driver-Keeps ride user)
        (λ _. complete_ride-Keeps ride)).evolves
  after_call-Evolves (cancels ride reason by) = (cancel-Keeps ride reason by).evolves
  after_call-Evolves (rates ride as_rider rating) = (rate_ride-Keeps ride as_rider rating).evolves
  after_call-Evolves (commits ride observed to patch event_type keeps legal) =
      (commit_transition-Keeps ride observed to patch event_type keeps legal).evolves
