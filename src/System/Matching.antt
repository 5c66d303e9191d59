-- ===== src/System/Matching.antt =====
-- The operations of the matching move each ride along the diagram.
use obbian_ribe_booking_app.Base.{
  ℕ, refl, Bool, true, false, Option, none, some, if◌then◌else◌, arith,
}
use obbian_ribe_booking_app.Platform.{Platform}
use obbian_ribe_booking_app.World.{Action, throw_if, gets, redis_call, Failure}
use obbian_ribe_booking_app.Schema.{RideStatus, DriverStatus}
use obbian_ribe_booking_app.Drivers.Service.{update_status}
use obbian_ribe_booking_app.Rides.Lifecycle.History.{
  Evolves-refl, Keeps, Keeps-same, Keeps-pure, Keeps->>=, get_ride-Keeps, or_throw-Keeps,
}
use obbian_ribe_booking_app.Rides.Lifecycle.Calls.{cancel-Keeps, transition-Keeps, gets-Keeps}
use obbian_ribe_booking_app.Matching.Service.{
  begin_matching, assign_driver, finalize_match, handle_no_drivers, claim_ride, withdraw_offer,
  after_claim, handle_driver_response, conclude, keep,
}
use obbian_ribe_booking_app.Matching.Assignment.{update_status-rides, acceptance-id}

module _ ⦃pf : Platform⦄ where
  pub Keeps-if :
      {A : Type 0} (b : Bool) (m n : Action A) → Keeps m → Keeps n → Keeps (if b then m else n)
  Keeps-if true m n km kn = km
  Keeps-if false m n km kn = kn

  pub Keeps-throw_if : (b : Bool) (x : Failure) → Keeps (throw_if b x)
  Keeps-throw_if true x = record { evolves = Evolves-refl }
  Keeps-throw_if false x = record { evolves = Evolves-refl }

  update_status-Keeps :
      (driver_id : ℕ) (status : DriverStatus) → Keeps (update_status driver_id status)
  update_status-Keeps driver_id status =
      Keeps-same (update_status driver_id status) (λ w. (update_status-rides driver_id status w).0)

  redis_call-Keeps : {A : Type 0} (f : ℕ → pf.Store → A × pf.Store) → Keeps (redis_call f)
  redis_call-Keeps f = Keeps-same (redis_call f) (λ w. ground arith)

  begin_matching-Keeps : (ride_id : ℕ) (status : RideStatus) → Keeps (begin_matching ride_id status)
  unfolding begin_matching
  begin_matching-Keeps ride_id status =
      Keeps-if _ _ _
        (Keeps->>= _ _ (transition-Keeps ride_id RideStatus.matching keep (λ r. refl))
          (λ _. Keeps-pure tt))
        (Keeps-pure tt)

  assign_driver-Keeps : (ride_id driver_id : ℕ) → Keeps (assign_driver ride_id driver_id)
  unfolding assign_driver
  assign_driver-Keeps ride_id driver_id = Keeps->>= (gets (λ w. w.now)) _ (gets-Keeps _) λ now.
      Keeps->>= _ _ (transition-Keeps ride_id RideStatus.accepted _ (acceptance-id driver_id now))
        λ _.
          Keeps->>= _ _ (update_status-Keeps driver_id DriverStatus.on_ride) λ _. redis_call-Keeps _

  finalize_match-Keeps : (ride_id driver_id : ℕ) → Keeps (finalize_match ride_id driver_id)
  unfolding finalize_match
  finalize_match-Keeps ride_id driver_id = Keeps->>= _ _ (get_ride-Keeps ride_id) λ ride.
      Keeps-if _ _ _
        (Keeps->>= _ _ (begin_matching-Keeps ride_id ride.status)
          (λ _. assign_driver-Keeps ride_id driver_id))
        (Keeps-pure tt)

  handle_no_drivers-Keeps : (ride_id : ℕ) → Keeps (handle_no_drivers ride_id)
  unfolding handle_no_drivers
  handle_no_drivers-Keeps ride_id = Keeps->>= _ _ (get_ride-Keeps ride_id) λ ride.
      Keeps-if _ _ _ (Keeps->>= _ _ (cancel-Keeps ride_id _ _) (λ _. Keeps-pure tt)) (Keeps-pure tt)

  withdraw_offer-Keeps :
      (ride_id driver_id : ℕ) (accepted : Bool) → Keeps (withdraw_offer ride_id driver_id accepted)
  unfolding withdraw_offer
  withdraw_offer-Keeps ride_id driver_id accepted =
      Keeps-same (withdraw_offer ride_id driver_id accepted) (λ w. ground arith)

  after_claim-Keeps :
      (ride_id driver_id : ℕ) (claimed : Bool) → Keeps (after_claim ride_id driver_id claimed)
  unfolding after_claim
  after_claim-Keeps ride_id driver_id claimed =
      Keeps-if claimed _ _
        (Keeps->>= _ _
          (Keeps->>= _ _ (withdraw_offer-Keeps ride_id driver_id true)
            (λ _. finalize_match-Keeps ride_id driver_id))
          (λ _. Keeps-pure true))
        (Keeps-pure false)

  pub handle_driver_response-Keeps :
      (ride_id driver_id : ℕ) (accepted : Bool)
      → Keeps (handle_driver_response ride_id driver_id accepted)
  unfolding handle_driver_response claim_ride
  handle_driver_response-Keeps ride_id driver_id accepted =
      Keeps->>= _ _ (redis_call-Keeps _) λ offer.
        Keeps->>= _ _ (or_throw-Keeps offer Failure.bad_request) λ _.
          Keeps-if accepted _ _
            (Keeps->>= _ _ (redis_call-Keeps _) (after_claim-Keeps ride_id driver_id))
            (Keeps->>= _ _ (withdraw_offer-Keeps ride_id driver_id false) (λ _. Keeps-pure false))

  pub conclude-Keeps : (ride_id : ℕ) (claim : Option ℕ) → Keeps (conclude ride_id claim)
  unfolding conclude
  conclude-Keeps ride_id none = handle_no_drivers-Keeps ride_id
  conclude-Keeps ride_id (some driver_id) = finalize_match-Keeps ride_id driver_id
