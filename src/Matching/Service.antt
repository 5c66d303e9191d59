-- ===== src/Matching/Service.antt =====
-- src/modules/matching/services/matching.service.ts, and acceptRide of
-- driver-ride-actions.controller.ts. While a match waits, other requests run: what they do to the
-- state is an argument of the match, for each window of a sequential offer and for each pause of the
-- polling. Ratings are hundredths, the commission a percentage of at most 100, the radius metres.
use obbian_ribe_booking_app.Base.{
  ℕ, zero, suc, ◌+◌, ◌*◌, ◌-◌, ◌/◌, ◌==◌, Bool, true, false, ◌||◌, Option, none, some, List, [],
  ◌∷◌, ltb, length, if◌then◌else◌, ℤ, pos, pos_part,
}
use obbian_ribe_booking_app.Platform.{Platform, RedisKey}
use obbian_ribe_booking_app.World.{
  World, Action, ◌>>=◌, ◌>>◌, pure, or_throw, gets, modify, redis_call, publish, Failure, BusEvent,
}
use obbian_ribe_booking_app.Schema.{
  Ride, RideStatus, Driver, DriverStatus, CancellationReason, same_status,
}
use obbian_ribe_booking_app.Drivers.Service.{update_status}
use obbian_ribe_booking_app.Drivers.Matchable.{find_matchable_drivers}
use obbian_ribe_booking_app.Rides.Service.{get_ride, transition}
use obbian_ribe_booking_app.Rides.Lifecycle.{cancel, CancelledBy}

pub record MatchingConfig : Type 0 where
  pub radius_m : ℕ
  pub max_candidates : ℕ
  pub offer_ttl_seconds : ℕ
  pub hedged : Bool
  pub sequential_window_ms : ℕ
  pub commission_percent : ℕ

abbrev pub claim_ttl_seconds : ℕ
claim_ttl_seconds = 30

-- A hundred times the score of the candidate at a place of the list.
abbrev pub score_of : ℕ → Driver → ℕ
score_of index d = d.rating * 40 + 100 * (if index == 0 then 60 else 60 - index * 10)

abbrev scored : ℕ → List Driver → List (Driver × ℕ)
scored index [] = []
scored index (d ∷ ds) = (d, score_of index d) ∷ scored (suc index) ds

abbrev insert_scored : Driver × ℕ → List (Driver × ℕ) → List (Driver × ℕ)
insert_scored (d, s) [] = (d, s) ∷ []
insert_scored (d, s) ((e, t) ∷ es) =
    let rest = insert_scored (d, s) es in if ltb s t then (e, t) ∷ rest else (d, s) ∷ (e, t) ∷ es

-- Highest score first.
abbrev sorted : List (Driver × ℕ) → List (Driver × ℕ)
sorted [] = []
sorted (d ∷ ds) = insert_scored d (sorted ds)

abbrev first_drivers : ℕ → List (Driver × ℕ) → List Driver
first_drivers zero ds = []
first_drivers (suc n) [] = []
first_drivers (suc n) ((d, s) ∷ ds) = d ∷ first_drivers n ds

-- The candidates that get an offer.
unfoldable pub top_candidates : MatchingConfig → List Driver → List Driver
top_candidates cfg ds = first_drivers cfg.max_candidates (sorted (scored 0 ds))

unfoldable pub is_matching : RideStatus → Bool
is_matching s = same_status s RideStatus.matching || same_status s RideStatus.requested

unfoldable pub acceptance_patch : ℕ → ℕ → Ride → Ride
acceptance_patch driver_id now r = record r { driver_id = some driver_id; accepted_at = some now }

abbrev pub keep : Ride → Ride
keep r = r

module _ ⦃pf : Platform⦄ where
  -- REQUESTED → MATCHING, if the ride is still REQUESTED.
  unfoldable pub begin_matching : ℕ → RideStatus → Action (Unit {0})
  begin_matching ride_id status =
      if same_status status RideStatus.requested
      then (transition ride_id RideStatus.matching keep >>= λ _. pure tt)
      else pure tt

  -- → ACCEPTED, the driver off the pool, and the claim off.
  unfoldable pub assign_driver : ℕ → ℕ → Action (Unit {0})
  assign_driver ride_id driver_id = gets (λ w. w.now) >>= λ now.
      transition ride_id RideStatus.accepted (acceptance_patch driver_id now) >>= λ _.
      update_status driver_id DriverStatus.on_ride
      >> redis_call (λ now s. (tt, pf.del (RedisKey.claim ride_id) s))

  unfoldable pub finalize_match : ℕ → ℕ → Action (Unit {0})
  finalize_match ride_id driver_id = get_ride ride_id >>= λ ride.
      if is_matching ride.status
      then begin_matching ride_id ride.status >> assign_driver ride_id driver_id
      else pure tt

  unfoldable pub handle_no_drivers : ℕ → Action (Unit {0})
  handle_no_drivers ride_id = get_ride ride_id >>= λ ride.
      if is_matching ride.status
      then (cancel ride_id CancellationReason.no_driver_found CancelledBy.system >>= λ _. pure tt)
      else pure tt

  -- SET NX: whether this driver has got the ride.
  unfoldable pub claim_ride : ℕ → ℕ → Action Bool
  claim_ride ride_id driver_id =
      redis_call
        (λ now s. pf.set_nx now (RedisKey.claim ride_id) (pos driver_id) claim_ttl_seconds s)

  unfoldable pub withdraw_offer : ℕ → ℕ → Bool → Action (Unit {0})
  withdraw_offer ride_id driver_id accepted =
      redis_call (λ now s. (tt, pf.del (RedisKey.offer ride_id driver_id) s))
      >> publish (BusEvent.driver_response ride_id driver_id accepted)

  -- What follows the claim of an accepting driver.
  unfoldable pub after_claim : ℕ → ℕ → Bool → Action Bool
  after_claim ride_id driver_id claimed =
      if claimed
      then (withdraw_offer ride_id driver_id true >> finalize_match ride_id driver_id >> pure true)
      else pure false

  unfoldable pub handle_driver_response : ℕ → ℕ → Bool → Action Bool
  handle_driver_response ride_id driver_id accepted =
      redis_call (λ now s. (pf.get now (RedisKey.offer ride_id driver_id) s, s)) >>= λ offer.
      or_throw offer Failure.bad_request >>= λ _.
      if accepted
      then (claim_ride ride_id driver_id >>= λ claimed. after_claim ride_id driver_id claimed)
      else (withdraw_offer ride_id driver_id false >> pure false)

  -- acceptRide answers whether the ride was taken.
  unfoldable pub accept_ride : ℕ → ℕ → Action Bool
  accept_ride user_id ride_id = handle_driver_response ride_id user_id true

  -- What dispatchOffers does when the wait is over.
  unfoldable pub conclude : ℕ → Option ℕ → Action (Unit {0})
  conclude ride_id none = handle_no_drivers ride_id
  conclude ride_id (some driver_id) = finalize_match ride_id driver_id

module _ ⦃pf : Platform⦄ (cfg : MatchingConfig) where
  -- 100 * earnings = fare * (100 - commission), rounded.
  abbrev pub estimated_earnings : ℕ → ℕ
  estimated_earnings fare = (fare * (100 - cfg.commission_percent) + 50) / 100

  unfoldable pub send_offer : ℕ → ℕ → ℕ → Action (Unit {0})
  send_offer ride_id driver_id fare =
      redis_call (λ now s.
        (tt, pf.set now (RedisKey.offer ride_id driver_id) (pos driver_id) cfg.offer_ttl_seconds s))
      >> publish (BusEvent.offer_sent ride_id driver_id fare (estimated_earnings fare))

  unfoldable pub dispatch_hedged : ℕ → List Driver → ℕ → Action (Unit {0})
  dispatch_hedged ride_id [] fare = pure tt
  dispatch_hedged ride_id (d ∷ ds) fare =
      send_offer ride_id d.user_id fare >> dispatch_hedged ride_id ds fare

  abbrev unless_claimed : Option ℤ → Action (Unit {0}) → Action (Unit {0})
  unless_claimed none k = k
  unless_claimed (some v) k = pure tt

  -- `others n` is what the rest of the system does in the window of the driver that n more follow.
  unfoldable pub dispatch_sequential : (ℕ → World → World) → ℕ → List Driver → ℕ → Action (Unit {0})
  dispatch_sequential others ride_id [] fare = pure tt
  dispatch_sequential others ride_id (d ∷ ds) fare =
      send_offer ride_id d.user_id fare
      >> modify (others (length ds))
      >> redis_call (λ now s. (pf.get now (RedisKey.claim ride_id) s, s))
      >>= λ claim. unless_claimed claim (dispatch_sequential others ride_id ds fare)

  -- `polls` is what the rest of the system does in each pause of half a second before the deadline.
  unfoldable pub wait_for_claim : ℕ → List (World → World) → Action (Option ℕ)
  wait_for_claim ride_id [] = pure none
  wait_for_claim ride_id (others ∷ polls) =
      redis_call (λ now s. (pf.get now (RedisKey.claim ride_id) s, s)) >>= λ claim. elim claim [
        | some v ↦ pure (some (pos_part v))
        | none ↦ modify others >> wait_for_claim ride_id polls
      ]

  unfoldable pub offer_to :
      (ℕ → World → World) → List (World → World) → Ride → List Driver → Action (Unit {0})
  offer_to others polls ride [] = handle_no_drivers ride.id
  offer_to others polls ride (d ∷ ds) =
      let top = top_candidates cfg (d ∷ ds) in
      (if cfg.hedged
        then dispatch_hedged ride.id top ride.estimated_fare
        else dispatch_sequential others ride.id top ride.estimated_fare)
      >> (wait_for_claim ride.id polls >>= λ claim. conclude ride.id claim)

  unfoldable pub dispatch_offers :
      (ℕ → World → World) → List (World → World) → Ride → Action (Unit {0})
  dispatch_offers others polls ride =
      find_matchable_drivers ride.pickup_lon ride.pickup_lat cfg.radius_m ride.ride_type 10
      >>= λ candidates. offer_to others polls ride candidates

  unfoldable pub match_ride : (ℕ → World → World) → List (World → World) → ℕ → Action (Unit {0})
  match_ride others polls ride_id = get_ride ride_id >>= λ ride.
      if same_status ride.status RideStatus.requested
      then dispatch_offers others polls ride
      else pure tt
