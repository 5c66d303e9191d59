-- ===== src/Matching/Late.antt =====
-- A driver who accepts a ride that has been given to another.
use obbian_ribe_booking_app.Base.{
  ap, ◌∙◌, ℕ, ◌≡◌, refl, ◌==◌, Bool, true, false, none, some, ℤ, find, arith,
}
use obbian_ribe_booking_app.Platform.{Platform, RedisKey}
use obbian_ribe_booking_app.World.{World, ◌>>=◌, ok}
use obbian_ribe_booking_app.Schema.{Ride}
use obbian_ribe_booking_app.Rides.Service.{get_ride}
use obbian_ribe_booking_app.Rides.Lifecycle.History.{ride_row}
use obbian_ribe_booking_app.Matching.Service.{
  claim_ride, finalize_match, is_matching, handle_driver_response, after_claim, withdraw_offer,
}
use obbian_ribe_booking_app.Matching.Claim.{claim_of, claim_ride-free}

module _ ⦃pf : Platform⦄ (ride_id : ℕ) where
  -- A ride that is neither REQUESTED nor MATCHING is not touched by a final match.
  finalize_match_late :
      (driver_id : ℕ) (w : World) (r : Ride)
      → ride_row w ride_id ≡ some r
      → is_matching r.status ≡ false
      → finalize_match ride_id driver_id w ≡ (ok tt, w)
  unfolding finalize_match get_ride
  finalize_match_late driver_id w r e late = rw (e, late) refl

  handle_driver_response-eq :
      (driver_id : ℕ) (w : World) {offer : ℤ}
      → w.redis_up ≡ true
      → pf.get w.now (RedisKey.offer ride_id driver_id) w.redis ≡ some offer
      → handle_driver_response ride_id driver_id true w
        ≡ (claim_ride ride_id driver_id >>= λ claimed. after_claim ride_id driver_id claimed) w
  unfolding handle_driver_response
  handle_driver_response-eq driver_id w up offered = ground arith

  withdraw_offer-leaves :
      (driver_id : ℕ) (accepted : Bool) (w : World)
      → w.redis_up ≡ true
      → let (result, w') = withdraw_offer ride_id driver_id accepted w in
        (result ≡ ok tt) × (w'.rides ≡ w.rides) × (w'.drivers ≡ w.drivers)
  unfolding withdraw_offer
  withdraw_offer-leaves driver_id accepted w up = ground arith

  after_claim_late :
      (driver_id : ℕ) (w : World) (r : Ride)
      → w.redis_up ≡ true
      → ride_row w ride_id ≡ some r
      → is_matching r.status ≡ false
      → let (result, w') = after_claim ride_id driver_id true w in
        (result ≡ ok true) × (w'.rides ≡ w.rides) × (w'.drivers ≡ w.drivers)
  unfolding after_claim
  after_claim_late driver_id w r up e late =
      let (withdrawn, rides, drivers) = withdraw_offer-leaves driver_id true w up in
      rw
        (
          withdrawn,
          finalize_match_late driver_id (withdraw_offer ride_id driver_id true w).1 r
              (ap (λ t. find (λ r'. r'.id == ride_id) (pf.rows t)) rides ∙ e) late,
        )
        (refl, rides, drivers)

  -- With Redis up, a driver whose offer still stands, and who accepts when the ride has been given
  -- to another and the claim is off, is told that the ride is theirs, although no ride and no
  -- driver changes.
  pub handle_driver_response_late :
      (driver_id : ℕ) (w : World) (r : Ride) {offer : ℤ}
      → w.redis_up ≡ true
      → ride_row w ride_id ≡ some r
      → is_matching r.status ≡ false
      → claim_of ride_id w ≡ none
      → pf.get w.now (RedisKey.offer ride_id driver_id) w.redis ≡ some offer
      → let (result, w') = handle_driver_response ride_id driver_id true w in
        (result ≡ ok true) × (w'.rides ≡ w.rides) × (w'.drivers ≡ w.drivers)
  handle_driver_response_late driver_id w r up e late free offered =
      rw
        (
          handle_driver_response-eq driver_id w up offered,
          claim_ride-free ride_id driver_id w up free,
        )
        (after_claim_late driver_id _ r up e late)
