-- ===== src/Tests/Match.antt =====
-- Drivers 7 and 8 and the ride 10.
use obbian_ribe_booking_app.Base.{◌≡◌, refl, true, false, none, some, [], ◌∷◌, pos}
use obbian_ribe_booking_app.Platform.{RedisKey, same_key}
use obbian_ribe_booking_app.World.{World, ok}
use obbian_ribe_booking_app.Schema.{DriverStatus, RideStatus, same_status}
use obbian_ribe_booking_app.Matching.Service.{finalize_match, handle_driver_response, is_matching}
use obbian_ribe_booking_app.Matching.Assignment.{finalize_match_lem}
use obbian_ribe_booking_app.Matching.Late.{handle_driver_response_late}
use obbian_ribe_booking_app.Tests.Memory.{memory, set, empty_server}
use obbian_ribe_booking_app.Tests.Ride.{a_ride, a_driver, one_ride, ride_at, driver_of}

-- Driver 7 is in the geo index with a heartbeat, and driver 8 has an offer.
abbrev offered : RideStatus → World
offered status = record (one_ride status) {
  redis =
      set 200000 (RedisKey.offer 10 8) (pos 8) 30
        (set 200000 (RedisKey.heartbeat 7) (pos 1) 90 (record empty_server { members = 7 ∷ [] }));
}

requested_is_matching : is_matching RideStatus.requested ≡ true
unfolding is_matching same_status
requested_is_matching = refl

finalize_match_lem_example : (finalize_match 10 7 (one_ride RideStatus.requested)).0 ≡ ok tt
finalize_match_lem_example =
    (finalize_match_lem 10 7 (one_ride RideStatus.requested) (a_ride RideStatus.requested)
      (a_driver DriverStatus.on_ride) refl (ride_at RideStatus.requested) requested_is_matching
      (driver_of RideStatus.requested)).0

accepted_is_over : is_matching RideStatus.accepted ≡ false
unfolding is_matching same_status
accepted_is_over = refl

still_offered :
    memory.get 200000 (RedisKey.offer 10 8) (offered RideStatus.accepted).redis ≡ some (pos 8)
unfolding same_key
still_offered = refl

no_claim : memory.get 200000 (RedisKey.claim 10) (offered RideStatus.accepted).redis ≡ none
unfolding same_key
no_claim = refl

handle_driver_response_late_example :
    (handle_driver_response 10 8 true (offered RideStatus.accepted)).0 ≡ ok true
handle_driver_response_late_example =
    (handle_driver_response_late 10 8 (offered RideStatus.accepted) (a_ride RideStatus.accepted)
      refl (ride_at RideStatus.accepted) accepted_is_over no_claim still_offered).0
