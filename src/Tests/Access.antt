-- ===== src/Tests/Access.antt =====
-- The guards, the interceptor, ratings, registration and profiles at concrete inputs.
use Prim.Native.String.{String}
use obbian_ribe_booking_app.Base.{
  ◌≡◌, ◌<◌, refl, true, Option, none, some, [], ◌∷◌, find, select, pos, length, arith,
}
use obbian_ribe_booking_app.World.{World, Action, ok, pure, wait_until}
use obbian_ribe_booking_app.Schema.{RideStatus, UserRole, DriverStatus}
use obbian_ribe_booking_app.Rides.Service.{get_ride}
use obbian_ribe_booking_app.Drivers.Service.Laws.{driver_row}
use obbian_ribe_booking_app.Users.Service.{
  by_creation, SavedLocationInput, list_saved_locations, save_location,
}
use obbian_ribe_booking_app.Users.Laws.{AreBefore, list_saved_locations-save_location}
use obbian_ribe_booking_app.Ratings.Service.{
  RatedRole, ratings_of, given, get_aggregate, aggregate_of,
}
use obbian_ribe_booking_app.Ratings.Laws.{AreStars, get_aggregate-driver}
use obbian_ribe_booking_app.Auth.Token.{JwtPayload}
use obbian_ribe_booking_app.Http.Idempotency.{KeyedRequest, intercept, intercept_replays}
use obbian_ribe_booking_app.Http.Guards.{
  RideParam, Admitted, guarded, guarded_lem, jwt_auth_guard, roles_guard, ride_participant_guard,
  check_participant, bearer_token, is_participant,
}
use obbian_ribe_booking_app.Tests.Memory.{memory}
use obbian_ribe_booking_app.Tests.Ride.{one_ride, a_ride, a_driver}
use obbian_ribe_booking_app.Tests.Auth.{one_user}

abbrev rated : World
rated = record (one_ride RideStatus.completed) {
  rides = record (a_ride RideStatus.completed) { rider_rating = some 4 } ∷ [];
}

rated_row : driver_row rated 7 ≡ some (a_driver DriverStatus.on_ride)
unfolding find
rated_row = refl

stars : AreStars (ratings_of 7 RatedRole.driver rated)
unfolding AreStars ratings_of given select
stars = (omega arith, omega arith, tt)

rated_once : 0 < length (ratings_of 7 RatedRole.driver rated)
unfolding ratings_of given select
rated_once = omega arith

get_aggregate-driver_example :
    (get_aggregate 7 RatedRole.driver rated).0
    ≡ ok (aggregate_of (ratings_of 7 RatedRole.driver rated))
get_aggregate-driver_example =
    (get_aggregate-driver 7 rated (a_driver DriverStatus.on_ride) rated_row stars rated_once).0

abbrev request : KeyedRequest
request = record { method = "POST"; original_url = "/rides/request"; idempotency_key = some "k" }

abbrev handler : Action String
handler = pure "{}"

intercept_replays_example :
    intercept request (pure "other") (wait_until 300000 (intercept request handler one_user).1)
    ≡ (ok "{}", wait_until 300000 (intercept request handler one_user).1)
intercept_replays_example =
    (intercept_replays request "k" "{}" handler (pure "other") one_user one_user 300000 refl refl
      refl refl refl refl (omega arith) (omega arith)).1

abbrev verify : World → String → Option JwtPayload
verify w token = some (record { sub = 7; role = UserRole.driver; phone = "+917" })

lets_in :
    (guarded verify (some "Bearer x") (RideParam.ride_id 10) (one_ride RideStatus.accepted)).0
    ≡ ok true
unfolding guarded jwt_auth_guard roles_guard ride_participant_guard check_participant bearer_token
    is_participant get_ride find
lets_in = refl

guarded_lem_example :
    Admitted verify (some "Bearer x") (RideParam.ride_id 10) (one_ride RideStatus.accepted)
guarded_lem_example =
    (guarded_lem verify (some "Bearer x") (RideParam.ride_id 10) (one_ride RideStatus.accepted)).0
      lets_in

abbrev input : SavedLocationInput
input = record { label = "HOME"; lat = pos 1; lon = pos 2; address = none }

none_before : AreBefore 200000 []
unfolding AreBefore
none_before = tt

nothing_listed : (list_saved_locations 1 one_user).0 ≡ ok []
unfolding list_saved_locations by_creation select
nothing_listed = refl

list_saved_locations-save_location_example :
    (list_saved_locations 1 (save_location 1 input one_user).1).0
    ≡ ok (
        record {
          id = one_user.next_id;
          user_id = 1;
          label = "HOME";
          lat = pos 1;
          lon = pos 2;
          address = none;
          created_at = 200000;
        }
        ∷ [])
list_saved_locations-save_location_example =
    (list_saved_locations-save_location 1 input one_user [] none_before nothing_listed).0
