-- ===== src/Rides/Request.antt =====
-- requestRide of src/modules/rides/services/rides.service.ts. The fare config, the quote and the fraud
-- guards run together, each to its end; where several of them reject, the model takes the first in the
-- order of the source. A zero surge multiplier does not occur in a quote.
use Prim.Native.String.{String}
use obbian_ribe_booking_app.Base.{ℕ, ◌+◌, ◌/◌, Option, none, some, List, [], ◌∷◌, find, ℤ}
use obbian_ribe_booking_app.Platform.{Platform}
use obbian_ribe_booking_app.World.{Action, ◌>>=◌, ◌>>◌, pure, ignore_error, Outcome, ok, err}
use obbian_ribe_booking_app.Schema.{Ride, RideType, FareConfig, same_ride_type}
use obbian_ribe_booking_app.Pricing.Fare.{get_config, calculate_fare, promo_discount}
use obbian_ribe_booking_app.Pricing.Surge.{SurgeConfig, record_demand}
use obbian_ribe_booking_app.Pricing.Quote.{RouteInfo, QuoteOption, QuoteResult, get_quote}
use obbian_ribe_booking_app.Promos.Service.{redeem, release}
use obbian_ribe_booking_app.Rides.Service.{RequestRideInput, create_ride}
use obbian_ribe_booking_app.Rides.Fraud.{FraudConfig, Finish, guard_ride_request}

-- The body of a request, with the rider that makes it.
pub record RideRequest : Type 0 where
  pub rider_id : ℕ
  pub pickup_lat : ℤ
  pub pickup_lon : ℤ
  pub dropoff_lat : ℤ
  pub dropoff_lon : ℤ
  pub ride_type : RideType
  pub city : Option String
  pub promo_code : Option (List ℕ)

pub record RequestResult : Type 0 where
  pub ride : Ride
  pub surge_multiplier : ℕ
  pub promo_discount : ℕ
  pub estimated_seconds : ℕ

abbrev city_of : Option String → String
city_of none = "Delhi"
city_of (some c) = c

abbrev option_fare : Option QuoteOption → ℕ → ℕ
option_fare none fare = fare
option_fare (some o) fare = o.fare

-- The price that the rider was shown: the fare of the option, or else the fare of the config.
unfoldable pub locked_fare : RideType → QuoteResult → FareConfig → ℕ
locked_fare ride_type quote config =
    option_fare (find (λ o. same_ride_type o.ride_type ride_type) quote.options)
      (calculate_fare config quote.route.metres quote.route.seconds)

-- The input of createRide: kilometres in hundredths, minutes rounded.
unfoldable pub ride_input : RideRequest → String → QuoteResult → ℕ → ℕ → RequestRideInput
ride_input request city quote fare discount = record {
  rider_id = request.rider_id;
  pickup_lat = request.pickup_lat;
  pickup_lon = request.pickup_lon;
  dropoff_lat = request.dropoff_lat;
  dropoff_lon = request.dropoff_lon;
  ride_type = request.ride_type;
  city = city;
  estimated_fare = fare;
  distance_km = (quote.route.metres + 5) / 10;
  duration_min = (quote.route.seconds + 30) / 60;
  surge_multiplier = quote.surge_multiplier;
  promo_code = request.promo_code;
  promo_discount = discount;
}

module _ ⦃pf : Platform⦄ where
  -- Promise.all: all three run, and the first rejection is thrown.
  unfoldable pub all_of : {A B : Type 0} → Action A → Action B → Action (Unit {0}) → Action (A × B)
  all_of a b c w = let (x, w1) = a w in let (y, w2) = b w1 in let (z, w3) = c w2 in (both x y z, w3)
    where
      both : {A B : Type 0} → Outcome A → Outcome B → Outcome (Unit {0}) → Outcome (A × B)
      both (ok x) (ok y) (ok z) = ok (x, y)
      both (err e) y z = err e
      both (ok x) (err e) z = err e
      both (ok x) (ok y) (err e) = err e

  -- The discount of the promo code, of which one use is claimed. An empty code is none.
  unfoldable pub claim_discount : Option (List ℕ) → ℕ → ℕ → Action ℕ
  claim_discount none rider_id fare = pure 0
  claim_discount (some []) rider_id fare = pure 0
  claim_discount (some (c ∷ code)) rider_id fare = redeem (c ∷ code) rider_id >>= λ terms.
      pure (promo_discount fare terms.discount_percent terms.max_discount)

  abbrev give_back : Option (List ℕ) → ℕ → Action (Unit {0})
  give_back none rider_id = pure tt
  give_back (some []) rider_id = pure tt
  give_back (some (c ∷ code)) rider_id = release (c ∷ code) rider_id

  abbrev released : Outcome Ride → RequestRideInput → Action Ride
  released (ok ride) input w = (ok ride, w)
  released (err e) input w = (err e, (give_back input.promo_code input.rider_id w).1)

  -- A ride that cannot be created gives the use of the promo back.
  unfoldable pub create_or_release : RequestRideInput → Action Ride
  create_or_release input w = released (create_ride input w).0 input (create_ride input w).1

module _ ⦃pf : Platform⦄ (surge : SurgeConfig) where
  -- What follows the config and the quote.
  unfoldable pub book : RideRequest → String → FareConfig → QuoteResult → Action RequestResult
  book request city config quote =
      let fare = locked_fare request.ride_type quote config in
      claim_discount request.promo_code request.rider_id fare >>= λ discount.
      create_or_release (ride_input request city quote fare discount) >>= λ ride.
      ignore_error (record_demand surge city request.pickup_lat request.pickup_lon)
      >> pure (record {
        ride = ride;
        surge_multiplier = ride.surge_multiplier;
        promo_discount = discount;
        estimated_seconds = quote.route.seconds;
      })

module _ ⦃pf : Platform⦄ (surge : SurgeConfig) (fraud : FraudConfig)
    (get_route : ℤ → ℤ → ℤ → ℤ → Action RouteInfo) (finish : Finish) where
  unfoldable pub request_ride : RideRequest → Action RequestResult
  request_ride request =
      let city = city_of request.city in
      all_of (get_config city request.ride_type)
        (get_quote surge get_route request.pickup_lat request.pickup_lon request.dropoff_lat
          request.dropoff_lon city (request.ride_type ∷ []))
        (guard_ride_request fraud finish request.rider_id request.pickup_lat request.pickup_lon
          city)
      >>= λ found. book surge request city found.0 found.1
