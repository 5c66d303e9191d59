-- ===== src/Pricing/Quote.antt =====
-- PricingService.getQuote. The route comes from MapsService.getRoute, an argument here.
pub mod Laws
use Prim.Native.String.{String}
use text.Mathlib.Text.{◌==◌ as same_text}
use mathlib.Core.Option
use obbian_ribe_booking_app.Base.{
  ℕ, ◌+◌, ◌*◌, ◌/◌, max, Bool, true, false, ◌&&◌, ◌||◌, List, [], ◌∷◌, map, ltb, leb, if◌then◌else◌,
  select, ℤ, Option, none, some,
}
use obbian_ribe_booking_app.Base.Double.{double, mul, round}
use obbian_ribe_booking_app.Base.Sort.{sort_by}
use obbian_ribe_booking_app.Platform.{Platform}
use obbian_ribe_booking_app.World.{Action, ◌>>=◌, ◌>>◌, pure, gets, throw_if, Failure}
use obbian_ribe_booking_app.Schema.{FareConfig, RideType, same_ride_type}
use obbian_ribe_booking_app.Pricing.Fare.{calculate_fare, apply_surge}
use obbian_ribe_booking_app.Pricing.Surge.{SurgeConfig, get_multiplier}

-- In metres and seconds.
pub record RouteInfo : Type 0 where
  pub metres : ℕ
  pub seconds : ℕ

pub record QuoteOption : Type 0 where
  pub ride_type : RideType
  pub fare : ℕ
  pub eta_minutes : ℕ
  pub surge_multiplier : ℕ
  pub base_fare : ℕ

pub record QuoteResult : Type 0 where
  pub options : List QuoteOption
  pub route : RouteInfo
  pub city : String
  pub surge_multiplier : ℕ

-- The factor of a ride type, in hundredths.
eta_factor : RideType → ℕ
eta_factor RideType.cabx_saver = 90
eta_factor RideType.cabx = 90
eta_factor RideType.cabxl = 95
eta_factor RideType.comfort = 95
eta_factor RideType.auto = 110
eta_factor RideType.two_wheeler = 100

-- Math.max(1, Math.round(minutes * factor)), of a duration in seconds.
unfoldable pub estimate_eta : ℕ → RideType → ℕ
unfolding eta_factor
estimate_eta seconds ride_type =
    max 1 (round (mul (double seconds 60) (double (eta_factor ride_type) 100)))

abbrev pub cheaper : FareConfig → FareConfig → Bool
cheaper c d = ltb c.base_fare d.base_fare

-- The stable sort by base fare.
unfoldable pub sort_configs : List FareConfig → List FareConfig
sort_configs configs = sort_by cheaper configs

abbrev includes_type : List RideType → RideType → Bool
includes_type [] t = false
includes_type (x ∷ xs) t = same_ride_type x t || includes_type xs t

-- No filter where the caller names no types.
abbrev pub wanted : List RideType → RideType → Bool
wanted [] t = true
wanted (x ∷ xs) t = includes_type (x ∷ xs) t

abbrev pub is_empty : List FareConfig → Bool
is_empty [] = true
is_empty (x ∷ xs) = false

unfoldable pub option_of : RouteInfo → FareConfig → QuoteOption
option_of route c = record {
  ride_type = c.ride_type;
  fare = calculate_fare c route.metres route.seconds;
  eta_minutes = estimate_eta route.seconds c.ride_type;
  surge_multiplier = c.surge_multiplier;
  base_fare = c.base_fare;
}

unfoldable pub surge_option : ℕ → QuoteOption → QuoteOption
surge_option multiplier o =
    if ltb 100 multiplier
    then record o { fare = apply_surge o.fare multiplier; surge_multiplier = multiplier }
    else o

module _ ⦃pf : Platform⦄ (cfg : SurgeConfig) (get_route : ℤ → ℤ → ℤ → ℤ → Action RouteInfo) where
  unfoldable pub get_quote : ℤ → ℤ → ℤ → ℤ → String → List RideType → Action QuoteResult
  get_quote pickup_lat pickup_lon dropoff_lat dropoff_lon city types = do
    route ← get_route pickup_lat pickup_lon dropoff_lat dropoff_lon
    all_configs ←
        gets (λ w. select (λ c. same_text c.city city && c.is_active) (pf.rows w.fare_configs))
    let configs = select (λ c. wanted types c.ride_type) all_configs
    throw_if (is_empty configs) Failure.not_found
    multiplier ← get_multiplier cfg city pickup_lat pickup_lon
    pure (record {
      options = map (surge_option multiplier) (map (option_of route) (sort_configs configs));
      route = route;
      city = city;
      surge_multiplier = multiplier;
    })

  abbrev only : Option RideType → List RideType
  only none = []
  only (some t) = t ∷ []

  -- The quote of the controller of src/modules/pricing, for Delhi and all ride types if the request does
  -- not say otherwise.
  unfoldable pub quote : ℤ → ℤ → ℤ → ℤ → Option String → Option RideType → Action QuoteResult
  quote pickup_lat pickup_lon dropoff_lat dropoff_lon city ride_type =
      get_quote pickup_lat pickup_lon dropoff_lat dropoff_lon (Option.get_or city "Delhi")
        (only ride_type)
