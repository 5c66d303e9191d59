-- ===== src/Tests/Pricing.antt =====
-- Fares, surge multipliers and a quote, at concrete inputs.
use obbian_ribe_booking_app.Base.{◌≡◌, refl, true, false, Bool, pos, [], ◌∷◌, ℤ, length, select}
use obbian_ribe_booking_app.Pricing.Fare.{calculate_fare, surged_fare}
use obbian_ribe_booking_app.Pricing.Surge.{SurgeConfig, multiplier_at}
use obbian_ribe_booking_app.Base.Double.{double, nearest, add, sub, mul, div, round, ceil}
use obbian_ribe_booking_app.Base.Sort.{IsSorted}
use obbian_ribe_booking_app.Pricing.Quote.{RouteInfo, QuoteOption, QuoteResult, get_quote, is_empty}
use obbian_ribe_booking_app.Pricing.Quote.Laws.{cheaper_option, offer, configs_for, get_quote_lem}
use obbian_ribe_booking_app.World.{World, Action, pure, ok}
use obbian_ribe_booking_app.Schema.{RideStatus, RideType}
use obbian_ribe_booking_app.Tests.Memory.{memory}
use obbian_ribe_booking_app.Tests.Ride.{a_config, one_ride}

abbrev pub surge : SurgeConfig
surge = record {
  enabled = true;
  max_multiplier = 250;
  window_minutes = 10;
  demand_threshold = 120;
  multiplier_step = 10;
  cache_ttl_seconds = 60;
}

-- 9 requests for 5 drivers, above a threshold of 1.5 in steps of 0.1: 0.30000000000000004 takes four.
multiplier_at_double_test : multiplier_at (record surge { demand_threshold = 150 }) 9 5 ≡ 140
unfolding multiplier_at double add sub mul div round ceil nearest
multiplier_at_double_test = refl

-- An exact fare of 194.25 is a little less in doubles.
calculate_fare_test :
    calculate_fare
      (record a_config {
        base_fare = 5000;
        per_km_rate = 1400;
        per_minute_rate = 150;
        surge_multiplier = 125;
      })
      2675
      2718
    ≡ 19400
unfolding calculate_fare surged_fare double add mul round nearest
calculate_fare_test = refl

multiplier_at_test : multiplier_at surge 7 4 ≡ 160
unfolding multiplier_at double add sub mul div round ceil nearest
multiplier_at_test = refl

-- The second config is the cheaper one, and the third is for another city.
abbrev two_fares : World
two_fares = record (one_ride RideStatus.requested) {
  fare_configs =
      a_config
      ∷ record a_config { id = 2; ride_type = RideType.auto; base_fare = 3000 }
      ∷ record a_config { id = 3; city = "Pune" }
      ∷ [];
}

abbrev the_route : RouteInfo
the_route = record { metres = 5321; seconds = 1234 }

abbrev route_to : ℤ → ℤ → ℤ → ℤ → Action RouteInfo
route_to p_lat p_lon d_lat d_lon = pure the_route

some_fare : is_empty (configs_for "Delhi" [] two_fares) ≡ false
unfolding configs_for select
some_fare = refl

get_quote_lem_example :
    (q : QuoteResult) × ((get_quote surge route_to
        (pos 0)
        (pos 0)
        (pos 7)
        (pos 7)
        "Delhi"
        []
        two_fares).0
      ≡ ok q)
    × IsSorted cheaper_option q.options
    × ((p : QuoteOption → Bool)
        → length (select p q.options)
          ≡ length (
              select
                (λ c. p (offer q.surge_multiplier the_route c))
                (configs_for "Delhi" [] two_fares)))
get_quote_lem_example =
    get_quote_lem surge route_to (pos 0) (pos 0) (pos 7) (pos 7) "Delhi" [] the_route two_fares
      two_fares refl refl some_fare
