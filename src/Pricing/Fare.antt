-- ===== src/Pricing/Fare.antt =====
-- Fares of src/modules/pricing/services/pricing.service.ts. Distances are metres, durations seconds,
-- rates and fares paise, multipliers hundredths; the arithmetic on them is that of doubles. Math.round
-- rounds to the nearest number, a half up.
use Prim.Native.String.{String}
use text.Mathlib.Text.{◌==◌ as same_text}
use obbian_ribe_booking_app.Base.{ℕ, ◌*◌, max, ◌&&◌}
use obbian_ribe_booking_app.Base.Double.{Double, double, add, mul, div, round}
use obbian_ribe_booking_app.Platform.{Platform}
use obbian_ribe_booking_app.World.{Action, ◌>>=◌, select_one, or_throw, Failure}
use obbian_ribe_booking_app.Schema.{FareConfig, RideType, same_ride_type}

-- An amount or a multiplier, as a double.
abbrev hundredths : ℕ → Double
hundredths n = double n 100

-- Math.round(fare * 2) / 2, in paise.
abbrev to_half_rupees : Double → ℕ
to_half_rupees fare = 50 * round (2 * fare)

-- The fare before rounding.
unfoldable pub surged_fare : FareConfig → ℕ → ℕ → Double
surged_fare c metres seconds =
    let km = double metres 1000 in
    let minutes = double seconds 60 in
    let raw =
      add (add (hundredths c.base_fare) (mul (hundredths c.per_km_rate) km))
        (mul (hundredths c.per_minute_rate) minutes) in
    mul (max raw (hundredths c.minimum_fare)) (hundredths c.surge_multiplier)

unfoldable pub calculate_fare : FareConfig → ℕ → ℕ → ℕ
calculate_fare c metres seconds = to_half_rupees (surged_fare c metres seconds)

unfoldable pub apply_surge : ℕ → ℕ → ℕ
apply_surge fare multiplier = to_half_rupees (mul (hundredths fare) (hundredths multiplier))

-- The discount of a promo on a fare: Math.min(Math.round(fare * percent / 100 * 2) / 2, maxDiscount).
unfoldable pub promo_discount : ℕ → ℕ → ℕ → ℕ
promo_discount fare percent max_discount =
    Prim.Native.Nat.min
      (to_half_rupees (div (mul (hundredths fare) (hundredths percent)) (double 100 1)))
      max_discount

module _ ⦃pf : Platform⦄ where
  unfoldable pub get_config : String → RideType → Action FareConfig
  get_config city ride_type = do
    config ←
        select_one (λ w. w.fare_configs)
          (λ c. same_text c.city city && (same_ride_type c.ride_type ride_type && c.is_active))
    or_throw config Failure.not_found
