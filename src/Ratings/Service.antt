-- ===== src/Ratings/Service.antt =====
-- src/modules/ratings/services/ratings.service.ts: the ratings of a user, which stand on the rides. Averages
-- are rounded from the exact quotient, halves upwards.
use obbian_ribe_booking_app.Base.{
  ℕ, ◌+◌, ◌*◌, ◌/◌, ◌==◌, Bool, false, Option, none, some, List, [], ◌∷◌, length, map, select,
  if◌then◌else◌,
}
use obbian_ribe_booking_app.Platform.{Platform}
use obbian_ribe_booking_app.World.{
  World, Action, ◌>>=◌, ◌>>◌, pure, gets, select_one, or_throw, Failure,
}
use obbian_ribe_booking_app.Schema.{Driver}
use obbian_ribe_booking_app.Drivers.Service.{update_drivers}

pub data RatedRole : Type 0 where
  rider driver : RatedRole

-- The average in tenths, and for each number of stars how many reviews gave it.
pub record RatingAggregate : Type 0 where
  pub average_rating : ℕ
  pub total_reviews : ℕ
  pub breakdown : List (ℕ × ℕ)

unfoldable pub given : List (Option ℕ) → List ℕ
given [] = []
given (none ∷ rs) = given rs
given (some r ∷ rs) = r ∷ given rs

unfoldable pub total_of : List ℕ → ℕ
total_of [] = 0
total_of (r ∷ rs) = r + total_of rs

-- Math.round(average * scale), with average 0 if there is no rating.
unfoldable pub scaled_average : ℕ → List ℕ → ℕ
scaled_average scale ratings =
    if length ratings == 0
    then 0
    else (2 * (scale * total_of ratings) + length ratings) / (2 * length ratings)

unfoldable pub count_of : List ℕ → ℕ → ℕ
count_of ratings star = length (select (λ r. r == star) ratings)

unfoldable pub aggregate_of : List ℕ → RatingAggregate
aggregate_of ratings = record {
  average_rating = scaled_average 10 ratings;
  total_reviews = length ratings;
  breakdown = map (λ star. (star, count_of ratings star)) (1 ∷ 2 ∷ 3 ∷ 4 ∷ 5 ∷ []);
}

abbrev is_driver_of : ℕ → Option ℕ → Bool
is_driver_of user_id none = false
is_driver_of user_id (some d) = d == user_id

unfoldable pub driver_rating_patch : ℕ → ℕ → Driver → Driver
driver_rating_patch rating now d = record d { rating = rating; updated_at = now }

module _ ⦃pf : Platform⦄ where
  -- The ratings that a user has been given in the role.
  unfoldable pub ratings_of : ℕ → RatedRole → World → List ℕ
  ratings_of user_id RatedRole.rider w =
      given (map (λ r. r.driver_rating) (select (λ r. r.rider_id == user_id) (pf.rows w.rides)))
  ratings_of user_id RatedRole.driver w =
      given (
        map (λ r. r.rider_rating)
          (select (λ r. is_driver_of user_id r.driver_id) (pf.rows w.rides)))

  unfoldable pub store_rating : ℕ → RatedRole → List ℕ → Action (Unit {0})
  store_rating user_id RatedRole.rider ratings = pure tt
  store_rating user_id RatedRole.driver ratings = do
    row ← select_one (λ w. w.drivers) (λ d. d.user_id == user_id)
    _ ← or_throw row Failure.not_found
    update_drivers user_id (λ w. driver_rating_patch (scaled_average 100 ratings) w.now)

  unfoldable pub get_aggregate : ℕ → RatedRole → Action RatingAggregate
  get_aggregate user_id role = gets (ratings_of user_id role) >>= λ ratings.
      store_rating user_id role ratings >> pure (aggregate_of ratings)
