-- ===== src/Ratings/Laws.antt =====
-- What the aggregate of the ratings of a user says (src/modules/ratings/services/ratings.service.ts).
use native.Mathlib.Nat.{mul-le-mul, le_refl, le-div_iff_mul-le, div-lt_iff_lt-mul}
use obbian_ribe_booking_app.Base.{
  ℕ, ◌+◌, ◌*◌, ◌≤◌, ◌<◌, ◌≡◌, refl, ◌==◌, false, some, List, [], ◌∷◌, length, select, sum_by,
  if◌then◌else◌, arith,
}
use obbian_ribe_booking_app.Platform.{Platform}
use obbian_ribe_booking_app.World.{World, ok}
use obbian_ribe_booking_app.Schema.{Driver}
use obbian_ribe_booking_app.Drivers.Service.Laws.{driver_row, driver_row-update_drivers}
use obbian_ribe_booking_app.Ratings.Service.{
  RatedRole, total_of, scaled_average, count_of, aggregate_of, driver_rating_patch, ratings_of,
  store_rating, get_aggregate,
}

-- Every rating is between one and five stars.
unfoldable pub AreStars : List ℕ → Type 0
AreStars [] = Unit
AreStars (r ∷ rs) = (1 ≤ r) × (r ≤ 5) × AreStars rs

total_of_bounds :
    (ratings : List ℕ)
    → AreStars ratings
    → (length ratings ≤ total_of ratings) × (total_of ratings ≤ 5 * length ratings)
unfolding AreStars total_of
total_of_bounds [] stars = (omega arith, omega arith)
total_of_bounds (r ∷ rs) (low, high, stars) =
    let (more, less) = total_of_bounds rs stars in (omega arith, omega arith)

one_of : (r star : ℕ) → ℕ
one_of r star = if r == star then 1 else 0

count_of_cons :
    (r star : ℕ) (rs : List ℕ) → count_of (r ∷ rs) star ≡ one_of r star + count_of rs star
unfolding count_of select one_of
count_of_cons r star rs = ground arith

one_star :
    (r : ℕ) → 1 ≤ r → r ≤ 5 → one_of r 1 + one_of r 2 + one_of r 3 + one_of r 4 + one_of r 5 ≡ 1
unfolding one_of
one_star r low high = ground arith

none_counted : count_of [] 1 + count_of [] 2 + count_of [] 3 + count_of [] 4 + count_of [] 5 ≡ 0
unfolding count_of select
none_counted = omega arith

counts :
    (ratings : List ℕ)
    → AreStars ratings
    → count_of ratings 1
        + count_of ratings 2
        + count_of ratings 3
        + count_of ratings 4
        + count_of ratings 5
      ≡ length ratings
unfolding AreStars
counts [] stars = none_counted
counts (r ∷ rs) (low, high, stars) = omega (
  arith,
  counts rs stars,
  one_star r low high,
  count_of_cons r 1 rs,
  count_of_cons r 2 rs,
  count_of_cons r 3 rs,
  count_of_cons r 4 rs,
  count_of_cons r 5 rs,
)

counted : (n : ℕ) → 0 < n → n == 0 ≡ false
counted n h = ground arith

scaled_average_bounds :
    (scale : ℕ) (ratings : List ℕ)
    → AreStars ratings
    → 0 < length ratings
    → (scale ≤ scaled_average scale ratings) × (scaled_average scale ratings ≤ 5 * scale)
unfolding scaled_average
scaled_average_bounds scale ratings stars some_rating =
    let (more, less) = total_of_bounds ratings stars in
    let low = mul-le-mul (le_refl scale) more in
    let high = mul-le-mul (le_refl scale) less in
    rw (counted (length ratings) some_rating) (
      (le-div_iff_mul-le {k = 2 * length ratings} (omega arith)).1 (omega (arith, low)),
      omega (
        arith,
        (div-lt_iff_lt-mul {k = 2 * length ratings}
              {x = 2 * (scale * total_of ratings) + length ratings} {y = 5 * scale + 1}
              (omega arith)).1
            (omega (arith, high)),
      ),
    )

module _ ⦃pf : Platform⦄ where
  store_rating-driver :
      (user_id : ℕ) (ratings : List ℕ) (w : World) {d : Driver}
      → driver_row w user_id ≡ some d
      → ((store_rating user_id RatedRole.driver ratings w).0 ≡ ok tt)
        × (driver_row (store_rating user_id RatedRole.driver ratings w).1 user_id
            ≡ some (driver_rating_patch (scaled_average 100 ratings) w.now d))
  unfolding store_rating driver_rating_patch
  store_rating-driver user_id ratings w {d} found = rw found (
    refl,
    driver_row-update_drivers user_id (λ w. driver_rating_patch (scaled_average 100 ratings) w.now)
        w (λ d. refl) found,
  )

  -- If a driver has been rated and every rating is between one and five stars, the aggregate counts each
  -- rating once, its average is between one and five stars, and the driver's row has a rating between one and five stars.
  pub get_aggregate-driver :
      (user_id : ℕ) (w : World) (d : Driver)
      → driver_row w user_id ≡ some d
      → AreStars (ratings_of user_id RatedRole.driver w)
      → 0 < length (ratings_of user_id RatedRole.driver w)
      → let ratings = ratings_of user_id RatedRole.driver w in
        let (result, v) = get_aggregate user_id RatedRole.driver w in
        let a = aggregate_of ratings in
        (result ≡ ok a)
        × (driver_row v user_id ≡ some (driver_rating_patch (scaled_average 100 ratings) w.now d))
        × (sum_by (λ b. b.1) a.breakdown ≡ a.total_reviews)
        × (10 ≤ a.average_rating)
        × (a.average_rating ≤ 50)
        × (100 ≤ scaled_average 100 ratings)
        × (scaled_average 100 ratings ≤ 500)
  unfolding get_aggregate aggregate_of
  get_aggregate-driver user_id w d found stars rated =
      let ratings = ratings_of user_id RatedRole.driver w in
      let (stored, row) = store_rating-driver user_id ratings w found in
      let (low, high) = scaled_average_bounds 10 ratings stars rated in
      let (least, most) = scaled_average_bounds 100 ratings stars rated in
      (rw stored refl, rw stored row, omega (arith, counts ratings stars), low, high, least, most)

  -- A driver whom nobody has rated loses the rating of the row: it becomes 0.
  pub get_aggregate-unrated :
      (user_id : ℕ) (w : World) (d : Driver)
      → driver_row w user_id ≡ some d
      → ratings_of user_id RatedRole.driver w ≡ []
      → driver_row (get_aggregate user_id RatedRole.driver w).1 user_id
        ≡ some (driver_rating_patch 0 w.now d)
  unfolding get_aggregate scaled_average
  get_aggregate-unrated user_id w d found unrated =
      let (stored, row) = store_rating-driver user_id [] w found in rw (unrated, stored) row
