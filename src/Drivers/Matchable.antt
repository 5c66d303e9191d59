-- ===== src/Drivers/Matchable.antt =====
-- findMatchableDrivers of src/modules/drivers/services/drivers.service.ts, with findNearbyDriverIds and
-- filterFreshDrivers of src/common/redis/geo.service.ts.
use obbian_ribe_booking_app.Base.{
  ℕ, ap, ==_iff, ◌≡◌, refl, ◌∙◌, ◌==◌, Bool, true, false, ◌&&◌, is_some, List, [], ◌∷◌, ltb,
  if◌then◌else◌, select, ℤ, arith, Bool-cases, inl, inr,
}
use obbian_ribe_booking_app.Platform.{Platform, RedisKey}
use obbian_ribe_booking_app.World.{
  World, Action, ◌>>=◌, pure, gets, redis_call, Outcome, ok, err, Failure,
}
use obbian_ribe_booking_app.Schema.{
  Driver, DriverStatus, RideType, same_driver_status, same_ride_type,
}

abbrev pub includes_id : List ℕ → ℕ → Bool
includes_id [] i = false
includes_id (x ∷ xs) i = if x == i then true else includes_id xs i

abbrev insert_rated : Driver → List Driver → List Driver
insert_rated d [] = d ∷ []
insert_rated d (e ∷ es) =
    let rest = insert_rated d es in if ltb d.rating e.rating then e ∷ rest else d ∷ e ∷ es

-- ORDER BY rating DESC
unfoldable pub best_rated : List Driver → List Driver
best_rated [] = []
best_rated (d ∷ ds) = insert_rated d (best_rated ds)

abbrev all : (Driver → Bool) → List Driver → Bool
all p [] = true
all p (d ∷ ds) = p d && all p ds

-- Whether all the drivers that a search has found pass the test.
abbrev pub all_found : (Driver → Bool) → Outcome (List Driver) → Bool
all_found p (ok ds) = all p ds
all_found p (err e) = true

module _ ⦃pf : Platform⦄ where
  unfoldable pub find_nearby_driver_ids : ℤ → ℤ → ℕ → ℕ → Action (List ℕ)
  find_nearby_driver_ids lon lat radius_m limit =
      redis_call (λ now s. (pf.georadius lon lat radius_m limit s, s))

  abbrev pub is_fresh : ℕ → pf.Store → ℕ → Bool
  is_fresh now s driver_id = is_some (pf.get now (RedisKey.heartbeat driver_id) s)

  abbrev fresh : (ℕ → Bool) → List ℕ → List ℕ
  fresh p [] = []
  fresh p (i ∷ is) = let rest = fresh p is in if p i then i ∷ rest else rest

  unfoldable pub filter_fresh_drivers : List ℕ → Action (List ℕ)
  filter_fresh_drivers [] = pure []
  filter_fresh_drivers (i ∷ is) = redis_call (λ now s. (fresh (is_fresh now s) (i ∷ is), s))

  -- The drivers among the ids that can take a ride of the vehicle type.
  unfoldable pub select_matchable : List ℕ → RideType → Action (List Driver)
  select_matchable [] vehicle_type = pure []
  select_matchable (i ∷ is) vehicle_type = gets λ w. best_rated (
      select
        (λ d.
          includes_id (i ∷ is) d.user_id
          && (same_driver_status d.status DriverStatus.online
              && same_ride_type d.vehicle_type vehicle_type))
        (pf.rows w.drivers))

  unfoldable pub find_matchable_drivers : ℤ → ℤ → ℕ → RideType → ℕ → Action (List Driver)
  find_matchable_drivers lon lat radius_m vehicle_type limit =
      find_nearby_driver_ids lon lat radius_m limit >>= λ geo_ids.
      filter_fresh_drivers geo_ids >>= λ fresh_ids. select_matchable fresh_ids vehicle_type

  all-insert_rated :
      (p : Driver → Bool) (d : Driver) (ds : List Driver)
      → all p (insert_rated d ds) ≡ (p d && all p ds)
  all-insert_rated p d [] = refl
  all-insert_rated p d (e ∷ es) = ground (arith, all-insert_rated p d es)

  all-best_rated : (p : Driver → Bool) (ds : List Driver) → all p (best_rated ds) ≡ all p ds
  unfolding best_rated
  all-best_rated p [] = refl
  all-best_rated p (d ∷ ds) =
      ground (arith, all-insert_rated p d (best_rated ds), all-best_rated p ds)

  all-select :
      (p q : Driver → Bool) (ds : List Driver)
      → ((d : Driver) → q d ≡ true → p d ≡ true)
      → all p (select q ds) ≡ true
  unfolding select
  all-select p q [] h = refl
  all-select p q (d ∷ ds) h = ground (arith, h d, all-select p q ds h)

  includes_id-fresh :
      (p : ℕ → Bool) (is : List ℕ) (i : ℕ)
      → includes_id (fresh p is) i ≡ true
      → (includes_id is i && p i) ≡ true
  includes_id-fresh p [] i h = cc
  includes_id-fresh p (j ∷ js) i h = elim (Bool-cases (j == i)) [
    | inl same ↦ ground (arith, includes_id-fresh p js i, ap p ((==_iff j i).0 same))
    | inr other ↦ ground (arith, includes_id-fresh p js i)
  ]

  -- Near the place, with a heartbeat that has not expired, online, and with that type of vehicle.
  abbrev pub is_matchable : World → List ℕ → RideType → Driver → Bool
  is_matchable w nearby vehicle_type d =
      (includes_id nearby d.user_id && is_fresh w.now w.redis d.user_id)
      && (same_driver_status d.status DriverStatus.online
          && same_ride_type d.vehicle_type vehicle_type)

  select_matchable_lem :
      (ids nearby : List ℕ) (vehicle_type : RideType) (w : World)
      → ((i : ℕ)
          → includes_id ids i ≡ true
          → (includes_id nearby i && is_fresh w.now w.redis i) ≡ true)
      → all_found (is_matchable w nearby vehicle_type) (select_matchable ids vehicle_type w).0
        ≡ true
  unfolding select_matchable
  select_matchable_lem [] nearby vehicle_type w h = refl
  select_matchable_lem (i ∷ is) nearby vehicle_type w h =
      all-best_rated (is_matchable w nearby vehicle_type) _
      ∙ all-select (is_matchable w nearby vehicle_type) _ (pf.rows w.drivers)
          (λ d e. ground (arith, h d.user_id))

  fresh_lem :
      (nearby : List ℕ) (vehicle_type : RideType) (w : World)
      → all_found
          (is_matchable w nearby vehicle_type)
          ((filter_fresh_drivers nearby >>= λ ids. select_matchable ids vehicle_type) w).0
        ≡ true
  unfolding filter_fresh_drivers select_matchable
  fresh_lem [] vehicle_type w = refl
  fresh_lem (i ∷ is) vehicle_type w = elim (Bool-cases w.redis_up) [
    | inl up ↦ rw up (
        select_matchable_lem (fresh (is_fresh w.now w.redis) (i ∷ is)) (i ∷ is) vehicle_type _
          (includes_id-fresh (is_fresh w.now w.redis) (i ∷ is)))
    | inr down ↦ rw down refl
  ]

  find_nearby_driver_ids-up :
      (lon lat : ℤ) (radius_m limit : ℕ) (w : World)
      → w.redis_up ≡ true
      → find_nearby_driver_ids lon lat radius_m limit w
        ≡ (ok (pf.georadius lon lat radius_m limit w.redis), w)
  unfolding find_nearby_driver_ids
  find_nearby_driver_ids-up lon lat radius_m limit w up = ground arith

  find_nearby_driver_ids-down :
      (lon lat : ℤ) (radius_m limit : ℕ) (w : World)
      → w.redis_up ≡ false
      → find_nearby_driver_ids lon lat radius_m limit w ≡ (err Failure.internal, w)
  unfolding find_nearby_driver_ids
  find_nearby_driver_ids-down lon lat radius_m limit w down = ground arith

  -- Every driver that the search returns is near the place, still sends heartbeats, is online and has
  -- that type of vehicle.
  pub find_matchable_drivers_lem :
      (lon lat : ℤ) (radius_m : ℕ) (vehicle_type : RideType) (limit : ℕ) (w : World)
      → all_found
          (is_matchable w (pf.georadius lon lat radius_m limit w.redis) vehicle_type)
          (find_matchable_drivers lon lat radius_m vehicle_type limit w).0
        ≡ true
  unfolding find_matchable_drivers
  find_matchable_drivers_lem lon lat radius_m vehicle_type limit w = elim (Bool-cases w.redis_up) [
    | inl up ↦
        rw (find_nearby_driver_ids-up lon lat radius_m limit w up)
          (fresh_lem (pf.georadius lon lat radius_m limit w.redis) vehicle_type w)
    | inr down ↦ rw (find_nearby_driver_ids-down lon lat radius_m limit w down) refl
  ]
