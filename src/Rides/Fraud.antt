-- ===== src/Rides/Fraud.antt =====
-- src/modules/rides/services/fraud.service.ts. Promise.all runs the three guards to their ends and
-- rejects with the first rejection in time; in which order they end is an argument.
use Prim.Native.String.{String}
use obbian_ribe_booking_app.Base.{
  ap, ◌∙◌, ℕ, ◌+◌, to_fixed_by, ◌*◌, ◌≡◌, ◌==◌, Bool, true, false, ◌&&◌, ◌||◌, length, ltb, leb,
  if◌then◌else◌, select, ℤ, pos, ◌+ℤ◌, ltℤ, arith,
}
use obbian_ribe_booking_app.Platform.{Platform, RedisKey, counter}
use obbian_ribe_booking_app.World.{
  World, Action, ◌>>=◌, ◌>>◌, pure, throw_if, gets, redis_call, ignore_error, Outcome, ok, err,
  Failure,
}
use obbian_ribe_booking_app.Schema.{Ride}
use obbian_ribe_booking_app.Rides.StateMachine.{is_terminal}

pub record FraudConfig : Type 0 where
  pub enabled : Bool
  pub max_rides_per_hour : ℕ
  pub max_concurrent_active : ℕ
  pub duplicate_window_minutes : ℕ
  pub max_duplicate_requests : ℕ

-- The order in which velocity (v), concurrency (c) and duplicate pickup (d) end.
pub data Finish : Type 0 where
  vcd vdc cvd cdv dvc dcv : Finish

abbrev first_of : Outcome (Unit {0}) → Outcome (Unit {0}) → Outcome (Unit {0}) → Outcome (Unit {0})
first_of (err x) b c = err x
first_of (ok a) (err x) c = err x
first_of (ok a) (ok b) c = c

abbrev first_rejection :
    Finish → Outcome (Unit {0}) → Outcome (Unit {0}) → Outcome (Unit {0}) → Outcome (Unit {0})
first_rejection vcd v c d = first_of v c d
first_rejection vdc v c d = first_of v d c
first_rejection cvd v c d = first_of c v d
first_rejection cdv v c d = first_of c d v
first_rejection dvc v c d = first_of d v c
first_rejection dcv v c d = first_of d c v

-- Only a ForbiddenException is thrown on.
abbrev keep_forbidden : Outcome (Unit {0}) → Outcome (Unit {0})
keep_forbidden (err Failure.forbidden) = err Failure.forbidden
keep_forbidden _ = ok tt

abbrev verdict : Bool → Outcome (Unit {0})
verdict b = if b then err Failure.forbidden else ok tt

any_order :
    (finish : Finish) (a b c : Bool)
    → keep_forbidden (first_rejection finish (verdict a) (verdict b) (verdict c))
      ≡ verdict (a || (b || c))
any_order finish a b c = ground arith

-- toFixed(4), of a coordinate in millionths, without the point: `negsuc n` is the text of -n.
unfoldable pub to_fixed : ℤ → ℤ
to_fixed coordinate = to_fixed_by 100 coordinate

-- The status is one of those of an active ride.
unfoldable pub is_active_ride : Ride → Bool
is_active_ride r = if is_terminal r.status then false else true

module _ ⦃pf : Platform⦄ (cfg : FraudConfig) where
  abbrev pub recent_rides : ℕ → World → ℕ
  recent_rides rider_id w = length (
      select (λ r. r.rider_id == rider_id && ltb w.now (r.created_at + 60 * 60 * 1000))
        (pf.rows w.rides))

  abbrev pub active_rides : ℕ → World → ℕ
  active_rides rider_id w =
      length (select (λ r. r.rider_id == rider_id && is_active_ride r) (pf.rows w.rides))

  unfoldable pub guard_velocity : ℕ → Action (Unit {0})
  guard_velocity rider_id = gets (λ w. recent_rides rider_id w) >>= λ n.
      throw_if (leb cfg.max_rides_per_hour n) Failure.forbidden

  unfoldable pub guard_concurrency : ℕ → Action (Unit {0})
  guard_concurrency rider_id = gets (λ w. active_rides rider_id w) >>= λ n.
      throw_if (leb cfg.max_concurrent_active n) Failure.forbidden

  abbrev pub pickup_key : ℕ → ℤ → ℤ → String → RedisKey
  pickup_key rider_id lat lon city =
      RedisKey.duplicate_pickup rider_id (to_fixed lat) (to_fixed lon) city

  unfoldable pub guard_duplicate_pickup : ℕ → ℤ → ℤ → String → Action (Unit {0})
  guard_duplicate_pickup rider_id lat lon city =
      let key = pickup_key rider_id lat lon city in
      redis_call (λ now s. (pf.get now key s, s)) >>= λ seen.
      ignore_error (
        redis_call (λ now s.
          (tt, pf.set now key (counter seen +ℤ pos 1) (cfg.duplicate_window_minutes * 60) s)))
      >> throw_if (ltℤ (pos cfg.max_duplicate_requests) (counter seen +ℤ pos 1)) Failure.forbidden

  unfoldable pub run_guards : Finish → ℕ → ℤ → ℤ → String → Action (Unit {0})
  run_guards finish rider_id lat lon city w =
      let (v, w1) = guard_velocity rider_id w in
      let (c, w2) = guard_concurrency rider_id w1 in
      let (d, w3) = guard_duplicate_pickup rider_id lat lon city w2 in
      (keep_forbidden (first_rejection finish v c d), w3)

  unfoldable pub guard_ride_request : Finish → ℕ → ℤ → ℤ → String → Action (Unit {0})
  guard_ride_request finish rider_id lat lon city =
      if cfg.enabled then run_guards finish rider_id lat lon city else pure tt

  guard_velocity-eq :
      (rider_id : ℕ) (w : World)
      → guard_velocity rider_id w
        ≡ (verdict (leb cfg.max_rides_per_hour (recent_rides rider_id w)), w)
  unfolding guard_velocity
  guard_velocity-eq rider_id w = ground arith

  guard_concurrency-eq :
      (rider_id : ℕ) (w : World)
      → guard_concurrency rider_id w
        ≡ (verdict (leb cfg.max_concurrent_active (active_rides rider_id w)), w)
  unfolding guard_concurrency
  guard_concurrency-eq rider_id w = ground arith

  guard_duplicate_pickup-result :
      (rider_id : ℕ) (lat lon : ℤ) (city : String) (w : World)
      → w.redis_up ≡ true
      → let seen = pf.get w.now (pickup_key rider_id lat lon city) w.redis in
        (guard_duplicate_pickup rider_id lat lon city w).0
        ≡ verdict (ltℤ (pos cfg.max_duplicate_requests) (counter seen +ℤ pos 1))
  unfolding guard_duplicate_pickup
  guard_duplicate_pickup-result rider_id lat lon city w up = rw up (ground arith)

  run_guards_lem :
      (finish : Finish) (rider_id : ℕ) (lat lon : ℤ) (city : String) (w : World)
      → w.redis_up ≡ true
      → let seen = pf.get w.now (pickup_key rider_id lat lon city) w.redis in
        (run_guards finish rider_id lat lon city w).0
        ≡ verdict (
            leb cfg.max_rides_per_hour (recent_rides rider_id w)
            || (leb cfg.max_concurrent_active (active_rides rider_id w)
                || ltℤ (pos cfg.max_duplicate_requests) (counter seen +ℤ pos 1)))
  unfolding run_guards
  run_guards_lem finish rider_id lat lon city w up =
      rw
        (
          guard_velocity-eq rider_id w,
          guard_concurrency-eq rider_id w,
          guard_duplicate_pickup-result rider_id lat lon city w up,
        )
        (any_order finish _ _ _)

  guard_ride_request-on :
      (finish : Finish) (rider_id : ℕ) (lat lon : ℤ) (city : String) (w : World)
      → cfg.enabled ≡ true
      → guard_ride_request finish rider_id lat lon city w
        ≡ run_guards finish rider_id lat lon city w
  unfolding guard_ride_request
  guard_ride_request-on finish rider_id lat lon city w on = ground arith

  -- With Redis up, a request passes the guards exactly if it breaks none of the three rules, whichever
  -- guard ends first.
  pub guard_ride_request_lem :
      (finish : Finish) (rider_id : ℕ) (lat lon : ℤ) (city : String) (w : World)
      → cfg.enabled ≡ true
      → w.redis_up ≡ true
      → let seen = pf.get w.now (pickup_key rider_id lat lon city) w.redis in
        (guard_ride_request finish rider_id lat lon city w).0 ≡ (
          if leb cfg.max_rides_per_hour (recent_rides rider_id w)
            || (leb cfg.max_concurrent_active (active_rides rider_id w)
                || ltℤ (pos cfg.max_duplicate_requests) (counter seen +ℤ pos 1))
          then err Failure.forbidden
          else ok tt)
  guard_ride_request_lem finish rider_id lat lon city w on up =
      ap (λ x. x.0) (guard_ride_request-on finish rider_id lat lon city w on)
      ∙ run_guards_lem finish rider_id lat lon city w up

  -- With Redis down, a request whose duplicate guard ends first passes, whatever rule it breaks.
  pub guard_ride_request_open :
      (rider_id : ℕ) (lat lon : ℤ) (city : String) (w : World)
      → w.redis_up ≡ false
      → (guard_ride_request dvc rider_id lat lon city w).0 ≡ ok tt
  unfolding guard_ride_request run_guards guard_velocity guard_concurrency guard_duplicate_pickup
  guard_ride_request_open rider_id lat lon city w down = ground arith
