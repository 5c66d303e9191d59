-- ===== src/Matching/Claim.antt =====
-- The claim of a ride in Redis.
use obbian_ribe_booking_app.Base.{ℕ, ◌≡◌, refl, true, false, Option, none, some, ℤ, pos, arith}
use obbian_ribe_booking_app.Platform.{Platform, RedisKey, same_key-claim}
use obbian_ribe_booking_app.World.{World, ok}
use obbian_ribe_booking_app.Matching.Service.{claim_ride, claim_ttl_seconds}

module _ ⦃pf : Platform⦄ (ride_id : ℕ) where
  abbrev pub claim_of : World → Option ℤ
  claim_of w = pf.get w.now (RedisKey.claim ride_id) w.redis

  pub claim_ride-free :
      (driver_id : ℕ) (w : World)
      → w.redis_up ≡ true
      → claim_of w ≡ none
      → claim_ride ride_id driver_id w ≡ (
        ok true,
        record w {
          redis = pf.set w.now (RedisKey.claim ride_id) (pos driver_id) claim_ttl_seconds w.redis;
        },
      )
  unfolding claim_ride
  claim_ride-free driver_id w up e =
      rw
        (
          up,
          pf.set_nx-free w.now (RedisKey.claim ride_id) (pos driver_id) claim_ttl_seconds w.redis e,
        )
        refl

  claim_ride-taken :
      (driver_id : ℕ) (w : World) {v : ℤ}
      → w.redis_up ≡ true
      → claim_of w ≡ some v
      → claim_ride ride_id driver_id w ≡ (ok false, w)
  unfolding claim_ride
  claim_ride-taken driver_id w up e = ground (
    arith,
    pf.set_nx-taken w.now (RedisKey.claim ride_id) (pos driver_id) claim_ttl_seconds w.redis e,
  )

  claim_of-set :
      (driver_id : ℕ) (w : World)
      → pf.get w.now
          (RedisKey.claim ride_id)
          (pf.set w.now (RedisKey.claim ride_id) (pos driver_id) claim_ttl_seconds w.redis)
        ≡ some (pos driver_id)
  claim_of-set driver_id w =
      rw
        (
          pf.get-set w.now w.now (RedisKey.claim ride_id) (RedisKey.claim ride_id) (pos driver_id)
              claim_ttl_seconds w.redis (omega arith),
          same_key-claim ride_id,
        )
        (ground arith)
