-- ===== src/Pricing/Surge.antt =====
-- src/modules/pricing/services/surge.service.ts. The multiplier, the threshold and the step are
-- hundredths; the supply radius is in metres.
use Prim.Native.String.{String}
use obbian_ribe_booking_app.Base.{
  ℕ, ◌*◌, min, max, Bool, Option, none, some, [], length, ltb, if◌then◌else◌, ℤ, pos, pos_part,
}
use obbian_ribe_booking_app.Base.Double.{one, double, add, sub, mul, div, round, ceil}
use obbian_ribe_booking_app.Platform.{Platform, RedisKey, counter}
use obbian_ribe_booking_app.World.{Action, ◌>>=◌, ◌>>◌, pure, redis_call, ignore_error, recover}

pub record SurgeConfig : Type 0 where
  pub enabled : Bool
  pub max_multiplier : ℕ
  pub window_minutes : ℕ
  pub demand_threshold : ℕ
  pub multiplier_step : ℕ
  pub cache_ttl_seconds : ℕ

-- The multiplier at a demand and a number of nearby drivers. The step is not 0.
unfoldable pub multiplier_at : SurgeConfig → ℕ → ℕ → ℕ
multiplier_at cfg demand nearby =
    let ratio = div (double demand 1) (double (max nearby 1) 1) in
    let threshold = double cfg.demand_threshold 100 in
    let step = double cfg.multiplier_step 100 in
    let steps = ceil (div (sub ratio threshold) step) in
    let raised = min (double cfg.max_multiplier 100) (add one (mul (double steps 1) step)) in
    round (mul (if ltb threshold ratio then raised else one) (double 100 1))

module _ ⦃pf : Platform⦄ (cfg : SurgeConfig) where
  unfoldable pub record_demand : String → ℤ → ℤ → Action (Unit {0})
  record_demand city lat lon =
      let key = RedisKey.surge_demand city (pf.lat_lng_to_cell lat lon) in
      if cfg.enabled
      then (redis_call (λ now s. pf.incr now key s) >>= λ _.
          redis_call (λ now s. (tt, pf.expire now key (cfg.window_minutes * 60) s)))
      else pure tt

  -- What getMultiplier does after a cache miss.
  unfoldable pub measure_multiplier : String → ℕ → Action ℕ
  measure_multiplier city cell = do
    let center = pf.cell_to_lat_lng cell
    demand ← redis_call (λ now s. (pf.get now (RedisKey.surge_demand city cell) s, s))
    nearby ← recover (redis_call (λ now s. (pf.georadius center.1 center.0 2500 500 s, s))) []
    let rounded = multiplier_at cfg (pos_part (counter demand)) (length nearby)
    ignore_error (
        redis_call (λ now s. (
          tt,
          pf.set now (RedisKey.surge_multiplier city cell) (pos rounded) cfg.cache_ttl_seconds s,
        )))
    pure rounded

  abbrev pub or_measure : String → ℕ → Option ℤ → Action ℕ
  or_measure city cell none = measure_multiplier city cell
  or_measure city cell (some v) = pure (pos_part v)

  unfoldable pub get_multiplier : String → ℤ → ℤ → Action ℕ
  get_multiplier city lat lon =
      let cell = pf.lat_lng_to_cell lat lon in
      if cfg.enabled
      then (redis_call (λ now s. (pf.get now (RedisKey.surge_multiplier city cell) s, s))
          >>= λ cached. or_measure city cell cached)
      else pure 100
