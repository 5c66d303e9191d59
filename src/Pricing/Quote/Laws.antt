-- ===== src/Pricing/Quote/Laws.antt =====
-- What a quote offers (getQuote of src/modules/pricing/services/pricing.service.ts).
use Prim.Native.String.{String}
use text.Mathlib.Text.{◌==◌ as same_text}
use obbian_ribe_booking_app.Base.{
  ℕ, ◌≡◌, refl, ◌∙◌, ap, Bool, true, false, ◌&&◌, List, map, ltb, select, ℤ, Option, none, some,
  length, pos_part, arith, Bool-cases, inl, inr,
}
use obbian_ribe_booking_app.Base.Sort.{
  IsSorted, IsSorted-map, sort_by-IsSorted, length-select-sort_by, length-select-map,
}
use obbian_ribe_booking_app.Platform.{Platform, RedisKey, counter}
use obbian_ribe_booking_app.World.{World, Action, ok}
use obbian_ribe_booking_app.World.Inversion.{then_rest}
use obbian_ribe_booking_app.Schema.{FareConfig, RideType}
use obbian_ribe_booking_app.Pricing.Surge.{
  SurgeConfig, get_multiplier, measure_multiplier, multiplier_at, or_measure,
}
use obbian_ribe_booking_app.Pricing.Quote.{
  RouteInfo, QuoteOption, QuoteResult, cheaper, sort_configs, wanted, is_empty, option_of,
  surge_option, get_quote,
}

abbrev pub cheaper_option : QuoteOption → QuoteOption → Bool
cheaper_option a b = ltb a.base_fare b.base_fare

-- What is offered for a config.
abbrev pub offer : ℕ → RouteInfo → FareConfig → QuoteOption
offer multiplier route c = surge_option multiplier (option_of route c)

cheaper_option-surge_option :
    (m : ℕ) (a b : QuoteOption)
    → cheaper_option (surge_option m a) (surge_option m b) ≡ cheaper_option a b
unfolding surge_option
cheaper_option-surge_option m a b = elim (Bool-cases (ltb 100 m)) [
  | inl e ↦ rw e refl
  | inr e ↦ rw e refl
]

cheaper_option-option_of :
    (route : RouteInfo) (c d : FareConfig)
    → cheaper_option (option_of route c) (option_of route d) ≡ cheaper c d
unfolding option_of
cheaper_option-option_of route c d = refl

module _ (m : ℕ) (route : RouteInfo) (configs : List FareConfig) where
  abbrev options : List QuoteOption
  options = map (surge_option m) (map (option_of route) (sort_configs configs))

  options-IsSorted : IsSorted cheaper_option options
  unfolding sort_configs
  options-IsSorted =
      IsSorted-map cheaper_option cheaper_option (surge_option m) (cheaper_option-surge_option m) _
        (IsSorted-map cheaper cheaper_option (option_of route) (cheaper_option-option_of route) _
          (sort_by-IsSorted cheaper (λ a b h. ground arith) (λ a b c h k. ground arith) configs))

  length-select-options :
      (p : QuoteOption → Bool)
      → length (select p options) ≡ length (select (λ c. p (offer m route c)) configs)
  unfolding sort_configs
  length-select-options p =
      length-select-map p (surge_option m) _
      ∙ length-select-map (λ o. p (surge_option m o)) (option_of route) _
      ∙ length-select-sort_by cheaper (λ c. p (offer m route c)) configs

module _ ⦃pf : Platform⦄ where
  -- The configs that a quote is about.
  unfoldable pub configs_for : String → List RideType → World → List FareConfig
  configs_for city types w =
      select (λ c. wanted types c.ride_type)
        (select (λ c. same_text c.city city && c.is_active) (pf.rows w.fare_configs))

module _ ⦃pf : Platform⦄ (cfg : SurgeConfig) where
  measure_multiplier_up :
      (city : String) (cell : ℕ) (w : World)
      → w.redis_up ≡ true
      → (m : ℕ) × ((measure_multiplier cfg city cell w).0 ≡ ok m)
  unfolding measure_multiplier
  measure_multiplier_up city cell w up =
      let center = pf.cell_to_lat_lng cell in
      let demand = pf.get w.now (RedisKey.surge_demand city cell) w.redis in
      let nearby = pf.georadius center.1 center.0 2500 500 w.redis in
      (multiplier_at cfg (pos_part (counter demand)) (length nearby), rw up refl)

  or_measure_up :
      (city : String) (cell : ℕ) (cached : Option ℤ) (w : World)
      → w.redis_up ≡ true
      → (m : ℕ) × ((or_measure cfg city cell cached w).0 ≡ ok m)
  or_measure_up city cell none w up = measure_multiplier_up city cell w up
  or_measure_up city cell (some v) w up = (pos_part v, refl)

  get_multiplier_kept :
      (city : String) (lat lon : ℤ) (w : World)
      → cfg.enabled ≡ true
      → w.redis_up ≡ true
      → get_multiplier cfg city lat lon w
        ≡ or_measure cfg city
            (pf.lat_lng_to_cell lat lon)
            (pf.get w.now (RedisKey.surge_multiplier city (pf.lat_lng_to_cell lat lon)) w.redis)
            w
  unfolding get_multiplier
  get_multiplier_kept city lat lon w on up = ground arith

  get_multiplier_up :
      (city : String) (lat lon : ℤ) (w : World)
      → w.redis_up ≡ true
      → (m : ℕ) × ((get_multiplier cfg city lat lon w).0 ≡ ok m)
  unfolding get_multiplier
  get_multiplier_up city lat lon w up = elim (Bool-cases cfg.enabled) [
    | inr off ↦ (100, rw off refl)
    | inl on ↦
        let cell = pf.lat_lng_to_cell lat lon in
        let cached = pf.get w.now (RedisKey.surge_multiplier city cell) w.redis in
        let (m, e) = or_measure_up city cell cached w up in
        (m, ap (λ a. a.0) (get_multiplier_kept city lat lon w on up) ∙ e)
  ]

  module _ (get_route : ℤ → ℤ → ℤ → ℤ → Action RouteInfo) where
    -- If the maps provider gives a route, Redis is up, and a fare config of the city is active and
    -- for a wanted ride type, a quote succeeds: its options come in the order of their base fares
    -- and are, each as often, exactly the offers for such configs, on that route and with the
    -- surge multiplier of the quote.
    pub get_quote_lem :
        (pickup_lat pickup_lon dropoff_lat dropoff_lon : ℤ) (city : String) (types : List RideType)
        (route : RouteInfo) (w v : World)
        → get_route pickup_lat pickup_lon dropoff_lat dropoff_lon w ≡ (ok route, v)
        → v.redis_up ≡ true
        → is_empty (configs_for city types v) ≡ false
        → (q : QuoteResult) × ((get_quote cfg get_route pickup_lat pickup_lon dropoff_lat
              dropoff_lon city types w).0
            ≡ ok q)
          × IsSorted cheaper_option q.options
          × ((p : QuoteOption → Bool)
              → length (select p q.options)
                ≡ length
                    (select (λ c. p (offer q.surge_multiplier route c)) (configs_for city types v)))
    unfolding get_quote configs_for
    get_quote_lem pickup_lat pickup_lon dropoff_lat dropoff_lon city types route w v found up
          some_config =
        let (m, e) = get_multiplier_up city pickup_lat pickup_lon v up in
        let configs = configs_for city types v in
        (
          record {
            options = map (surge_option m) (map (option_of route) (sort_configs configs));
            route = route;
            city = city;
            surge_multiplier = m;
          },
          ap (λ a. a.0)
                (then_rest (get_route pickup_lat pickup_lon dropoff_lat dropoff_lon) _ found)
              ∙ rw some_config (rw e refl),
          options-IsSorted m route configs,
          length-select-options m route configs,
        )
