-- ===== src/Rides/Booking.antt =====
-- What a request for a ride leaves.
use Prim.Native.String.{String}
use obbian_ribe_booking_app.Base.{
  ap, ◌∙◌, sym, ℕ, ◌+◌, ◌/◌, ◌≡◌, ◌⊎◌, refl, Option, none, some, List, find, [], ◌∷◌, ◌++◌, ℤ,
  Bool-cases, inl, inr, arith,
}
use obbian_ribe_booking_app.Platform.{Platform}
use obbian_ribe_booking_app.World.{World, ok}
use obbian_ribe_booking_app.Schema.{
  Ride, RideStatus, RideType, RideEventPayload, FareConfig, PaymentStatus, PaymentMethod,
  same_ride_type,
}
use obbian_ribe_booking_app.Pricing.Fare.{calculate_fare, promo_discount}
use obbian_ribe_booking_app.Promos.Service.{PromoTerms, redeem}
use obbian_ribe_booking_app.Pricing.Surge.{SurgeConfig, record_demand}
use obbian_ribe_booking_app.Pricing.Quote.{QuoteOption, QuoteResult}
use obbian_ribe_booking_app.Rides.Service.{
  RequestRideInput, new_ride, create_ride, insert_ride, write_requested, write_ride_event,
  outbox_row,
}
use obbian_ribe_booking_app.Rides.Request.{
  RideRequest, locked_fare, ride_input, claim_discount, create_or_release, book,
}

-- The payload of the event of a new ride.
abbrev pub requested_payload : Ride → RideEventPayload
requested_payload r = record {
  ride_id = r.id;
  rider_id = r.rider_id;
  driver_id = none;
  status = r.status;
  ride_type = r.ride_type;
  total_fare = none;
  cancellation_reason = none;
  cancellation_fee = none;
}

module _ ⦃pf : Platform⦄ where
  -- Creating a ride succeeds, with the queue up or down: it adds the one new row to the table of the
  -- rides, and the one event of the request to the outbox.
  pub create_ride_lem :
      (input : RequestRideInput) (w : World)
      → let ride = new_ride input w.next_id w.now in
        let (result, w') = create_ride input w in
        (result ≡ ok ride)
        × (pf.rows w'.rides ≡ pf.rows w.rides ++ ride ∷ [])
        × (pf.rows w'.outbox_events
            ≡ pf.rows w.outbox_events
              ++ outbox_row (w.next_id + 1) w.now "RIDE_REQUESTED" ride.id (requested_payload ride)
                ∷ [])
  unfolding create_ride insert_ride write_requested write_ride_event
  create_ride_lem input w = elim (Bool-cases w.queue_up) [
    | inl up ↦ rw up (refl, pf.rows-insert _ w.rides, pf.rows-insert _ w.outbox_events)
    | inr down ↦ rw down (refl, pf.rows-insert _ w.rides, pf.rows-insert _ w.outbox_events)
  ]

  create_or_release-ok :
      (input : RequestRideInput) (w : World) {r : Ride}
      → (create_ride input w).0 ≡ ok r
      → create_or_release input w ≡ (ok r, (create_ride input w).1)
  unfolding create_or_release
  create_or_release-ok input w e = rw e refl

  record_demand-rides :
      (surge : SurgeConfig) (city : String) (lat lon : ℤ) (w : World)
      → (record_demand surge city lat lon w).1.rides ≡ w.rides
  unfolding record_demand
  record_demand-rides surge city lat lon w = ground arith

-- The price that a quote showed for a ride type, or where it has none the fare of the config.
abbrev pub IsPrice : RideType → QuoteResult → FareConfig → ℕ → Type 0
IsPrice ride_type quote config fare =
    let shown = find (λ o. same_ride_type o.ride_type ride_type) quote.options in
    ((o : QuoteOption) × (shown ≡ some o) × (fare ≡ o.fare))
    ⊎ ((shown ≡ none) × (fare ≡ calculate_fare config quote.route.metres quote.route.seconds))

locked_fare-IsPrice :
    (ride_type : RideType) (quote : QuoteResult) (config : FareConfig) (fare : ℕ)
    → IsPrice ride_type quote config fare
    → locked_fare ride_type quote config ≡ fare
unfolding locked_fare
locked_fare-IsPrice ride_type quote config fare (inl (o, shown, same)) = rw shown (sym same)
locked_fare-IsPrice ride_type quote config fare (inr (missing, same)) = rw missing (sym same)

-- The row of a ride that is booked for a price.
abbrev pub booked_row : RideRequest → String → QuoteResult → ℕ → ℕ → ℕ → ℕ → Ride
booked_row request city quote fare discount id now = record {
  id = id;
  rider_id = request.rider_id;
  driver_id = none;
  ride_type = request.ride_type;
  status = RideStatus.requested;
  pickup_lat = request.pickup_lat;
  pickup_lon = request.pickup_lon;
  pickup_address = none;
  dropoff_lat = request.dropoff_lat;
  dropoff_lon = request.dropoff_lon;
  dropoff_address = none;
  city = city;
  estimated_fare = fare;
  total_fare = none;
  surge_multiplier = quote.surge_multiplier;
  distance_km = (quote.route.metres + 5) / 10;
  duration_min = (quote.route.seconds + 30) / 60;
  promo_code = request.promo_code;
  promo_discount = discount;
  payment_status = PaymentStatus.pending;
  payment_method = PaymentMethod.upi;
  accepted_at = none;
  arrived_at = none;
  started_at = none;
  completed_at = none;
  cancelled_at = none;
  cancellation_reason = none;
  cancellation_fee = 0;
  rider_rating = none;
  driver_rating = none;
  created_at = now;
  updated_at = now;
}

module _ ⦃pf : Platform⦄ where
  -- The discount of a request and the state in which the ride is created: none without a promo code,
  -- otherwise that of the promo that is redeemed.
  abbrev pub IsDiscount : Option (List ℕ) → ℕ → ℕ → World → ℕ → World → Type 0
  IsDiscount none rider_id fare w discount v = (discount ≡ 0) × (v ≡ w)
  IsDiscount (some []) rider_id fare w discount v = (discount ≡ 0) × (v ≡ w)
  IsDiscount (some (c ∷ code)) rider_id fare w discount v =
      (terms : PromoTerms) × (redeem (c ∷ code) rider_id w ≡ (ok terms, v))
      × (discount ≡ promo_discount fare terms.discount_percent terms.max_discount)

  claim_discount-IsDiscount :
      (code : Option (List ℕ)) (rider_id fare : ℕ) (w : World) (discount : ℕ) (v : World)
      → IsDiscount code rider_id fare w discount v
      → claim_discount code rider_id fare w ≡ (ok discount, v)
  unfolding claim_discount
  claim_discount-IsDiscount none rider_id fare w discount v (none_off, same) =
      rw (none_off, same) refl
  claim_discount-IsDiscount (some []) rider_id fare w discount v (none_off, same) =
      rw (none_off, same) refl
  claim_discount-IsDiscount (some (c ∷ code)) rider_id fare w discount v (terms, redeemed, off) =
      rw (redeemed, off) refl

  -- A booking whose promo code, if one is given, can be redeemed succeeds. The row that it adds to
  -- the table is REQUESTED, with the fare that the quote shows for its type, or the calculated one
  -- if the quote shows none, with the discount of the terms of the promo on that fare, 0 without a
  -- code, and with the places, route and surge of the request and its quote; the answer has that
  -- row, the discount, the surge and the duration of the route.
  pub book_lem :
      (surge : SurgeConfig) (request : RideRequest) (city : String) (config : FareConfig)
      → (quote : QuoteResult) (fare discount : ℕ) (w v : World)
      → IsPrice request.ride_type quote config fare
      → IsDiscount request.promo_code request.rider_id fare w discount v
      → let ride = booked_row request city quote fare discount v.next_id v.now in
        let (result, w') = book surge request city config quote w in
        (result
          ≡ ok (record {
            ride = ride;
            surge_multiplier = quote.surge_multiplier;
            promo_discount = discount;
            estimated_seconds = quote.route.seconds;
          }))
        × (pf.rows w'.rides ≡ pf.rows v.rides ++ ride ∷ [])
  unfolding book new_ride ride_input
  book_lem surge request city config quote fare discount w v price off =
      let claimed =
        claim_discount-IsDiscount request.promo_code request.rider_id fare w discount v off in
      let input = ride_input request city quote fare discount in
      let (created, rows, event) = create_ride_lem input v in
      rw
        (
          locked_fare-IsPrice request.ride_type quote config fare price,
          claimed,
          create_or_release-ok input v created,
        )
        (
          refl,
          ap pf.rows (
                record_demand-rides surge city request.pickup_lat request.pickup_lon
                  (create_ride input v).1)
              ∙ rows,
        )
