-- ===== src/Tests/Promo.antt =====
-- A promo that user 1 can use twice.
use obbian_ribe_booking_app.Base.{
  ◌≤◌, ◌≡◌, refl, true, none, some, [], ◌∷◌, find, ltℤ, ◌+ℤ◌, pos, if◌then◌else◌, arith,
}
use obbian_ribe_booking_app.World.{World, ok, err, Failure}
use obbian_ribe_booking_app.Schema.{Promo, RideStatus}
use obbian_ribe_booking_app.Promos.Service.{
  redeem, usable_promo, find_active_by_code, out_of_window, terms_of,
}
use obbian_ribe_booking_app.Promos.Usage.{uses_of, redeem_lem}
use obbian_ribe_booking_app.Promos.Race.{claims, settles, race, race-granted}
use obbian_ribe_booking_app.Tests.Memory.{memory}
use obbian_ribe_booking_app.Tests.Ride.{one_ride}

-- "AB" in capital letters.
abbrev ab : Promo
ab = record {
  id = 3;
  code = 65 ∷ 66 ∷ [];
  discount_percent = 2000;
  max_discount = 3000;
  max_uses_per_user = 2;
  valid_from = none;
  valid_until = some 900000;
  is_active = true;
  created_at = 0;
}

abbrev with_promo : World
with_promo = record (one_ride RideStatus.matching) { promos = ab ∷ [] }

-- The code in small letters is found too.
ab_usable : (usable_promo (97 ∷ 98 ∷ []) with_promo).0 ≡ ok ab
unfolding usable_promo find_active_by_code out_of_window find
ab_usable = refl

redeem_lem_example :
    let (result, w') = redeem (97 ∷ 98 ∷ []) 1 with_promo in
    let free = ltℤ (uses_of ab 1 with_promo) (pos 2) in
    (result ≡ (if free then ok (terms_of ab) else err Failure.bad_request))
    × (uses_of ab 1 w'
        ≡ (if free then uses_of ab 1 with_promo +ℤ pos 1 else uses_of ab 1 with_promo))
redeem_lem_example = redeem_lem ab 1 (97 ∷ 98 ∷ []) with_promo refl ab_usable

race-granted_example :
    (race ab 1
      (claims ∷ claims ∷ claims ∷ settles 2 ∷ settles 0 ∷ settles 0 ∷ [])
      (record { world = with_promo; pending = []; granted = 0 })).granted
    ≤ 2
race-granted_example =
    race-granted ab 1 (claims ∷ claims ∷ claims ∷ settles 2 ∷ settles 0 ∷ settles 0 ∷ []) with_promo
      refl (omega arith)
