-- ===== src/Payments/Settlement.antt =====
-- settleDaily of src/modules/payments/services/settlement.service.ts. Amounts are paise, the
-- commission hundredths of a percent. The payouts of RazorpayX are a parameter: `payout driver net` is
-- the id of a payout, if the gateway is configured and the call succeeds.
pub mod Ledger
use Prim.Native.String.{String}
use obbian_ribe_booking_app.Base.{
  ℕ, ◌+◌, ◌*◌, ◌-◌, ◌/◌, ◌≤◌, ◌≡◌, refl, ap, sym, ◌∙◌, ◌==◌, Bool, true, false, ◌&&◌, Option, none,
  some, List, [], ◌∷◌, ◌++◌, length, sum_by, sum_by-append, ltb, leb, if◌then◌else◌, select, ℤ, pos,
  ◌+ℤ◌, sub_ℕ, find, Bool-cases, inl, inr, arith,
}
use obbian_ribe_booking_app.Platform.{Platform}
use obbian_ribe_booking_app.World.{World, Action, ◌>>=◌, ◌>>◌, pure, gets, modify, select_one, ok}
use obbian_ribe_booking_app.Schema.{Ride, Driver, RideStatus, same_status}

pub record SettlementRecord : Type 0 where
  pub driver_id : ℕ
  pub rides : ℕ
  pub gross : ℕ
  pub commission : ℕ
  pub net : ℤ
  pub payout_id : Option ℕ

-- Number(r.totalFare ?? 0)
abbrev pub fare_of : Ride → ℕ
fare_of r = elim r.total_fare [ none ↦ 0 | some f ↦ f ]

abbrev pub is_since : ℕ → Option ℕ → Bool
is_since since none = false
is_since since (some t) = leb since t

-- Whether a settlement that looks back to `since` selects the ride.
unfoldable pub is_settled : ℕ → Ride → Bool
is_settled since r = same_status r.status RideStatus.completed && is_since since r.completed_at

-- The map of the rides of each driver, in the order of its keys.
abbrev pub Groups : Type 0
Groups = List (ℕ × List Ride)

unfoldable pub add_ride : ℕ → Ride → Groups → Groups
add_ride d r [] = (d, r ∷ []) ∷ []
add_ride d r ((e, rs) ∷ gs) =
    let rest = add_ride d r gs in if e == d then (e, rs ++ r ∷ []) ∷ gs else (e, rs) ∷ rest

abbrev add_driven : Option ℕ → Ride → Groups → Groups
add_driven none r gs = gs
add_driven (some d) r gs = add_ride d r gs

unfoldable pub by_driver : List Ride → Groups → Groups
by_driver [] gs = gs
by_driver (r ∷ rs) gs = by_driver rs (add_driven r.driver_id r gs)

unfoldable pub commission_of : ℕ → ℕ → ℕ
commission_of percent gross = (gross * percent + 5000) / 10000

abbrev wallet : Option Driver → ℤ
wallet none = pos 0
wallet (some d) = d.wallet_balance

abbrev upi_of : Option Driver → Option String
upi_of none = none
upi_of (some d) = d.upi_id

module _ ⦃pf : Platform⦄ (percent : ℕ) (payout : ℕ → ℤ → Option ℕ) where
  abbrev payout_of : Option String → ℕ → ℤ → Option ℕ
  payout_of none d net = none
  payout_of (some upi) d net = payout d net

  abbrev pub net_of : List Ride → ℤ
  net_of rides = sub_ℕ (sum_by fare_of rides) (commission_of percent (sum_by fare_of rides))

  -- What is recorded of the rides of a driver, with the driver's row.
  abbrev pub settled_record : ℕ → List Ride → Option Driver → SettlementRecord
  settled_record driver_id rides driver = record {
    driver_id = driver_id;
    rides = length rides;
    gross = sum_by fare_of rides;
    commission = commission_of percent (sum_by fare_of rides);
    net = net_of rides;
    payout_id = payout_of (upi_of driver) driver_id (net_of rides);
  }

  unfoldable pub settle_driver : ℕ → List Ride → Action SettlementRecord
  settle_driver driver_id rides =
      select_one (λ w. w.drivers) (λ d. d.user_id == driver_id) >>= λ driver.
      modify (λ w. record w {
        drivers =
            pf.update (λ d. d.user_id == driver_id)
              (λ d. record d { wallet_balance = wallet driver +ℤ net_of rides; updated_at = w.now })
              w.drivers;
      })
      >> pure (settled_record driver_id rides driver)

  unfoldable pub settle_groups : Groups → Action (List SettlementRecord)
  settle_groups [] = pure []
  settle_groups ((d, rs) ∷ gs) =
      settle_driver d rs >>= λ settled. settle_groups gs >>= λ others. pure (settled ∷ others)

  unfoldable pub settle_daily : Bool → Action (List SettlementRecord)
  settle_daily enabled =
      if enabled
      then (gets (λ w.
            by_driver (select (is_settled (w.now - 24 * 60 * 60 * 1000)) (pf.rows w.rides)) [])
          >>= λ groups. settle_groups groups)
      else pure []
