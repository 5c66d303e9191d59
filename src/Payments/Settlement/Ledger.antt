-- ===== src/Payments/Settlement/Ledger.antt =====
-- The sums of a settlement.
use native.Mathlib.Nat.{mul-le-mul, le_refl}
use obbian_ribe_booking_app.Base.{
  ℕ, ◌+◌, max, ◌==◌, Bool, false, if◌then◌else◌, ap, ◌∙◌, ◌*◌, ◌-◌, ◌≤◌, ◌≡◌, refl, true, Option,
  none, some, List, [], ◌∷◌, length, sum_by, sum_by-append, select, ℤ, ◌+ℤ◌, arith,
}
use obbian_ribe_booking_app.Platform.{Platform}
use obbian_ribe_booking_app.World.{World, ok}
use obbian_ribe_booking_app.Schema.{Ride, Driver}
use obbian_ribe_booking_app.Drivers.Service.Laws.{driver_row, driver_row-update_drivers}
use obbian_ribe_booking_app.Payments.Settlement.{
  SettlementRecord, fare_of, is_settled, Groups, add_ride, add_driven, by_driver, commission_of,
  net_of, settled_record, settle_driver, settle_groups, settle_daily,
}

-- A number that counts only where a test holds.
abbrev counted : Bool → ℕ → ℕ
counted b n = if b then n else 0

abbrev is_of : ℕ → Option ℕ → Bool
is_of d none = false
is_of d (some e) = e == d

-- The fare, or the count, of a ride if the driver has driven it.
abbrev pub driven_by : ℕ → (Ride → ℕ) → Ride → ℕ
driven_by d f r = counted (is_of d r.driver_id) (f r)

abbrev pub once : Ride → ℕ
once r = 1

abbrev group_sum : ℕ → (Ride → ℕ) → ℕ × List Ride → ℕ
group_sum d f (e, rs) = counted (e == d) (sum_by f rs)

abbrev total : ℕ → (Ride → ℕ) → Groups → ℕ
total d f gs = sum_by (group_sum d f) gs

total-add_ride :
    (d : ℕ) (f : Ride → ℕ) (e : ℕ) (r : Ride) (gs : Groups)
    → total d f (add_ride e r gs) ≡ total d f gs + counted (e == d) (f r)
unfolding add_ride
total-add_ride d f e r [] = ground arith
total-add_ride d f e r ((k, rs) ∷ gs) =
    ground (arith, total-add_ride d f e r gs, sum_by-append f rs (r ∷ []))

total-add_driven :
    (d : ℕ) (f : Ride → ℕ) (o : Option ℕ) (r : Ride) (gs : Groups)
    → total d f (add_driven o r gs) ≡ total d f gs + counted (is_of d o) (f r)
total-add_driven d f none r gs = omega arith
total-add_driven d f (some e) r gs = total-add_ride d f e r gs

total-by_driver :
    (d : ℕ) (f : Ride → ℕ) (rs : List Ride) (gs : Groups)
    → total d f (by_driver rs gs) ≡ total d f gs + sum_by (driven_by d f) rs
unfolding by_driver
total-by_driver d f [] gs = omega arith
total-by_driver d f (r ∷ rs) gs = omega (
  arith,
  total-by_driver d f rs (add_driven r.driver_id r gs),
  total-add_driven d f r.driver_id r gs,
)

-- How many groups a driver has.
abbrev groups_of : ℕ → Groups → ℕ
groups_of d [] = 0
groups_of d ((e, rs) ∷ gs) = counted (e == d) 1 + groups_of d gs

groups_of-add_ride :
    (d e : ℕ) (r : Ride) (gs : Groups)
    → groups_of d (add_ride e r gs) ≡ (if e == d then max 1 (groups_of d gs) else groups_of d gs)
unfolding add_ride
groups_of-add_ride d e r [] = ground arith
groups_of-add_ride d e r ((k, rs) ∷ gs) = ground (arith, groups_of-add_ride d e r gs)

groups_of-by_driver :
    (d : ℕ) (rs : List Ride) (gs : Groups) → groups_of d gs ≤ 1 → groups_of d (by_driver rs gs) ≤ 1
unfolding by_driver
groups_of-by_driver d [] gs h = h
groups_of-by_driver d (r ∷ rs) gs h = groups_of-by_driver d rs _ (still r.driver_id)
  where
    still : (o : Option ℕ) → groups_of d (add_driven o r gs) ≤ 1
    still none = h
    still (some e) = ground (arith, groups_of-add_ride d e r gs)

sum_once : (rs : List Ride) → length rs ≡ sum_by once rs
sum_once [] = refl
sum_once (r ∷ rs) = omega (arith, sum_once rs)

-- For a commission of at most 100 %, no more is kept than was earned.
pub commission_of_le : (percent gross : ℕ) → percent ≤ 10000 → commission_of percent gross ≤ gross
unfolding commission_of
commission_of_le percent gross h = omega (arith, mul-le-mul (le_refl gross) h)

module _ ⦃pf : Platform⦄ (percent : ℕ) (payout : ℕ → ℤ → Option ℕ) where
  abbrev pub gross_for : ℕ → SettlementRecord → ℕ
  gross_for d r = counted (r.driver_id == d) r.gross

  abbrev pub rides_for : ℕ → SettlementRecord → ℕ
  rides_for d r = counted (r.driver_id == d) r.rides

  abbrev pub records_for : ℕ → SettlementRecord → ℕ
  records_for d r = counted (r.driver_id == d) 1

  -- What the records of a settlement add up to for a driver, and how many there are.
  pub record IsSettledAs (d gross rides number : ℕ) (rs : List SettlementRecord) : Type 0 where
    gross_sum : sum_by (gross_for d) rs ≡ gross
    rides_sum : sum_by (rides_for d) rs ≡ rides
    records : sum_by (records_for d) rs ≡ number

  settle_groups-IsSettledAs :
      (gs : Groups) (w : World)
      → (rs : List SettlementRecord) × ((settle_groups percent payout gs w).0 ≡ ok rs)
        × ((d : ℕ) → IsSettledAs d (total d fare_of gs) (total d once gs) (groups_of d gs) rs)
  unfolding settle_groups settle_driver
  settle_groups-IsSettledAs [] w =
      ([], refl, λ d. record { gross_sum = refl; rides_sum = refl; records = refl })
  settle_groups-IsSettledAs ((e, rides) ∷ gs) w =
      let (others, done, settled) =
        settle_groups-IsSettledAs gs (settle_driver percent payout e rides w).1 in
      (
        settled_record percent payout e rides (driver_row w e) ∷ others,
        rw done refl,
        λ d. record {
          gross_sum = omega (arith, (settled d).gross_sum);
          rides_sum =
              ap (λ n. counted (e == d) n + sum_by (rides_for d) others) (sum_once rides)
              ∙ omega (arith, (settled d).rides_sum);
          records = omega (arith, (settled d).records);
        },
      )

  -- A settlement that is enabled never fails. No driver has more than one of its records; the
  -- gross of the records of a driver is the sum of the fares of the rides of that driver that were
  -- completed in the last 24 hours, and their number of rides is the number of these rides.
  pub settle_daily-Balances :
      (w : World)
      → let due = select (is_settled (w.now - 24 * 60 * 60 * 1000)) (pf.rows w.rides) in
        (rs : List SettlementRecord) × ((settle_daily percent payout true w).0 ≡ ok rs)
        × ((d : ℕ)
            → (sum_by (gross_for d) rs ≡ sum_by (driven_by d fare_of) due)
              × (sum_by (rides_for d) rs ≡ sum_by (driven_by d once) due)
              × (sum_by (records_for d) rs ≤ 1))
  unfolding settle_daily
  settle_daily-Balances w =
      let due = select (is_settled (w.now - 24 * 60 * 60 * 1000)) (pf.rows w.rides) in
      let (rs, done, settled) = settle_groups-IsSettledAs (by_driver due []) w in
      (
        rs,
        done,
        λ d. (
          omega (arith, (settled d).gross_sum, total-by_driver d fare_of due []),
          omega (arith, (settled d).rides_sum, total-by_driver d once due []),
          omega (arith, (settled d).records, groups_of-by_driver d due [] (omega arith)),
        ),
      )

  -- The settlement of a registered driver adds to the wallet the sum of the fares less the
  -- commission, and records the same amount.
  pub settle_driver_lem :
      (driver_id : ℕ) (rides : List Ride) (w : World) (d : Driver)
      → driver_row w driver_id ≡ some d
      → let (result, w') = settle_driver percent payout driver_id rides w in
        (result ≡ ok (settled_record percent payout driver_id rides (some d)))
        × (driver_row w' driver_id
            ≡ some (record d {
              wallet_balance = d.wallet_balance +ℤ net_of percent payout rides;
              updated_at = w.now;
            }))
  unfolding settle_driver
  settle_driver_lem driver_id rides w d e = rw e (
    refl,
    driver_row-update_drivers driver_id
        (λ w d'. record d' {
          wallet_balance = d.wallet_balance +ℤ net_of percent payout rides;
          updated_at = w.now;
        })
        w (λ d'. refl) e,
  )
