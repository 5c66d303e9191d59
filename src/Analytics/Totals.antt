-- ===== src/Analytics/Totals.antt =====
-- The totals of a summary, and when there is one (src/modules/analytics/services/analytics.service.ts).
use native.Mathlib.Nat.{mul-le-mul, le_refl, div-lt_iff_lt-mul}
use obbian_ribe_booking_app.Base.{
  ℕ, suc, ◌+◌, ◌*◌, ◌/◌, ◌≤◌, ◌<◌, ◌≡◌, refl, ◌==◌, Bool, Bool-cases, inl, inr, List, [], ◌∷◌,
  length, select, sum_by, if◌then◌else◌, arith,
}
use obbian_ribe_booking_app.Base.Dict.{lookup}
use obbian_ribe_booking_app.Analytics.Days.{IsAscending, rides_on, day_entry, per_day_lem}
use obbian_ribe_booking_app.Platform.{Platform}
use obbian_ribe_booking_app.World.{World, ok}
use obbian_ribe_booking_app.Schema.{Ride, RideStatus, same_status}
use obbian_ribe_booking_app.Analytics.Service.{
  AnalyticsSummary, statuses, same_day, with_status, by_status, totals_of, rounded_ratio,
  window_start, rides_since, summary_of, summary,
}

-- How many of the rides have the status.
with : RideStatus → List Ride → ℕ
with s rides = length (with_status s rides)

is : RideStatus → RideStatus → ℕ
is a b = if same_status a b then 1 else 0

with-cons :
    (s : RideStatus) (r : Ride) (rides : List Ride)
    → with s (r ∷ rides) ≡ is r.status s + with s rides
unfolding with with_status select is
with-cons s r rides = ground arith

-- Each ride has one of the seven statuses.
one_status : (a : RideStatus) → sum_by (is a) statuses ≡ 1
unfolding is same_status
one_status RideStatus.requested = refl
one_status RideStatus.matching = refl
one_status RideStatus.accepted = refl
one_status RideStatus.arrived = refl
one_status RideStatus.in_progress = refl
one_status RideStatus.completed = refl
one_status RideStatus.cancelled = refl

sum_by-add :
    (f g h : RideStatus → ℕ) (ss : List RideStatus)
    → ((s : RideStatus) → h s ≡ f s + g s)
    → sum_by h ss ≡ sum_by f ss + sum_by g ss
sum_by-add f g h [] e = omega arith
sum_by-add f g h (s ∷ ss) e = omega (arith, e s, sum_by-add f g h ss e)

with_sum_nil : sum_by (λ s. with s []) statuses ≡ 0
unfolding with with_status select
with_sum_nil = refl

with_sum : (rides : List Ride) → sum_by (λ s. with s rides) statuses ≡ length rides
with_sum [] = with_sum_nil
with_sum (r ∷ rides) = omega (
  arith,
  sum_by-add (is r.status) (λ s. with s rides) (λ s. with s (r ∷ rides)) statuses
      (λ s. with-cons s r rides),
  one_status r.status,
  with_sum rides,
)

by_status_sum : (rides : List Ride) → sum_by (λ e. e.1) (by_status rides) ≡ length rides
unfolding by_status with
by_status_sum rides = with_sum rides

length-select-le : (p : Ride → Bool) (rides : List Ride) → length (select p rides) ≤ length rides
unfolding select
length-select-le p [] = omega arith
length-select-le p (r ∷ rides) = ground (arith, length-select-le p rides)

rounded_ratio-le : (k a b : ℕ) → a ≤ b → rounded_ratio (k * a) b ≤ k
unfolding rounded_ratio
rounded_ratio-le k a b h = elim (Bool-cases (b == 0)) [
  | inl e ↦ rw e (omega arith)
  | inr e ↦
      let scaled = mul-le-mul (le_refl k) h in
      let below : (2 * (k * a) + b) / (2 * b) < suc k =
        (div-lt_iff_lt-mul {k = 2 * b} (ground arith)).1 (grind arith) in
      rw e (omega (arith, below))
]

-- What the figures of a summary say of the rides of its window.
pub record AccountsFor (rides : List Ride) (s : AnalyticsSummary) : Type 0 where
  pub requested : s.totals.rides_requested ≡ length rides
  pub statuses_add_up : sum_by (λ e. e.1) s.rides_by_status ≡ length rides
  pub rate : s.totals.cancellation_rate ≤ 1000
  pub in_order : IsAscending s.rides_per_day
  pub days : (day : ℕ) → lookup same_day day s.rides_per_day ≡ day_entry (rides_on day rides)

module _ ⦃pf : Platform⦄ where
  summary_of-AccountsFor :
      (from : ℕ) (rides : List Ride) (w : World) → AccountsFor rides (summary_of from rides w)
  unfolding summary_of totals_of with_status
  summary_of-AccountsFor from rides w = record {
    requested = refl;
    statuses_add_up = by_status_sum rides;
    rate =
        rounded_ratio-le 1000 _ (length rides)
          (length-select-le (λ r. same_status r.status RideStatus.cancelled) rides);
    in_order = (per_day_lem rides).0;
    days = (per_day_lem rides).1;
  }

  -- If a ride is in the window, there is a summary: the numbers of its statuses add up to the
  -- number of rides in the window, its cancellation rate is at most 100 percent, and its days come
  -- in order, with for every day exactly the number of rides and the fares of its completed ones,
  -- or nothing if it has no ride.
  pub summary_lem :
      (days : ℕ) (w : World)
      → 0 < length (rides_since (window_start days w) w)
      → (s : AnalyticsSummary) × (summary days w ≡ (ok s, w))
        × AccountsFor (rides_since (window_start days w) w) s
  unfolding summary
  summary_lem days w some_ride =
      let from = window_start days w in
      let rides = rides_since from w in
      (summary_of from rides w, ground arith, summary_of-AccountsFor from rides w)
