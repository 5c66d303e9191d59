-- ===== src/Analytics/Days.antt =====
-- The days of a summary (src/modules/analytics/services/analytics.service.ts).
use obbian_ribe_booking_app.Base.{
  ℕ, ◌+◌, ◌<◌, ◌≡◌, refl, ap, sym, ◌∙◌, ◌==◌, ==_iff, Bool-cases, inl, inr, Option, none, some,
  List, [], ◌∷◌, if◌then◌else◌, length, select, sum_by, arith,
}
use obbian_ribe_booking_app.Base.Dict.{
  lookup, lookup-insert, HasDistinctKeys, insert-HasDistinctKeys,
}
use obbian_ribe_booking_app.Schema.{Ride, RideStatus}
use obbian_ribe_booking_app.Analytics.Service.{
  DayEntry, with_status, fare_of, day_of, count_ride, same_day, count_days, insert_day, by_date,
  per_day,
}

-- The rides of one day.
unfoldable pub rides_on : ℕ → List Ride → List Ride
rides_on day rides = select (λ r. day_of r == day) rides

-- What a day is to show: nothing if it has no ride.
unfoldable pub day_entry : List Ride → Option DayEntry
day_entry [] = none
day_entry (r ∷ rides) = some (record {
  count = length (r ∷ rides);
  gmv = sum_by fare_of (with_status RideStatus.completed (r ∷ rides));
})

-- An entry with the rides counted that come after.
abbrev with_more : DayEntry → List Ride → DayEntry
with_more e rides = record {
  count = e.count + length rides;
  gmv = e.gmv + sum_by fare_of (with_status RideStatus.completed rides);
}

abbrev counted : Option DayEntry → List Ride → Option DayEntry
counted none rides = day_entry rides
counted (some e) rides = some (with_more e rides)

counted-cons :
    (r : Ride) (entry : Option DayEntry) (rides : List Ride)
    → counted (some (count_ride r entry)) rides ≡ counted entry (r ∷ rides)
unfolding count_ride day_entry with_status select
counted-cons r none rides = ground arith
counted-cons r (some e) rides = ground arith

counted_nil : (entry : Option DayEntry) → counted entry [] ≡ entry
unfolding day_entry with_status select
counted_nil none = refl
counted_nil (some e) = ground arith

lookup-count_days :
    (day : ℕ) (rides : List Ride) (m : List (ℕ × DayEntry))
    → lookup same_day day (count_days m rides)
      ≡ counted (lookup same_day day m) (rides_on day rides)
unfolding count_days rides_on select
lookup-count_days day [] m = sym (counted_nil (lookup same_day day m))
lookup-count_days day (r ∷ rides) m =
    lookup-count_days day rides _
    ∙ ap (λ e. counted e (rides_on day rides))
        (lookup-insert same_day ==_iff (day_of r) day (count_ride r (lookup same_day (day_of r) m))
          m)
    ∙ (elim (Bool-cases (day_of r == day)) [
      | inl e ↦ rw e (
          ap (λ k. counted (some (count_ride r (lookup same_day k m))) (rides_on day rides))
            ((==_iff (day_of r) day).0 e)
          ∙ counted-cons r (lookup same_day day m) (rides_on day rides))
      | inr e ↦ rw e refl
    ])

lookup-insert_day :
    (day d : ℕ) (e : DayEntry) (es : List (ℕ × DayEntry))
    → lookup same_day day (insert_day (d, e) es)
      ≡ (if d == day then some e else lookup same_day day es)
unfolding lookup
lookup-insert_day day d e [] = refl
lookup-insert_day day d e ((c, x) ∷ es) = ground (arith, lookup-insert_day day d e es)

lookup-by_date :
    (day : ℕ) (ds : List (ℕ × DayEntry)) → lookup same_day day (by_date ds) ≡ lookup same_day day ds
unfolding lookup by_date
lookup-by_date day [] = refl
lookup-by_date day ((d, e) ∷ ds) =
    lookup-insert_day day d e (by_date ds) ∙ ground (arith, lookup-by_date day ds)

-- The days come in order, and none comes twice.
abbrev pub IsAfter : ℕ → List (ℕ × DayEntry) → Type 0
IsAfter day [] = Unit
IsAfter day (d ∷ ds) = (day < d.0) × IsAfter day ds

abbrev pub IsAscending : List (ℕ × DayEntry) → Type 0
IsAscending [] = Unit
IsAscending (d ∷ ds) = IsAfter d.0 ds × IsAscending ds

IsAfter-trans : (a b : ℕ) (ds : List (ℕ × DayEntry)) → a < b → IsAfter b ds → IsAfter a ds
IsAfter-trans a b [] h k = tt
IsAfter-trans a b (d ∷ ds) h k = (omega arith, IsAfter-trans a b ds h k.1)

insert_day-IsAfter :
    (a d : ℕ) (e : DayEntry) (es : List (ℕ × DayEntry))
    → a < d
    → IsAfter a es
    → IsAfter a (insert_day (d, e) es)
insert_day-IsAfter a d e [] h k = (h, tt)
insert_day-IsAfter a d e (x ∷ es) h k = ground (arith, insert_day-IsAfter a d e es)

insert_day-IsAscending :
    (d : ℕ) (e : DayEntry) (es : List (ℕ × DayEntry))
    → lookup same_day d es ≡ none
    → IsAscending es
    → IsAscending (insert_day (d, e) es)
unfolding lookup
insert_day-IsAscending d e [] absent up = (tt, tt)
insert_day-IsAscending d e ((c, x) ∷ es) absent up =
    ground (arith, insert_day-IsAscending d e es, IsAfter-trans d c es, insert_day-IsAfter c d e es)

by_date-IsAscending :
    (ds : List (ℕ × DayEntry)) → HasDistinctKeys same_day ds → IsAscending (by_date ds)
unfolding by_date
by_date-IsAscending [] h = tt
by_date-IsAscending ((d, e) ∷ ds) h =
    insert_day-IsAscending d e (by_date ds) (lookup-by_date d ds ∙ h.0) (by_date-IsAscending ds h.1)

count_days-HasDistinctKeys :
    (rides : List Ride) (m : List (ℕ × DayEntry))
    → HasDistinctKeys same_day m
    → HasDistinctKeys same_day (count_days m rides)
unfolding count_days
count_days-HasDistinctKeys [] m h = h
count_days-HasDistinctKeys (r ∷ rides) m h =
    count_days-HasDistinctKeys rides _ (insert-HasDistinctKeys same_day ==_iff (day_of r) _ m h)

pub per_day_lem :
    (rides : List Ride)
    → IsAscending (per_day rides)
      × ((day : ℕ) → lookup same_day day (per_day rides) ≡ day_entry (rides_on day rides))
unfolding per_day day_entry lookup
per_day_lem rides = (
  by_date-IsAscending (count_days [] rides) (count_days-HasDistinctKeys rides [] tt),
  λ day. lookup-by_date day (count_days [] rides) ∙ lookup-count_days day rides [],
)
