-- ===== src/Analytics/Routes.antt =====
-- The top routes of a summary (src/modules/analytics/services/analytics.service.ts).
use obbian_ribe_booking_app.Base.{
  ℕ, zero, suc, ◌+◌, ◌≤◌, ◌<◌, ◌≡◌, ◌↔◌, ◌⊎◌, refl, ap, sym, ◌∙◌, subst, true, false, Bool-cases,
  inl, inr, Option, none, some, List, [], ◌∷◌, if◌then◌else◌, length, select, take, length-take-le,
  same_int_iff, arith,
}
use obbian_ribe_booking_app.Base.Dict.{
  lookup, lookup-insert, HasDistinctKeys, insert-HasDistinctKeys,
}
use obbian_ribe_booking_app.Schema.{Ride}
use obbian_ribe_booking_app.Analytics.Service.{
  Route, route_of, same_route, or_zero, count_routes, insert_route, by_count, top_routes,
}

pub same_route_iff : (a b : Route) → (same_route a b ≡ true) ↔ (a ≡ b)
unfolding same_route
same_route_iff a b = (
  λ h. ground (
    arith,
    same_int_iff a.pickup_lat b.pickup_lat,
    same_int_iff a.pickup_lon b.pickup_lon,
    same_int_iff a.dropoff_lat b.dropoff_lat,
    same_int_iff a.dropoff_lon b.dropoff_lon,
  ),
  λ h. ground (
    arith,
    same_int_iff a.pickup_lat b.pickup_lat,
    same_int_iff a.pickup_lon b.pickup_lon,
    same_int_iff a.dropoff_lat b.dropoff_lat,
    same_int_iff a.dropoff_lon b.dropoff_lon,
  ),
)

-- How many of the rides take the route.
unfoldable pub trips : Route → List Ride → ℕ
trips route rides = length (select (λ r. same_route (route_of r) route) rides)

trips_on : Route → List Ride → Option ℕ → Option ℕ
trips_on route rides (some n) = some (n + trips route rides)
trips_on route rides none = elim (trips route rides) [ zero ↦ none | suc n ↦ some (suc n) ]

abbrev Counts : Type 0
Counts = List (Route × ℕ)

lookup-count_routes :
    (k : Route) (rides : List Ride) (m : Counts)
    → lookup same_route k (count_routes m rides) ≡ trips_on k rides (lookup same_route k m)
unfolding count_routes trips_on trips select
lookup-count_routes k [] m = ground arith
lookup-count_routes k (r ∷ rides) m =
    lookup-count_routes k rides _
    ∙ ap (trips_on k rides) (
        lookup-insert same_route same_route_iff (route_of r) k
          (or_zero (lookup same_route (route_of r) m) + 1) m)
    ∙ (elim (Bool-cases (same_route (route_of r) k)) [
      | inl e ↦ rw e (
          ap (λ j. trips_on k rides (some (or_zero (lookup same_route j m) + 1)))
            ((same_route_iff (route_of r) k).0 e)
          ∙ ground arith)
      | inr e ↦ rw e (ground arith)
    ])

count_routes-HasDistinctKeys :
    (rides : List Ride) (m : Counts)
    → HasDistinctKeys same_route m
    → HasDistinctKeys same_route (count_routes m rides)
unfolding count_routes
count_routes-HasDistinctKeys [] m h = h
count_routes-HasDistinctKeys (r ∷ rides) m h =
    count_routes-HasDistinctKeys rides _
      (insert-HasDistinctKeys same_route same_route_iff (route_of r) _ m h)

not_both : (c d k : Route) → same_route c d ≡ false → same_route d k ≡ true → same_route c k ≡ false
not_both c d k apart e = rw (← (same_route_iff d k).0 e) apart

lookup-insert_route :
    (k d : Route) (n : ℕ) (es : Counts)
    → lookup same_route d es ≡ none
    → lookup same_route k (insert_route (d, n) es)
      ≡ (if same_route d k then some n else lookup same_route k es)
unfolding lookup
lookup-insert_route k d n [] h = refl
lookup-insert_route k d n ((c, x) ∷ es) h =
    ground (arith, lookup-insert_route k d n es, not_both c d k)

-- Counts that do not rise.
abbrev pub AtMost : ℕ → Counts → Type 0
AtMost n [] = Unit
AtMost n (d ∷ ds) = (d.1 ≤ n) × AtMost n ds

abbrev pub IsDescending : Counts → Type 0
IsDescending [] = Unit
IsDescending (d ∷ ds) = AtMost d.1 ds × IsDescending ds

insert_route-AtMost :
    (a n : ℕ) (d : Route) (es : Counts) → n ≤ a → AtMost a es → AtMost a (insert_route (d, n) es)
insert_route-AtMost a n d [] h k = (h, tt)
insert_route-AtMost a n d (x ∷ es) h k = ground (arith, insert_route-AtMost a n d es)

AtMost-trans : (a b : ℕ) (ds : Counts) → b ≤ a → AtMost b ds → AtMost a ds
AtMost-trans a b [] h k = tt
AtMost-trans a b (d ∷ ds) h k = (omega arith, AtMost-trans a b ds h k.1)

insert_route-IsDescending :
    (d : Route) (n : ℕ) (es : Counts) → IsDescending es → IsDescending (insert_route (d, n) es)
insert_route-IsDescending d n [] down = (tt, tt)
insert_route-IsDescending d n (x ∷ es) down =
    ground (
      arith,
      insert_route-IsDescending d n es,
      AtMost-trans n x.1 es,
      insert_route-AtMost x.1 n d es,
    )

by_count-IsDescending : (ds : Counts) → IsDescending (by_count ds)
unfolding by_count
by_count-IsDescending [] = tt
by_count-IsDescending ((d, n) ∷ ds) =
    insert_route-IsDescending d n (by_count ds) (by_count-IsDescending ds)

lookup-by_count :
    (k : Route) (ds : Counts)
    → HasDistinctKeys same_route ds
    → lookup same_route k (by_count ds) ≡ lookup same_route k ds
unfolding lookup by_count
lookup-by_count k [] h = refl
lookup-by_count k ((d, n) ∷ ds) h =
    lookup-insert_route k d n (by_count ds) (lookup-by_count d ds h.1 ∙ h.0)
    ∙ ground (arith, lookup-by_count k ds h.1)

-- No count is below the number.
abbrev pub AtLeast : ℕ → Counts → Type 0
AtLeast n [] = Unit
AtLeast n (d ∷ ds) = (n ≤ d.1) × AtLeast n ds

lookup-AtMost :
    (a : ℕ) (k : Route) (ds : Counts) → AtMost a ds → or_zero (lookup same_route k ds) ≤ a
unfolding lookup
lookup-AtMost a k [] h = omega arith
lookup-AtMost a k (d ∷ ds) h = ground (arith, lookup-AtMost a k ds)

-- A route is kept with its count, or cut off with one that is not above those kept.
IsKept : ℕ → Counts → Counts → Route → Type 0
IsKept limit top all k =
    (lookup same_route k top ≡ lookup same_route k all)
    ⊎ ((lookup same_route k top ≡ none)
        × AtLeast (or_zero (lookup same_route k all)) top
        × (length top ≡ limit))

missed :
    (d : Route × ℕ) (ds : Counts) (k : Route) (top : Counts)
    → same_route d.0 k ≡ false
    → AtLeast (or_zero (lookup same_route k ds)) top
    → AtLeast (or_zero (lookup same_route k (d ∷ ds))) top
unfolding lookup
missed d ds k top e =
    subst (λ b. AtLeast (or_zero (if b then some d.1 else lookup same_route k ds)) top) (sym e)

take-IsKept :
    (limit : ℕ) (ds : Counts) (k : Route) → IsDescending ds → IsKept limit (take limit ds) ds k
unfolding IsKept take lookup
take-IsKept zero ds k down = inr (refl, tt, refl)
take-IsKept (suc limit) [] k down = inl refl
take-IsKept (suc limit) (d ∷ ds) k down = elim (Bool-cases (same_route d.0 k)) [
  | inl e ↦ inl (rw e refl)
  | inr e ↦ elim (take-IsKept limit ds k down.1) [
    | inl kept ↦ inl (rw e kept)
    | inr cut ↦ inr (
      rw e cut.0,
      (rw e (lookup-AtMost d.1 k ds down.0), missed d ds k (take limit ds) e cut.1),
      ap suc cut.2,
    )
  ]
]

take-IsDescending : (limit : ℕ) (ds : Counts) → IsDescending ds → IsDescending (take limit ds)
unfolding take
take-IsDescending zero ds down = tt
take-IsDescending (suc limit) [] down = tt
take-IsDescending (suc limit) (d ∷ ds) down =
    (take-AtMost d.1 limit ds down.0, take-IsDescending limit ds down.1)
  where
    take-AtMost : (a limit : ℕ) (ds : Counts) → AtMost a ds → AtMost a (take limit ds)
    take-AtMost a zero ds h = tt
    take-AtMost a (suc limit) [] h = tt
    take-AtMost a (suc limit) (d ∷ ds) h = (h.0, take-AtMost a limit ds h.1)

AtLeast-zero : (ds : Counts) → AtLeast 0 ds
AtLeast-zero [] = tt
AtLeast-zero (d ∷ ds) = (omega arith, AtLeast-zero ds)

-- A route is listed with its number of trips; if it is not, no listed route has fewer trips, and it
-- has none at all unless ten routes are listed.
abbrev pub IsRanked : Counts → ℕ → Route → Type 0
IsRanked top n k =
    (lookup same_route k top ≡ some n)
    ⊎ ((lookup same_route k top ≡ none) × AtLeast n top × (length top < 10 → n ≡ 0))

counted-IsRanked :
    (n : ℕ) (top all : Counts) (k : Route)
    → lookup same_route k all ≡ (elim n [ zero ↦ none | suc m ↦ some (suc m) ])
    → IsKept 10 top all k
    → IsRanked top n k
unfolding IsKept
counted-IsRanked zero top all k e (inl kept) = inr (kept ∙ e, AtLeast-zero top, λ h. refl)
counted-IsRanked (suc n) top all k e (inl kept) = inl (kept ∙ e)
counted-IsRanked zero top all k e (inr cut) = inr (cut.0, AtLeast-zero top, λ h. refl)
counted-IsRanked (suc n) top all k e (inr cut) =
    inr (cut.0, subst (λ o. AtLeast (or_zero o) top) e cut.1, λ h. absurd (omega (arith, cut.2, h)))

-- At most ten routes are shown, in an order in which the counts do not rise; a route that is shown
-- has its number of rides as its count, and one that is not has no more rides than any that is,
-- and none if fewer than ten are shown.
pub top_routes_lem :
    (rides : List Ride)
    → (length (top_routes rides) ≤ 10)
      × IsDescending (top_routes rides)
      × ((k : Route) → IsRanked (top_routes rides) (trips k rides) k)
unfolding top_routes trips_on lookup
top_routes_lem rides =
    let counts = count_routes [] rides in
    let down = by_count-IsDescending counts in
    (
      length-take-le 10 (by_count counts),
      take-IsDescending 10 (by_count counts) down,
      λ k.
          counted-IsRanked (trips k rides) _ (by_count counts) k
            (lookup-by_count k counts (count_routes-HasDistinctKeys rides [] tt)
              ∙ lookup-count_routes k rides [])
            (take-IsKept 10 (by_count counts) k down),
    )
