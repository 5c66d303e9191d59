-- ===== src/Maps/Cache.antt =====
-- How long a route is kept (src/modules/maps/services/maps.service.ts).
use Prim.Native.String.{String}
use text.Mathlib.Text.{◌==◌ as same_text}
use obbian_ribe_booking_app.Base.{
  ℕ, ◌+◌, ◌*◌, ◌≤◌, ◌<◌, ◌≡◌, refl, ap, ◌∙◌, Bool, true, false, not, ◌||◌, Bool-cases, inl, inr,
  Option, none, some, ℤ, arith,
}
use obbian_ribe_booking_app.Platform.{Platform, TextKey, same_text_key_refl}
use obbian_ribe_booking_app.World.{
  World, Action, ◌>>=◌, ◌>>◌, pure, throw_if, or_throw, Outcome, ok, err, Failure, resume,
  wait_until,
}
use obbian_ribe_booking_app.World.Inversion.{then_rest}
use obbian_ribe_booking_app.Maps.Api.{RouteInfo, MapsApi, Texts}
use obbian_ribe_booking_app.Maps.Service.{
  MapsConfig, first, filled, route_of, route_key, route_ttl, google_route, osrm_route,
  provider_route, read_text, keep_text, present, or_else, get_route,
}

module _ ⦃pf : Platform⦄ where
  -- An action that only reads.
  Keeps : {A : Type 0} → Action A → Type 0
  Keeps m = (w : World) → (m w).1 ≡ w

  or_throw-Keeps : {A : Type 0} (o : Option A) (e : Failure) → Keeps (or_throw o e)
  unfolding Keeps
  or_throw-Keeps none e w = refl
  or_throw-Keeps (some a) e w = refl

  throw_if-Keeps : (b : Bool) (e : Failure) → Keeps (throw_if b e)
  unfolding Keeps
  throw_if-Keeps true e w = refl
  throw_if-Keeps false e w = refl

  pure-Keeps : {A : Type 0} (a : A) → Keeps (pure a)
  unfolding Keeps
  pure-Keeps a w = refl

  resume-Keeps :
      {A B : Type 0} (o : Outcome A) (f : A → Action B)
      → ((a : A) → Keeps (f a))
      → Keeps (resume o f)
  unfolding Keeps
  resume-Keeps (ok a) f h w = h a w
  resume-Keeps (err e) f h w = refl

  >>=-Keeps :
      {A B : Type 0} (m : Action A) (f : A → Action B)
      → Keeps m
      → ((a : A) → Keeps (f a))
      → Keeps (m >>= f)
  unfolding Keeps
  >>=-Keeps m f h k w = resume-Keeps (m w).0 f k (m w).1 ∙ h w

  -- An action after which Redis is still up, at the same time.
  KeepsUp : {A : Type 0} → Action A → Type 0
  KeepsUp m = (w : World) → w.redis_up ≡ true → ((m w).1.redis_up ≡ true) × ((m w).1.now ≡ w.now)

  Keeps-KeepsUp : {A : Type 0} (m : Action A) → Keeps m → KeepsUp m
  unfolding Keeps KeepsUp
  Keeps-KeepsUp m h w up = rw (h w) (up, refl)

  resume-KeepsUp :
      {A B : Type 0} (o : Outcome A) (f : A → Action B)
      → ((a : A) → KeepsUp (f a))
      → KeepsUp (resume o f)
  unfolding KeepsUp
  resume-KeepsUp (ok a) f h w up = h a w up
  resume-KeepsUp (err e) f h w up = (up, refl)

  >>=-KeepsUp :
      {A B : Type 0} (m : Action A) (f : A → Action B)
      → KeepsUp m
      → ((a : A) → KeepsUp (f a))
      → KeepsUp (m >>= f)
  unfolding KeepsUp
  >>=-KeepsUp m f h k w up =
      let (still, same) = h w up in
      let (after, same') = resume-KeepsUp (m w).0 f k (m w).1 still in (after, same' ∙ same)

  or_else-KeepsUp :
      {A : Type 0} (o : Option String) (f : String → Action A) (m : Action A)
      → ((s : String) → KeepsUp (f s))
      → KeepsUp m
      → KeepsUp (or_else o f m)
  or_else-KeepsUp none f m h k = k
  or_else-KeepsUp (some s) f m h k = h s

  -- The state in which a text is kept.
  abbrev pub kept : TextKey → String → ℕ → World → World
  kept key text seconds w = record w { redis = pf.set_text w.now key text seconds w.redis }

  pub keep_text_up :
      (key : TextKey) (text : String) (seconds : ℕ) (w : World)
      → w.redis_up ≡ true
      → keep_text key text seconds w ≡ (ok tt, kept key text seconds w)
  unfolding keep_text
  keep_text_up key text seconds w up = ground arith

  pub read_text_up :
      (key : TextKey) (w : World)
      → w.redis_up ≡ true
      → read_text key w ≡ (ok (pf.get_text w.now key w.redis), w)
  unfolding read_text
  read_text_up key w up = ground arith

  keep_text-KeepsUp :
      (key : TextKey) (text : String) (seconds : ℕ) → KeepsUp (keep_text key text seconds)
  unfolding KeepsUp
  keep_text-KeepsUp key text seconds w up = rw (keep_text_up key text seconds w up) (up, refl)

  read_text-KeepsUp : (key : TextKey) → KeepsUp (read_text key)
  unfolding KeepsUp
  read_text-KeepsUp key w up = rw (read_text_up key w up) (up, refl)

  -- A text that has just been kept is read until its time is over.
  pub read_text-kept :
      (key : TextKey) (text : String) (seconds later : ℕ) (w : World)
      → w.redis_up ≡ true
      → w.now ≤ later
      → later < w.now + 1000 * seconds
      → let after = wait_until later (kept key text seconds w) in
        read_text key after ≡ (ok (some text), after)
  read_text-kept key text seconds later w up from until =
      read_text_up key (wait_until later (kept key text seconds w)) up
      ∙ ap (λ o. (ok o, wait_until later (kept key text seconds w)))
          (pf.get_text-set_text w.now later key key text seconds w.redis from
            ∙ ground (arith, same_text_key_refl key))

module _ ⦃pf : Platform⦄ (api : MapsApi) (texts : Texts) (config : MapsConfig)
    (p_lat p_lon d_lat d_lon : ℤ) where
  google_route-Keeps : Keeps (google_route api texts config p_lat p_lon d_lat d_lon)
  unfolding google_route
  google_route-Keeps =
      >>=-Keeps _ _ (throw_if-Keeps (not (filled config.google_api_key)) Failure.unavailable) λ _.
        >>=-Keeps _ _ (or_throw-Keeps (api.directions p_lat p_lon d_lat d_lon) Failure.internal)
          λ a. >>=-Keeps _ _ (throw_if-Keeps (not a.is_ok) Failure.unavailable) λ _.
            >>=-Keeps _ _ (or_throw-Keeps (first a.routes) Failure.unavailable)
              λ r. pure-Keeps (route_of r)

  osrm_route-Keeps : Keeps (osrm_route api texts config p_lat p_lon d_lat d_lon)
  unfolding osrm_route
  osrm_route-Keeps =
      >>=-Keeps _ _ (or_throw-Keeps (api.osrm p_lat p_lon d_lat d_lon) Failure.internal) λ a.
        >>=-Keeps _ _ (throw_if-Keeps (not a.is_ok || a.is_empty) Failure.unavailable) λ _.
          >>=-Keeps _ _ (throw_if-Keeps (not a.code_ok) Failure.unavailable)
            λ _. or_throw-Keeps (first a.routes) Failure.unavailable

  provider_route-Keeps : Keeps (provider_route api texts config p_lat p_lon d_lat d_lon)
  unfolding provider_route
  provider_route-Keeps = elim (Bool-cases (same_text config.provider "google")) [
    | inl e ↦ rw e google_route-Keeps
    | inr e ↦ rw e osrm_route-Keeps
  ]

  get_route-KeepsUp : KeepsUp (get_route api texts config p_lat p_lon d_lat d_lon)
  unfolding get_route
  get_route-KeepsUp =
      let key = route_key p_lat p_lon d_lat d_lon in
      >>=-KeepsUp _ _ (read_text-KeepsUp key) λ cached.
        or_else-KeepsUp (present cached) _ _
          (λ text. Keeps-KeepsUp _ (or_throw-Keeps (texts.parse text) Failure.internal))
          (>>=-KeepsUp _ _ (Keeps-KeepsUp _ provider_route-Keeps) λ found.
            >>=-KeepsUp _ _ (keep_text-KeepsUp key (texts.stringify found) route_ttl)
              λ _. Keeps-KeepsUp _ (pure-Keeps found))

  pub get_route_up :
      (w : World)
      → w.redis_up ≡ true
      → let after = (get_route api texts config p_lat p_lon d_lat d_lon w).1 in
        (after.redis_up ≡ true) × (after.now ≡ w.now)
  unfolding KeepsUp
  get_route_up w up = get_route-KeepsUp w up

  -- Where no route is kept, the provider is asked, and its route is kept.
  pub get_route_lem :
      (w : World)
      → w.redis_up ≡ true
      → present (pf.get_text w.now (route_key p_lat p_lon d_lat d_lon) w.redis) ≡ none
      → {r : RouteInfo} → (provider_route api texts config p_lat p_lon d_lat d_lon w).0 ≡ ok r
      → get_route api texts config p_lat p_lon d_lat d_lon w
        ≡ (ok r, kept (route_key p_lat p_lon d_lat d_lon) (texts.stringify r) route_ttl w)
  unfolding get_route Keeps
  get_route_lem w up free {r} found =
      let key = route_key p_lat p_lon d_lat d_lon in
      then_rest (read_text key) _ (read_text_up key w up)
      ∙ ap
          (λ o.
            or_else o (λ text. or_throw (texts.parse text) Failure.internal)
              (provider_route api texts config p_lat p_lon d_lat d_lon >>= λ r'.
                keep_text key (texts.stringify r') route_ttl >> pure r')
              w)
          free
      ∙ then_rest (provider_route api texts config p_lat p_lon d_lat d_lon) _
          (λ i. (found i, provider_route-Keeps w i))
      ∙ then_rest (keep_text key (texts.stringify r) route_ttl) _
          (keep_text_up key (texts.stringify r) route_ttl w up)

  get_route-present :
      (text : String) (v : World) {r : RouteInfo}
      → texts.parse text ≡ some r
      → same_text text "" ≡ false
      → read_text (route_key p_lat p_lon d_lat d_lon) v ≡ (ok (some text), v)
      → (get_route api texts config p_lat p_lon d_lat d_lon v).0 ≡ ok r
  unfolding get_route
  get_route-present text v reads full there =
      ap (λ a. a.0) (then_rest (read_text (route_key p_lat p_lon d_lat d_lon)) _ there)
      ∙ rw full (rw reads refl)

module _ ⦃pf : Platform⦄ (api other_api : MapsApi) (texts : Texts) (config : MapsConfig) where
  -- With Redis up, a route that the provider gives and that is not kept yet is answered and kept:
  -- for the next 30 seconds every request with the same rounded coordinates gets it, whatever the
  -- provider says, if the JSON text of that route is not empty and reads back.
  pub get_route-get_route :
      (p_lat p_lon d_lat d_lon p_lat' p_lon' d_lat' d_lon' : ℤ) (later : ℕ) (w : World)
      {r : RouteInfo}
      → w.redis_up ≡ true
      → present (pf.get_text w.now (route_key p_lat p_lon d_lat d_lon) w.redis) ≡ none
      → (provider_route api texts config p_lat p_lon d_lat d_lon w).0 ≡ ok r
      → texts.parse (texts.stringify r) ≡ some r
      → same_text (texts.stringify r) "" ≡ false
      → route_key p_lat' p_lon' d_lat' d_lon' ≡ route_key p_lat p_lon d_lat d_lon
      → w.now ≤ later
      → later < w.now + 30_000
      → let (answer, after) = get_route api texts config p_lat p_lon d_lat d_lon w in
        (answer ≡ ok r)
        × ((get_route other_api texts config p_lat' p_lon' d_lat' d_lon' (wait_until later after)).0
            ≡ ok r)
  get_route-get_route p_lat p_lon d_lat d_lon p_lat' p_lon' d_lat' d_lon' later w {r} up free found
        reads full same from until =
      let asked = get_route_lem api texts config p_lat p_lon d_lat d_lon w up free found in
      (
        ap (λ a. a.0) asked,
        ap
              (λ a.
                (get_route other_api texts config p_lat' p_lon' d_lat' d_lon'
                  (wait_until later a.1)).0)
              asked
            ∙ get_route-present other_api texts config p_lat' p_lon' d_lat' d_lon'
                (texts.stringify r) _ reads full
                (ap
                    (λ k. read_text k (
                      wait_until later
                        (kept (route_key p_lat p_lon d_lat d_lon) (texts.stringify r) route_ttl w)))
                    same
                  ∙ read_text-kept (route_key p_lat p_lon d_lat d_lon) (texts.stringify r) route_ttl
                      later w up from until),
      )
