-- ===== src/Http/Idempotency.antt =====
-- src/common/interceptors/idempotency.interceptor.ts. A response is its JSON text, and a key is the text
-- that is made of the method, the URL and the header.
use Prim.Native.String.{String, ◌++◌}
use text.Mathlib.Text.{◌==◌ as same_text}
use obbian_ribe_booking_app.Base.{
  ℕ, ◌+◌, ◌*◌, ◌≤◌, ◌<◌, ◌≡◌, refl, Option, none, some, true, false, lt→ltb, arith,
}
use obbian_ribe_booking_app.Platform.{Platform, TextKey, same_text_key_refl}
use obbian_ribe_booking_app.World.{
  World, Action, ◌>>=◌, ◌>>◌, pure, redis_call, ignore_error, wait_until, ok,
}
use obbian_ribe_booking_app.Auth.Otp.{present}

abbrev pub idempotency_ttl_seconds : ℕ
idempotency_ttl_seconds = 300

pub record KeyedRequest : Type 0 where
  pub method : String
  pub original_url : String
  pub idempotency_key : Option String

unfoldable pub cache_key : KeyedRequest → String → TextKey
cache_key request key =
    TextKey.idempotent_response (request.method ++ ":" ++ request.original_url ++ ":" ++ key)

module _ ⦃pf : Platform⦄ where
  unfoldable pub store_response : TextKey → String → Action String
  store_response key response =
      ignore_error
        (redis_call (λ now s. (tt, pf.set_text now key response idempotency_ttl_seconds s)))
      >> pure response

  unfoldable pub handle_once : TextKey → Action String → Option String → Action String
  handle_once key handle (some cached) = pure cached
  handle_once key handle none = handle >>= store_response key

  abbrev with_key : KeyedRequest → Action String → Option String → Action String
  with_key request handle none = handle
  with_key request handle (some key) =
      redis_call (λ now s. (pf.get_text now (cache_key request key) s, s)) >>= λ cached.
      handle_once (cache_key request key) handle (present cached)

  unfoldable pub intercept : KeyedRequest → Action String → Action String
  intercept request handle = with_key request handle (present request.idempotency_key)

  abbrev kept : KeyedRequest → String → String → World → World
  kept request key response v = record v {
    redis = pf.set_text v.now (cache_key request key) response idempotency_ttl_seconds v.redis;
  }

  intercept_first :
      (request : KeyedRequest) (key response : String) (handle : Action String) (w v : World)
      → present request.idempotency_key ≡ some key
      → w.redis_up ≡ true
      → present (pf.get_text w.now (cache_key request key) w.redis) ≡ none
      → handle w ≡ (ok response, v)
      → v.redis_up ≡ true
      → intercept request handle w ≡ (ok response, kept request key response v)
  unfolding intercept handle_once store_response
  intercept_first request key response handle w v keyed up fresh handled still =
      rw keyed (ground arith)

  intercept_stored :
      (request : KeyedRequest) (key response : String) (handle : Action String) (w : World)
      → present request.idempotency_key ≡ some key
      → w.redis_up ≡ true
      → present (pf.get_text w.now (cache_key request key) w.redis) ≡ some response
      → intercept request handle w ≡ (ok response, w)
  unfolding intercept handle_once
  intercept_stored request key response handle w keyed up stored = rw keyed (ground arith)

  -- A request whose handler has answered is answered by that response for the next five minutes, and
  -- changes nothing, whatever handler it has, if Redis has been up and no response was stored before.
  pub intercept_replays :
      (request : KeyedRequest) (key response : String) (handle again : Action String) (w v : World)
      (later : ℕ)
      → present request.idempotency_key ≡ some key
      → w.redis_up ≡ true
      → present (pf.get_text w.now (cache_key request key) w.redis) ≡ none
      → handle w ≡ (ok response, v)
      → v.redis_up ≡ true
      → same_text response "" ≡ false
      → v.now ≤ later
      → later < v.now + 1000 * idempotency_ttl_seconds
      → let (first, u) = intercept request handle w in
        (first ≡ ok response)
        × (intercept request again (wait_until later u) ≡ (ok response, wait_until later u))
  intercept_replays request key response handle again w v later keyed up fresh handled still proper
        h valid =
      rw (intercept_first request key response handle w v keyed up fresh handled still) (
        refl,
        intercept_stored request key response again (wait_until later (kept request key response v))
            keyed still
            (rw
              (
                pf.get_text-set_text v.now later (cache_key request key) (cache_key request key)
                    response idempotency_ttl_seconds v.redis h,
                same_text_key_refl (cache_key request key),
                lt→ltb later (v.now + 1000 * idempotency_ttl_seconds) valid,
                proper,
              )
              refl),
      )
