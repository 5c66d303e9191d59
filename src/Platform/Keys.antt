-- ===== src/Platform/Keys.antt =====
-- The Redis keys that the services build.
use Prim.Native.String.{String}
use text.Mathlib.Text.{◌==◌ as same_text}
use text.Mathlib.TextPositions.{eq_refl}
use obbian_ribe_booking_app.Base.{
  ℕ, ◌==◌, ==-refl, ◌≡◌, refl, Bool, true, false, ◌&&◌, ℤ, same_int, same_int_refl,
}

pub data RedisKey : Type 0 where
  -- promo:PROMO:user:USER
  promo_usage : ℕ → ℕ → RedisKey
  -- ride:claim:RIDE
  claim : ℕ → RedisKey
  -- offer:RIDE:DRIVER
  offer : ℕ → ℕ → RedisKey
  -- fraud:dup:RIDER:LAT,LON:CITY
  duplicate_pickup : ℕ → ℤ → ℤ → String → RedisKey
  -- surge:demand:CITY:CELL
  surge_demand : String → ℕ → RedisKey
  -- surge:multiplier:CITY:CELL
  surge_multiplier : String → ℕ → RedisKey
  -- driver:DRIVER:heartbeat
  heartbeat : ℕ → RedisKey
  -- otp:PHONE:attempts
  otp_attempts : String → RedisKey

-- The keys of values that the services read as text.
pub data TextKey : Type 0 where
  -- otp:PHONE
  otp : String → TextKey
  -- the response that the interceptor keeps under an Idempotency-Key
  idempotent_response : String → TextKey
  -- socket:user:USER
  socket_of : ℕ → TextKey
  -- geocode:LAT,LON
  geocode : ℤ → ℤ → TextKey
  -- route:LAT,LON:LAT,LON
  route : ℤ → ℤ → ℤ → ℤ → TextKey
  -- eta:RIDE
  eta : ℕ → TextKey

-- The value of driver:DRIVER:location.
pub record Position : Type 0 where
  pub lat : ℤ
  pub lon : ℤ
  pub timestamp : ℕ

unfoldable pub same_key : RedisKey → RedisKey → Bool
same_key (promo_usage p u) (promo_usage q v) = p == q && u == v
same_key (claim a) (claim b) = a == b
same_key (offer a d) (offer b e) = a == b && d == e
same_key (duplicate_pickup r x y c) (duplicate_pickup s u v d) =
    r == s && (same_int x u && (same_int y v && same_text c d))
same_key (surge_demand c x) (surge_demand d y) = same_text c d && x == y
same_key (surge_multiplier c x) (surge_multiplier d y) = same_text c d && x == y
same_key (heartbeat a) (heartbeat b) = a == b
same_key (otp_attempts p) (otp_attempts q) = same_text p q
same_key _ _ = false

pub same_key-promo_usage : (p u : ℕ) → same_key (promo_usage p u) (promo_usage p u) ≡ true
unfolding same_key
same_key-promo_usage p u = rw (==-refl p, ==-refl u) refl

pub same_key-claim : (r : ℕ) → same_key (claim r) (claim r) ≡ true
unfolding same_key
same_key-claim r = ==-refl r

pub same_key-offer : (r d : ℕ) → same_key (offer r d) (offer r d) ≡ true
unfolding same_key
same_key-offer r d = rw (==-refl r, ==-refl d) refl

pub same_key-offer-claim : (r d s : ℕ) → same_key (offer r d) (claim s) ≡ false
unfolding same_key
same_key-offer-claim r d s = refl

pub same_key-claim-offer : (r d s : ℕ) → same_key (claim s) (offer r d) ≡ false
unfolding same_key
same_key-claim-offer r d s = refl

unfoldable pub same_text_key : TextKey → TextKey → Bool
same_text_key (otp p) (otp q) = same_text p q
same_text_key (idempotent_response a) (idempotent_response b) = same_text a b
same_text_key (socket_of a) (socket_of b) = a == b
same_text_key (geocode x y) (geocode u v) = same_int x u && same_int y v
same_text_key (route x y z t) (route u v w s) =
    same_int x u && (same_int y v && (same_int z w && same_int t s))
same_text_key (eta a) (eta b) = a == b
same_text_key _ _ = false

pub same_key-otp_attempts : (p : String) → same_key (otp_attempts p) (otp_attempts p) ≡ true
unfolding same_key
same_key-otp_attempts p = eq_refl p

pub same_text_key_refl : (k : TextKey) → same_text_key k k ≡ true
unfolding same_text_key
same_text_key_refl (otp p) = eq_refl p
same_text_key_refl (idempotent_response a) = eq_refl a
same_text_key_refl (socket_of a) = ==-refl a
same_text_key_refl (geocode x y) = rw (same_int_refl x, same_int_refl y) refl
same_text_key_refl (route x y z t) =
    rw (same_int_refl x, same_int_refl y, same_int_refl z, same_int_refl t) refl
same_text_key_refl (eta a) = ==-refl a
