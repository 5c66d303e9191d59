-- ===== src/Auth/Otp.antt =====
-- src/modules/auth/services/otp.service.ts: one-time passwords. The text message and its failure, which is
-- only logged, are left out.
pub mod Guesses
pub mod Accepted
pub mod Resend
use Prim.Native.String.{String}
use text.Mathlib.Text.{◌==◌ as same_text}
use obbian_ribe_booking_app.Base.{
  ℕ, Bool, true, false, ◌&&◌, Option, none, some, if◌then◌else◌, ℤ, pos, pos_part, sub_ℕ, ltℤ,
}
use obbian_ribe_booking_app.Platform.{Platform, RedisKey, TextKey}
use obbian_ribe_booking_app.World.{World, Action, ◌>>=◌, ◌>>◌, pure, throw_if, redis_call, Failure}

-- The configuration `otp.*`; `dev` is whether the provider is the one for development.
pub record OtpSettings : Type 0 where
  pub dev : Bool
  pub expiry_seconds : ℕ
  pub max_attempts : ℕ
  pub resend_cooldown_seconds : ℕ
  pub dev_code : String

-- A text that is empty counts as no text.
abbrev pub present : Option String → Option String
present none = none
present (some text) = if same_text text "" then none else some text

module _ ⦃pf : Platform⦄ (settings : OtpSettings) where
  -- `random` is the number that randomInt draws, as text.
  unfoldable pub otp_code : String → String
  otp_code random = if settings.dev then settings.dev_code else random

  -- Whether a code that expires in `existing_ttl` seconds was sent too recently.
  unfoldable pub cooling_down : ℤ → Bool
  cooling_down existing_ttl =
      ltℤ (pos 0) existing_ttl
      && ltℤ (sub_ℕ settings.expiry_seconds (pos_part existing_ttl))
          (pos settings.resend_cooldown_seconds)

  unfoldable pub store_code : String → String → Action (Unit {0})
  store_code phone code =
      redis_call (λ now s. (tt, pf.set_text now (TextKey.otp phone) code settings.expiry_seconds s))
      >> redis_call (λ now s. (tt, pf.del (RedisKey.otp_attempts phone) s))

  unfoldable pub send_otp : String → String → Action (Unit {0})
  send_otp random phone = do
    existing_ttl ← redis_call (λ now s. (pf.ttl now (TextKey.otp phone) s, s))
    throw_if (cooling_down existing_ttl) Failure.internal
    store_code phone (otp_code random)

module _ ⦃pf : Platform⦄ where
  unfoldable pub forget_code : String → Action (Unit {0})
  forget_code phone = redis_call (λ now s. (tt, pf.del_text (TextKey.otp phone) s))

  unfoldable pub answer_guess : String → Bool → Action Bool
  answer_guess phone false = pure false
  answer_guess phone true =
      forget_code phone
      >> redis_call (λ now s. (tt, pf.del (RedisKey.otp_attempts phone) s))
      >> pure true

module _ ⦃pf : Platform⦄ (settings : OtpSettings) where
  unfoldable pub check_guess : String → String → Option String → Action Bool
  check_guess phone guess none = pure false
  check_guess phone guess (some code) = do
    attempts ← redis_call (λ now s. pf.incr now (RedisKey.otp_attempts phone) s)
    if ltℤ (pos settings.max_attempts) attempts
        then forget_code phone >> pure false
        else answer_guess phone (same_text code guess)

  unfoldable pub verify_otp : String → String → Action Bool
  verify_otp phone guess = do
    stored ← redis_call (λ now s. (pf.get_text now (TextKey.otp phone) s, s))
    check_guess phone guess (present stored)
