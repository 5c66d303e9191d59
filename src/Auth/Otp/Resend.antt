-- ===== src/Auth/Otp/Resend.antt =====
-- Sending a one-time password, and sending another one (src/modules/auth/services/otp.service.ts).
use Prim.Native.String.{String}
use obbian_ribe_booking_app.Base.{
  ◌∙◌, ℕ, ◌+◌, ◌-◌, ◌/◌, ◌*◌, ◌≤◌, ◌≡◌, true, false, ◌&&◌, ltb, leb, if◌then◌else◌, pos, negsuc,
  arith, Bool-cases, inl, inr, refl,
}
use obbian_ribe_booking_app.Platform.{Platform, RedisKey, TextKey, same_text_key_refl}
use obbian_ribe_booking_app.World.{World, wait_until, Failure, ok, err}
use obbian_ribe_booking_app.Auth.Otp.{OtpSettings, otp_code, store_code, send_otp, cooling_down}

module _ ⦃pf : Platform⦄ (settings : OtpSettings) where
  abbrev pub sent_world : String → String → World → World
  sent_world random phone w = record w {
    redis = pf.del (RedisKey.otp_attempts phone) (
        pf.set_text w.now (TextKey.otp phone) (otp_code settings random) settings.expiry_seconds
          w.redis);
  }

  -- With Redis up, a code is sent unless the last one is too recent.
  send_otp_up :
      (random phone : String) (w : World)
      → w.redis_up ≡ true
      → send_otp settings random phone w ≡ (
          if cooling_down settings (pf.ttl w.now (TextKey.otp phone) w.redis)
          then (err Failure.internal, w)
          else (ok tt, sent_world random phone w))
  unfolding send_otp store_code
  send_otp_up random phone w up = ground arith

  send_otp_down :
      (random phone : String) (w : World)
      → w.redis_up ≡ false
      → (send_otp settings random phone w).0 ≡ err Failure.internal
  unfolding send_otp
  send_otp_down random phone w down = rw down refl

  pub send_otp-sent_world :
      (random phone : String) (w : World)
      → (send_otp settings random phone w).0 ≡ ok tt
      → (w.redis_up ≡ true) × ((send_otp settings random phone w).1 ≡ sent_world random phone w)
  send_otp-sent_world random phone w sent = elim (Bool-cases w.redis_up) [
    | inr down ↦ absurd (ground (arith, send_otp_down random phone w down))
    | inl up ↦ (up, ground (arith, send_otp_up random phone w up))
  ]

  cooling_down_after :
      (now later : ℕ)
      → now ≤ later
      → cooling_down settings (
          if ltb later (now + 1000 * settings.expiry_seconds)
          then pos ((now + 1000 * settings.expiry_seconds - later + 500) / 1000)
          else negsuc 1)
        ≡ leb (later - now + 500) (1000 * settings.resend_cooldown_seconds)
          && leb (later - now + 500) (1000 * settings.expiry_seconds)
  unfolding cooling_down
  cooling_down_after now later h = ground arith

  -- After a one-time password has been sent, another one is refused exactly until half a second before the
  -- end of the cooldown, or of the validity if that is shorter; a refusal changes nothing.
  pub send_otp-cooldown :
      (random again phone : String) (w : World) (later : ℕ)
      → (send_otp settings random phone w).0 ≡ ok tt
      → w.now ≤ later
      → let v = wait_until later (send_otp settings random phone w).1 in
        send_otp settings again phone v ≡ (
          if leb (later - w.now + 500) (1000 * settings.resend_cooldown_seconds)
            && leb (later - w.now + 500) (1000 * settings.expiry_seconds)
          then (err Failure.internal, v)
          else (ok tt, sent_world again phone v))
  send_otp-cooldown random again phone w later sent h =
      let (up, same) = send_otp-sent_world random phone w sent in
      rw same (
        send_otp_up again phone (wait_until later (sent_world random phone w)) up
        ∙ rw
            (
              pf.ttl-del,
              pf.ttl-set_text w.now later (TextKey.otp phone) (TextKey.otp phone)
                  (otp_code settings random) settings.expiry_seconds w.redis h,
              same_text_key_refl (TextKey.otp phone),
              cooling_down_after w.now later h,
            )
            refl)
