-- ===== src/Auth/Otp/Accepted.antt =====
-- What an accepted one-time password leaves (src/modules/auth/services/otp.service.ts).
use Prim.Native.String.{String}
use text.Mathlib.Text.{◌==◌ as same_text}
use text.Mathlib.TextEquality.{eq_iff}
use obbian_ribe_booking_app.Base.{
  ◌≡◌, true, false, Option, none, some, pos, arith, Bool-cases, inl, inr, refl, ◌∙◌, ap, sym, ltℤ,
}
use obbian_ribe_booking_app.Platform.{Platform, RedisKey, TextKey}
use obbian_ribe_booking_app.World.{World, Failure, ok, err}
use obbian_ribe_booking_app.Auth.Otp.{
  OtpSettings, forget_code, check_guess, verify_otp, present, answer_guess,
}
use obbian_ribe_booking_app.Auth.Otp.Guesses.{
  Spent, counted_world, answer_guess-Spent, counted_up, verify_otp_up, verify_otp-Spent,
}

module _ ⦃pf : Platform⦄ (settings : OtpSettings) where
  check_guess-accepted :
      (phone guess code : String) (w : World)
      → w.redis_up ≡ true
      → (check_guess settings phone guess (some code) w).0 ≡ ok true
      → check_guess settings phone guess (some code) w
        ≡ answer_guess phone true (counted_world phone w)
  unfolding check_guess counted_world answer_guess forget_code
  check_guess-accepted phone guess code w up accepted =
      elim (Bool-cases
        (ltℤ (pos settings.max_attempts) (pf.incr w.now (RedisKey.otp_attempts phone) w.redis).0)) [
          | inl above ↦ absurd (ground arith)
          | inr below ↦ elim (Bool-cases (same_text code guess)) [
            | inl right ↦ ground arith
            | inr wrong ↦ absurd (ground arith)
          ]
        ]

  check_guess-right :
      (phone guess code : String) (w : World)
      → w.redis_up ≡ true
      → (check_guess settings phone guess (some code) w).0 ≡ ok true
      → same_text code guess ≡ true
  unfolding check_guess answer_guess forget_code
  check_guess-right phone guess code w up accepted =
      elim (Bool-cases
        (ltℤ (pos settings.max_attempts) (pf.incr w.now (RedisKey.otp_attempts phone) w.redis).0)) [
          | inl above ↦ absurd (ground arith)
          | inr below ↦ elim (Bool-cases (same_text code guess)) [
            | inl right ↦ right
            | inr wrong ↦ absurd (ground arith)
          ]
        ]

  present-right :
      (phone guess : String) (w : World) (found : Option String)
      → w.redis_up ≡ true
      → (check_guess settings phone guess found w).0 ≡ ok true
      → found ≡ some guess
  unfolding check_guess
  present-right phone guess w none up accepted = absurd (ground arith)
  present-right phone guess w (some code) up accepted =
      ap some ((eq_iff code guess).0 (check_guess-right phone guess code w up accepted))

  verify_otp_down :
      (phone guess : String) (w : World)
      → w.redis_up ≡ false
      → (verify_otp settings phone guess w).0 ≡ err Failure.internal
  unfolding verify_otp
  verify_otp_down phone guess w down = rw down refl

  present-Spent :
      (phone guess : String) (w : World) (found : Option String)
      → w.redis_up ≡ true
      → (check_guess settings phone guess found w).0 ≡ ok true
      → Spent phone (check_guess settings phone guess found w).1
  unfolding check_guess
  present-Spent phone guess w none up accepted = absurd (ground arith)
  present-Spent phone guess w (some code) up accepted =
      rw (check_guess-accepted phone guess code w up accepted)
        (answer_guess-Spent phone (counted_world phone w) (counted_up phone w up)).1

  accepted-Spent :
      (phone guess : String) (w : World)
      → (verify_otp settings phone guess w).0 ≡ ok true
      → Spent phone (verify_otp settings phone guess w).1
  accepted-Spent phone guess w accepted = elim (Bool-cases w.redis_up) [
    | inr down ↦ absurd (ground (arith, verify_otp_down phone guess w down))
    | inl up ↦
        let same =
          verify_otp_up settings phone guess w (pf.get_text w.now (TextKey.otp phone) w.redis) up
            refl in
        rw same (
          present-Spent phone guess w (present (pf.get_text w.now (TextKey.otp phone) w.redis)) up
            (ap (λ r. r.0) (sym same) ∙ accepted))
  ]

  -- A one-time password that has been accepted is not accepted again, nor is any other text.
  pub verify_otp_once :
      (phone guess again : String) (w : World)
      → (verify_otp settings phone guess w).0 ≡ ok true
      → (verify_otp settings phone again (verify_otp settings phone guess w).1).0 ≡ ok false
  verify_otp_once phone guess again w accepted =
      rw
        (verify_otp-Spent settings phone again (verify_otp settings phone guess w).1
          (accepted-Spent phone guess w accepted))
        refl

  -- A guess is accepted only if it is the code that is stored.
  pub verify_otp-present :
      (phone guess : String) (w : World)
      → (verify_otp settings phone guess w).0 ≡ ok true
      → present (pf.get_text w.now (TextKey.otp phone) w.redis) ≡ some guess
  verify_otp-present phone guess w accepted = elim (Bool-cases w.redis_up) [
    | inr down ↦ absurd (ground (arith, verify_otp_down phone guess w down))
    | inl up ↦
        present-right phone guess w (present (pf.get_text w.now (TextKey.otp phone) w.redis)) up (
          ap (λ r. r.0)
            (sym (
              verify_otp_up settings phone guess w (pf.get_text w.now (TextKey.otp phone) w.redis)
                up refl))
          ∙ accepted)
  ]
