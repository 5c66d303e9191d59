-- ===== src/Auth/Otp/Guesses.antt =====
-- Sequences of guesses at a one-time password (src/modules/auth/services/otp.service.ts).
use Prim.Native.String.{String}
use text.Mathlib.Text.{◌==◌ as same_text}
use text.Mathlib.TextPositions.{eq_refl}
use obbian_ribe_booking_app.Base.{
  ℕ, suc, ◌+◌, ◌*◌, ◌≤◌, ◌<◌, ◌≡◌, Bool, true, false, Option, none, some, List, [], ◌∷◌, length,
  ltb, if◌then◌else◌, pos, ◌+ℤ◌, arith, Bool-cases, inl, inr, refl, ◌∙◌, ltb→lt, lt→ltb, subst,
  ltb→le,
}
use obbian_ribe_booking_app.Platform.{
  Platform, RedisKey, TextKey, counter, same_key-otp_attempts, same_text_key_refl,
}
use obbian_ribe_booking_app.World.{World, wait_until, Outcome, pure, ◌>>◌, ok}
use obbian_ribe_booking_app.Auth.Otp.Resend.{send_otp-sent_world}
use obbian_ribe_booking_app.Auth.Otp.{
  OtpSettings, otp_code, send_otp, forget_code, check_guess, verify_otp, present, answer_guess,
}

-- None of the texts is the code.
unfoldable pub AllWrong : String → List String → Type 0
AllWrong code [] = Unit
AllWrong code (guess ∷ guesses) = (same_text code guess ≡ false) × AllWrong code guesses

module _ ⦃pf : Platform⦄ where
  -- A code that can be used and how many guesses have been made at it.
  pub record Pending (phone code : String) (n : ℕ) (w : World) : Type 0 where
    up : w.redis_up ≡ true
    stored : pf.get_text w.now (TextKey.otp phone) w.redis ≡ some code
    counted : counter (pf.get w.now (RedisKey.otp_attempts phone) w.redis) ≡ pos n

  -- No code can be used.
  pub record Spent (phone : String) (w : World) : Type 0 where
    up : w.redis_up ≡ true
    gone : pf.get_text w.now (TextKey.otp phone) w.redis ≡ none

  unfoldable pub counted_world : String → World → World
  counted_world phone w = record w {
    redis = (pf.incr w.now (RedisKey.otp_attempts phone) w.redis).1;
  }

  pub answer_guess-Spent :
      (phone : String) (w : World)
      → w.redis_up ≡ true
      → ((answer_guess phone true w).0 ≡ ok true) × Spent phone (answer_guess phone true w).1
  unfolding answer_guess forget_code
  answer_guess-Spent phone w up = rw up (
    refl,
    record {
      up = refl;
      gone =
          rw
            (
              pf.get_text-del w.now (RedisKey.otp_attempts phone) (TextKey.otp phone),
              pf.get_text-del_text w.now (TextKey.otp phone) (TextKey.otp phone) w.redis,
              same_text_key_refl (TextKey.otp phone),
            )
            refl;
    },
  )

  counted_world-Pending :
      (phone code : String) (n : ℕ) (w : World)
      → Pending phone code n w
      → Pending phone code (suc n) (counted_world phone w)
  unfolding ◌+ℤ◌ counted_world
  counted_world-Pending phone code n w p = record {
    up = p.up;
    stored =
        rw (pf.get_text-incr w.now w.now (RedisKey.otp_attempts phone) (TextKey.otp phone) w.redis)
          p.stored;
    counted =
        rw
          (
            pf.get-incr w.now (RedisKey.otp_attempts phone) (RedisKey.otp_attempts phone) w.redis,
            same_key-otp_attempts phone,
            pf.incr-value w.now (RedisKey.otp_attempts phone) w.redis,
            p.counted,
          )
          (ground arith);
  }

  pub attempt_value :
      (phone code : String) (n : ℕ) (w : World)
      → Pending phone code n w
      → (pf.incr w.now (RedisKey.otp_attempts phone) w.redis).0 ≡ pos (suc n)
  unfolding ◌+ℤ◌
  attempt_value phone code n w p =
      rw (pf.incr-value w.now (RedisKey.otp_attempts phone) w.redis, p.counted) (ground arith)

  abbrev refuse : String → World → Outcome Bool × World
  refuse phone = forget_code phone >> pure false

  refuse_lem :
      (phone : String) (w : World)
      → w.redis_up ≡ true
      → ((refuse phone w).0 ≡ ok false) × Spent phone (refuse phone w).1
  unfolding forget_code
  refuse_lem phone w up = rw up (
    refl,
    record {
      up = refl;
      gone =
          rw
            (
              pf.get_text-del_text w.now (TextKey.otp phone) (TextKey.otp phone) w.redis,
              same_text_key_refl (TextKey.otp phone),
            )
            refl;
    },
  )

  pub counted_up :
      (phone : String) (w : World) → w.redis_up ≡ true → (counted_world phone w).redis_up ≡ true
  unfolding counted_world
  counted_up phone w up = up

module _ ⦃pf : Platform⦄ (settings : OtpSettings) where
  -- What is found for the phone, once Redis answers.
  pub verify_otp_up :
      (phone guess : String) (w : World) (stored : Option String)
      → w.redis_up ≡ true
      → pf.get_text w.now (TextKey.otp phone) w.redis ≡ stored
      → verify_otp settings phone guess w ≡ check_guess settings phone guess (present stored) w
  unfolding verify_otp
  verify_otp_up phone guess w stored up found = ground arith

  pub verify_otp-Spent :
      (phone guess : String) (w : World)
      → Spent phone w
      → verify_otp settings phone guess w ≡ (ok false, w)
  unfolding check_guess
  verify_otp-Spent phone guess w s = verify_otp_up phone guess w none s.up s.gone

  -- A guess at a code is counted, then refused above the cap or compared.
  verify_otp-Pending :
      (phone code guess : String) (n : ℕ) (w : World)
      → same_text code "" ≡ false
      → Pending phone code n w
      → verify_otp settings phone guess w ≡ (
          if ltb settings.max_attempts (suc n)
          then (forget_code phone >> pure false) (counted_world phone w)
          else answer_guess phone (same_text code guess) (counted_world phone w))
  unfolding check_guess counted_world
  verify_otp-Pending phone code guess n w proper p =
      verify_otp_up phone guess w (some code) p.up p.stored
      ∙ rw (proper) (ground (arith, attempt_value phone code n w p, p.up))

  -- After `n` wrong guesses.
  data Stage (phone code : String) (n : ℕ) (w : World) : Type 0 where
    usable : n ≤ settings.max_attempts → Pending phone code n w → Stage phone code n w
    exhausted : settings.max_attempts < n → Spent phone w → Stage phone code n w

  Pending-wrong :
      (phone code guess : String) (n : ℕ) (w : World)
      → same_text code "" ≡ false
      → same_text code guess ≡ false
      → Pending phone code n w
      → n ≤ settings.max_attempts
      → Stage phone code (suc n) (verify_otp settings phone guess w).1
  unfolding answer_guess
  Pending-wrong phone code guess n w proper wrong p fits =
      elim (Bool-cases (ltb settings.max_attempts (suc n))) [
        | inl above ↦ Stage.exhausted (omega (arith, ltb→lt settings.max_attempts (suc n) above)) (
            rw (verify_otp-Pending phone code guess n w proper p, above)
              (refuse_lem phone (counted_world phone w) (counted_up phone w p.up)).1)
        | inr below ↦ Stage.usable (omega (arith, ltb→le settings.max_attempts (suc n) below)) (
            rw (verify_otp-Pending phone code guess n w proper p, below, wrong)
              (counted_world-Pending phone code n w p))
      ]

  Stage-wrong :
      (phone code guess : String) (n : ℕ) (w : World)
      → same_text code "" ≡ false
      → same_text code guess ≡ false
      → Stage phone code n w
      → Stage phone code (suc n) (verify_otp settings phone guess w).1
  Stage-wrong phone code guess n w proper wrong (Stage.usable fits p) =
      Pending-wrong phone code guess n w proper wrong p fits
  Stage-wrong phone code guess n w proper wrong (Stage.exhausted above s) =
      Stage.exhausted (omega arith) (rw (verify_otp-Spent phone guess w s) s)

  Stage-right :
      (phone code : String) (n : ℕ) (w : World)
      → same_text code "" ≡ false
      → Stage phone code n w
      → (verify_otp settings phone code w).0 ≡ ok (ltb n settings.max_attempts)
  Stage-right phone code n w proper (Stage.exhausted above s) =
      rw (verify_otp-Spent phone code w s) (ground arith)
  Stage-right phone code n w proper (Stage.usable fits p) =
      elim (Bool-cases (ltb settings.max_attempts (suc n))) [
        | inl above ↦
            (rw
              (
                verify_otp-Pending phone code code n w proper p,
                above,
                (refuse_lem phone (counted_world phone w) (counted_up phone w p.up)).0,
              )
              (ground (arith, ltb→lt settings.max_attempts (suc n) above)))
        | inr below ↦
            (rw
              (
                verify_otp-Pending phone code code n w proper p,
                below,
                eq_refl code,
                (answer_guess-Spent phone (counted_world phone w) (counted_up phone w p.up)).0,
              )
              (ground (arith, ltb→le settings.max_attempts (suc n) below)))
      ]

  send_otp-Pending :
      (random phone : String) (w : World) (later : ℕ)
      → (send_otp settings random phone w).0 ≡ ok tt
      → w.now ≤ later
      → later < w.now + 1000 * settings.expiry_seconds
      → Pending phone
          (otp_code settings random)
          0
          (wait_until later (send_otp settings random phone w).1)
  send_otp-Pending random phone w later sent h valid =
      let (up, same) = send_otp-sent_world settings random phone w sent in
      rw same (record {
        up = up;
        stored =
            rw
              (
                pf.get_text-del,
                pf.get_text-set_text w.now later (TextKey.otp phone) (TextKey.otp phone)
                    (otp_code settings random) settings.expiry_seconds w.redis h,
                same_text_key_refl (TextKey.otp phone),
                lt→ltb later (w.now + 1000 * settings.expiry_seconds) valid,
              )
              refl;
        counted = rw (pf.get-del, same_key-otp_attempts phone) refl;
      })

  -- Guesses one after the other.
  unfoldable pub guess_all : String → List String → World → World
  guess_all phone [] w = w
  guess_all phone (guess ∷ guesses) w =
      guess_all phone guesses (verify_otp settings phone guess w).1

  Stage-guess_all :
      (phone code : String) (guesses : List String) (n : ℕ) (w : World)
      → same_text code "" ≡ false
      → AllWrong code guesses
      → Stage phone code n w
      → Stage phone code (length guesses + n) (guess_all phone guesses w)
  unfolding guess_all AllWrong
  Stage-guess_all phone code [] n w proper wrong stage =
      subst (λ m. Stage phone code m w) (omega arith) stage
  Stage-guess_all phone code (guess ∷ guesses) n w proper (wrong, others) stage =
      subst (λ m. Stage phone code m (guess_all phone (guess ∷ guesses) w)) (omega arith)
        (Stage-guess_all phone code guesses (suc n) (verify_otp settings phone guess w).1 proper
          others (Stage-wrong phone code guess n w proper wrong stage))

  -- If a one-time password that is not empty has been sent and has not expired, then after any
  -- number of wrong guesses at one time the password itself is accepted exactly if there were fewer
  -- of them than the cap.
  pub verify_otp-send_otp :
      (random phone : String) (w : World) (later : ℕ) (guesses : List String)
      → (send_otp settings random phone w).0 ≡ ok tt
      → w.now ≤ later
      → later < w.now + 1000 * settings.expiry_seconds
      → same_text (otp_code settings random) "" ≡ false
      → AllWrong (otp_code settings random) guesses
      → (verify_otp settings phone
          (otp_code settings random)
          (guess_all phone guesses (wait_until later (send_otp settings random phone w).1))).0
        ≡ ok (ltb (length guesses) settings.max_attempts)
  verify_otp-send_otp random phone w later guesses sent h valid proper wrong =
      Stage-right phone (otp_code settings random) (length guesses)
        (guess_all phone guesses (wait_until later (send_otp settings random phone w).1)) proper
        (subst
          (λ m.
            Stage phone (otp_code settings random) m
              (guess_all phone guesses (wait_until later (send_otp settings random phone w).1)))
          (omega arith)
          (Stage-guess_all phone (otp_code settings random) guesses 0
            (wait_until later (send_otp settings random phone w).1) proper wrong
            (Stage.usable (omega arith) (send_otp-Pending random phone w later sent h valid))))
