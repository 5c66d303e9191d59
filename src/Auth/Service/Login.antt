-- ===== src/Auth/Service/Login.antt =====
-- Who is logged in by a one-time password (src/modules/auth/services/auth.service.ts).
use Prim.Native.String.{String}
use text.Mathlib.Text.{◌==◌ as same_text}
use text.Mathlib.TextEquality.{eq_iff}
use text.Mathlib.TextPositions.{eq_refl}
use obbian_ribe_booking_app.Base.{
  ◌≡◌, ◌⊎◌, none, sym, subst, refl, Bool, true, false, not, Option, some, arith, Option-cases,
  Bool-cases, inl, inr, ap, ◌∙◌, find, find-satisfies, find-append,
}
use obbian_ribe_booking_app.Platform.{Platform, TextKey}
use obbian_ribe_booking_app.World.{World, Action, ok, resume, ◌>>=◌, ◌>>◌, throw_if, Failure}
use obbian_ribe_booking_app.World.Inversion.{resume_ok}
use obbian_ribe_booking_app.Schema.{User, UserRole, RefreshToken}
use obbian_ribe_booking_app.Users.Service.{
  find_or_create, find_by_phone, create_user, new_user, mark_login,
}
use obbian_ribe_booking_app.Auth.Otp.{
  OtpSettings, present, verify_otp as check_otp, check_guess, answer_guess, forget_code,
}
use obbian_ribe_booking_app.Auth.Otp.Guesses.{verify_otp_up}
use obbian_ribe_booking_app.Auth.Otp.Accepted.{verify_otp-present}
use obbian_ribe_booking_app.Auth.Token.{
  TokenSettings, AuthResponse, issue_tokens, response, build_payload, new_token, insert_token,
  has_hash,
}
use obbian_ribe_booking_app.Auth.Token.Phases.{token_row}
use obbian_ribe_booking_app.Auth.Token.Exchange.{issue_tokens_eq}
use obbian_ribe_booking_app.Auth.Service.{verify_otp}

module _ ⦃pf : Platform⦄ where
  -- The user of a login: the one with the phone, or else a new one.
  abbrev pub IsUserOf : String → World → User → Type 0
  IsUserOf phone w user =
      (find (λ u. same_text u.phone_number phone) (pf.rows w.users) ≡ some user)
      ⊎ ((find (λ u. same_text u.phone_number phone) (pf.rows w.users) ≡ none)
          × (user.id ≡ w.next_id)
          × (user.role ≡ UserRole.rider))

  find_or_create-IsUserOf :
      (phone : String) (w : World) {user : User}
      → (find_or_create phone UserRole.rider w).0 ≡ ok user
      → (user.phone_number ≡ phone) × IsUserOf phone w user
  unfolding find_or_create find_by_phone create_user new_user
  find_or_create-IsUserOf phone w {user} made =
      elim (Option-cases (find (λ u. same_text u.phone_number phone) (pf.rows w.users))) [
        | inl missing ↦ (ground arith, inr (missing, ground arith, ground arith))
        | inr (u, found) ↦
            let same : u ≡ user = ground arith in
            (
              ap (λ v. v.phone_number) (sym same)
                  ∙ (eq_iff u.phone_number phone).0 (
                      find-satisfies (λ u. same_text u.phone_number phone) (pf.rows w.users) found),
              inl (found ∙ ap some same),
            )
      ]

module _ ⦃pf : Platform⦄ (otp_settings : OtpSettings) (settings : TokenSettings) where
  -- What the tokens of a user are, in the state that they leave: the access token is signed for the
  -- user, and the row of the refresh token is theirs.
  pub record IsFor (user : User) (token : String) (answer : AuthResponse) (w : World) : Type 0 where
    row : RefreshToken
    signed :
        answer.access_token
        ≡ settings.sign w.now settings.access_ttl
            (record { sub = user.id; role = user.role; phone = user.phone_number })
    refresh : answer.refresh_token ≡ token
    user_id : answer.user_id ≡ user.id
    phone_number : answer.phone_number ≡ user.phone_number
    stored : token_row w (settings.sha256 token) ≡ some row
    owner : row.user_id ≡ user.id

  issue_tokens-IsFor :
      (user : User) (token : String) (device : Option String) (w : World) {answer : AuthResponse}
      → (issue_tokens settings user token device w).0 ≡ ok answer
      → IsFor user token answer (issue_tokens settings user token device w).1
  unfolding response build_payload new_token
  issue_tokens-IsFor user token device w {answer} issued =
      elim (Option-cases (token_row w (settings.sha256 token))) [
        | inr (taken, e) ↦ absurd (ground (arith, issue_tokens_eq settings user token device w))
        | inl free ↦
            let done : issue_tokens settings user token device w ≡ (
              ok (response settings user token w.now),
              insert_token (new_token settings user.id token device w) w,
            ) =
              issue_tokens_eq settings user token device w ∙ rw free refl in
            let same : response settings user token w.now ≡ answer = ground (arith, done, issued) in
            rw done (
              rw⁻¹ same (record {
                row = new_token settings user.id token device w;
                signed = refl;
                refresh = refl;
                user_id = refl;
                phone_number = refl;
                stored =
                    ap (find (has_hash (settings.sha256 token)))
                      (pf.rows-insert (new_token settings user.id token device w) w.refresh_tokens)
                    ∙ find-append (has_hash (settings.sha256 token)) (pf.rows w.refresh_tokens)
                        (new_token settings user.id token device w)
                    ∙ rw (free, eq_refl (settings.sha256 token)) refl;
                owner = refl;
              }))
      ]

  -- What follows the check of the code.
  abbrev continue_login : String → String → Option String → Bool → Action AuthResponse
  continue_login token phone device valid = do
    throw_if (not valid) Failure.bad_request
    user ← find_or_create phone UserRole.rider
    mark_login user.id
    issue_tokens settings user token device

  continue_login_ok :
      (token phone : String) (device : Option String) (valid : Bool) (w : World)
      (answer : AuthResponse)
      → (continue_login token phone device valid w).0 ≡ ok answer
      → (valid ≡ true)
        × (user : User) × (user.phone_number ≡ phone)
        × IsUserOf phone w user
        × IsFor user token answer (continue_login token phone device valid w).1
  unfolding mark_login
  continue_login_ok token phone device false w answer done = absurd (ground arith)
  continue_login_ok token phone device true w answer done =
      let made_by = find_or_create phone UserRole.rider w in
      let rest = λ (user : User). mark_login user.id >> issue_tokens settings user token device in
      let (user, made, issued) = resume_ok made_by.0 rest made_by.1 done in
      let v = (mark_login user.id made_by.1).1 in
      let (same_phone, is_user) = find_or_create-IsUserOf phone w made in
      (
        refl,
        user,
        same_phone,
        is_user,
        subst (λ o. IsFor user token answer (resume o rest made_by.1).1) (sym made)
            (issue_tokens-IsFor user token device v issued),
      )

  -- Checking a code writes to Redis only.
  abbrev Keeps : World → World → Type 0
  Keeps w v = (v.users ≡ w.users) × (v.next_id ≡ w.next_id)

  answer_guess-Keeps :
      (phone : String) (right : Bool) (w : World) → Keeps w (answer_guess phone right w).1
  unfolding answer_guess forget_code
  answer_guess-Keeps phone false w = (refl, refl)
  answer_guess-Keeps phone true w = elim (Bool-cases w.redis_up) [
    | inl up ↦ rw up (refl, refl)
    | inr down ↦ rw down (refl, refl)
  ]

  check_guess-Keeps :
      (phone guess : String) (found : Option String) (w : World)
      → w.redis_up ≡ true
      → Keeps w (check_guess otp_settings phone guess found w).1
  unfolding check_guess answer_guess forget_code
  check_guess-Keeps phone guess none w up = (refl, refl)
  check_guess-Keeps phone guess (some code) w up = ground arith

  verify_otp-Keeps :
      (phone otp : String) (w : World) → Keeps w (check_otp otp_settings phone otp w).1
  unfolding check_otp
  verify_otp-Keeps phone otp w = elim (Bool-cases w.redis_up) [
    | inr down ↦ rw down (refl, refl)
    | inl up ↦
        let found = pf.get_text w.now (TextKey.otp phone) w.redis in
        rw (verify_otp_up otp_settings phone otp w found up refl)
          (check_guess-Keeps phone otp (present found) w up)
  ]

  pub verify_otp-stored :
      (token phone otp : String) (device : Option String) (w : World) (answer : AuthResponse)
      → (verify_otp otp_settings settings token phone otp device w).0 ≡ ok answer
      → (present (pf.get_text w.now (TextKey.otp phone) w.redis) ≡ some otp)
        × (user : User) × (user.phone_number ≡ phone)
        × IsUserOf phone w user
        × IsFor user token answer (verify_otp otp_settings settings token phone otp device w).1
  unfolding verify_otp
  verify_otp-stored token phone otp device w answer done =
      let r = check_otp otp_settings phone otp w in
      let (valid, checked, rest) = resume_ok r.0 (continue_login token phone device) r.1 done in
      let (right, user, same_phone, is_user, is_for) =
        continue_login_ok token phone device valid r.1 answer rest in
      let (users, next) = verify_otp-Keeps phone otp w in
      (
        verify_otp-present otp_settings phone otp w (checked ∙ ap ok right),
        user,
        same_phone,
        rw users at (rw next at is_user),
        subst (λ o. IsFor user token answer (resume o (continue_login token phone device) r.1).1)
            (sym checked) is_for,
      )
