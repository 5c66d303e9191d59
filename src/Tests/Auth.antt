-- ===== src/Tests/Auth.antt =====
-- Logging in: the user 1 with the phone +911, and the tokens of a service that hashes by a prefix.
use Prim.Native.String.{String, ◌++◌}
use text.Mathlib.Text.{◌==◌ as same_text}
use obbian_ribe_booking_app.Base.{
  ◌≡◌, refl, true, false, none, some, List, map_where, [], ◌∷◌, ◌+ℤ◌, arith, find,
}
use obbian_ribe_booking_app.Platform.{TextKey, same_key, same_text_key}
use obbian_ribe_booking_app.World.{World, Failure, ok, err, wait_until}
use obbian_ribe_booking_app.Schema.{RideStatus, User, UserRole}
use obbian_ribe_booking_app.Auth.Otp.{
  OtpSettings, present, otp_code, send_otp, verify_otp, store_code, cooling_down, check_guess,
  answer_guess, forget_code,
}
use obbian_ribe_booking_app.Auth.Otp.Guesses.{guess_all, AllWrong, verify_otp-send_otp}
use obbian_ribe_booking_app.Auth.Otp.Resend.{send_otp-cooldown}
use obbian_ribe_booking_app.Auth.Token.{
  AuthResponse, build_payload, TokenSettings, issue_tokens, rotate, response, use_token,
  mark_rotated, revoke_all_for_user, new_token, is_invalid, rotated_patch,
}
use obbian_ribe_booking_app.Users.Service.{find_by_id, find_or_create, find_by_phone, mark_login}
use obbian_ribe_booking_app.Auth.Service.{verify_otp as login}
use obbian_ribe_booking_app.Auth.Service.Login.{IsUserOf, IsFor, verify_otp-stored}
use obbian_ribe_booking_app.Auth.Token.Phases.{
  Phase, phases, found_phase, row_phase, token_row, HasDistinctTokens,
}
use obbian_ribe_booking_app.Auth.Token.Machine.{known_user, accepted, user_row}
use obbian_ribe_booking_app.Auth.Token.Exchange.{issue_tokens-Refines}
use obbian_ribe_booking_app.Auth.Token.Sessions.{
  SessionCall, logs_in, refreshes, waits, session_call, session_run, spec_run, session_run-spec_run,
}
use obbian_ribe_booking_app.Auth.Token.Reuse.{rotate_reuse, rotate-issue_tokens}
use obbian_ribe_booking_app.Tests.Memory.{memory}
use obbian_ribe_booking_app.Tests.Ride.{one_ride}

abbrev pub a_user : User
a_user = record {
  id = 1;
  phone_number = "+911";
  email = none;
  first_name = none;
  last_name = none;
  profile_image_url = none;
  role = UserRole.rider;
  rating = 500;
  is_verified = false;
  last_login_at = none;
  created_at = 0;
  updated_at = 0;
}

abbrev pub one_user : World
one_user = record (one_ride RideStatus.requested) { users = a_user ∷ [] }

abbrev otp_settings : OtpSettings
otp_settings = record {
  dev = true;
  expiry_seconds = 300;
  max_attempts = 5;
  resend_cooldown_seconds = 30;
  dev_code = "123456";
}

sent : (send_otp otp_settings "1" "+911" one_user).0 ≡ ok tt
unfolding send_otp store_code cooling_down
sent = refl

wrong_guess : AllWrong (otp_code otp_settings "1") ("000000" ∷ [])
unfolding AllWrong otp_code
wrong_guess = (refl, tt)

proper_code : same_text (otp_code otp_settings "1") "" ≡ false
unfolding otp_code
proper_code = refl

abbrev one_guess : List String
one_guess = "000000" ∷ []

verify_otp-send_otp_example :
    (verify_otp otp_settings "+911" (otp_code otp_settings "1") (
      guess_all otp_settings "+911" one_guess
        (wait_until 201000 (send_otp otp_settings "1" "+911" one_user).1))).0
    ≡ ok true
verify_otp-send_otp_example =
    verify_otp-send_otp otp_settings "1" "+911" one_user 201000 one_guess sent (omega arith)
      (omega arith) proper_code wrong_guess

send_otp-cooldown_example :
    send_otp otp_settings "2" "+911"
      (wait_until 210000 (send_otp otp_settings "1" "+911" one_user).1)
    ≡ (err Failure.internal, wait_until 210000 (send_otp otp_settings "1" "+911" one_user).1)
send_otp-cooldown_example =
    send_otp-cooldown otp_settings "1" "2" "+911" one_user 210000 sent (omega arith)

-- A hash that is a prefix, and a signature that is the phone.
abbrev settings : TokenSettings
settings = record {
  access_ttl = 900;
  refresh_ttl = 2592000;
  sha256 = λ token. "h" ++ token;
  sign = λ now ttl payload. payload.phone;
}

no_tokens : HasDistinctTokens one_user
unfolding find
no_tokens = record {
  below = λ k r h. absurd (ground arith);
  apart = λ j k r s h. absurd (ground arith);
}

abbrev two_logins : List SessionCall
two_logins =
    logs_in a_user "a" none ∷ waits 1000 ∷ refreshes "a" "b" none ∷ refreshes "a" "c" none ∷ []

session_run-spec_run_example :
    let (answers, v) = session_run settings two_logins one_user in
    (answers, phases v)
    ≡ spec_run settings (known_user one_user) 200000 two_logins (phases one_user)
session_run-spec_run_example = (session_run-spec_run settings two_logins one_user no_tokens).0

session_run_test : (session_run settings two_logins one_user).0 ≡ true ∷ true ∷ true ∷ false ∷ []
unfolding session_run session_call issue_tokens rotate use_token mark_rotated revoke_all_for_user
    find new_token is_invalid find_by_id rotated_patch map_where
session_run_test = refl

abbrev logged_in : World
logged_in = (issue_tokens settings a_user "a" none one_user).1

issued : accepted (issue_tokens settings a_user "a" none one_user).0 ≡ true
unfolding issue_tokens find
issued = refl

user_there : user_row one_user 1 ≡ some a_user
unfolding find
user_there = refl

unused : token_row one_user "hb" ≡ none
unfolding find
unused = refl

rotate-issue_tokens_example :
    (rotate settings "a" "b" none (wait_until 300000 logged_in)).0
    ≡ ok (response settings a_user "b" 300000)
rotate-issue_tokens_example =
    rotate-issue_tokens settings a_user "a" "b" none none one_user 300000 issued user_there
      (omega arith) unused refl

logged_in-HasDistinctTokens : HasDistinctTokens logged_in
logged_in-HasDistinctTokens =
    (issue_tokens-Refines settings a_user "a" none one_user no_tokens).distinct

lives : phases logged_in "ha" ≡ Phase.live 1 2592200000
unfolding phases found_phase row_phase find issue_tokens new_token
lives = refl

rotates : accepted (rotate settings "a" "b" none logged_in).0 ≡ true
unfolding issue_tokens rotate use_token mark_rotated find new_token is_invalid find_by_id
    rotated_patch map_where
rotates = refl

rotate_reuse_example :
    accepted (rotate settings "a" "c" none (rotate settings "a" "b" none logged_in).1).0 ≡ false
rotate_reuse_example =
    (rotate_reuse settings "a" "b" "c" none logged_in 1 2592200000 logged_in-HasDistinctTokens lives
      rotates).0

abbrev code_sent : World
code_sent = (send_otp otp_settings "1" "+911" one_user).1

abbrev login_answer : AuthResponse
login_answer = record {
  access_token = "+911";
  refresh_token = "a";
  expires_in = 900;
  user_id = 1;
  phone_number = "+911";
  user_role = UserRole.rider;
}

logs_in_by_code :
    (login otp_settings settings "a" "+911" "123456" none code_sent).0 ≡ ok login_answer
unfolding login verify_otp check_guess answer_guess forget_code send_otp store_code cooling_down
    same_text_key otp_code ◌+ℤ◌ same_key find_or_create find_by_phone mark_login issue_tokens find
    new_token response build_payload
logs_in_by_code = refl

verify_otp-stored_example :
    (present (memory.get_text code_sent.now (TextKey.otp "+911") code_sent.redis) ≡ some "123456")
    × (user : User) × (user.phone_number ≡ "+911")
    × IsUserOf "+911" code_sent user
    × IsFor otp_settings settings user "a" login_answer
        (login otp_settings settings "a" "+911" "123456" none code_sent).1
verify_otp-stored_example =
    verify_otp-stored otp_settings settings "a" "+911" "123456" none code_sent login_answer
      logs_in_by_code
