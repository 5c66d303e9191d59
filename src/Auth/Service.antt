-- ===== src/Auth/Service.antt =====
-- src/modules/auth/services/auth.service.ts: logging in by a one-time password, refreshing and logging out.
pub mod Login
use Prim.Native.String.{String}
use obbian_ribe_booking_app.Base.{Bool, not, Option, none}
use obbian_ribe_booking_app.Platform.{Platform}
use obbian_ribe_booking_app.World.{Action, ◌>>=◌, ◌>>◌, pure, throw_if, Failure}
use obbian_ribe_booking_app.Schema.{UserRole}
use obbian_ribe_booking_app.Users.Service.{find_or_create, mark_login}
use obbian_ribe_booking_app.Auth.Otp.{OtpSettings, send_otp as store_otp, verify_otp as check_otp}
use obbian_ribe_booking_app.Auth.Token.{TokenSettings, AuthResponse, issue_tokens, rotate, revoke}

module _ ⦃pf : Platform⦄ (otp_settings : OtpSettings) (settings : TokenSettings) where
  unfoldable pub send_otp : String → String → Action (Unit {0})
  send_otp random phone = store_otp otp_settings random phone

  -- The token that is issued is drawn at random.
  unfoldable pub verify_otp : String → String → String → Option String → Action AuthResponse
  verify_otp token phone otp device_info = do
    valid ← check_otp otp_settings phone otp
    throw_if (not valid) Failure.bad_request
    user ← find_or_create phone UserRole.rider
    mark_login user.id
    issue_tokens settings user token device_info

  unfoldable pub refresh : String → String → Action AuthResponse
  refresh refresh_token fresh = rotate settings refresh_token fresh none

  unfoldable pub logout : Option String → Action (Unit {0})
  logout refresh_token = revoke settings refresh_token
