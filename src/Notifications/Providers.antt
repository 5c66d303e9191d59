-- ===== src/Notifications/Providers.antt =====
-- src/modules/notifications/providers and src/common/sms/sms-providers.ts: one HTTP client for each channel.
-- The signature of a token for Google is a parameter.

use Prim.Native.String.{String}
use text.Mathlib.Text.{◌==◌ as same_text}
use obbian_ribe_booking_app.Base.{ℕ, ◌/◌, not, ◌&&◌, Option, none, some, if◌then◌else◌}
use obbian_ribe_booking_app.World.{Message}
use obbian_ribe_booking_app.Notifications.Http.{
  HttpRequest, Net, Attempt, ◌>>=◌, ◌>>◌, pure, or_throw, throw_if, for_some, fetch, truthy,
}

-- The fields of FCM_SERVICE_ACCOUNT_JSON.
pub record ServiceAccount : Type 0 where
  pub project_id : Option String
  pub client_email : Option String
  pub private_key : Option String

-- `enabled` is that there is an account.
pub record FcmPushProvider : Type 0 where
  pub service_account : Option ServiceAccount

pub record SendGridEmailProvider : Type 0 where
  pub api_key : Option String
  pub from_email : Option String

-- `skip` is what the worker takes where the configuration is refused.
pub data SmsProvider : Type 0 where
  skip dev : SmsProvider
  -- account, token, from
  twilio : String → String → String → SmsProvider
  -- key, sender
  msg91 : String → String → SmsProvider

-- The configuration `otp.*` as far as it is about text messages.
pub record SmsConfig : Type 0 where
  pub provider : String
  pub twilio_account_sid : Option String
  pub twilio_auth_token : Option String
  pub twilio_from_number : Option String
  pub msg91_auth_key : Option String
  pub msg91_sender_id : Option String

unfoldable pub twilio_provider : Option String → Option String → Option String → Option SmsProvider
twilio_provider (some sid) (some token) (some from) = some (SmsProvider.twilio sid token from)
twilio_provider _ _ _ = none

unfoldable pub msg91_provider : Option String → Option String → Option SmsProvider
msg91_provider (some key) (some sender) = some (SmsProvider.msg91 key sender)
msg91_provider _ _ = none

-- `none` is an exception.
unfoldable pub create_sms_provider : SmsConfig → Option SmsProvider
create_sms_provider config =
    if same_text config.provider "dev"
    then some SmsProvider.dev
    else if same_text config.provider "twilio"
    then twilio_provider (truthy config.twilio_account_sid) (truthy config.twilio_auth_token)
        (truthy config.twilio_from_number)
    else if same_text config.provider "msg91"
    then msg91_provider (truthy config.msg91_auth_key) (truthy config.msg91_sender_id)
    else none

-- The constructor of the worker.
unfoldable pub sms_provider : SmsConfig → SmsProvider
sms_provider config = elim (create_sms_provider config) [
  | none ↦ SmsProvider.skip
  | some provider ↦ provider
]

module _ (net : Net) where
  unfoldable pub send_sms : SmsProvider → String → Message → Attempt (Unit {0})
  send_sms SmsProvider.skip phone message = pure tt
  send_sms SmsProvider.dev phone message = pure tt
  send_sms (SmsProvider.twilio sid token from) phone message =
      fetch net (HttpRequest.twilio_message sid token from phone message) >>= λ res.
      throw_if (not res.ok)
  send_sms (SmsProvider.msg91 key sender) phone message =
      fetch net (HttpRequest.msg91_message key sender phone message) >>= λ res.
      throw_if (not (res.ok && res.succeeds))

  unfoldable pub send_mail : SendGridEmailProvider → String → String → Message → Attempt (Unit {0})
  send_mail provider to_email subject text_body = for_some (truthy provider.api_key) λ key.
      or_throw (truthy provider.from_email) >>= λ from.
      fetch net (HttpRequest.mail key from to_email subject text_body) >>= λ res.
      throw_if (not res.ok)

  module _ (assertion : String → String → ℕ → String) (now : ℕ) where
    unfoldable pub access_token : ServiceAccount → Attempt String
    access_token account = or_throw (truthy account.client_email) >>= λ email.
        or_throw (truthy account.private_key) >>= λ key.
        fetch net (HttpRequest.token_exchange (assertion email key (now / 1000))) >>= λ res.
        throw_if (not res.ok) >> or_throw (truthy res.access_token)

    unfoldable pub send_as :
        ServiceAccount → String → String → Message → Option ℕ → Attempt (Unit {0})
    send_as account device_token title body ride_id =
        for_some (truthy account.project_id) λ project. access_token account >>= λ token.
        fetch net (HttpRequest.push_message project token device_token title body ride_id)
        >>= λ res. throw_if (not res.ok)

    -- `data` is the device token and, if there is one, the ride.
    unfoldable pub send_push :
        FcmPushProvider → String → String → Message → Option ℕ → Attempt (Unit {0})
    send_push provider device_token title body ride_id =
        for_some provider.service_account λ account. send_as account device_token title body ride_id
