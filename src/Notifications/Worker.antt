-- ===== src/Notifications/Worker.antt =====
-- src/modules/notifications/services/notification.worker.ts: a notification goes out on each of its channels;
-- the failure of one is only logged.

use Prim.Native.String.{String}
use obbian_ribe_booking_app.Base.{
  ℕ, ◌==◌, Bool, true, false, Option, none, some, List, [], ◌∷◌, ◌++◌, ltb, if◌then◌else◌, is_some,
  length, take, find,
}
use obbian_ribe_booking_app.Platform.{Platform}
use obbian_ribe_booking_app.World.{World, Message, Notification, NotificationChannel}
use obbian_ribe_booking_app.Schema.{User}
use obbian_ribe_booking_app.Notifications.Http.{Net, Attempt, ◌>>◌, pure, for_some, attempt, truthy}
use obbian_ribe_booking_app.Notifications.Providers.{
  FcmPushProvider, SendGridEmailProvider, SmsProvider, send_push, send_sms, send_mail,
}

-- The providers that the constructor builds.
pub record Providers : Type 0 where
  pub push : FcmPushProvider
  pub email : SendGridEmailProvider
  pub sms : SmsProvider

abbrev same_channel : NotificationChannel → NotificationChannel → Bool
same_channel NotificationChannel.push NotificationChannel.push = true
same_channel NotificationChannel.sms NotificationChannel.sms = true
same_channel NotificationChannel.email NotificationChannel.email = true
same_channel NotificationChannel.in_app NotificationChannel.in_app = true
same_channel _ _ = false

unfoldable pub includes : NotificationChannel → List NotificationChannel → Bool
includes c [] = false
includes c (d ∷ ds) = if same_channel d c then true else includes c ds

abbrev pub sms_body_max : ℕ
sms_body_max = 140

-- A text that is too long ends in '…'.
unfoldable pub sms_message : Message → Message
sms_message body = if ltb sms_body_max (length body) then take 139 body ++ 0x2026 ∷ [] else body

abbrev pub when : Bool → Attempt (Unit {0}) → Attempt (Unit {0})
when true m = m
when false m = pure tt

-- The phone number of a row is never null, but may be empty.
abbrev pub phone_of : Option User → Option String
phone_of none = none
phone_of (some u) = truthy (some u.phone_number)

abbrev pub email_of : Option User → Option String
email_of none = none
email_of (some u) = truthy u.email

module _ ⦃pf : Platform⦄ where
  abbrev pub user_of : ℕ → World → Option User
  user_of user_id w = find (λ u. u.id == user_id) (pf.rows w.users)

module _ ⦃pf : Platform⦄ (net : Net) (assertion : String → String → ℕ → String)
    (providers : Providers) where
  unfoldable pub dispatch_push : Notification → World → Attempt (Unit {0})
  dispatch_push n w = when (is_some providers.push.service_account) (
      for_some (truthy n.device_token) λ device_token.
        attempt
          (send_push net assertion w.now providers.push device_token n.title n.body n.ride_id))

  unfoldable pub dispatch_sms : Notification → World → Attempt (Unit {0})
  dispatch_sms n w =
      for_some (phone_of (user_of n.user_id w))
        λ phone. attempt (send_sms net providers.sms phone (sms_message n.body))

  unfoldable pub dispatch_email : Notification → World → Attempt (Unit {0})
  dispatch_email n w = when (is_some (truthy providers.email.api_key)) (
      for_some (email_of (user_of n.user_id w))
        λ email. attempt (send_mail net providers.email email n.title n.body))

  unfoldable pub process : Notification → World → Attempt (Unit {0})
  process n w =
      when (includes NotificationChannel.push n.channels) (dispatch_push n w)
      >> when (includes NotificationChannel.sms n.channels) (dispatch_sms n w)
      >> when (includes NotificationChannel.email n.channels) (dispatch_email n w)
