-- ===== src/Tests/Notify.antt =====
-- Notifications to user 1, over a network that answers everything with a success.
use Prim.Native.String.{String}
use obbian_ribe_booking_app.Base.{◌≡◌, refl, true, ℕ, none, some, List, [], ◌∷◌, ◌++◌, find, All}
use obbian_ribe_booking_app.World.{ok, Notification, NotificationChannel, Job}
use obbian_ribe_booking_app.Notifications.Http.{HttpRequest, Net, truthy, fetch}
use obbian_ribe_booking_app.Notifications.Providers.{SmsProvider, send_sms}
use obbian_ribe_booking_app.Notifications.Service.{notify_ride_state}
use obbian_ribe_booking_app.Notifications.Worker.{
  Providers, process, includes, dispatch_push, dispatch_sms, dispatch_email, sms_message,
}
use obbian_ribe_booking_app.Notifications.Laws.{IsAddressed}
use obbian_ribe_booking_app.Notifications.Dispatch.{process_lem}
use obbian_ribe_booking_app.Notifications.RideState.{AllSilent, notify_ride_state-AllSilent}
use obbian_ribe_booking_app.Tests.Memory.{memory}
use obbian_ribe_booking_app.Tests.Auth.{one_user}

abbrev net : Net
net log request = some (record { ok = true; access_token = some "t"; succeeds = true })

abbrev assertion : String → String → ℕ → String
assertion email key now = "a"

abbrev providers : Providers
providers = record {
  push = record { service_account = none };
  email = record { api_key = none; from_email = none };
  sms = SmsProvider.msg91 "k" "s";
}

abbrev notice : Notification
notice = record {
  user_id = 1;
  notification_type = "OTP";
  title = "Code";
  body = 0x31 ∷ [];
  device_token = none;
  ride_id = none;
  channels = NotificationChannel.sms ∷ [];
}

-- One text message goes out.
process_test :
    (process net assertion providers notice one_user []).1
    ≡ HttpRequest.msg91_message "k" "s" "+911" (0x31 ∷ []) ∷ []
unfolding process includes dispatch_push dispatch_sms dispatch_email sms_message send_sms fetch
    truthy find
process_test = refl

process_lem_example :
    (sent : List HttpRequest) × (process net assertion providers notice one_user []
      ≡ (ok tt, [] ++ sent))
    × All (IsAddressed notice one_user) sent
process_lem_example = process_lem net assertion providers notice one_user []

notify_ride_state-AllSilent_example :
    (first : Job) × (more : List Job) × ((notify_ride_state 10 1
        (some 7)
        "ACCEPTED"
        one_user).1.jobs
      ≡ [] ++ first ∷ more)
    × AllSilent (first ∷ more)
notify_ride_state-AllSilent_example =
    notify_ride_state-AllSilent 10 1 (some 7) "ACCEPTED" one_user refl
