-- ===== src/Notifications/Service.antt =====
-- src/modules/notifications/services/notifications.service.ts: notifications are added to a queue.
use Prim.Native.Char.{code}
use Prim.Native.String.{String}
use Prim.Native.String.{◌++◌ as append_text}
use text.Mathlib.Text.{◌==◌ as same_text}
use obbian_ribe_booking_app.Base.{ℕ, Option, none, some, List, [], ◌∷◌}
use obbian_ribe_booking_app.Base.Dict.{lookup}
use obbian_ribe_booking_app.Platform.{Platform}
use obbian_ribe_booking_app.World.{
  Action, ◌>>◌, pure, enqueue, Job, Notification, NotificationChannel, Message,
}

-- The UTF-16 units of an ASCII text.
abbrev codes : String → Message
codes String.[] = []
codes (String.◌∷◌ c s) = code c ∷ codes s

-- The texts of the states that have one.
abbrev state_messages : List (String × String)
state_messages =
    ("ACCEPTED", "Your driver is on the way")
    ∷ ("ARRIVED", "Your ride is here")
    ∷ ("STARTED", "Your ride has started")
    ∷ ("COMPLETED", "Trip completed. Rate your ride!")
    ∷ ("CANCELLED", "Your ride was cancelled")
    ∷ []

unfoldable pub state_message : String → Message
state_message state = elim (lookup same_text state state_messages) [
  | some text ↦ codes text
  | none ↦ codes "Ride status updated"
]

abbrev pub default_channels : List NotificationChannel
default_channels = NotificationChannel.push ∷ NotificationChannel.in_app ∷ []

-- What is said of a ride to one of its two users.
unfoldable pub ride_notification : ℕ → ℕ → String → List NotificationChannel → Notification
ride_notification ride_id user_id state channels = record {
  user_id = user_id;
  notification_type = append_text "RIDE_" state;
  title = "Ride update";
  body = state_message state;
  device_token = none;
  ride_id = some ride_id;
  channels = channels;
}

module _ ⦃pf : Platform⦄ where
  unfoldable pub notify : Notification → Action (Unit {0})
  notify n = enqueue (Job.dispatch_notification n)

  unfoldable pub notify_driver : ℕ → Option ℕ → String → Action (Unit {0})
  notify_driver ride_id none state = pure tt
  notify_driver ride_id (some driver_id) state =
      notify (ride_notification ride_id driver_id state (NotificationChannel.push ∷ []))

  unfoldable pub notify_ride_state : ℕ → ℕ → Option ℕ → String → Action (Unit {0})
  notify_ride_state ride_id rider_id driver_id state =
      notify (ride_notification ride_id rider_id state default_channels)
      >> notify_driver ride_id driver_id state
