-- ===== src/Tests/Connect.antt =====
-- The sockets of rider 1, a pushed position of driver 7, and a cancelled ride.
use Prim.Native.String.{String}
use obbian_ribe_booking_app.Base.{
  ◌≡◌, refl, true, false, Bool, Option, none, some, [], ◌∷◌, find, pos,
}
use obbian_ribe_booking_app.World.{World, ok}
use obbian_ribe_booking_app.Schema.{RideStatus, UserRole, CancellationReason}
use obbian_ribe_booking_app.Auth.Token.{JwtPayload}
use obbian_ribe_booking_app.Http.Guards.{bearer_token, is_participant}
use obbian_ribe_booking_app.Rides.StateMachine.{is_terminal}
use obbian_ribe_booking_app.Rides.Lifecycle.{CancelledBy}
use obbian_ribe_booking_app.Rides.Controller.{cancel_route, cancel_route_system}
use obbian_ribe_booking_app.Drivers.Location.{push_location, ping_of, push_location-take_ping, seen}
use obbian_ribe_booking_app.Tracking.Gateway.{Gateway, take_ping}
use obbian_ribe_booking_app.Tracking.Connection.{
  socket_for, connected, handle_connection, handle_disconnect,
}
use obbian_ribe_booking_app.Tracking.Reconnect.{handle_connection-handle_disconnect}
use obbian_ribe_booking_app.Tests.Memory.{memory}
use obbian_ribe_booking_app.Tests.Ride.{one_ride, a_ride, ride_at}
use obbian_ribe_booking_app.Tests.Track.{nowhere}

abbrev rider : JwtPayload
rider = record { sub = 1; role = UserRole.rider; phone = "+911" }

abbrev verify : World → String → Option JwtPayload
verify w token = some rider

abbrev gateway : Gateway
gateway = record {
  world = one_ride RideStatus.accepted;
  sockets = socket_for "b" rider ∷ [];
  emitted = [];
}

free : connected "c" gateway ≡ none
unfolding find
free = refl

held : connected "b" gateway ≡ some (socket_for "b" rider)
unfolding find
held = refl

-- The end of socket a is handled after socket b has connected, and then c connects.
handle_connection-handle_disconnect_example :
    let after =
      handle_connection verify "c" "t" (handle_disconnect (socket_for "a" rider) gateway) in
    (connected "b" after ≡ some (socket_for "b" rider))
    × (connected "c" after ≡ some (socket_for "c" rider))
handle_connection-handle_disconnect_example =
    handle_connection-handle_disconnect verify "c" "t" rider (socket_for "a" rider)
      (socket_for "b" rider) gateway refl (λ w. refl) free refl held refl

push_location-take_ping_example :
    (taken : Bool) × (after : World) × (take_ping nowhere
        (ping_of 7 10 (pos 0) (pos 0) 5)
        gateway.world
      ≡ (ok taken, after))
    × (push_location nowhere 7 (pos 0) (pos 0) 5 gateway.world ≡ (ok taken, seen 7 taken after))
push_location-take_ping_example =
    push_location-take_ping nowhere 7 10 (pos 0) (pos 0) 5 gateway.world refl

bearer : bearer_token (some "Bearer t") ≡ some "t"
unfolding bearer_token
bearer = refl

takes_part : is_participant (a_ride RideStatus.accepted) 1 ≡ true
unfolding is_participant
takes_part = refl

open_ride : is_terminal RideStatus.accepted ≡ false
unfolding is_terminal
open_ride = refl

cancel_route_system_example :
    (cancel_route verify
      (some "Bearer t")
      10
      CancellationReason.user_cancelled
      (some CancelledBy.system)
      (one_ride RideStatus.accepted)).0
    ≡ ok (record { refund_amount = pos 20000; status = RideStatus.cancelled })
cancel_route_system_example =
    cancel_route_system verify (some "Bearer t") "t" rider 10 CancellationReason.user_cancelled
      (a_ride RideStatus.accepted) (one_ride RideStatus.accepted) bearer refl
      (ride_at RideStatus.accepted) takes_part open_ride
