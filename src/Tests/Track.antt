-- ===== src/Tests/Track.antt =====
-- The stream of positions of driver 7, with a distance that is always 0.
use obbian_ribe_booking_app.Base.{◌≡◌, refl, some, List, [], ◌∷◌, ◌++◌, ℕ, ℤ, pos, length}
use obbian_ribe_booking_app.Schema.{RideStatus, UserRole}
use obbian_ribe_booking_app.Tracking.Gateway.{
  Socket, LocationUpdate, Gateway, driver_location, driver_id_of, take_ping, verify_jump,
  store_ping, plausible_after, plausible,
}
use obbian_ribe_booking_app.Tracking.Gateway.Stream.{
  Ping, Chained, last_position, stream, stream-Chained,
}
use obbian_ribe_booking_app.Drivers.Service.{
  upsert_driver_position, cache_driver_position, set_heartbeat,
}
use obbian_ribe_booking_app.Tests.Memory.{memory}
use obbian_ribe_booking_app.Tests.Ride.{one_ride}

abbrev pub nowhere : ℤ → ℤ → ℤ → ℤ → ℕ
nowhere a b c d = 0

abbrev a_socket : Socket
a_socket = record { id = "s"; user = some (7, UserRole.driver); rides = [] }

abbrev gateway : Gateway
gateway = record { world = one_ride RideStatus.accepted; sockets = a_socket ∷ []; emitted = [] }

abbrev ping_at : ℕ → Ping
ping_at t = record { ride_id = 10; lat = pos 0; lon = pos 0; timestamp = t }

-- The second ping has the time of the first.
abbrev pings : List Ping
pings = ping_at 5 ∷ ping_at 5 ∷ ping_at 6 ∷ []

stream_test : length (stream nowhere a_socket pings gateway).emitted ≡ 2
unfolding stream driver_location driver_id_of take_ping verify_jump store_ping plausible_after
    plausible upsert_driver_position cache_driver_position set_heartbeat
stream_test = refl

stream-Chained_example :
    (sent : List LocationUpdate) × ((stream nowhere a_socket pings gateway).emitted ≡ [] ++ sent)
    × Chained nowhere (last_position nowhere 7 gateway.world) sent
stream-Chained_example = stream-Chained nowhere a_socket 7 pings gateway refl refl
