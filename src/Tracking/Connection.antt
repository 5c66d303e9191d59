-- ===== src/Tracking/Connection.antt =====
-- The handshake and the end of a socket (src/modules/tracking/gateways/tracking.gateway.ts). The verification of
-- a token is a parameter, and the map of sockets of the server is taken to be that of this gateway. The
-- room of a user is left out: nothing is sent to it.
use Prim.Native.String.{String}
use text.Mathlib.Text.{◌==◌ as same_text}
use obbian_ribe_booking_app.Base.{
  ℕ, not, ◌&&◌, Option, none, some, List, [], ◌∷◌, ◌++◌, find, if◌then◌else◌,
}
use obbian_ribe_booking_app.Platform.{Platform, TextKey}
use obbian_ribe_booking_app.World.{World, Action, redis_call, Outcome, ok, err}
use obbian_ribe_booking_app.Auth.Token.{JwtPayload}
use obbian_ribe_booking_app.Tracking.Gateway.{Socket, Gateway}

unfoldable pub without_socket : String → List Socket → List Socket
without_socket id [] = []
without_socket id (s ∷ ss) =
    let rest = without_socket id ss in if same_text s.id id then rest else s ∷ rest

-- A socket whose handshake has succeeded.
abbrev pub socket_for : String → JwtPayload → Socket
socket_for id payload = record { id = id; user = some (payload.sub, payload.role); rides = [] }

module _ ⦃pf : Platform⦄ where
  unfoldable pub read_socket : ℕ → Action (Option String)
  read_socket user_id = redis_call (λ now s. (pf.get_text now (TextKey.socket_of user_id) s, s))

  unfoldable pub write_socket : ℕ → String → Action (Unit {0})
  write_socket user_id id =
      redis_call (λ now s. (tt, pf.set_text now (TextKey.socket_of user_id) id 86_400 s))

  unfoldable pub delete_socket : ℕ → Action (Unit {0})
  delete_socket user_id = redis_call (λ now s. (tt, pf.del_text (TextKey.socket_of user_id) s))

  -- `if (prev && prev !== client.id) sockets.get(prev)?.disconnect(true)`, where the sockets are
  -- `this.server.sockets.sockets`. That this is the map of the connected sockets is an assumption on
  -- socket.io: it is so for a Server, as the field of the gateway is declared, but not for the Namespace
  -- that a gateway with a namespace may be given.
  unfoldable pub disconnect_older : Option String → String → Gateway → Gateway
  disconnect_older none id g = g
  disconnect_older (some prev) id g =
      if not (same_text prev "") && not (same_text prev id)
      then record g { sockets = without_socket prev g.sockets }
      else g

  -- The client is in the list of sockets only if nothing has been thrown.
  abbrev settled : JwtPayload → String → Outcome (Unit {0}) × World → Gateway → Gateway
  settled payload id (ok _, w) g = record g {
    world = w;
    sockets = g.sockets ++ socket_for id payload ∷ [];
  }
  settled payload id (err _, w) g = record g { world = w }

  abbrev replace_older : JwtPayload → String → Outcome (Option String) × World → Gateway → Gateway
  replace_older payload id (ok prev, w) g =
      settled payload id (write_socket payload.sub id w) (disconnect_older prev id g)
  replace_older payload id (err _, w) g = record g { world = w }

  unfoldable pub handle_connection :
      (World → String → Option JwtPayload) → String → String → Gateway → Gateway
  handle_connection verify id token g = elim (verify g.world token) [
    | none ↦ g
    | some payload ↦ replace_older payload id (read_socket payload.sub g.world) g
  ]

  -- A failure to delete the entry is thrown into nothing.
  unfoldable pub handle_disconnect : Socket → Gateway → Gateway
  handle_disconnect client g = elim client.user [
    | none ↦ g
    | some user ↦ record g { world = (delete_socket user.0 g.world).1 }
  ]

  -- The socket that Redis has for a user.
  abbrev pub socket_id : ℕ → Gateway → Option String
  socket_id user_id g = pf.get_text g.world.now (TextKey.socket_of user_id) g.world.redis

  abbrev pub connected : String → Gateway → Option Socket
  connected id g = find (λ s. same_text s.id id) g.sockets
