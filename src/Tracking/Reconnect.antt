-- ===== src/Tracking/Reconnect.antt =====
-- What the sockets of a user become when one connects and another ends
-- (src/modules/tracking/gateways/tracking.gateway.ts).
use Prim.Native.String.{String}
use text.Mathlib.Text.{◌==◌ as same_text}
use text.Mathlib.TextEquality.{eq_iff}
use text.Mathlib.TextPositions.{eq_refl}
use obbian_ribe_booking_app.Base.{
  ℕ, ◌≡◌, refl, ◌∙◌, ap, true, false, Option, none, some, List, [], ◌∷◌, ◌++◌, find, find-append,
  if◌then◌else◌, arith,
}
use obbian_ribe_booking_app.Platform.{Platform, TextKey, same_text_key_refl}
use obbian_ribe_booking_app.World.{World}
use obbian_ribe_booking_app.Schema.{UserRole}
use obbian_ribe_booking_app.Auth.Token.{JwtPayload}
use obbian_ribe_booking_app.Tracking.Gateway.{Socket, Gateway}
use obbian_ribe_booking_app.Tracking.Connection.{
  without_socket, socket_for, read_socket, write_socket, delete_socket, disconnect_older,
  handle_connection, handle_disconnect, socket_id, connected,
}

find-without_socket :
    (id gone : String) (ss : List Socket)
    → find (λ s. same_text s.id id) (without_socket gone ss)
      ≡ (if same_text gone id then none else find (λ s. same_text s.id id) ss)
unfolding find without_socket
find-without_socket id gone [] = ground arith
find-without_socket id gone (s ∷ ss) =
    ground (arith, find-without_socket id gone ss, eq_iff s.id gone, eq_iff s.id id, eq_iff gone id)

same_text_comm : (a b : String) → same_text a b ≡ false → same_text b a ≡ false
same_text_comm a b h = ground (arith, eq_iff a b, eq_iff b a, eq_refl a)

module _ ⦃pf : Platform⦄ where
  -- The state after a handshake that succeeds.
  abbrev joined : String → JwtPayload → Option String → Gateway → Gateway
  joined id payload prev g =
      let older = disconnect_older prev id g in
      record older {
        world = record g.world {
          redis = pf.set_text g.world.now (TextKey.socket_of payload.sub) id 86_400 g.world.redis;
        };
        sockets = older.sockets ++ socket_for id payload ∷ [];
      }

  handle_connection-joined :
      (verify : World → String → Option JwtPayload) (id token : String) (payload : JwtPayload)
      (g : Gateway)
      → g.world.redis_up ≡ true
      → verify g.world token ≡ some payload
      → handle_connection verify id token g ≡ joined id payload (socket_id payload.sub g) g
  unfolding handle_connection read_socket write_socket
  handle_connection-joined verify id token payload g up known = ground arith

  socket_id-joined :
      (id : String) (payload : JwtPayload) (prev : Option String) (g : Gateway)
      → socket_id payload.sub (joined id payload prev g) ≡ some id
  socket_id-joined id payload prev g =
      pf.get_text-set_text g.world.now g.world.now (TextKey.socket_of payload.sub)
        (TextKey.socket_of payload.sub) id 86_400 g.world.redis (omega arith)
      ∙ ground (arith, same_text_key_refl (TextKey.socket_of payload.sub))

  -- The new socket is connected, if it was not before.
  connected-joined :
      (id : String) (payload : JwtPayload) (prev : Option String) (g : Gateway)
      → connected id (disconnect_older prev id g) ≡ none
      → connected id (joined id payload prev g) ≡ some (socket_for id payload)
  connected-joined id payload prev g free =
      find-append (λ s. same_text s.id id) (disconnect_older prev id g).sockets
        (socket_for id payload)
      ∙ ground (arith, free, eq_refl id)

  connected-disconnect_older :
      (j : String) (prev : Option String) (id : String) (g : Gateway)
      → connected j g ≡ none
      → connected j (disconnect_older prev id g) ≡ none
  unfolding disconnect_older
  connected-disconnect_older j none id g gone = gone
  connected-disconnect_older j (some prev) id g gone =
      ground (arith, find-without_socket j prev g.sockets)

  -- Another socket stays as it is.
  connected-joined_other :
      (j id : String) (payload : JwtPayload) (prev : Option String) (g : Gateway)
      → same_text id j ≡ false
      → connected j (joined id payload prev g) ≡ connected j (disconnect_older prev id g)
  connected-joined_other j id payload prev g other =
      find-append (λ s. same_text s.id j) (disconnect_older prev id g).sockets
        (socket_for id payload)
      ∙ ground (arith)

  disconnect_older-connected :
      (prev id : String) (g : Gateway)
      → same_text prev "" ≡ false
      → same_text prev id ≡ false
      → connected prev (disconnect_older (some prev) id g) ≡ none
  unfolding disconnect_older
  disconnect_older-connected prev id g filled other =
      ground (arith, find-without_socket prev prev g.sockets, eq_refl prev)

  pub handle_connection_lem :
      (verify : World → String → Option JwtPayload) (id token : String) (payload : JwtPayload)
      (prev : String) (g : Gateway)
      → g.world.redis_up ≡ true
      → verify g.world token ≡ some payload
      → connected id g ≡ none
      → socket_id payload.sub g ≡ some prev
      → same_text prev "" ≡ false
      → same_text prev id ≡ false
      → let after = handle_connection verify id token g in
        (socket_id payload.sub after ≡ some id)
        × (connected id after ≡ some (socket_for id payload))
        × (connected prev after ≡ none)
  handle_connection_lem verify id token payload prev g up known free stored filled other =
      let becomes : handle_connection verify id token g ≡ joined id payload (some prev) g =
        handle_connection-joined verify id token payload g up known
        ∙ ap (λ o. joined id payload o g) stored in
      rw becomes (
        socket_id-joined id payload (some prev) g,
        connected-joined id payload (some prev) g
            (connected-disconnect_older id (some prev) id g free),
        connected-joined_other prev id payload (some prev) g (same_text_comm prev id other)
            ∙ disconnect_older-connected prev id g filled other,
      )

  -- After its entry has been deleted, Redis has no socket of the user.
  socket_id-handle_disconnect :
      (older : Socket) (user_id : ℕ) (role : UserRole) (g : Gateway)
      → g.world.redis_up ≡ true
      → older.user ≡ some (user_id, role)
      → (socket_id user_id (handle_disconnect older g) ≡ none)
        × ((handle_disconnect older g).sockets ≡ g.sockets)
        × ((handle_disconnect older g).world.redis_up ≡ true)
  unfolding handle_disconnect delete_socket
  socket_id-handle_disconnect older user_id role g up owner = rw owner (
      rw up (
        pf.get_text-del_text g.world.now (TextKey.socket_of user_id) (TextKey.socket_of user_id)
              g.world.redis
            ∙ ground (arith, same_text_key_refl (TextKey.socket_of user_id)),
        refl,
        refl,
      ))

  -- With Redis up, once the end of an older socket of a user has been handled while another socket
  -- is connected, a newer one of that user say, the next connection of the user with a valid
  -- token, the same role and a new socket id is accepted and leaves that other socket connected
  -- too.
  pub handle_connection-handle_disconnect :
      (verify : World → String → Option JwtPayload) (id token : String) (payload : JwtPayload)
      (older newer : Socket) (g : Gateway)
      → g.world.redis_up ≡ true
      → ((w : World) → verify w token ≡ some payload)
      → connected id g ≡ none
      → older.user ≡ some (payload.sub, payload.role)
      → connected newer.id g ≡ some newer
      → same_text id newer.id ≡ false
      → let after = handle_connection verify id token (handle_disconnect older g) in
        (connected newer.id after ≡ some newer)
        × (connected id after ≡ some (socket_for id payload))
  unfolding disconnect_older
  handle_connection-handle_disconnect verify id token payload older newer g up known free owner held
        other =
      let left = handle_disconnect older g in
      let (forgotten, same_sockets, still_up) =
        socket_id-handle_disconnect older payload.sub payload.role g up owner in
      let becomes : handle_connection verify id token left ≡ joined id payload none left =
        handle_connection-joined verify id token payload left still_up (known left.world)
        ∙ ap (λ o. joined id payload o left) forgotten in
      rw becomes (
        connected-joined_other newer.id id payload none left other
            ∙ ap (find (λ s. same_text s.id newer.id)) same_sockets
            ∙ held,
        connected-joined id payload none left
            (ap (find (λ s. same_text s.id id)) same_sockets ∙ free),
      )
