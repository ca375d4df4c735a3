-- ===== src/Realtime/Hub/Handler/Access.antt =====
-- What a connection without authority gets.
use learning_orbit.Prelude.{
  ℕ, ◌≡◌, refl, sym, subst, ◌⊎◌, true, false, Option, none, some, List, [], ◌∷◌, arith, if-cases,
  ltb, any, String,
}
use learning_orbit.Wire.{RoomEvent, ServerFrame, presence, typing, away, ClientFrame}
use learning_orbit.Realtime.Signals.{remove_actor}
use learning_orbit.Realtime.Backpressure.{Number, safe, unsafe}
use learning_orbit.Realtime.Connection.{Connection, Meter, close, max_inbound_frame_bytes}
use learning_orbit.Realtime.Hub.{denied, interfere}
use learning_orbit.Realtime.Hub.Room.{leave, farewell, is_member, same_actor}
use learning_orbit.Realtime.Hub.Handler.{
  Answers, Inbound, say_hello, handshake, reauthorized, first_frame, handle, parsed, sized, receive,
  departed, followed, renewed,
}

-- What is broadcast as this connection goes: nothing; or, if it stood in the room and its actor has
-- no other live socket there, that the actor is away and does not type.
abbrev pub OnlyLeaves : {Raw : Type 0} → Answers Raw → Connection → List ServerFrame → Type 0
OnlyLeaves a c out =
    (out ≡ [])
    ⊎ ((out ≡ presence c.identity.actor_id away a.now ∷ typing c.identity.actor_id false a.now ∷ [])
        × (is_member a.own_handle a.room ≡ true)
        × (any (same_actor c)
              (leave a.now (record { handle = a.own_handle; connection = c }) a.room).0
            ≡ false))

-- Closed, with nothing sent and only the departure broadcast.
record IsCut {Raw : Type 0} (a : Answers Raw) (c : Connection) (r : Connection × List ServerFrame)
    : Type 0 where
  silent : r.0.sent ≡ c.sent
  leaves : OnlyLeaves a c r.1
  shut : r.0.closed ≡ true

module _ {Raw : Type 0} (a : Answers Raw) where
  departed-OnlyLeaves :
      (c d : Connection) → d.identity ≡ c.identity → OnlyLeaves a c (departed a c d)
  unfolding departed leave farewell remove_actor
  departed-OnlyLeaves c d same = ground arith

  closing-IsCut :
      (code : ℕ) (c d : Connection)
      → c.closed ≡ false
      → d.sent ≡ c.sent
      → d.closed ≡ false
      → d.identity ≡ c.identity
      → IsCut a c (followed a c (close code d, []))
  unfolding close
  closing-IsCut code c d o s od same = ground (arith, departed-OnlyLeaves c (close code d))

module _ (meter : Meter) {Raw : Type 0} (parse : Raw → Option RoomEvent) where
  module _ (a : Answers Raw) (code : ℕ) (d : a.turn.authorization ≡ denied code)
      (m : a.turn.meanwhile ≡ []) where
    hello_denied :
        (id : String) (from : ℕ) (c : Connection)
        → first_frame meter parse (ClientFrame.hello id from) a c ≡ close code (say_hello from c)
    unfolding first_frame handshake interfere
    hello_denied id from c = rw (d, m) refl

    reauthorized_denied :
        (f : ClientFrame) (c : Connection)
        → reauthorized meter parse f a a.turn.authorization c ≡ (close code c, [])
    unfolding reauthorized
    reauthorized_denied f c =
        subst (λ x. reauthorized meter parse f a x c ≡ (close code c, [])) (sym d) refl

    interfere_none : (c : Connection) → interfere meter a.turn.meanwhile c ≡ c
    unfolding interfere
    interfere_none c = subst (λ ms. interfere meter ms c ≡ c) (sym m) refl

    departed_self : (c : Connection) → departed a c c ≡ []
    unfolding departed
    departed_self c = ground arith

    first_frame-IsCut :
        (f : ClientFrame) (c : Connection)
        → c.closed ≡ false
        → IsCut a c (followed a c (first_frame meter parse f a c, []))
    unfolding say_hello first_frame
    first_frame-IsCut (ClientFrame.hello id from) c o =
        rw (hello_denied id from c) (closing-IsCut a code c (say_hello from c) o refl o refl)
    first_frame-IsCut f c o = closing-IsCut a 4400 c c o refl o refl

    handle-IsCut :
        (f : ClientFrame) (c : Connection) → c.closed ≡ false → IsCut a c (handle meter parse f a c)
    unfolding handle renewed
    handle-IsCut f c o =
        if-cases (IsCut a c) c.said_hello
          (λ _. rw (interfere_none c) (
            rw (departed_self c)
              (rw (reauthorized_denied f c) (closing-IsCut a code c c o refl o refl))))
          (λ _. first_frame-IsCut f c o)

    parsed-IsCut :
        (f : Option ClientFrame) (c : Connection)
        → c.closed ≡ false
        → IsCut a c (parsed meter parse f a c)
    unfolding parsed
    parsed-IsCut none c o = closing-IsCut a 4400 c c o refl o refl
    parsed-IsCut (some f) c o = handle-IsCut f c o

    sized-IsCut :
        (n : Number) (f : Option ClientFrame) (c : Connection)
        → c.closed ≡ false
        → IsCut a c (sized meter parse n f a c)
    unfolding sized
    sized-IsCut unsafe f c o = closing-IsCut a 1009 c c o refl o refl
    sized-IsCut (safe n) f c o =
        if-cases (IsCut a c) (ltb max_inbound_frame_bytes n)
          (λ _. closing-IsCut a 1009 c c o refl o refl) (λ _. parsed-IsCut f c o)

  -- Authority is read again for every frame: whatever a session without it sends, be it oversized,
  -- unreadable, a hello, a heartbeat, a command or a signal, if no other task uses the connection
  -- during that read, an open connection is closed and nothing is written to its socket. Nothing is
  -- broadcast to the room but the departure itself: that the actor is away and does not type, and
  -- that only if the socket stood in the room and its actor has no other live socket there.
  pub receive_unauthorized :
      (i : Inbound) (a : Answers Raw) (code : ℕ) (c : Connection)
      → c.closed ≡ false
      → a.turn.authorization ≡ denied code
      → a.turn.meanwhile ≡ []
      → let r = receive meter parse i a c in
        (r.0.sent ≡ c.sent) × (r.0.closed ≡ true) × OnlyLeaves a c r.1
  unfolding receive
  receive_unauthorized i a code c o d m =
      let cut = sized-IsCut a code d m i.bytes i.frame c o in
      if-cases
        (λ (r : Connection × List ServerFrame).
          (r.0.sent ≡ c.sent) × (r.0.closed ≡ true) × OnlyLeaves a c r.1)
        c.closed (λ t. ground (arith, t, o)) (λ _. (cut.silent, cut.shut, cut.leaves))
