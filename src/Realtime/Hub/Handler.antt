-- ===== src/Realtime/Hub/Handler.antt =====
-- connection.ts: `receive` and `#handle`. What the awaited calls of one frame return is the record
-- `Answers`; the second part of a result is what is broadcast to the room, in order, with what
-- `hub.leave` broadcasts when the connection closes.
pub mod Access
use learning_orbit.Prelude.{
  ℕ, suc, ◌-◌, String, Bool, true, false, Option, none, some, List, [], ◌∷◌, ◌++◌, not, ◌&&◌, leb,
  ltb, if◌then◌else◌, ◌≡◌, refl, ◌<◌, ◌≤◌, arith,
}
use learning_orbit.Wire
use learning_orbit.Wire.{RoomEvent, ServerFrame, Status, ClientFrame, Attention}
use learning_orbit.Realtime.Backpressure.{Number, safe, unsafe}
use learning_orbit.Realtime.Signals.{expire, remove_actor}
use learning_orbit.Realtime.Connection.{
  Connection, Meter, close, send, max_inbound_frame_bytes, RoomError, command_reject_code,
  take_presence, take_typing,
}
use learning_orbit.Realtime.Hub.{
  Authorization, granted, denied, Meanwhile, Turn, OutboxRow, interfere, resume,
}
use learning_orbit.Realtime.Hub.Room.{Peer, Room, leave}

-- What `CommandService.dispatch` returns or throws.
pub data Outcome : Type 0 where
  committed : (room_seq revision : ℕ) → Outcome
  failed : RoomError → Outcome

-- `during` is what other tasks do while the hub's room state is read; `room_state` is the cursor and
-- the status, or `ROOM_NOT_FOUND`; `room` is the hub's set of the room if this socket, which has the
-- identity `own_handle`, leaves.
pub record Answers (Raw : Type 0) : Type 0 where
  pub turn : Turn
  pub during : List Meanwhile
  pub room_state : Option (ℕ × Status)
  pub outbox : List (OutboxRow Raw)
  pub turns : ℕ → Turn
  pub outcome : Outcome
  pub now : ℕ
  pub own_handle : ℕ
  pub room : Room

-- A frame as it arrives: its size, and what `parseClientFrame` makes of it.
pub record Inbound : Type 0 where
  pub bytes : Number
  pub frame : Option ClientFrame

-- What `close` broadcasts through `hub.leave`, between two states of the connection.
unfoldable pub departed : {Raw : Type 0} → Answers Raw → Connection → Connection → List ServerFrame
departed a c d =
    if not c.closed && d.closed
    then (leave a.now (record { handle = a.own_handle; connection = d }) a.room).1
    else []

-- `leave` takes the actor's signals from the connection if it announces the departure.
abbrev pub without_signals : ℕ → List ServerFrame → Connection → Connection
without_signals now [] d = d
without_signals now (_ ∷ _) d = record d {
  signals = (remove_actor d.signals d.identity.actor_id now).0;
}

-- A step of the handling, with what `close` does through `hub.leave` if the step closes.
abbrev pub followed :
    {Raw : Type 0}
    → Answers Raw
    → Connection
    → Connection × List ServerFrame
    → Connection × List ServerFrame
followed a c (d, out) = (without_signals a.now (departed a c d) d, out ++ departed a c d)

unfoldable pub say_hello : ℕ → Connection → Connection
say_hello from c = record c { said_hello = true; resume_from = from }

module _ (meter : Meter) {Raw : Type 0} (parse_envelope : Raw → Option RoomEvent) where
  -- The end of the handshake: welcome, then the replay. An unknown room throws, which `receive`
  -- turns into a close with 4400.
  unfoldable pub welcome : Answers Raw → Option (ℕ × Status) → Connection → Connection
  welcome a none c = close 4400 c
  welcome a (some (cursor, status)) c =
      resume meter parse_envelope a.turns a.outbox
        (send meter (Wire.welcome a.now c.identity.room_id cursor status) c)

  unfoldable pub handshake : Answers Raw → Authorization → Connection → Connection
  unfolding welcome
  handshake a (denied code) c = close code c
  handshake a (granted _ _) c = welcome a a.room_state (interfere meter a.during c)

  reply : Outcome → Wire.RoomCommand → Connection → Connection
  reply (committed room_seq revision) cmd c =
      send meter (Wire.ack cmd.command_id room_seq revision) c
  reply (failed error) cmd c =
      send meter (Wire.reject (some cmd.command_id) (command_reject_code error) false) c

  -- After the handshake, with the authorization renewed.
  unfoldable pub dispatch :
      ClientFrame → String → Answers Raw → Connection → Connection × List ServerFrame
  unfolding reply
  dispatch Wire.ClientFrame.heartbeat actor_id a c =
      let (signals, expired) = expire c.signals a.now in
      (send meter (Wire.ServerFrame.heartbeat a.now) (record c { signals = signals }), expired)
  dispatch (Wire.ClientFrame.command cmd) actor_id a c =
      (reply a.outcome cmd (interfere meter a.during c), [])
  dispatch (Wire.ClientFrame.presence state seq) actor_id a c =
      let (d, out) = take_presence actor_id state seq a.now c in
      (d, elim out [ none ↦ [] | some f ↦ f ∷ [] ])
  dispatch (Wire.ClientFrame.typing is_typing seq) actor_id a c =
      let (d, out) = take_typing actor_id is_typing seq a.now c in
      (d, elim out [ none ↦ [] | some f ↦ f ∷ [] ])
  dispatch (Wire.ClientFrame.hello _ _) actor_id a c = (c, [])

  unfoldable pub reauthorized :
      ClientFrame → Answers Raw → Authorization → Connection → Connection × List ServerFrame
  reauthorized f a (denied code) c = (close code c, [])
  reauthorized f a (granted _ actor_id) c = dispatch f actor_id a c

  -- What is handled once the authorization has been awaited; `left` is what was broadcast meanwhile.
  unfoldable pub renewed :
      ClientFrame → Answers Raw → Connection × List ServerFrame → Connection × List ServerFrame
  renewed f a (d, left) =
      let (e, out) = followed a d (reauthorized f a a.turn.authorization d) in (e, left ++ out)

  -- The first frame has to be a hello.
  unfoldable pub first_frame : ClientFrame → Answers Raw → Connection → Connection
  first_frame (Wire.ClientFrame.hello _ from) a c =
      handshake a a.turn.authorization (interfere meter a.turn.meanwhile (say_hello from c))
  first_frame _ a c = close 4400 c

  unfoldable pub handle : ClientFrame → Answers Raw → Connection → Connection × List ServerFrame
  handle f a c =
      if c.said_hello
      then renewed f a (followed a c (interfere meter a.turn.meanwhile c, []))
      else followed a c (first_frame f a c, [])

  parsed : Option ClientFrame → Answers Raw → Connection → Connection × List ServerFrame
  parsed none a c = followed a c (close 4400 c, [])
  parsed (some f) a c = handle f a c

  sized : Number → Option ClientFrame → Answers Raw → Connection → Connection × List ServerFrame
  unfolding parsed
  sized unsafe f a c = followed a c (close 1009 c, [])
  sized (safe bytes) f a c =
      if ltb max_inbound_frame_bytes bytes then followed a c (close 1009 c, []) else parsed f a c

  unfoldable pub receive : Inbound → Answers Raw → Connection → Connection × List ServerFrame
  unfolding sized
  receive i a c = if c.closed then (c, []) else sized i.bytes i.frame a c
