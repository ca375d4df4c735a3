-- ===== src/Realtime/Connection.antt =====
-- apps/server/src/modules/realtime/connection.ts: one socket of a room. The state is the object's
-- fields, with what was given to `socket.send` and the codes given to `socket.close`, in order.
-- `meter` is the environment's `socket.bufferedAmount` (`none`: a test double without one) as a
-- function of the frames written so far; every send that returns extends them, so a connection never
-- reads one argument twice before it closes. `close` also calls `hub.leave`, which is in
-- Realtime/Hub/Room and composed with every `close` of a frame's handling in Realtime/Hub/Handler and
-- of a broadcast in Realtime/Hub/Room.
pub mod Order
pub mod Silence
pub mod Complete
use learning_orbit.Prelude.{
  ℕ, ◌-◌, String, Bool, true, false, Option, none, some, List, [], ◌∷◌, ◌++◌, leb, ltb, max_ℕ,
  if◌then◌else◌, ◌||◌, not, length, sort_by,
}
use learning_orbit.Wire.{
  Attention, RoomEvent, ServerFrame, event, snapshot_required, RejectCode, internal, forbidden,
  room_deletion_in_progress, room_not_open, message_not_found, revision_conflict, invalid_command,
}
use learning_orbit.Realtime.Backpressure.{
  Number, safe, unsafe, BackpressureState, ok, warn, enforce_backpressure, defaults,
}
use learning_orbit.Realtime.Signals.{EphemeralSignals, no_signals, accept_presence, accept_typing}

pub record ConnectionIdentity : Type 0 where
  pub session_id : String
  pub room_id : String
  pub actor_id : String

-- `last_client_seq` starts at -1, which is `none`.
pub record Connection : Type 0 where
  pub identity : ConnectionIdentity
  pub signals : EphemeralSignals
  pub said_hello : Bool
  pub closed : Bool
  pub replaying : Bool
  pub resume_from : ℕ
  pub replay_through : ℕ
  pub live_buffer : List RoomEvent
  pub last_presence : ℕ
  pub last_typing : ℕ
  pub last_client_seq : Option ℕ
  pub sent : List ServerFrame
  pub close_codes : List ℕ

abbrev pub max_inbound_frame_bytes : ℕ
max_inbound_frame_bytes = 16_384

abbrev pub max_live_buffer_events : ℕ
max_live_buffer_events = 512

unfoldable pub connect : ConnectionIdentity → Connection
connect identity = record {
  identity = identity;
  signals = no_signals;
  said_hello = false;
  closed = false;
  replaying = true;
  resume_from = 0;
  replay_through = 0;
  live_buffer = [];
  last_presence = 0;
  last_typing = 0;
  last_client_seq = none;
  sent = [];
  close_codes = [];
}

unfoldable pub close : ℕ → Connection → Connection
close code c =
    if c.closed
    then c
    else record c { closed = true; live_buffer = []; close_codes = c.close_codes ++ code ∷ [] }

-- `this.socket.send(JSON.stringify(frame))`.
unfoldable pub write : ServerFrame → Connection → Connection
write frame c = record c { sent = c.sent ++ frame ∷ [] }

-- The branches of `send` by the result of `enforceBackpressure`, whose own `socket.close(1013)` is
-- recorded first.
abbrev note_close : Bool → Connection → Connection
note_close b c = if b then record c { close_codes = c.close_codes ++ 1013 ∷ [] } else c

unfoldable pub send_measured : BackpressureState × Bool → ServerFrame → Connection → Connection
unfolding write close
send_measured (BackpressureState.close, closes) frame c = close 1013 (note_close closes c)
send_measured (_, closes) frame c = write frame c

-- The gate of `finishReplay` opens: the cursor moves, and the buffer is spliced out.
unfoldable pub open_gate : ℕ → Connection → Connection
open_gate through c = record c {
  replay_through = max_ℕ c.replay_through through;
  replaying = false;
  live_buffer = [];
}

abbrev pub Meter : Type 0
Meter = List ServerFrame → Option Number

module _ (meter : Meter) where
  send_open : Option Number → ServerFrame → Connection → Connection
  unfolding write send_measured
  send_open none frame c = write frame c
  send_open (some amount) frame c = send_measured (enforce_backpressure defaults amount) frame c

  unfoldable pub send : ServerFrame → Connection → Connection
  unfolding send_open
  send frame c = if c.closed then c else send_open (meter c.sent) frame c

  -- An event goes out only after hello and the ordered resume; until then it is buffered.
  unfoldable pub send_durable : RoomEvent → Connection → Connection
  send_durable e c =
      if c.closed
      then c
      else if not c.said_hello || c.replaying
      then (if leb max_live_buffer_events (length c.live_buffer)
          then close 4409
              (send (snapshot_required c.resume_from (max_ℕ c.resume_from c.replay_through)) c)
          else record c { live_buffer = c.live_buffer ++ e ∷ [] })
      else send (event e) c

  -- The body and the loop of `finishReplay` over the sorted buffer.
  unfoldable pub flush_event : RoomEvent → Connection → Connection
  flush_event e c =
      if ltb c.replay_through e.room_seq
      then record (send (event e) c) { replay_through = e.room_seq }
      else c

  unfoldable pub flush : List RoomEvent → Connection → Connection
  flush [] c = c
  flush (e ∷ es) c = flush es (flush_event e c)

  unfoldable pub finish_replay : ℕ → Connection → Connection
  unfolding flush flush_event open_gate
  finish_replay through c =
      if c.closed
      then c
      else flush (sort_by (λ (e : RoomEvent). e.room_seq) c.live_buffer) (open_gate through c)

-- Failures of a command that the client sees verbatim; every other one is INTERNAL.
pub data RoomError : Type 0 where
  room_error : RejectCode → RoomError
  unknown_error : RoomError

unfoldable pub command_reject_code : RoomError → RejectCode
command_reject_code (room_error forbidden) = forbidden
command_reject_code (room_error room_deletion_in_progress) = room_deletion_in_progress
command_reject_code (room_error room_not_open) = room_not_open
command_reject_code (room_error message_not_found) = message_not_found
command_reject_code (room_error revision_conflict) = revision_conflict
command_reject_code (room_error invalid_command) = invalid_command
command_reject_code _ = internal

-- `clientSeq <= lastClientSeq`, which starts below every number.
abbrev pub seq_is_old : Option ℕ → ℕ → Bool
seq_is_old none seq = false
seq_is_old (some last) seq = leb seq last

-- The presence and typing branches of `#handle`: rate limit, shared sequence number, signal. The
-- second part is the frame to broadcast to the room. `now - last` is exact or negative, and a
-- negative difference is below the limit as 0 is.
unfoldable pub take_presence :
    String → Attention → ℕ → ℕ → Connection → Connection × Option ServerFrame
take_presence actor_id state seq now c =
    if ltb (now - c.last_presence) 5_000 || seq_is_old c.last_client_seq seq
    then (c, none)
    else let (signals, out) = accept_presence c.signals actor_id state seq now in
      (record c { last_presence = now; last_client_seq = some seq; signals = signals }, out)

unfoldable pub take_typing : String → Bool → ℕ → ℕ → Connection → Connection × Option ServerFrame
take_typing actor_id is_typing seq now c =
    if ltb (now - c.last_typing) 500 || seq_is_old c.last_client_seq seq
    then (c, none)
    else let (signals, out) = accept_typing c.signals actor_id is_typing seq now in
      (record c { last_typing = now; last_client_seq = some seq; signals = signals }, out)
