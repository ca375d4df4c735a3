-- ===== src/Examples/Data.antt =====
-- Two events of a room, a command, and the two ends of a connection.
use learning_orbit.Prelude.{ℕ, String, Option, none, some, List, [], ◌∷◌, true, false}
use learning_orbit.Wire.{
  RoomEvent, room_opened, message_added, human, teacher, student, add, RoomCommand, message_add,
  MessagePayload,
}
use learning_orbit.Realtime.Backpressure.{safe}
use learning_orbit.Realtime.Connection.{Connection, ConnectionIdentity, Meter}
use learning_orbit.Realtime.Hub.{Turn, OutboxRow, granted, Role}
use learning_orbit.Client.Socket.{RoomSocket, SocketLike}

abbrev pub room : String
room = "room-1"

abbrev pub opened : RoomEvent
opened = record {
  event_id = "e1";
  room_id = room;
  room_seq = 1;
  body = room_opened;
  actor_id = "t1";
  actor_kind = human;
  actor_role = teacher;
  revision = 1;
  operation = add;
  event_time = "10:00";
  causation_id = "c1";
  correlation_id = "k1";
}

abbrev pub greeting : MessagePayload
greeting = record {
  message_id = "m1";
  text = "hello";
  reply_to = none;
  mentions = [];
  media_ids = "p1" ∷ [];
}

abbrev pub greeted : RoomEvent
greeted = record opened {
  event_id = "e2";
  room_seq = 2;
  body = message_added greeting;
  actor_id = "s1";
  actor_role = student;
}

abbrev pub command : RoomCommand
command = record {
  command_id = "x1";
  room_id = room;
  command_type = message_add;
  client_time = "10:01";
  base_revision = none;
  payload = record {
    message_id = none;
    text = some "hi";
    reply_to = none;
    mentions = none;
    media_ids = none;
  };
}

-- Stands for the encoder of commands.
abbrev pub encode : RoomCommand → Option String
encode c = some c.command_id

-- Stands for the parser of stored envelopes.
abbrev pub parse : RoomEvent → Option RoomEvent
parse e = some e

abbrev pub idle : Meter
idle fs = some (safe 0)

abbrev pub quiet : ℕ → Turn
quiet seq = record { authorization = granted Role.student "s1"; meanwhile = [] }

abbrev pub rows : List (OutboxRow RoomEvent)
rows =
    record { room_id = room; room_seq = 1; envelope = opened }
    ∷ record { room_id = room; room_seq = 2; envelope = greeted }
    ∷ []

abbrev pub identity : ConnectionIdentity
identity = record { session_id = "q1"; room_id = room; actor_id = "s1" }

-- A connection that has said hello with the cursor 0.
abbrev pub greeted_server : Connection
greeted_server = record {
  identity = identity;
  signals = record { presences = []; typings = [] };
  said_hello = true;
  closed = false;
  replaying = true;
  resume_from = 0;
  replay_through = 0;
  live_buffer = [];
  last_presence = 0;
  last_typing = 0;
  last_client_seq = none;
  sent = [];
  close_codes = [];
}

abbrev pub line : SocketLike
line = record { id = 7; is_open = true; takes = λ f. true }

-- A client with one command that waits for the resume.
abbrev pub waiting : RoomSocket
waiting = record {
  client_id = "b1";
  room_id = room;
  last_room_seq = 0;
  stored = none;
  pending = ("x1", command) ∷ [];
  client_seq = 0;
  retry_delays = 500 ∷ 1_000 ∷ [];
  retry_index = 0;
  retry_timer = none;
  reconnect_gate = none;
  socket = some 7;
  has_factory = true;
  closed = false;
  resume_ready = false;
  delivered = [];
  controls = [];
  written = [];
  closes = [];
  notices = [];
}
