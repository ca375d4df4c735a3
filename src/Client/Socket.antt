-- ===== src/Client/Socket.antt =====
-- apps/web/src/lib/realtime/room-socket.ts: the browser's state machine of one room. Sockets are
-- numbered; what the object does to the outside is kept in order: events given to the sink, frames
-- given to the control sink, frames written to a socket, closes of a socket, notices to the owner.
-- The encoder of commands (JSON text behind an Ajv schema) is a parameter; the sinks and callbacks
-- return. `createFactory` and the timers are the environment: `connect` is given the new socket, and
-- `retry` is the timer's callback.
pub mod Delivery
pub mod Pending
pub mod Lifecycle
use learning_orbit.Prelude.{
  ℕ, suc, ◌+◌, ◌-◌, String, Bool, true, false, not, Option, none, some, List, [], ◌∷◌, ◌++◌, leb,
  ltb, ◌==◌, ◌===◌, if◌then◌else◌, ◌&&◌, ◌||◌, is_safe_integer, is_some, max_ℕ, length, get, put,
  remove, has, keys, map,
}
use learning_orbit.Wire.{
  RoomEvent, ServerFrame, event, resume_complete, snapshot_required, ack, reject, RoomCommand,
  ClientFrame, Attention,
}
use learning_orbit.Wire

-- A socket: its identity, whether it is open, and which frames `send` takes without throwing.
pub record SocketLike : Type 0 where
  pub id : ℕ
  pub is_open : Bool
  pub takes : ClientFrame → Bool

pub data Notice : Type 0 where
  session_expired protocol_error : Notice
  room_unavailable : (code : ℕ) → Notice
  connection_change : Bool → Notice

-- `stored` is what the storage holds under the room's key.
pub record RoomSocket : Type 0 where
  pub client_id : String
  pub room_id : String
  pub last_room_seq : ℕ
  pub stored : Option ℕ
  pub pending : List (String × RoomCommand)
  pub client_seq : ℕ
  pub retry_delays : List ℕ
  pub retry_index : ℕ
  pub retry_timer : Option ℕ
  pub reconnect_gate : Option ℕ
  pub socket : Option ℕ
  pub has_factory : Bool
  pub closed : Bool
  pub resume_ready : Bool
  pub delivered : List RoomEvent
  pub controls : List ServerFrame
  pub written : List (ℕ × ClientFrame)
  pub closes : List (ℕ × ℕ)
  pub notices : List Notice

abbrev pub max_pending_commands : ℕ
max_pending_commands = 100

abbrev pub default_retry_delays : List ℕ
default_retry_delays = 500 ∷ 1_000 ∷ 2_000 ∷ 4_000 ∷ 8_000 ∷ []

-- The cursor read from the storage: `none` is a value that is no safe non-negative integer.
abbrev pub saved_cursor : Option ℕ → ℕ
saved_cursor none = 0
saved_cursor (some n) = if is_safe_integer n then n else 0

unfoldable pub create : String → String → Option ℕ → List ℕ → RoomSocket
create client_id room_id saved delays = record {
  client_id = client_id;
  room_id = room_id;
  last_room_seq = saved_cursor saved;
  stored = saved;
  pending = [];
  client_seq = 0;
  retry_delays = delays;
  retry_index = 0;
  retry_timer = none;
  reconnect_gate = none;
  socket = none;
  has_factory = false;
  closed = false;
  resume_ready = false;
  delivered = [];
  controls = [];
  written = [];
  closes = [];
  notices = [];
}

-- The calls to the outside.
abbrev pub control : ServerFrame → RoomSocket → RoomSocket
control f s = record s { controls = s.controls ++ f ∷ [] }

abbrev pub notify : Notice → RoomSocket → RoomSocket
notify n s = record s { notices = s.notices ++ n ∷ [] }

abbrev pub write_to : ℕ → ClientFrame → RoomSocket → RoomSocket
write_to id f s = record s { written = s.written ++ (id, f) ∷ [] }

abbrev pub close_socket : ℕ → ℕ → RoomSocket → RoomSocket
close_socket id code s = record s { closes = s.closes ++ (id, code) ∷ [] }

abbrev pub is_current : Option ℕ → ℕ → Bool
is_current none id = false
is_current (some current) id = current == id

unfoldable pub hello : RoomSocket → ClientFrame
hello s = ClientFrame.hello s.client_id s.last_room_seq

abbrev pub pending_command_ids : RoomSocket → List String
pending_command_ids s = keys s.pending

unfoldable pub defer_reconnect_until : ℕ → RoomSocket → RoomSocket
defer_reconnect_until gate s = record s { reconnect_gate = some gate }

abbrev clear_retry : RoomSocket → RoomSocket
clear_retry s = record s { retry_timer = none }

-- `retryDelays[Math.min(retryIndex, retryDelays.length - 1)]`.
unfoldable pub delay_at : List ℕ → ℕ → Option ℕ
delay_at [] i = none
delay_at (d ∷ []) i = some d
delay_at (d ∷ e ∷ ds) ℕ.zero = some d
delay_at (d ∷ e ∷ ds) (suc i) = delay_at (e ∷ ds) i

start_timer : Option ℕ → RoomSocket → RoomSocket
start_timer none s = s
start_timer (some d) s = record s { retry_index = s.retry_index + 1; retry_timer = some d }

unfoldable pub schedule_reconnect : RoomSocket → RoomSocket
unfolding start_timer
schedule_reconnect s =
    if s.closed || not s.has_factory || is_some s.retry_timer
    then s
    else start_timer (delay_at s.retry_delays s.retry_index) s

-- A terminal close: no retry, and the owner is told.
abbrev finish : Notice → RoomSocket → RoomSocket
finish n s = notify n (clear_retry (record s { closed = true }))

-- What `onClose` does after the common prefix, by the close code (0 where there is none).
unfoldable pub closed_by : ℕ → RoomSocket → RoomSocket
unfolding schedule_reconnect
closed_by code s =
    if code == 4400
    then finish protocol_error s
    else if code == 4401
    then finish session_expired s
    else if code == 4403 || code == 4410
    then finish (room_unavailable code) s
    else if code == 4409 && not (is_some s.reconnect_gate)
    then finish protocol_error s
    else if is_some s.reconnect_gate
    then s
    else schedule_reconnect s

unfoldable pub on_close : ℕ → RoomSocket → RoomSocket
on_close code s =
    if s.closed
    then s
    else closed_by code
        (notify (connection_change false) (record s { socket = none; resume_ready = false }))

-- The two continuations of `gate.then`, with the gate that they were registered for.
unfoldable pub gate_resolved : ℕ → RoomSocket → RoomSocket
gate_resolved gate s = schedule_reconnect (record s {
  reconnect_gate = if is_current s.reconnect_gate gate then none else s.reconnect_gate;
})

unfoldable pub gate_rejected : ℕ → RoomSocket → RoomSocket
gate_rejected gate s = record s {
  reconnect_gate = if is_current s.reconnect_gate gate then none else s.reconnect_gate;
}

pub data SendError : Type 0 where
  invalid_room_command command_id_conflict pending_command_limit : SendError

pub data SendResult : Type 0 where
  accepted : SendResult
  thrown : SendError → SendResult

-- A command is written at once when the resume has completed and the socket is open; a write that
-- throws closes the socket with 1011, and starts a reconnect if the socket is the current one.
unfoldable pub transmit : SocketLike → RoomCommand → RoomSocket → RoomSocket
transmit sock c s =
    if s.resume_ready && sock.is_open
    then (if sock.takes (ClientFrame.command c)
        then write_to sock.id (ClientFrame.command c) s
        else let t = close_socket sock.id 1011 s in
          if is_current s.socket sock.id then on_close 0 t else t)
    else s

module _ (encode_room_command : RoomCommand → Option String) where
  -- Whether two valid commands have one encoding.
  same_encoding : RoomCommand → String → Bool
  same_encoding c text = elim (encode_room_command c) [ none ↦ false | some t ↦ t === text ]

  -- `send` once the command is known to be valid, by the pending command of its id.
  unfoldable pub send_encoded :
      SocketLike → RoomCommand → String → Option RoomCommand → RoomSocket → RoomSocket × SendResult
  unfolding same_encoding
  send_encoded sock c text (some existing) s =
      if same_encoding existing text
      then (transmit sock existing s, accepted)
      else (s, thrown command_id_conflict)
  send_encoded sock c text none s =
      if leb max_pending_commands (length s.pending)
      then (s, thrown pending_command_limit)
      else (transmit sock c (record s { pending = put c.command_id c s.pending }), accepted)

  unfoldable pub send : SocketLike → RoomCommand → RoomSocket → RoomSocket × SendResult
  send sock c s = elim (encode_room_command c) [
    | none ↦ (s, thrown invalid_room_command)
    | some text ↦ send_encoded sock c text (get c.command_id s.pending) s
  ]

  -- The loop of `#flushPending`.
  unfoldable pub flush_pending : SocketLike → List (String × RoomCommand) → RoomSocket → RoomSocket
  flush_pending sock [] s = s
  flush_pending sock ((_, c) ∷ cs) s = flush_pending sock cs (send sock c s).0

-- `#acceptCursor`.
unfoldable pub accept_cursor : ℕ → RoomSocket → RoomSocket
accept_cursor seq s =
    if not (is_safe_integer seq) || ltb seq s.last_room_seq
    then s
    else record s { last_room_seq = seq; stored = some seq }

-- `#acceptEvent`. `event.roomSeq - 1` is exact, since the sequence is above the cursor.
unfoldable pub accept_event : RoomEvent → RoomSocket → RoomSocket
unfolding accept_cursor
accept_event e s =
    if not (e.room_id === s.room_id) || leb e.room_seq s.last_room_seq
    then s
    else if not (e.room_seq == suc s.last_room_seq)
    then control (snapshot_required s.last_room_seq (e.room_seq - 1)) s
    else let t = accept_cursor e.room_seq s in record t { delivered = t.delivered ++ e ∷ [] }

abbrev drop_rejected : Option String → Bool → RoomSocket → RoomSocket
drop_rejected none retryable s = s
drop_rejected (some id) retryable s =
    if retryable then s else record s { pending = remove id s.pending }

module _ (encode_room_command : RoomCommand → Option String) where
  -- `resume_complete`: the cursors agree and the socket is ready, or a snapshot is asked for.
  unfoldable pub resume_done : SocketLike → ℕ → RoomSocket → RoomSocket
  resume_done sock through s =
      if through == s.last_room_seq
      then control (resume_complete through) (
          flush_pending encode_room_command sock s.pending
            (notify (connection_change true) (record s { retry_index = 0; resume_ready = true })))
      else control (snapshot_required s.last_room_seq (max_ℕ s.last_room_seq through)) s

  unfoldable pub on_frame : SocketLike → ServerFrame → RoomSocket → RoomSocket
  unfolding resume_done
  on_frame sock (event e) s = accept_event e s
  on_frame sock (resume_complete through) s = resume_done sock through s
  on_frame sock (ack id seq revision) s =
      control (ack id seq revision) (record s { pending = remove id s.pending })
  on_frame sock (reject id code retryable) s =
      control (reject id code retryable) (drop_rejected id retryable s)
  on_frame sock f s = control f s

  unfoldable pub on_frames : SocketLike → List ServerFrame → RoomSocket → RoomSocket
  on_frames sock [] s = s
  on_frames sock (f ∷ fs) s = on_frames sock fs (on_frame sock f s)

-- `#protocolFailure`.
unfoldable pub protocol_failure : ℕ → RoomSocket → RoomSocket
protocol_failure id s =
    if s.closed
    then s
    else notify protocol_error (
        close_socket id 4400 (
          notify (connection_change false) (record s {
            closed = true;
            retry_timer = none;
            socket = if is_current s.socket id then none else s.socket;
          })))

module _ (encode_room_command : RoomCommand → Option String) where
  -- The `message` listener; `none` is a frame that `parseServerFrame` refuses.
  unfoldable pub on_message : SocketLike → Option ServerFrame → RoomSocket → RoomSocket
  on_message sock f s = if s.closed || not (is_current s.socket sock.id) then s else elim f [
    | none ↦ protocol_failure sock.id s
    | some frame ↦ on_frame encode_room_command sock frame s
  ]

abbrev close_previous : Option ℕ → RoomSocket → RoomSocket
close_previous none s = s
close_previous (some id) s = close_socket id 1000 s

-- `connect`, with the socket that the factory makes. A hello that throws leaves the state so.
unfoldable pub connect : SocketLike → RoomSocket → RoomSocket
connect sock s =
    let t =
      notify (connection_change false) (record s {
        closed = false;
        resume_ready = false;
        has_factory = true;
        retry_timer = none;
      }) in
    let u = record (close_previous s.socket (record t { socket = none })) {
      socket = some sock.id;
    } in
    if sock.is_open && sock.takes (hello u) then write_to sock.id (hello u) u else u

-- The `open` and `close` listeners.
unfoldable pub on_open : SocketLike → RoomSocket → RoomSocket
on_open sock s =
    if not s.closed && is_current s.socket sock.id && sock.takes (hello s)
    then write_to sock.id (hello s) s
    else s

unfoldable pub on_socket_close : ℕ → ℕ → RoomSocket → RoomSocket
on_socket_close id code s = if is_current s.socket id then on_close code s else s

-- The retry timer's callback.
unfoldable pub retry : SocketLike → RoomSocket → RoomSocket
retry sock s =
    let t = record s { retry_timer = none } in
    if not s.closed && s.has_factory then connect sock t else t

abbrev close_current : Option ℕ → RoomSocket → RoomSocket
close_current none s = s
close_current (some id) s = close_socket id 1000 s

unfoldable pub close : RoomSocket → RoomSocket
close s =
    notify (connection_change false)
      (record (close_current s.socket
        (record s { closed = true; resume_ready = false; retry_timer = none })) { socket = none })

unfoldable pub destroy : RoomSocket → RoomSocket
unfolding close
destroy s = record (close s) {
  pending = [];
  client_seq = 0;
  stored = none;
  room_id = "";
  last_room_seq = 0;
  reconnect_gate = none;
  has_factory = false;
}

-- `#sendEphemeral`: the shared counter moves only with a frame that the socket took.
send_ephemeral : SocketLike → ClientFrame → ℕ → RoomSocket → RoomSocket
send_ephemeral sock f seq s =
    if s.resume_ready && sock.is_open && sock.takes f
    then record (write_to sock.id f s) { client_seq = seq }
    else s

unfoldable pub send_presence : SocketLike → Attention → RoomSocket → RoomSocket
unfolding send_ephemeral
send_presence sock state s =
    send_ephemeral sock (ClientFrame.presence state (s.client_seq + 1)) (s.client_seq + 1) s

unfoldable pub send_typing : SocketLike → Bool → RoomSocket → RoomSocket
unfolding send_ephemeral
send_typing sock is_typing s =
    send_ephemeral sock (ClientFrame.typing is_typing (s.client_seq + 1)) (s.client_seq + 1) s
