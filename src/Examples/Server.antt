-- ===== src/Examples/Server.antt =====
-- The server's theorems at concrete inputs, and the reconnect from end to end.
use learning_orbit.Prelude.{
  ℕ, ◌≡◌, refl, inr, none, some, [], ◌∷◌, ◌++◌, true, false, arith, get, All,
}
use learning_orbit.Wire.{RoomEvent, events_of, ProjectionFrame, trace_student_bundle, ClientFrame}
use learning_orbit.Realtime.Backpressure.{safe, enforce_backpressure}
use learning_orbit.Realtime.Signals.{EphemeralSignals}
use learning_orbit.Realtime.Connection.{Connection, send_durable, finish_replay, send}
use learning_orbit.Realtime.Connection.Silence.{BufferIsBounded, send_durable-BufferIsBounded}
use learning_orbit.Realtime.Connection.Order.{IsIncreasing}
use learning_orbit.Realtime.Connection.Complete.{Covered, finish_replay_complete}
use learning_orbit.Realtime.Hub.{Turn, granted, denied, Role, durable, resume_rows}
use learning_orbit.Realtime.Hub.Replay.{resume_rows-IsIncreasing}
use learning_orbit.Realtime.Hub.Room.{Peer, withhold, deliver_projection}
use learning_orbit.Realtime.Hub.Room.Access.{projections_of, deliver_projection-no_leak}
use learning_orbit.Realtime.Hub.Handler.{Answers, Inbound, receive, committed}
use learning_orbit.Realtime.Hub.Handler.Access.{OnlyLeaves, receive_unauthorized}
use learning_orbit.Client.Socket.{on_frames}
use learning_orbit.Client.Socket.Pending.{PendingIsValid, IsHealthy}
use learning_orbit.Sync.{HasRoom, IsQuiet, frames_of, CaughtUp, resume-catches_up}
use learning_orbit.Examples.Data.{
  room, opened, greeted, command, encode, parse, idle, quiet, rows, greeted_server, line, waiting,
}

pub idle_roomy : HasRoom idle
idle_roomy fs = inr (0, refl, omega arith)

pub quiet_turns : IsQuiet quiet
quiet_turns seq = ((Role.student, "s1", refl), refl)

pub line-IsHealthy : IsHealthy line
line-IsHealthy = record { opened = refl; takes_all = λ f. refl }

pub waiting_valid : PendingIsValid encode waiting
unfolding get
waiting_valid = record {
  entries = ((refl, refl, ("x1", refl)), tt);
  distinct = (refl, tt);
  bounded = omega arith;
}

resume-catches_up_example :
    let d = resume_rows idle parse quiet rows greeted_server in
    (d.sent ≡ [] ++ frames_of (opened ∷ greeted ∷ []) 2)
    × (d.closed ≡ false)
    × (d.replaying ≡ false)
    × CaughtUp encode line waiting
        (opened ∷ greeted ∷ [])
        2
        (on_frames encode line (frames_of (opened ∷ greeted ∷ []) 2) waiting)
resume-catches_up_example =
    resume-catches_up encode parse idle quiet rows (opened ∷ greeted ∷ []) 2 line greeted_server
      waiting idle_roomy quiet_turns line-IsHealthy waiting_valid
      (refl, refl, refl, omega arith, refl, (refl, refl, refl, omega arith, refl, refl))
      (omega arith) refl refl refl

-- While each row is read, the next event is broadcast, out of order.
abbrev busy : ℕ → Turn
busy seq = record {
  authorization = granted Role.student "s1";
  meanwhile =
      durable (record greeted { room_seq = 4 }) ∷ durable (record greeted { room_seq = 3 }) ∷ [];
}

resume_rows-IsIncreasing_example :
    IsIncreasing 0 (events_of (resume_rows idle parse busy rows greeted_server).sent)
resume_rows-IsIncreasing_example =
    resume_rows-IsIncreasing idle parse busy rows greeted_server (λ seq. tt) refl refl

abbrev buffered : Connection
buffered = record greeted_server { live_buffer = greeted ∷ opened ∷ [] }

finish_replay_complete_example :
    All (Covered idle 0 (finish_replay idle 0 buffered)) (greeted ∷ opened ∷ [])
unfolding finish_replay send enforce_backpressure
finish_replay_complete_example = finish_replay_complete idle 0 buffered refl

send_durable-BufferIsBounded_example : BufferIsBounded idle (send_durable idle opened buffered)
send_durable-BufferIsBounded_example =
    send_durable-BufferIsBounded idle opened buffered (omega arith)

abbrev present : EphemeralSignals
present = record {
  presences = ("s1", record { seq = 3; expires_at = 40_000 }) ∷ [];
  typings = ("s1", record { seq = 4; expires_at = 12_000 }) ∷ [];
}

abbrev pointer : ProjectionFrame
pointer = record {
  room_id = room;
  projection_key = trace_student_bundle;
  analysis_epoch = "a1";
  projection_version = 3;
  complete_through_room_seq = 2;
  snapshot_url = "/latest";
}

deliver_projection-no_leak_example :
    projections_of
      (deliver_projection idle 0 pointer
        (granted Role.student "s1")
        (withhold none)
        greeted_server).sent
    ≡ []
deliver_projection-no_leak_example =
    deliver_projection-no_leak idle 0 pointer (granted Role.student "s1") (withhold none)
      greeted_server (λ h. cc (h.1))

abbrev peer : Peer
peer = record { handle = 1; connection = greeted_server }

abbrev revoked : Answers RoomEvent
revoked = record {
  turn = record { authorization = denied 4401; meanwhile = [] };
  during = [];
  room_state = none;
  outbox = [];
  turns = quiet;
  outcome = committed 3 1;
  now = 0;
  own_handle = 1;
  room = peer ∷ [];
}

abbrev order : Inbound
order = record { bytes = safe 200; frame = some (ClientFrame.command command) }

receive_unauthorized_example :
    let r = receive idle parse order revoked greeted_server in
    (r.0.sent ≡ []) × (r.0.closed ≡ true) × OnlyLeaves revoked greeted_server r.1
receive_unauthorized_example =
    receive_unauthorized idle parse order revoked 4401 greeted_server refl refl refl
