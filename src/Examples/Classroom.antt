-- ===== src/Examples/Classroom.antt =====
-- The theorems on the rooms' services at a room that a teacher has opened and a student has greeted.
use learning_orbit.Prelude.{
  ℕ, ◌+◌, String, ◌≡◌, refl, none, some, List, [], ◌∷◌, ◌++◌, map, true, false, arith, get, put,
  ◌===◌, take, ◌==◌, if◌then◌else◌,
}
use learning_orbit.Wire.{
  RoomCommand, human, opened, scheduled, closed, add, room_pause, message_add, message_revise,
  CommandPayload,
}
use learning_orbit.Wire
use learning_orbit.Rooms.Store.{
  room_opened, room_closed, message_added, Event, Job, Room, room_auto_close, auto_close_key,
  auto_close, queued, body_type,
}
use learning_orbit.Rooms.Work.{After, ok}
use learning_orbit.Rooms.Ledger.{events_after, Environment, Draws, outbox_of, with_causation}
use learning_orbit.Rooms.Ledger.Life.{opening, adding}
use learning_orbit.Rooms.Ledger.Mirror.{IsLedger, IsLedgers, Keeps}
use learning_orbit.Rooms.Messages.{AuthSession}
use learning_orbit.Rooms.Messages.Commands.{revise_work}
use learning_orbit.Rooms.Work.Surely.{Surely}
use learning_orbit.Rooms.Messages.Revisions.{Changes, IsAuthor, revise_work-Changes}
use learning_orbit.Rooms.Lifecycle.{
  close_if_due, auto_close_job, source_of, event_by_id, cancel_job,
}
use learning_orbit.Rooms.Lifecycle.Commands.{open_new}
use learning_orbit.Rooms.Lifecycle.Closing.{IsTimed, canonical-due, open_new-IsTimed}
use learning_orbit.Rooms.Lifecycle.Liveness.{CanClose, close_if_due-Closes}
use learning_orbit.Rooms.Commands.{route}
use learning_orbit.Rooms.Commands.Runs.{
  Action, Action.command as give_command, clock, run, run-Keeps,
}
use learning_orbit.Rooms.Commands.Failures.{FailsCleanly, route-FailsCleanly}
use learning_orbit.Rooms.Commands.Closed.{IsShut, route_shut}
use learning_orbit.Rooms.Reading.{events_after-missing}
use learning_orbit.Rooms.Resume.{wire, missing, hub_row, resume-delivers_ledger}
use learning_orbit.Realtime.Hub.{resume}
use learning_orbit.Client.Socket.{on_frames}
use learning_orbit.Sync.{frames_of, CaughtUp}
use learning_orbit.Examples.Data.{
  room, greeting, command, encode, idle, quiet, line, waiting, greeted_server,
}
use learning_orbit.Examples.Server.{idle_roomy, quiet_turns, line-IsHealthy, waiting_valid}

abbrev environment : Environment
environment = record {
  is_uuid = λ _. true;
  to_iso = λ n. if n == 9 then "10:00" else "10:45";
  iso_of = λ t. some t;
  trim = λ t. t;
  accepts = λ _. true;
  teacher_session = λ s t. s === "session";
  student_session = λ s m. s === "session";
  assert_attachable = λ room ids. ok tt;
  bind_media = λ room message event ids. ok tt;
}

abbrev name_of : ℕ → String
name_of n = if n == 0 then "u0" else if n == 1 then "u1" else if n == 2 then "u2" else "u3"

abbrev draws : Draws
draws = record { clock = λ _. some 2_700_009; random_uuid = name_of }

abbrev opening_event : Event
opening_event = record {
  event_id = "e1";
  room_id = room;
  room_seq = 1;
  body = room_opened "10:00" "10:45";
  actor_id = "t1";
  actor_kind = human;
  actor_role = Wire.teacher;
  revision = 1;
  operation = add;
  event_time = "10:00";
  ingest_time = "10:00";
  causation_id = "c1";
  correlation_id = "k1";
}

abbrev greeting_event : Event
greeting_event = record opening_event {
  event_id = "e2";
  room_seq = 2;
  body = message_added greeting;
  actor_id = "s1";
  actor_role = Wire.student;
  causation_id = "c2";
}

abbrev close_job : Job
close_job = record {
  job_id = "j1";
  job_type = room_auto_close;
  source_event_id = some "e1";
  dedupe_key = auto_close_key room;
  correlation_id = "k1";
  payload = auto_close room "10:45";
  status = queued;
  run_after = some 2_700_009;
}

abbrev classroom : Room
classroom = record {
  row = record {
    room_id = room;
    nova_actor_id = "n1";
    teacher_id = "t1";
    status = opened;
    starts_at = some 9;
    closes_at = some 2_700_009;
    closed_at = none;
    next_room_seq = 3;
  };
  members = record { room_member_id = "m1"; actor_id = "s1" } ∷ [];
  events = opening_event ∷ greeting_event ∷ [];
  outbox = outbox_of opening_event ∷ outbox_of greeting_event ∷ [];
  jobs = close_job ∷ [];
  deletion_active = false;
}

classroom-IsLedger : IsLedger environment classroom
classroom-IsLedger = record {
  numbered = (refl, omega arith, refl, (refl, omega arith, refl, tt));
  next = omega arith;
  mirrored = refl;
  distinct = (refl, (refl, tt));
  accepted = (refl, (refl, tt));
  life = (opened, opening, (opened, adding, refl));
}

abbrev rooms : List (String × Room)
rooms = (room, classroom) ∷ []

rooms-IsLedgers : IsLedgers environment rooms
rooms-IsLedgers = ((refl, classroom-IsLedger), tt)

abbrev teacher : AuthSession
teacher = AuthSession.teacher "t1" "t1"

abbrev student : AuthSession
student = AuthSession.student room "m1" "s1"

abbrev pausing : RoomCommand
pausing = record command { command_type = room_pause }

-- A pause of the teacher, and a look of the clock.
abbrev actions : List (Action environment (λ (c : RoomCommand). some c) (λ c. some c.room_id))
actions = give_command teacher (some "session") draws draws pausing ∷ clock room draws ∷ []

run-Keeps_example :
    Keeps environment rooms
      (run environment (λ (c : RoomCommand). some c) (λ c. some c.room_id) actions rooms)
run-Keeps_example =
    run-Keeps environment (λ (c : RoomCommand). some c) (λ c. some c.room_id) actions rooms
      rooms-IsLedgers

abbrev over : Event
over = record opening_event {
  event_id = "e3";
  room_seq = 3;
  body = room_closed "10:45";
  causation_id = "c3";
}

abbrev finished : Room
finished = record classroom {
  row = record classroom.row { status = closed; next_room_seq = 4 };
  events = opening_event ∷ greeting_event ∷ over ∷ [];
  outbox = outbox_of opening_event ∷ outbox_of greeting_event ∷ outbox_of over ∷ [];
}

finished-IsShut : IsShut environment room ((room, finished) ∷ [])
unfolding get
finished-IsShut = record { room = finished; there = refl; shut = refl }

route_shut_example :
    (route environment (some "session") draws draws teacher pausing ((room, finished) ∷ [])).1
    ≡ (room, finished) ∷ []
route_shut_example =
    route_shut environment (some "session") draws draws teacher pausing ((room, finished) ∷ [])
      finished-IsShut

abbrev revising : RoomCommand
revising = record command {
  command_type = message_revise;
  base_revision = some 1;
  payload = record command.payload { message_id = some "m1" };
}

revise_work-Changes_example :
    After
      (Changes environment student none draws revising
        (IsAuthor environment student none draws revising)
        classroom)
      (revise_work environment student none draws revising classroom)
revise_work-Changes_example = revise_work-Changes environment student none draws revising classroom

abbrev planned : Room
planned = record classroom {
  row = record classroom.row { status = scheduled; next_room_seq = 1; closes_at = none };
  events = [];
  outbox = [];
  jobs = [];
}

open_new-IsTimed_example :
    After
      (λ e r'. (now : ℕ) × (draws.clock 0 ≡ some now) × IsTimed environment (now + 2_700_000) r')
      (open_new environment room "t1" "c1" none draws planned)
unfolding with_causation auto_close_job
open_new-IsTimed_example = open_new-IsTimed environment "t1" "c1" none draws planned refl refl

classroom-IsTimed : IsTimed environment 2_700_009 classroom
unfolding auto_close_job source_of event_by_id body_type
classroom-IsTimed = record {
  status = refl;
  closing = refl;
  job = close_job;
  due = λ now.
      canonical-due environment now 2_700_009 classroom close_job opening_event refl refl refl refl;
}

classroom-CanClose : CanClose environment draws 2_700_009 2_700_009 classroom-IsTimed.job classroom
unfolding with_causation cancel_job classroom-IsTimed
classroom-CanClose = record {
  first = refl;
  second = refl;
  third = 2_700_009;
  ingest = refl;
  admits = record { accepted = refl; uuid = refl; unused = refl; fresh = refl; unqueued = refl };
}

close_if_due-Closes_example :
    (e : Event) × (r' : Room) × (close_if_due environment room draws rooms
      ≡ (ok (some e), put room r' rooms))
    × (r'.row.status ≡ closed)
    × (r'.row.closed_at ≡ some 2_700_009)
unfolding get
close_if_due-Closes_example =
    close_if_due-Closes environment draws room rooms classroom 2_700_009 2_700_009 classroom-IsTimed
      refl refl refl refl refl (omega arith) classroom-CanClose

resume-delivers_ledger_example :
    let es = map wire (missing 0 classroom.events) in
    let d = resume idle (λ e. some (wire e)) quiet (map hub_row classroom.outbox) greeted_server in
    (d.sent ≡ [] ++ frames_of es 2)
    × (d.closed ≡ false)
    × (d.replaying ≡ false)
    × CaughtUp encode line waiting es 2 (on_frames encode line (frames_of es 2) waiting)
resume-delivers_ledger_example =
    resume-delivers_ledger environment encode idle quiet classroom line greeted_server waiting
      classroom-IsLedger idle_roomy quiet_turns line-IsHealthy waiting_valid refl refl refl
      (omega arith) (omega arith) refl refl

abbrev saying : RoomCommand
saying = record command { command_type = message_add; base_revision = none }

events_after-missing_example :
    events_after environment room 1 500 rooms ≡ ok (take 500 (missing 1 classroom.events))
unfolding get
events_after-missing_example =
    events_after-missing environment room 1 500 rooms classroom classroom-IsLedger refl refl refl
      (omega arith) (omega arith)

route-FailsCleanly_example :
    FailsCleanly room rooms (route environment (some "session") draws draws teacher pausing rooms)
route-FailsCleanly_example =
    route-FailsCleanly environment (some "session") draws draws teacher pausing rooms
      rooms-IsLedgers
