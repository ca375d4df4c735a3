-- ===== src/Rooms/Lifecycle/Commands.antt =====
-- lifecycle-service.ts of apps/server/src/modules/rooms: `open`, `pause`, `resume` and `close`.
use learning_orbit.Prelude.{ℕ, ◌+◌, String, not, Option, none, some, List, [], ◌∷◌, ◌++◌, is_yes}
use learning_orbit.Wire.{Status, scheduled, opened, paused, closed}
use learning_orbit.Rooms.Store.{
  Body, room_opened, room_paused, room_resumed, room_closed, Event, Room, Job, room_auto_close,
  queued, auto_close_key, auto_close, Status-discrete,
}
use learning_orbit.Rooms.Work.{
  Work, Outcome, ok, fail, refused, error, ◌>>=◌, ◌>>◌, give, require, present, stored_or, gets,
  change, invalid_command, room_not_open,
}
use learning_orbit.Rooms.Ledger.{Environment, Draws, transact, has_job}
use learning_orbit.Rooms.Lifecycle.{
  room_duration_ms, cancel_room_jobs, is_open, require_owner, existing_manual_retry, owner_retry,
  owner_close, append_manual,
}

-- The auto-close job of a room that `e` has opened.
abbrev pub closing_job : String → String → String → Event → ℕ → Job
closing_job job_id room_id iso e closes_at = record {
  job_id = job_id;
  job_type = room_auto_close;
  source_event_id = some e.event_id;
  dedupe_key = auto_close_key room_id;
  correlation_id = e.correlation_id;
  payload = auto_close room_id iso;
  status = queued;
  run_after = some closes_at;
}

unfoldable pub enqueue : Job → Work (Unit {0})
enqueue j = do
  room ← gets (λ r. r)
  require (not (has_job j room.jobs)) (error "ROOM_AUTO_CLOSE_ENQUEUE_FAILED")
  change (λ r. record r { jobs = r.jobs ++ j ∷ [] })

module _ (env : Environment) (room_id teacher_id causation_id : String)
    (session : Option String) where
  unfoldable pub open_new : Draws → Work Event
  open_new draws = do
    room ← gets (λ r. r)
    require (is_yes (Status-discrete room.row.status scheduled)) (refused invalid_command)
    now ← present (draws.clock 0) (error "INVALID_CLOCK")
    let closes_at = now + room_duration_ms
    change (λ r. record r {
      row = record r.row { status = opened; starts_at = some now; closes_at = some closes_at };
    })
    event ←
        append_manual env room_id teacher_id causation_id session draws
          (room_opened (env.to_iso now) (env.to_iso closes_at)) now
    enqueue (closing_job (draws.random_uuid 3) room_id (env.to_iso closes_at) event closes_at)
    give event

  unfoldable pub open_work : Draws → Work Event
  open_work draws = do
    require_owner env room_id teacher_id causation_id session
    stored ← existing_manual_retry env room_id teacher_id causation_id session "room.opened"
    stored_or stored (open_new draws)

  unfoldable pub transition_new : Status → Status → (String → Body) → Draws → Work Event
  transition_new required next body draws = do
    room ← gets (λ r. r)
    require (is_yes (Status-discrete room.row.status required)) (refused room_not_open)
    now ← present (draws.clock 0) (error "INVALID_CLOCK")
    change (λ r. record r { row = record r.row { status = next } })
    append_manual env room_id teacher_id causation_id session draws (body (env.to_iso now)) now

  unfoldable pub simple_transition : String → Status → Status → (String → Body) → Draws → Work Event
  simple_transition expected required next body draws = do
    require_owner env room_id teacher_id causation_id session
    stored ← existing_manual_retry env room_id teacher_id causation_id session expected
    stored_or stored (transition_new required next body draws)

  unfoldable pub close_new : Draws → Work Event
  close_new draws = do
    room ← gets (λ r. r)
    require (is_open room.row.status) (refused room_not_open)
    now ← present (draws.clock 0) (error "INVALID_CLOCK")
    change (λ r. record r { row = record r.row { status = closed; closed_at = some now } })
    change cancel_room_jobs
    append_manual env room_id teacher_id causation_id session draws (room_closed (env.to_iso now))
        now

  unfoldable pub close_work : Draws → Work Event
  close_work draws = do
    require_owner env room_id teacher_id causation_id session
    stored ← existing_manual_retry env room_id teacher_id causation_id session "room.closed"
    stored_or stored (close_new draws)

  -- The three transactions: the retry, the closing of a room that is due, and the change itself.
  -- A failure of one ends the command; what an earlier one committed stays.
  unfoldable pub after_due :
      Work Event
      → Outcome (Option Event) × List (String × Room)
      → Outcome Event × List (String × Room)
  after_due work (fail e, db) = (fail e, db)
  after_due work (ok (some e), db) = (fail (refused room_not_open), db)
  after_due work (ok none, db) = transact env room_id work db

  unfoldable pub after_retry :
      Draws
      → Work Event
      → Outcome (Option Event) × List (String × Room)
      → Outcome Event × List (String × Room)
  after_retry draws work (fail e, db) = (fail e, db)
  after_retry draws work (ok (some e), db) = (ok e, db)
  after_retry draws work (ok none, db) =
      after_due work
        (transact env room_id (owner_close env room_id teacher_id causation_id session draws) db)

  unfoldable pub three :
      String → Draws → Work Event → List (String × Room) → Outcome Event × List (String × Room)
  three expected draws work db =
      after_retry draws work
        (transact env room_id (owner_retry env room_id teacher_id causation_id session expected) db)

  -- The first draws are those of the automatic closing, the second those of the change.
  module _ (due draws : Draws) where
    unfoldable pub open_room : List (String × Room) → Outcome Event × List (String × Room)
    open_room = transact env room_id (open_work draws)

    unfoldable pub pause_room : List (String × Room) → Outcome Event × List (String × Room)
    pause_room =
        three "room.paused" due (simple_transition "room.paused" opened paused room_paused draws)

    unfoldable pub resume_room : List (String × Room) → Outcome Event × List (String × Room)
    resume_room =
        three "room.resumed" due (simple_transition "room.resumed" paused opened room_resumed draws)

    unfoldable pub close_room : List (String × Room) → Outcome Event × List (String × Room)
    close_room = three "room.closed" due (close_work draws)
