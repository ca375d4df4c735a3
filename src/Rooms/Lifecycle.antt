-- ===== src/Rooms/Lifecycle.antt =====
-- apps/server/src/modules/rooms/lifecycle-service.ts: the opening, pausing, resuming and closing of a
-- room by its teacher, and the closing by its clock. `pause`, `resume` and `close` are three
-- transactions each, with draws of their own. A job's rows are in the order of their creation.
-- Clock 0 is the service's reading, the last one is the repository's; identifier 0 is the
-- correlation's, then come the event's, its job's and the auto-close job's.
pub mod Commands
pub mod Growth
pub mod Due
pub mod Closing
pub mod Liveness
use learning_orbit.Prelude.{
  ℕ, ◌+◌, String, Bool, true, false, not, ◌&&◌, ◌||◌, Option, none, some, List, [], ◌∷◌, ◌++◌, map,
  ◌≡◌, ◌===◌, ◌==◌, leb, if◌then◌else◌, is_yes,
}
use learning_orbit.Wire.{
  ActorKind, ActorRole, human, system, teacher, room_clock, add, Status, scheduled, opened, paused,
  closed,
}
use learning_orbit.Rooms.Store.{
  Body, room_opened, room_paused, room_resumed, room_closed, body_type, Event, ClassroomRoom, Room,
  Job, JobType, JobStatus, analytics_consume, analytics_replay_room, room_auto_close, other_job,
  queued, running, retryable, cancelled, auto_close_key, auto_close, DedupeKey-discrete,
  JobPayload-discrete, ActorKind-discrete, ActorRole-discrete, Operation-discrete, Status-discrete,
}
use learning_orbit.Rooms.Work.{
  Work, Outcome, ok, fail, refused, error, ◌>>=◌, ◌>>◌, give, require, present, gets, change,
  forbidden, invalid_command, room_not_open,
}
use learning_orbit.Rooms.Ledger.{
  Environment, Draws, Draft, find_by_causation, append, transact, has_job,
}

abbrev pub room_duration_ms : ℕ
room_duration_ms = 2_700_000

-- A manual event of a teacher.
abbrev pub is_manual : String → String → String → Event → Bool
is_manual expected room_id teacher_id e =
    e.room_id === room_id
    && body_type e.body === expected
    && e.actor_id === teacher_id
    && is_yes (ActorKind-discrete e.actor_kind human)
    && is_yes (ActorRole-discrete e.actor_role teacher)
    && e.revision == 1
    && is_yes (Operation-discrete e.operation add)

unfoldable pub assert_manual_retry : Option Event → String → String → String → Work (Option Event)
assert_manual_retry none expected room_id teacher_id = give none
assert_manual_retry (some e) expected room_id teacher_id = do
  require (is_manual expected room_id teacher_id e) (refused invalid_command)
  give (some e)

abbrev pub is_analytics : JobType → Bool
is_analytics analytics_consume = true
is_analytics analytics_replay_room = true
is_analytics _ = false

abbrev pub is_pending : JobStatus → Bool
is_pending queued = true
is_pending retryable = true
is_pending running = true
is_pending _ = false

-- No call preserves a job.
unfoldable pub cancel_job : Job → Job
cancel_job j =
    if is_pending j.status && not (is_analytics j.job_type)
    then record j { status = cancelled }
    else j

abbrev pub cancel_room_jobs : Room → Room
cancel_room_jobs r = record r { jobs = map cancel_job r.jobs }

abbrev pub is_auto_close : JobType → Bool
is_auto_close room_auto_close = true
is_auto_close _ = false

unfoldable pub auto_close_job : List Job → Option Job
auto_close_job [] = none
auto_close_job (j ∷ js) = if is_auto_close j.job_type then some j else auto_close_job js

unfoldable pub event_by_id : String → List Event → Option Event
event_by_id id [] = none
event_by_id id (e ∷ es) = if e.event_id === id then some e else event_by_id id es

unfoldable pub source_of : Option String → List Event → Option Event
source_of none es = none
source_of (some id) es = event_by_id id es

abbrev pub is_running : JobStatus → Bool
is_running queued = true
is_running running = true
is_running _ = false

abbrev pub closes_at_of : Body → Option String
closes_at_of (room_opened starts_at closes_at) = some closes_at
closes_at_of _ = none

abbrev pub is_open : Status → Bool
is_open opened = true
is_open paused = true
is_open _ = false

abbrev pub may_close : ClassroomRoom → Bool
may_close row = is_open row.status && elim row.closes_at [ none ↦ false | some t ↦ true ]

-- The opening that the job names as its source.
abbrev pub is_opening : String → Job → String → Option Event → Bool
is_opening room_id j closes_at none = false
is_opening room_id j closes_at (some e) =
    e.room_id === room_id
    && body_type e.body === "room.opened"
    && is_yes (ActorKind-discrete e.actor_kind human)
    && is_yes (ActorRole-discrete e.actor_role teacher)
    && e.revision == 1
    && is_yes (Operation-discrete e.operation add)
    && e.correlation_id === j.correlation_id
    && elim (closes_at_of e.body) [ none ↦ false | some t ↦ t === closes_at ]

module _ (env : Environment) where
  abbrev pub runs_after : Job → ℕ → Bool
  runs_after j closes_at = elim j.run_after [
    | none ↦ false
    | some t ↦ env.to_iso t === env.to_iso closes_at
  ]

  -- The job is the canonical one of the room that closes then.
  abbrev pub is_canonical : String → Job → ℕ → Option Event → Bool
  is_canonical room_id j closes_at source =
      is_running j.status
      && is_yes (DedupeKey-discrete j.dedupe_key (auto_close_key room_id))
      && runs_after j closes_at
      && is_yes (JobPayload-discrete j.payload (auto_close room_id (env.to_iso closes_at)))
      && is_opening room_id j (env.to_iso closes_at) source

  abbrev pub closing_draft : Job → ℕ → Draft
  closing_draft j closes_at = record {
    body = room_closed (env.to_iso closes_at);
    actor_id = j.job_id;
    actor_kind = system;
    actor_role = room_clock;
    revision = 1;
    operation = add;
    event_time = some (env.to_iso closes_at);
    causation_id = j.job_id;
    correlation_id = j.correlation_id;
  }

  unfoldable pub append_automatic_close : Draws → Job → ℕ → Work Event
  append_automatic_close draws j closes_at = do
    now ← present (draws.clock 1) (error "INVALID_CLOCK")
    change (λ r. record r { row = record r.row { status = closed; closed_at = some closes_at } })
    change cancel_room_jobs
    append env (draws.clock 2) (draws.random_uuid 1) (draws.random_uuid 2)
        (closing_draft j closes_at)

  -- What is due at that time: the canonical job and the time at which the room closes.
  unfoldable pub due_job : ℕ → Room → Option (Job × ℕ)
  due_job now r = elim r.row.closes_at [
    | none ↦ none
    | some closes_at ↦ elim (auto_close_job r.jobs) [
      | none ↦ none
      | some j ↦
          if leb closes_at now
            && is_canonical r.row.room_id j closes_at (source_of j.source_event_id r.events)
          then some (j, closes_at)
          else none
    ]
  ]

  unfoldable pub close_due_in_context : Draws → Work (Option Event)
  close_due_in_context draws = do
    room ← gets (λ r. r)
    elim (may_close room.row) [
      | false ↦ give none
      | true ↦ do
        now ← present (draws.clock 0) (error "INVALID_CLOCK")
        due ← gets (due_job now)
        elim due [
          | none ↦ give none
          | some (j, closes_at) ↦ do e ← append_automatic_close draws j closes_at; give (some e)
        ]
    ]

  unfoldable pub close_if_due :
      String → Draws → List (String × Room) → Outcome (Option Event) × List (String × Room)
  close_if_due room_id draws = transact env room_id (close_due_in_context draws)

  module _ (room_id teacher_id causation_id : String) (session : Option String) where
    unfoldable pub require_owner : Work (Unit {0})
    require_owner = do
      room ← gets (λ r. r)
      require (room.row.teacher_id === teacher_id) (refused forbidden)
      require (elim session [ none ↦ true | some s ↦ env.teacher_session s teacher_id ])
          (refused forbidden)

    unfoldable pub existing_manual_retry : String → Work (Option Event)
    existing_manual_retry expected = do
      existing ← find_by_causation env causation_id
      assert_manual_retry existing expected room_id teacher_id

    unfoldable pub owner_retry : String → Work (Option Event)
    owner_retry expected = do require_owner; existing_manual_retry expected

    unfoldable pub owner_close : Draws → Work (Option Event)
    owner_close draws = do require_owner; close_due_in_context draws

    abbrev pub manual_draft : Body → ℕ → String → Draft
    manual_draft body now correlation_id = record {
      body = body;
      actor_id = teacher_id;
      actor_kind = human;
      actor_role = teacher;
      revision = 1;
      operation = add;
      event_time = some (env.to_iso now);
      causation_id = causation_id;
      correlation_id = correlation_id;
    }

    abbrev pub append_manual : Draws → Body → ℕ → Work Event
    append_manual draws body now =
        append env (draws.clock 1) (draws.random_uuid 1) (draws.random_uuid 2)
          (manual_draft body now (draws.random_uuid 0))
