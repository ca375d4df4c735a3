-- ===== src/Rooms/Ledger.antt =====
-- apps/server/src/modules/rooms/room-event-repository.ts: the transaction of a room and the events
-- that it appends. A draft has exactly the ten fields of RoomEventDraft, and its payload is plain
-- data; what an Ajv validator, a regular expression, a Date or the session tables answer is a field
-- of the environment. The clock is read and an identifier is drawn by its number in the transaction:
-- 0 and 1 for the service, the next ones for the rows that the repository inserts.
pub mod Life
pub mod Growth
pub mod Mirror
pub mod Success
pub mod Search
use learning_orbit.Prelude.{
  ℕ, zero, suc, ◌+◌, String, Bool, true, false, not, ◌&&◌, ◌||◌, Option, none, some, List, [], ◌∷◌,
  ◌++◌, ◌≡◌, ◌===◌, ◌==◌, ltb, leb, if◌then◌else◌, is_yes, any, String-discrete, get, put,
  is_safe_integer, filterb, take, sort_by,
}
use learning_orbit.Wire.{ActorKind, ActorRole, Operation}
use learning_orbit.Rooms.Store.{
  Body, Event, OutboxEvent, Job, Room, Body-discrete, Event-discrete, ActorKind-discrete,
  ActorRole-discrete, Operation-discrete, DedupeKey, DedupeKey-discrete, analytics_consume,
  consume_key, consume, queued,
}
use learning_orbit.Rooms.Work.{
  Work, Outcome, ok, fail, Failure, refused, error, ◌>>=◌, ◌>>◌, give, require, present, gets,
  change, forbidden, invalid_command, room_deletion_in_progress,
}

pub record Environment : Type 0 where
  pub is_uuid : String → Bool
  pub to_iso : ℕ → String
  pub iso_of : String → Option String
  pub trim : String → String
  pub accepts : Event → Bool
  pub teacher_session : (session_id teacher_id : String) → Bool
  pub student_session : (session_id room_member_id : String) → Bool
  pub assert_attachable : (room_id : String) (media_ids : List String) → Outcome (Unit {0})
  pub bind_media :
      (room_id message_id event_id : String) (media_ids : List String) → Outcome (Unit {0})

pub record Draws : Type 0 where
  pub clock : ℕ → Option ℕ
  pub random_uuid : ℕ → String

-- `event_time` is none where the Date is not valid.
pub record Draft : Type 0 where
  pub body : Body
  pub actor_id : String
  pub actor_kind : ActorKind
  pub actor_role : ActorRole
  pub revision : ℕ
  pub operation : Operation
  pub event_time : Option String
  pub causation_id : String
  pub correlation_id : String

unfoldable pub immutable_draft_matches : Event → Event → Bool
immutable_draft_matches stored candidate =
    is_yes (Body-discrete stored.body candidate.body)
    && stored.actor_id === candidate.actor_id
    && is_yes (ActorKind-discrete stored.actor_kind candidate.actor_kind)
    && is_yes (ActorRole-discrete stored.actor_role candidate.actor_role)
    && stored.revision == candidate.revision
    && is_yes (Operation-discrete stored.operation candidate.operation)
    && stored.event_time === candidate.event_time
    && stored.causation_id === candidate.causation_id
    && stored.correlation_id === candidate.correlation_id

-- The envelope of a draft.
abbrev pub candidate_of : (ingest_time event_id room_id : String) → ℕ → String → Draft → Event
candidate_of ingest_time event_id room_id room_seq event_time draft = record {
  event_id = event_id;
  room_id = room_id;
  room_seq = room_seq;
  body = draft.body;
  actor_id = draft.actor_id;
  actor_kind = draft.actor_kind;
  actor_role = draft.actor_role;
  revision = draft.revision;
  operation = draft.operation;
  event_time = event_time;
  ingest_time = ingest_time;
  causation_id = draft.causation_id;
  correlation_id = draft.correlation_id;
}

-- The SELECT by causation, and the LEFT JOIN of the outbox.
unfoldable pub with_causation : String → List Event → Option Event
with_causation id [] = none
with_causation id (e ∷ es) = if e.causation_id === id then some e else with_causation id es

unfoldable pub outbox_row : String → List OutboxEvent → Option OutboxEvent
outbox_row id [] = none
outbox_row id (o ∷ os) = if o.event_id === id then some o else outbox_row id os

abbrev pub is_safe_positive : ℕ → Bool
is_safe_positive n = ltb 0 n && is_safe_integer n

module _ (env : Environment) where
  unfoldable pub parse_row : Event → OutboxEvent → Option Event
  parse_row e o =
      if o.room_id === e.room_id
        && is_safe_positive e.room_seq
        && o.room_seq == e.room_seq
        && env.accepts o.envelope
        && is_yes (Event-discrete o.envelope e)
      then some o.envelope
      else none

  unfoldable pub parse_stored_event : List OutboxEvent → Event → Option Event
  parse_stored_event os e = elim (outbox_row e.event_id os) [ none ↦ none | some o ↦ parse_row e o ]

  unfoldable pub find_by_causation : String → Work (Option Event)
  find_by_causation id = do
    require (env.is_uuid id) (refused invalid_command)
    found ← gets (λ r. with_causation id r.events)
    elim found [
      | none ↦ give none
      | some e ↦ do
        parsed ← gets (λ r. parse_stored_event r.outbox e)
        stored ← present parsed (error "INVALID_STORED_ROOM_EVENT")
        give (some stored)
    ]

  unfoldable pub validate_draft : Option ℕ → String → String → ℕ → Draft → Work Event
  validate_draft now event_id room_id room_seq draft = do
    event_time ← present draft.event_time (refused invalid_command)
    ingest ← present now (error "INVALID_CLOCK")
    let candidate = candidate_of (env.to_iso ingest) event_id room_id room_seq event_time draft
    require (env.accepts candidate) (refused invalid_command)
    give candidate

abbrev pub outbox_of : Event → OutboxEvent
outbox_of e = record {
  event_id = e.event_id;
  room_id = e.room_id;
  room_seq = e.room_seq;
  envelope = e;
}

abbrev pub consume_job : String → Event → Job
consume_job job_id e = record {
  job_id = job_id;
  job_type = analytics_consume;
  source_event_id = some e.event_id;
  dedupe_key = consume_key e.room_id e.room_seq;
  correlation_id = e.correlation_id;
  payload = consume e.event_id e.room_seq;
  status = queued;
  run_after = none;
}

-- The unique constraints: the event's identifier and sequence, the job's identifier and key.
abbrev pub has_event : Event → List Event → Bool
has_event e = any (λ x. x.event_id === e.event_id || x.room_seq == e.room_seq)

abbrev pub has_job : Job → List Job → Bool
has_job j =
    any (λ x. x.job_id === j.job_id || is_yes (DedupeKey-discrete x.dedupe_key j.dedupe_key))

-- The three insertions and the advance of the sequence.
abbrev pub inserted : Event → Job → Room → Room
inserted e j r = record r {
  row = record r.row { next_room_seq = suc e.room_seq };
  events = r.events ++ e ∷ [];
  outbox = r.outbox ++ outbox_of e ∷ [];
  jobs = r.jobs ++ j ∷ [];
}

unfoldable pub insert : Event → Job → Work Event
insert e j = do
  room ← gets (λ r. r)
  require
      (not (has_event e room.events)
        && not (has_job j room.jobs)
        && room.row.next_room_seq == e.room_seq)
      (error "ROOM_EVENT_APPEND_FAILED")
  change (inserted e j)
  give e

module _ (env : Environment) where
  -- `now`, `event_id` and `job_id` are the clock's reading and the identifiers drawn.
  unfoldable pub append : (now : Option ℕ) (event_id job_id : String) → Draft → Work Event
  append now event_id job_id draft = do
    room ← gets (λ r. r)
    candidate ← validate_draft env now event_id room.row.room_id room.row.next_room_seq draft
    prior ← find_by_causation env candidate.causation_id
    elim prior [
      | some e ↦ do require (immutable_draft_matches e candidate) (refused invalid_command); give e
      | none ↦ insert candidate (consume_job job_id candidate)
    ]

  -- The checks of `transact` on the locked room, before the work.
  unfoldable pub locked : {A : Type 0} → Work A → Work A
  locked work = do
    room ← gets (λ r. r)
    require (env.is_uuid room.row.room_id) (error "INVALID_STORED_ROOM")
    require (not room.deletion_active) (refused room_deletion_in_progress)
    require (is_safe_positive room.row.next_room_seq) (error "ROOM_SEQUENCE_OUT_OF_RANGE")
    work

  -- COMMIT, or ROLLBACK when the work failed.
  unfoldable pub commit :
      {A : Type 0}
      → String
      → List (String × Room)
      → Outcome (A × Room)
      → Outcome A × List (String × Room)
  commit id db (ok (a, r)) = (ok a, put id r db)
  commit id db (fail e) = (fail e, db)

  unfoldable pub transact :
      {A : Type 0} → String → Work A → List (String × Room) → Outcome A × List (String × Room)
  transact id work db =
      if env.is_uuid id
      then elim (get id db) [
        | none ↦ (fail (refused forbidden), db)
        | some r ↦ commit id db (locked work r)
      ]
      else (fail (refused forbidden), db)

  unfoldable pub parse_all : List OutboxEvent → List Event → Outcome (List Event)
  parse_all os [] = ok []
  parse_all os (e ∷ es) = elim (parse_stored_event env os e) [
    | none ↦ fail (error "INVALID_STORED_ROOM_EVENT")
    | some x ↦ elim (parse_all os es) [ fail e ↦ fail e | ok xs ↦ ok (x ∷ xs) ]
  ]

  unfoldable pub events_after : String → ℕ → ℕ → List (String × Room) → Outcome (List Event)
  events_after id after_seq limit db =
      if env.is_uuid id && is_safe_integer after_seq && leb 1 limit && leb limit 500
      then elim (get id db) [
        | none ↦ ok []
        | some r ↦ parse_all r.outbox (
            take limit
              (sort_by (λ e. e.room_seq) (filterb (λ e. ltb after_seq e.room_seq) r.events)))
      ]
      else fail (refused invalid_command)
