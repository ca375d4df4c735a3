-- ===== src/Rooms/Store.antt =====
-- The tables that a room transaction reads and writes, infra/postgres/migrations/001_core.sql, for
-- one room: `RoomEventRepository.transact` locks the room, so that the rows which bear its id are
-- the whole state of the work. Dates are milliseconds in columns and ISO texts in events. `type`
-- and `payload` of an event are one datum, where `other` keeps the member `messageId` of a payload
-- apart, and identifiers are compared as texts.
use learning_orbit.Prelude.{ℕ, String, Bool, Option, none, some, List, String-discrete}
use native.Mathlib.Decide.{ℕ_discrete}
use learning_orbit.Wire.{ActorKind, ActorRole, Operation, Status, MessagePayload}

pub data Body : Type 0 where
  room_opened : (starts_at closes_at : String) → Body
  room_paused room_resumed room_closed : String → Body
  message_added message_revised : MessagePayload → Body
  message_retracted : String → Body
  other : (event_type : String) (message_id : Option String) (payload : String) → Body

-- The column `type`.
unfoldable pub body_type : Body → String
body_type (room_opened s c) = "room.opened"
body_type (room_paused t) = "room.paused"
body_type (room_resumed t) = "room.resumed"
body_type (room_closed t) = "room.closed"
body_type (message_added p) = "message.added"
body_type (message_revised p) = "message.revised"
body_type (message_retracted id) = "message.retracted"
body_type (other t id p) = t

-- `payload->>'messageId'`.
unfoldable pub message_of : Body → Option String
message_of (message_added p) = some p.message_id
message_of (message_revised p) = some p.message_id
message_of (message_retracted id) = some id
message_of (other t id p) = id
message_of _ = none

pub record Event : Type 0 where
  pub event_id : String
  pub room_id : String
  pub room_seq : ℕ
  pub body : Body
  pub actor_id : String
  pub actor_kind : ActorKind
  pub actor_role : ActorRole
  pub revision : ℕ
  pub operation : Operation
  pub event_time : String
  pub ingest_time : String
  pub causation_id : String
  pub correlation_id : String

abbrev pub ActorKind-discrete : Discrete ActorKind
ActorKind-discrete = hlevel

abbrev pub ActorRole-discrete : Discrete ActorRole
ActorRole-discrete = hlevel

abbrev pub Operation-discrete : Discrete Operation
Operation-discrete = hlevel

abbrev pub Status-discrete : Discrete Status
Status-discrete = hlevel

abbrev pub Body-discrete : Discrete Body
Body-discrete = hlevel String-discrete

abbrev pub Event-discrete : Discrete Event
Event-discrete = hlevel (String-discrete, ℕ_discrete)

-- The envelope is the column `envelope` of the outbox.
pub record OutboxEvent : Type 0 where
  pub event_id : String
  pub room_id : String
  pub room_seq : ℕ
  pub envelope : Event

pub data JobType : Type 0 where
  analytics_consume analytics_replay_room room_auto_close : JobType
  other_job : String → JobType

pub data JobStatus : Type 0 where
  queued running succeeded retryable dead cancelled : JobStatus

pub data DedupeKey : Type 0 where
  consume_key : (room_id : String) (room_seq : ℕ) → DedupeKey
  auto_close_key : (room_id : String) → DedupeKey
  other_key : String → DedupeKey

abbrev pub DedupeKey-discrete : Discrete DedupeKey
DedupeKey-discrete = hlevel (String-discrete, ℕ_discrete)

pub data JobPayload : Type 0 where
  consume : (event_id : String) (room_seq : ℕ) → JobPayload
  auto_close : (room_id closes_at : String) → JobPayload
  other_payload : String → JobPayload

abbrev pub JobPayload-discrete : Discrete JobPayload
JobPayload-discrete = hlevel (String-discrete, ℕ_discrete)

-- `run_after` is none where the insertion leaves it to the default, the time of the insertion.
pub record Job : Type 0 where
  pub job_id : String
  pub job_type : JobType
  pub source_event_id : Option String
  pub dedupe_key : DedupeKey
  pub correlation_id : String
  pub payload : JobPayload
  pub status : JobStatus
  pub run_after : Option ℕ

pub record ClassroomRoom : Type 0 where
  pub room_id : String
  pub nova_actor_id : String
  pub teacher_id : String
  pub status : Status
  pub starts_at : Option ℕ
  pub closes_at : Option ℕ
  pub closed_at : Option ℕ
  pub next_room_seq : ℕ

pub record Member : Type 0 where
  pub room_member_id : String
  pub actor_id : String

-- `deletion_active` tells whether a deletion job of the room has not ended yet.
pub record Room : Type 0 where
  pub row : ClassroomRoom
  pub members : List Member
  pub events : List Event
  pub outbox : List OutboxEvent
  pub jobs : List Job
  pub deletion_active : Bool
