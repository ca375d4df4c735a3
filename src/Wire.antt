-- ===== src/Wire.antt =====
-- packages/contracts: the durable room event and the frames of the room WebSocket, as the generated
-- types of realtime-frame.v1.ts and room-event-envelope.v1.ts declare them. `type` and `payload` of
-- an event are one datum here, as core-room-event.ts reads them after the registry's check; an event
-- of a type outside the core list keeps its type only. Identifiers and texts are strings, times in
-- server frames are milliseconds.
use learning_orbit.Prelude.{ℕ, String, Bool, Option, List, [], ◌∷◌}

pub data ActorKind : Type 0 where
  human agent system : ActorKind

pub data ActorRole : Type 0 where
  teacher student socratic_facilitator room_clock system_worker : ActorRole

pub data Operation : Type 0 where
  add revise retract : Operation

pub data Status : Type 0 where
  scheduled opened paused closed : Status

pub record MessagePayload : Type 0 where
  pub message_id : String
  pub text : String
  pub reply_to : Option String
  pub mentions : List String
  pub media_ids : List String

pub data EventBody : Type 0 where
  room_opened room_paused room_resumed room_closed : EventBody
  message_added message_revised : MessagePayload → EventBody
  message_retracted : String → EventBody
  other : String → EventBody

pub record RoomEvent : Type 0 where
  pub event_id : String
  pub room_id : String
  pub room_seq : ℕ
  pub body : EventBody
  pub actor_id : String
  pub actor_kind : ActorKind
  pub actor_role : ActorRole
  pub revision : ℕ
  pub operation : Operation
  pub event_time : String
  pub causation_id : String
  pub correlation_id : String

pub data ProjectionKey : Type 0 where
  echo_teacher_shadow echo_student_approved trace_teacher_bundle trace_student_bundle :
      ProjectionKey

pub record ProjectionFrame : Type 0 where
  pub room_id : String
  pub projection_key : ProjectionKey
  pub analysis_epoch : String
  pub projection_version : ℕ
  pub complete_through_room_seq : ℕ
  pub snapshot_url : String

pub data Attention : Type 0 where
  active away : Attention

pub data RejectCode : Type 0 where
  auth_required forbidden invalid_command room_not_open room_deletion_in_progress message_not_found
        revision_conflict resync_required internal :
      RejectCode

pub data DegradedScope : Type 0 where
  realtime media analytics agent : DegradedScope

pub record Degraded : Type 0 where
  pub scope : DegradedScope
  pub code : String
  pub updated_at : ℕ
  pub retry_after_ms : Option ℕ
  pub projection_key : Option ProjectionKey

pub data MediaState : Type 0 where
  uploaded processing ready quarantined failed deleted : MediaState

pub record MediaStatus : Type 0 where
  pub media_id : String
  pub state : MediaState
  pub failure_code : Option String
  pub updated_at : ℕ

pub data AgentState : Type 0 where
  idle queued running streaming completed blocked_by_policy cancelled failed : AgentState

pub data ServiceHealth : Type 0 where
  healthy degraded unavailable : ServiceHealth

pub record AgentStatus : Type 0 where
  pub room_id : String
  pub agent_run_id : Option String
  pub state : AgentState
  pub service_health : ServiceHealth
  pub agent_enabled : Bool
  pub updated_at : ℕ
  pub failure_code : Option String

pub data ServerFrame : Type 0 where
  welcome : (server_time : ℕ) (room_id : String) (cursor : ℕ) (status : Status) → ServerFrame
  ack : (command_id : String) (room_seq revision : ℕ) → ServerFrame
  reject : (command_id : Option String) (code : RejectCode) (retryable : Bool) → ServerFrame
  event : RoomEvent → ServerFrame
  presence : (actor_id : String) (state : Attention) (expires_at : ℕ) → ServerFrame
  typing : (actor_id : String) (is_typing : Bool) (expires_at : ℕ) → ServerFrame
  resume_complete : (through_room_seq : ℕ) → ServerFrame
  snapshot_required : (after_seq through_room_seq : ℕ) → ServerFrame
  degraded : Degraded → ServerFrame
  heartbeat : (server_time : ℕ) → ServerFrame
  media_status : MediaStatus → ServerFrame
  agent_status : AgentStatus → ServerFrame
  projection : ProjectionFrame → ServerFrame

pub data CommandType : Type 0 where
  room_open room_pause room_resume room_close : CommandType
  message_add message_revise message_retract : CommandType

-- A field that is absent, or not of its type, is `none`; `reply_to` may also be null.
pub record CommandPayload : Type 0 where
  pub message_id : Option String
  pub text : Option String
  pub reply_to : Option (Option String)
  pub mentions : Option (List String)
  pub media_ids : Option (List String)

pub record RoomCommand : Type 0 where
  pub command_id : String
  pub room_id : String
  pub command_type : CommandType
  pub client_time : String
  pub base_revision : Option ℕ
  pub payload : CommandPayload

pub data ClientFrame : Type 0 where
  hello : (client_id : String) (resume_from : ℕ) → ClientFrame
  command : RoomCommand → ClientFrame
  presence : Attention → (client_seq : ℕ) → ClientFrame
  typing : Bool → (client_seq : ℕ) → ClientFrame
  heartbeat : ClientFrame

-- The events among the frames, in order.
abbrev pub events_of : List ServerFrame → List RoomEvent
events_of [] = []
events_of (event e ∷ fs) = e ∷ events_of fs
events_of (_ ∷ fs) = events_of fs
