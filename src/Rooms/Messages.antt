-- ===== src/Rooms/Messages.antt =====
-- apps/server/src/modules/rooms/message-service.ts: the commands on the messages of a room, and the
-- session of packages/contracts that gives them. A session id is none where it is absent or empty;
-- the fields of a payload are those of a frame that the contract has validated. Clock 0 is the
-- service's reading and 1 the repository's; the identifiers are the message's, the correlation's,
-- the event's and its job's.
pub mod Commands
pub mod Reads
pub mod Growth
pub mod Revisions
pub mod Retry
use learning_orbit.Prelude.{
  ℕ, ◌+◌, String, Bool, true, false, not, ◌&&◌, ◌||◌, Option, none, some, List, [], ◌∷◌, map, ◌≡◌,
  ◌===◌, ◌==◌, ltb, leb, if◌then◌else◌, is_yes, is_some, any, length, includes, is_safe_integer,
}
use learning_orbit.Wire.{
  ActorRole, Operation, add, revise, retract, human, Status, opened, CommandType, message_add,
  message_revise, message_retract, RoomCommand, MessagePayload,
}
use learning_orbit.Wire
use learning_orbit.Rooms.Store.{
  Body, message_added, message_revised, message_retracted, body_type, message_of, Event, Room,
  Member, ClassroomRoom, ActorKind-discrete, ActorRole-discrete, Operation-discrete,
  Status-discrete,
}
use learning_orbit.Rooms.Work.{
  Work, Outcome, ok, fail, refused, error, ◌>>=◌, ◌>>◌, give, throw, require, present, gets, lift,
  forbidden, invalid_command, room_not_open, message_not_found, revision_conflict,
}
use learning_orbit.Rooms.Ledger.{Environment, Draws, Draft, find_by_causation, append, transact}

pub data AuthSession : Type 0 where
  student : (room_id room_member_id actor_id : String) → AuthSession
  teacher : (teacher_id actor_id : String) → AuthSession

abbrev pub actor_of : AuthSession → String
actor_of (student room member actor) = actor
actor_of (teacher id actor) = actor

abbrev pub is_student : AuthSession → Bool
is_student (student room member actor) = true
is_student (teacher id actor) = false

abbrev pub CommandType-discrete : Discrete CommandType
CommandType-discrete = hlevel

-- The newest row of a message: ORDER BY revision DESC, room_seq DESC LIMIT 1.
abbrev pub precedes : Event → Event → Bool
precedes a b = ltb b.revision a.revision || a.revision == b.revision && ltb b.room_seq a.room_seq

abbrev pub first_of : Event → Option Event → Option Event
first_of e none = some e
first_of e (some x) = if precedes x e then some x else some e

abbrev pub concerns : String → Event → Bool
concerns id e = elim (message_of e.body) [ none ↦ false | some i ↦ i === id ]

unfoldable pub latest : String → List Event → Option Event
latest id [] = none
latest id (e ∷ es) = let rest = latest id es in if concerns id e then first_of e rest else rest

abbrev pub is_live : Event → Bool
is_live e = not (is_yes (Operation-discrete e.operation retract))

abbrev pub live : Option Event → Option Event
live none = none
live (some e) = if is_live e then some e else none

abbrev pub is_participant : ActorRole → Bool
is_participant role =
    is_yes (ActorRole-discrete role Wire.student) || is_yes (ActorRole-discrete role Wire.teacher)

module _ (env : Environment) where
  abbrev pub is_uuids : List String → Bool
  is_uuids ids = not (any (λ id. not (env.is_uuid id)) ids)

  unfoldable pub read_uuid_array : Option (List String) → ℕ → Work (List String)
  read_uuid_array none max = give []
  read_uuid_array (some ids) max = do
    require (is_uuids ids && leb (length ids) max) (refused invalid_command)
    give ids

  abbrev pub session_holds : Option String → (String → Bool) → Bool
  session_holds none current = true
  session_holds (some id) current = current id

  abbrev pub is_member : String → String → List Member → Bool
  is_member member actor = any (λ m. m.room_member_id === member && m.actor_id === actor)

  unfoldable pub authorize_student : AuthSession → Option String → Work (Unit {0})
  authorize_student (teacher id actor) session = throw (refused forbidden)
  authorize_student (student room_id member actor) session = do
    room ← gets (λ r. r)
    require (room_id === room.row.room_id) (refused forbidden)
    require
        (session_holds session (λ s. env.student_session s member)
          && is_member member actor room.members)
        (refused forbidden)

  unfoldable pub assert_teacher_session : AuthSession → Option String → Work (Unit {0})
  assert_teacher_session (student room_id member actor) session = throw (refused forbidden)
  assert_teacher_session (teacher id actor) session = do
    room ← gets (λ r. r)
    require (id === room.row.teacher_id && actor === room.row.teacher_id) (refused forbidden)
    require (session_holds session (λ s. env.teacher_session s id)) (refused forbidden)

  unfoldable pub latest_message : String → Work (Option Event)
  latest_message id = do
    require (env.is_uuid id) (refused message_not_found)
    gets (λ r. latest id r.events)

  abbrev pub is_retry : String → String → Event → Bool
  is_retry expected actor e =
      body_type e.body === expected
      && e.actor_id === actor
      && is_yes (ActorKind-discrete e.actor_kind human)
      && is_participant e.actor_role

  unfoldable pub retry : Option Event → String → String → Work (Option Event)
  retry none expected actor = give none
  retry (some e) expected actor = do
    require (is_retry expected actor e) (refused invalid_command)
    give (some e)

  abbrev pub is_due : Option ℕ → ℕ → Bool
  is_due none now = false
  is_due (some closes_at) now = leb closes_at now

  unfoldable pub assert_writable : Draws → Work ℕ
  assert_writable draws = do
    now ← present (draws.clock 0) (error "INVALID_CLOCK")
    room ← gets (λ r. r)
    require (is_yes (Status-discrete room.row.status opened) && not (is_due room.row.closes_at now))
        (refused room_not_open)
    give now

  unfoldable pub assert_reply : Option String → Work (Unit {0})
  assert_reply none = give tt
  assert_reply (some id) = do
    require (env.is_uuid id) (refused invalid_command)
    target ← latest_message id
    require (is_some (live target)) (refused invalid_command)

  unfoldable pub assert_mentions_and_reply : List String → Option String → Work (Unit {0})
  assert_mentions_and_reply mentions reply_to = do
    require (is_uuids mentions && leb (length mentions) 5) (refused invalid_command)
    room ← gets (λ r. r)
    let allowed = map (λ (m : Member). m.actor_id) room.members
    require (not (any (λ id. not (includes id allowed || id === room.row.nova_actor_id)) mentions))
        (refused invalid_command)
    assert_reply reply_to

  abbrev pub text_of : Option String → String
  text_of none = ""
  text_of (some t) = env.trim t

  abbrev pub message_id_of : Option String → String
  message_id_of none = ""
  message_id_of (some id) = id

  abbrev pub reply_of : Option (Option String) → Option String
  reply_of none = none
  reply_of (some reply) = reply

  -- `baseRevision` is a safe integer from 1 on.
  unfoldable pub base_of : Option ℕ → Work ℕ
  base_of none = throw (refused invalid_command)
  base_of (some n) = do require (is_safe_integer n && ltb 0 n) (refused invalid_command); give n

  abbrev pub is_command : RoomCommand → CommandType → Bool
  is_command c expected =
      is_yes (CommandType-discrete c.command_type expected)
      && env.is_uuid c.command_id
      && env.is_uuid c.room_id
