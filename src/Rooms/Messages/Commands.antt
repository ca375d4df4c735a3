-- ===== src/Rooms/Messages/Commands.antt =====
-- message-service.ts of apps/server/src/modules/rooms: `add`, `revise` and `retract`. Each is the
-- work of one transaction after the checks on the command alone.
use learning_orbit.Prelude.{
  ℕ, ◌+◌, String, Bool, true, false, not, ◌&&◌, ◌||◌, Option, List, [], ◌===◌, ◌==◌, if◌then◌else◌,
  length,
}
use learning_orbit.Wire.{
  add, revise, retract, human, message_add, message_revise, message_retract, RoomCommand,
  MessagePayload, ActorRole,
}
use learning_orbit.Wire
use learning_orbit.Rooms.Store.{
  Body, message_added, message_revised, message_retracted, Event, Room,
}
use learning_orbit.Rooms.Work.{
  Work, Outcome, fail, refused, ◌>>=◌, ◌>>◌, give, require, present, stored_or, lift, forbidden,
  invalid_command, message_not_found, revision_conflict,
}
use learning_orbit.Rooms.Ledger.{Environment, Draws, Draft, find_by_causation, append, transact}
use learning_orbit.Rooms.Messages.{
  AuthSession, student, teacher, actor_of, is_student, authorize_student, assert_teacher_session,
  retry, assert_writable, read_uuid_array, assert_mentions_and_reply, base_of, latest_message, live,
  text_of, message_id_of, reply_of, is_command, is_uuids,
}

abbrev pub media_of : Body → List String
media_of (message_added p) = p.media_ids
media_of (message_revised p) = p.media_ids
media_of _ = []

abbrev pub role_of : AuthSession → ActorRole
role_of (student room member actor) = Wire.student
role_of (teacher id actor) = Wire.teacher

module _ (env : Environment) (principal : AuthSession) (session : Option String) (draws : Draws)
    (c : RoomCommand) where
  abbrev pub text : String
  text = text_of env c.payload.text

  -- The draft of a message's event; `correlation_id` is the identifier that the service draws.
  abbrev pub draft_of : Body → ActorRole → ℕ → Wire.Operation → String → Draft
  draft_of body role revision operation correlation_id = record {
    body = body;
    actor_id = actor_of principal;
    actor_kind = human;
    actor_role = role;
    revision = revision;
    operation = operation;
    event_time = env.iso_of c.client_time;
    causation_id = c.command_id;
    correlation_id = correlation_id;
  }

  abbrev pub append_drawn : Draft → Work Event
  append_drawn = append env (draws.clock 1) (draws.random_uuid 2) (draws.random_uuid 3)

  -- `add` once no event of the command is stored.
  unfoldable pub add_new : Work Event
  add_new = do
    now ← assert_writable env draws
    media_ids ← read_uuid_array env c.payload.media_ids 4
    mentions ← read_uuid_array env c.payload.mentions 5
    require (not (text === "" && length media_ids == 0)) (refused invalid_command)
    assert_mentions_and_reply env mentions (reply_of env c.payload.reply_to)
    lift (env.assert_attachable c.room_id media_ids)
    let message : MessagePayload = record {
      message_id = draws.random_uuid 0;
      text = text;
      reply_to = reply_of env c.payload.reply_to;
      mentions = mentions;
      media_ids = media_ids;
    }
    event ← append_drawn (draft_of (message_added message) Wire.student 1 add (draws.random_uuid 1))
    lift (env.bind_media c.room_id message.message_id event.event_id media_ids)
    give event

  unfoldable pub add_work : Work Event
  add_work = do
    authorize_student env principal session
    existing ← find_by_causation env c.command_id
    stored ← retry env existing "message.added" (actor_of principal)
    stored_or stored add_new

  abbrev pub authorize : Work (Unit {0})
  authorize =
      if is_student principal
      then authorize_student env principal session
      else assert_teacher_session env principal session

  -- The newest row of the message, when the actor may change it from the command's revision on.
  unfoldable pub prior_of : (owner_only : Bool) → Work Event
  prior_of owner_only = do
    base ← base_of env c.base_revision
    found ← latest_message env (message_id_of env c.payload.message_id)
    prior ← present (live found) (refused message_not_found)
    require owner_only (refused forbidden)
    require (not (is_student principal) || prior.actor_id === actor_of principal)
        (refused forbidden)
    require (prior.revision == base) (refused (revision_conflict prior.revision))
    give prior

  unfoldable pub revise_new : Work Event
  revise_new = do
    now ← assert_writable env draws
    prior ← prior_of (is_student principal)
    mentions ← read_uuid_array env c.payload.mentions 5
    require (not (text === "")) (refused invalid_command)
    assert_mentions_and_reply env mentions (reply_of env c.payload.reply_to)
    let media = media_of prior.body
    let message : MessagePayload = record {
      message_id = message_id_of env c.payload.message_id;
      text = text;
      reply_to = reply_of env c.payload.reply_to;
      mentions = mentions;
      media_ids = if is_uuids env media then media else [];
    }
    append_drawn (
        draft_of (message_revised message) Wire.student (prior.revision + 1) revise
          (draws.random_uuid 1))

  unfoldable pub revise_work : Work Event
  revise_work = do
    authorize
    existing ← find_by_causation env c.command_id
    stored ← retry env existing "message.revised" (actor_of principal)
    stored_or stored revise_new

  unfoldable pub retract_new : Work Event
  retract_new = do
    now ← assert_writable env draws
    prior ← prior_of true
    append_drawn (
        draft_of (message_retracted (message_id_of env c.payload.message_id)) (role_of principal)
          (prior.revision + 1) retract (draws.random_uuid 1))

  unfoldable pub retract_work : Work Event
  retract_work = do
    authorize
    existing ← find_by_causation env c.command_id
    stored ← retry env existing "message.retracted" (actor_of principal)
    stored_or stored retract_new

  abbrev pub in_room : Bool
  in_room = elim principal [
    | student room member actor ↦ room === c.room_id
    | teacher id actor ↦ false
  ]

  unfoldable pub add_message : List (String × Room) → Outcome Event × List (String × Room)
  add_message db =
      if is_command env c message_add
      then if in_room then transact env c.room_id add_work db else (fail (refused forbidden), db)
      else (fail (refused invalid_command), db)

  unfoldable pub revise_message : List (String × Room) → Outcome Event × List (String × Room)
  revise_message db =
      if is_command env c message_revise
      then transact env c.room_id revise_work db
      else (fail (refused invalid_command), db)

  unfoldable pub retract_message : List (String × Room) → Outcome Event × List (String × Room)
  retract_message db =
      if is_command env c message_retract
      then transact env c.room_id retract_work db
      else (fail (refused invalid_command), db)
