-- ===== src/Client/Commands.antt =====
-- apps/web/src/lib/session/session-command-bus.ts: what a user intends, made into a room command.
-- `trim` of ECMAScript, the encoder of the contract and the transport are parameters; the transport
-- returns the id that it sent under, or throws.
pub mod WellMade
use learning_orbit.Prelude.{
  ℕ, String, Bool, true, false, Option, none, some, List, [], ◌∷◌, ◌&&◌, not, ◌===◌, ===_iff, ◌≡◌,
  refl, ◌≤◌, ltb, length, unique, AreDistinct, add_ids-AreDistinct, if◌then◌else◌, if-cases,
  Bool-cases, inl, inr, arith, ◌⊎◌, Option-cases, ◌≢◌,
}
use learning_orbit.Wire.{
  CommandType, room_open, room_pause, room_resume, room_close, message_add, message_revise,
  message_retract, CommandPayload, RoomCommand,
}

pub data RoomChange : Type 0 where
  open_room pause_room resume_room close_room : RoomChange

pub data RoomCommandIntent : Type 0 where
  change : RoomChange → RoomCommandIntent
  add :
      (text : String) (reply_to : Option String) (mentions media_ids : List String)
      → RoomCommandIntent
  revise :
      (message_id text : String) (reply_to : Option String) (mentions : List String)
      (base_revision : ℕ)
      → RoomCommandIntent
  retract : (message_id : String) (base_revision : ℕ) → RoomCommandIntent

pub data BusError : Type 0 where
  command_clock_invalid message_text_or_media_required message_media_limit_exceeded : BusError
  message_text_required invalid_room_command transport_failed : BusError
  command_transport_id_mismatch : BusError

-- The fields that all commands share.
pub record Common : Type 0 where
  pub command_id : String
  pub room_id : String
  pub client_time : String

abbrev pub no_payload : CommandPayload
no_payload = record {
  message_id = none;
  text = none;
  reply_to = none;
  mentions = none;
  media_ids = none;
}

abbrev pub make : Common → CommandType → Option ℕ → CommandPayload → RoomCommand
make common type base payload = record {
  command_id = common.command_id;
  room_id = common.room_id;
  command_type = type;
  client_time = common.client_time;
  base_revision = base;
  payload = payload;
}

abbrev pub change_type : RoomChange → CommandType
change_type open_room = room_open
change_type pause_room = room_pause
change_type resume_room = room_resume
change_type close_room = room_close

pub data Built : Type 0 where
  built : RoomCommand → Built
  refused : BusError → Built

pub data Sent : Type 0 where
  sent : String → Sent
  thrown : BusError → Sent

module _ (trim : String → String) where
  -- The command of an intent, before `freezeCommand`.
  unfoldable pub build : Common → RoomCommandIntent → Built
  build common (change c) = built (make common (change_type c) none no_payload)
  build common (add text reply_to mentions media_ids) =
      if trim text === "" && not (ltb 0 (length (unique media_ids)))
      then refused message_text_or_media_required
      else if ltb 4 (length (unique media_ids))
      then refused message_media_limit_exceeded
      else built (
          make common message_add none (record {
            message_id = none;
            text = some (trim text);
            reply_to = some reply_to;
            mentions = some (unique mentions);
            media_ids = some (unique media_ids);
          }))
  build common (revise message_id text reply_to mentions base) =
      if trim text === ""
      then refused message_text_required
      else built (
          make common message_revise (some base) (record {
            message_id = some message_id;
            text = some (trim text);
            reply_to = some reply_to;
            mentions = some (unique mentions);
            media_ids = none;
          }))
  build common (retract message_id base) = built (
      make common message_retract (some base) (record {
        message_id = some message_id;
        text = none;
        reply_to = none;
        mentions = none;
        media_ids = none;
      }))

  module _ (encode : RoomCommand → Option String) (transport : RoomCommand → Option String) where
    -- The end of `send`: the transport has to answer with the command's own id.
    unfoldable pub confirm : String → Option String → Sent
    confirm id none = thrown transport_failed
    confirm id (some sent_id) =
        if not (sent_id === id) then thrown command_transport_id_mismatch else sent id

    unfoldable pub freeze : RoomCommand → Option String → List RoomCommand × Sent
    unfolding confirm
    freeze c none = ([], thrown invalid_room_command)
    freeze c (some _) = (c ∷ [], confirm c.command_id (transport c))

    unfoldable pub dispatch_built : Built → List RoomCommand × Sent
    dispatch_built (refused e) = ([], thrown e)
    dispatch_built (built c) = freeze c (encode c)

    -- `send`, with what the clock and `uuid` give; `none` is a clock that is no valid date. The first
    -- part of the result is what the transport was called with.
    unfoldable pub send :
        String → Option String → String → RoomCommandIntent → List RoomCommand × Sent
    send room_id none id intent = ([], thrown command_clock_invalid)
    send room_id (some now) id intent =
        dispatch_built
          (build (record { command_id = id; room_id = room_id; client_time = now }) intent)
