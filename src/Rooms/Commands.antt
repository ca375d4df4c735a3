-- ===== src/Rooms/Commands.antt =====
-- apps/server/src/modules/rooms/command-service.ts: a frame's command goes to its service. The parser
-- of the frame is the contract's; the spans of the telemetry are left out.
pub mod Ledgers
pub mod Closed
pub mod Runs
pub mod Failures
use learning_orbit.Prelude.{String, Option, none, some, List, ◌≡◌, ◌===◌, if◌then◌else◌}
use learning_orbit.Wire.{
  RoomCommand, CommandType, room_open, room_pause, room_resume, room_close, message_add,
  message_revise, message_retract,
}
use learning_orbit.Rooms.Store.{Event, Room}
use learning_orbit.Rooms.Work.{Outcome, ok, fail, refused, forbidden, invalid_command}
use learning_orbit.Rooms.Ledger.{Environment, Draws}
use learning_orbit.Rooms.Messages.{AuthSession, student, teacher}
use learning_orbit.Rooms.Messages.Commands.{add_message, revise_message, retract_message}
use learning_orbit.Rooms.Lifecycle.Commands.{open_room, pause_room, resume_room, close_room}

module _ (env : Environment) (session : Option String) (due draws : Draws) where
  unfoldable pub route_teacher :
      String
      → RoomCommand
      → CommandType
      → List (String × Room)
      → Outcome Event × List (String × Room)
  route_teacher id c room_open = open_room env c.room_id id c.command_id session due draws
  route_teacher id c room_pause = pause_room env c.room_id id c.command_id session due draws
  route_teacher id c room_resume = resume_room env c.room_id id c.command_id session due draws
  route_teacher id c _ = close_room env c.room_id id c.command_id session due draws

  unfoldable pub route_lifecycle :
      AuthSession → RoomCommand → List (String × Room) → Outcome Event × List (String × Room)
  route_lifecycle (student room member actor) c db = (fail (refused forbidden), db)
  route_lifecycle (teacher id actor) c db = route_teacher id c c.command_type db

  unfoldable pub route_by :
      AuthSession
      → RoomCommand
      → CommandType
      → List (String × Room)
      → Outcome Event × List (String × Room)
  route_by principal c message_add = add_message env principal session draws c
  route_by principal c message_revise = revise_message env principal session draws c
  route_by principal c message_retract = retract_message env principal session draws c
  route_by principal c _ = route_lifecycle principal c

  abbrev pub route :
      AuthSession → RoomCommand → List (String × Room) → Outcome Event × List (String × Room)
  route principal c = route_by principal c c.command_type

  -- `parse` is the contract's parser of a command frame, `room_of` the member `roomId` of a value.
  unfoldable pub dispatch :
      {Value : Type 0}
      → (Value → Option RoomCommand)
      → (Value → Option String)
      → AuthSession
      → Value
      → List (String × Room)
      → Outcome Event × List (String × Room)
  dispatch parse room_of principal value db = elim (parse value) [
    | none ↦ (fail (refused invalid_command), db)
    | some c ↦ elim (room_of value) [
      | none ↦ (fail (refused invalid_command), db)
      | some id ↦
          if c.room_id === id then route principal c db else (fail (refused invalid_command), db)
    ]
  ]
