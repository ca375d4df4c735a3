-- ===== src/Rooms/Commands/Runs.antt =====
-- Runs of the room services: commands of any principals, and the closing of due rooms, one after the
-- other. Each is a list of transactions that lock their room, so that what happens is such a sequence.
use learning_orbit.Prelude.{String, Option, List, [], ◌∷◌}
use learning_orbit.Wire.{RoomCommand}
use learning_orbit.Rooms.Store.{Room}
use learning_orbit.Rooms.Ledger.{Environment, Draws}
use learning_orbit.Rooms.Ledger.Mirror.{IsLedgers, Keeps, refl-Keeps}
use learning_orbit.Rooms.Messages.{AuthSession}
use learning_orbit.Rooms.Lifecycle.{close_if_due}
use learning_orbit.Rooms.Commands.{dispatch}
use learning_orbit.Rooms.Commands.Ledgers.{dispatch-Keeps, close_if_due-Keeps}

module _ {Value : Type 0} (env : Environment) (parse : Value → Option RoomCommand)
    (room_of : Value → Option String) where
  -- A command frame with its session and draws, or a look of the clock at a room.
  pub data Action : Type 0 where
    command :
        (principal : AuthSession) (session : Option String) (due draws : Draws) → Value → Action
    clock : (room_id : String) → Draws → Action

  abbrev pub act : Action → List (String × Room) → List (String × Room)
  act (command principal session due draws value) db =
      (dispatch env session due draws parse room_of principal value db).1
  act (clock room_id draws) db = (close_if_due env room_id draws db).1

  abbrev pub run : List Action → List (String × Room) → List (String × Room)
  run [] db = db
  run (a ∷ as') db = run as' (act a db)

  act-Keeps :
      (base db : List (String × Room)) (a : Action) → Keeps env base db → Keeps env base (act a db)
  act-Keeps base db (command principal session due draws value) k =
      dispatch-Keeps env base session due draws parse room_of principal value db k
  act-Keeps base db (clock room_id draws) k = close_if_due-Keeps env base room_id draws db k

  run_from-Keeps :
      (base db : List (String × Room)) (as' : List Action)
      → Keeps env base db
      → Keeps env base (run as' db)
  run_from-Keeps base db [] k = k
  run_from-Keeps base db (a ∷ as') k = run_from-Keeps base (act a db) as' (act-Keeps base db a k)

  -- Whatever sequence of command frames and looks of the clock, accepted or refused, the ledgers of
  -- the rooms hold in the end: a room's events are numbered from 1 up to before its next sequence
  -- without a gap and belong to the room, the outbox has exactly their envelopes in that order, no
  -- identifier stands twice, each passed the contract, and they lead a scheduled room to its status
  -- along the steps of a room's life. And they only grow: every room of the beginning is there in
  -- the end, with the events that it had and new ones after them.
  pub run-Keeps :
      (actions : List Action) (db : List (String × Room))
      → IsLedgers env db
      → Keeps env db (run actions db)
  run-Keeps actions db i = run_from-Keeps db db actions (refl-Keeps env db i)
