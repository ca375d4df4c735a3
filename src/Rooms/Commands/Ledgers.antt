-- ===== src/Rooms/Commands/Ledgers.antt =====
-- The ledgers under the commands of apps/server/src/modules/rooms/command-service.ts.
use learning_orbit.Prelude.{
  String, true, Option, none, some, List, ◌≡◌, if-cases, Option-cases, inl, inr, ◌===◌,
}
use learning_orbit.Wire.{
  RoomCommand, CommandType, room_open, room_pause, room_resume, message_add, message_revise,
  message_retract, opened, paused,
}
use learning_orbit.Rooms.Store.{Event, Room, room_paused, room_resumed}
use learning_orbit.Rooms.Work.{Work, Outcome, ok, fail, After, After-weaken}
use learning_orbit.Rooms.Ledger.{Environment, Draws, transact, is_safe_positive}
use learning_orbit.Rooms.Ledger.Life.{pausing, resuming}
use learning_orbit.Rooms.Ledger.Growth.{Grows}
use learning_orbit.Rooms.Ledger.Mirror.{
  IsLedger, Kept, Grows-Kept, Steps-Kept, same-Kept, Keeps, transact-Keeps,
}
use learning_orbit.Rooms.Messages.{AuthSession, student, teacher, is_command}
use learning_orbit.Rooms.Messages.Commands.{in_room, add_message, revise_message, retract_message}
use learning_orbit.Rooms.Messages.Growth.{add_work-Grows, revise_work-Grows, retract_work-Grows}
use learning_orbit.Rooms.Lifecycle.{close_if_due}
use learning_orbit.Rooms.Lifecycle.Commands.{
  open_room, pause_room, resume_room, close_room, three, after_retry, after_due,
}
use learning_orbit.Rooms.Lifecycle.Growth.{
  open_work-Grows, simple_transition-Grows, close_work-Grows,
}
use learning_orbit.Rooms.Lifecycle.Due.{
  Due, close_due_in_context-Due, owner_close-Due, owner_retry-Reads,
}
use learning_orbit.Rooms.Commands.{route_teacher, route_lifecycle, route_by, dispatch}

module _ (env : Environment) (base : List (String × Room)) where
  -- The transaction of a command that stores its event.
  transact_command :
      (id c : String) (work : Work Event) (db : List (String × Room))
      → ((r : Room) → After (Grows env c r) (work r))
      → Keeps env base db
      → Keeps env base (transact env id work db).1
  transact_command id c work db h i =
      transact-Keeps env work base id db
        (λ r l safe. After-weaken _ _ _ (λ e r' g. Grows-Kept env c r r' e l safe g) (h r)) i

  Due-Kept :
      (r r' : Room) (o : Option Event)
      → IsLedger env r
      → is_safe_positive r.row.next_room_seq ≡ true
      → Due env r o r'
      → Kept env r r'
  Due-Kept r r' none l safe d = same-Kept env r r' l d
  Due-Kept r r' (some e) l safe d = Steps-Kept env _ r r' e l safe d.0

  pub close_if_due-Keeps :
      (id : String) (draws : Draws) (db : List (String × Room))
      → Keeps env base db
      → Keeps env base (close_if_due env id draws db).1
  unfolding close_if_due
  close_if_due-Keeps id draws db i =
      transact-Keeps env _ base id db
        (λ r l safe.
          After-weaken _ _ _ (λ o r' d. Due-Kept r r' o l safe d)
            (close_due_in_context-Due env draws r l.life))
        i

  module _ (room_id teacher_id causation_id : String) (session : Option String) where
    after_due-Keeps :
        (work : Work Event) (o : Outcome (Option Event) × List (String × Room))
        → ((r : Room) → After (Grows env causation_id r) (work r))
        → Keeps env base o.1
        → Keeps env base (after_due env room_id teacher_id causation_id session work o).1
    unfolding after_due
    after_due-Keeps work (fail e, db) h i = i
    after_due-Keeps work (ok (some e), db) h i = i
    after_due-Keeps work (ok none, db) h i = transact_command room_id causation_id work db h i

    after_retry-Keeps :
        (due : Draws) (work : Work Event) (o : Outcome (Option Event) × List (String × Room))
        → ((r : Room) → After (Grows env causation_id r) (work r))
        → Keeps env base o.1
        → Keeps env base (after_retry env room_id teacher_id causation_id session due work o).1
    unfolding after_retry
    after_retry-Keeps due work (fail e, db) h i = i
    after_retry-Keeps due work (ok (some e), db) h i = i
    after_retry-Keeps due work (ok none, db) h i = after_due-Keeps work _ h (
        transact-Keeps env _ base room_id db
          (λ r l safe.
            After-weaken _ _ _ (λ o r' d. Due-Kept r r' o l safe d)
              (owner_close-Due env room_id teacher_id causation_id session due r l.life))
          i)

    three-Keeps :
        (expected : String) (due : Draws) (work : Work Event) (db : List (String × Room))
        → ((r : Room) → After (Grows env causation_id r) (work r))
        → Keeps env base db
        → Keeps env base (three env room_id teacher_id causation_id session expected due work db).1
    unfolding three
    three-Keeps expected due work db h i = after_retry-Keeps due work _ h (
        transact-Keeps env _ base room_id db
          (λ r l safe.
            After-weaken _ _ _ (λ o r' q. same-Kept env r r' l q.0)
              (owner_retry-Reads env room_id teacher_id causation_id session expected r))
          i)

  module _ (session : Option String) (due draws : Draws) where
    route_teacher-Keeps :
        (id : String) (c : RoomCommand) (t : CommandType) (db : List (String × Room))
        → Keeps env base db
        → Keeps env base (route_teacher env session due draws id c t db).1
    unfolding route_teacher open_room pause_room resume_room close_room
    route_teacher-Keeps id c room_open db i =
        transact_command c.room_id c.command_id _ db
          (open_work-Grows env c.room_id id c.command_id session draws) i
    route_teacher-Keeps id c room_pause db i =
        three-Keeps c.room_id id c.command_id session _ due _ db
          (λ r.
            simple_transition-Grows env c.room_id id c.command_id session _ opened paused
              room_paused draws r (λ t. pausing))
          i
    route_teacher-Keeps id c room_resume db i =
        three-Keeps c.room_id id c.command_id session _ due _ db
          (λ r.
            simple_transition-Grows env c.room_id id c.command_id session _ paused opened
              room_resumed draws r (λ t. resuming))
          i
    route_teacher-Keeps id c _ db i =
        three-Keeps c.room_id id c.command_id session _ due _ db
          (close_work-Grows env c.room_id id c.command_id session draws) i

    message-Keeps :
        (principal : AuthSession) (c : RoomCommand) (db : List (String × Room))
        → Keeps env base db
        → Keeps env base (add_message env principal session draws c db).1
          × Keeps env base (revise_message env principal session draws c db).1
          × Keeps env base (retract_message env principal session draws c db).1
    unfolding add_message revise_message retract_message
    message-Keeps principal c db i =
        let kept = λ (o : Outcome Event × List (String × Room)). Keeps env base o.1 in
        (
          if-cases kept (is_command env c message_add)
              (λ _.
                if-cases kept (in_room env principal session draws c)
                  (λ _.
                    transact_command c.room_id c.command_id _ db
                      (add_work-Grows env principal session draws c) i)
                  (λ _. i))
              (λ _. i),
          if-cases kept (is_command env c message_revise)
              (λ _.
                transact_command c.room_id c.command_id _ db
                  (revise_work-Grows env principal session draws c) i)
              (λ _. i),
          if-cases kept (is_command env c message_retract)
              (λ _.
                transact_command c.room_id c.command_id _ db
                  (retract_work-Grows env principal session draws c) i)
              (λ _. i),
        )

    route_lifecycle-Keeps :
        (principal : AuthSession) (c : RoomCommand) (db : List (String × Room))
        → Keeps env base db
        → Keeps env base (route_lifecycle env session due draws principal c db).1
    unfolding route_lifecycle
    route_lifecycle-Keeps (student room member actor) c db i = i
    route_lifecycle-Keeps (teacher id actor) c db i = route_teacher-Keeps id c c.command_type db i

    route_by-Keeps :
        (principal : AuthSession) (c : RoomCommand) (t : CommandType) (db : List (String × Room))
        → Keeps env base db
        → Keeps env base (route_by env session due draws principal c t db).1
    unfolding route_by
    route_by-Keeps principal c message_add db i = (message-Keeps principal c db i).0
    route_by-Keeps principal c message_revise db i = (message-Keeps principal c db i).1
    route_by-Keeps principal c message_retract db i = (message-Keeps principal c db i).2
    route_by-Keeps principal c _ db i = route_lifecycle-Keeps principal c db i

    -- A command of a frame, accepted or refused.
    pub dispatch-Keeps :
        {Value : Type 0} (parse : Value → Option RoomCommand) (room_of : Value → Option String)
        (principal : AuthSession) (value : Value) (db : List (String × Room))
        → Keeps env base db
        → Keeps env base (dispatch env session due draws parse room_of principal value db).1
    unfolding dispatch
    dispatch-Keeps parse room_of principal value db i = elim (Option-cases (parse value)) [
      | inl n ↦ rw (dispatch, n) i
      | inr (c, p) ↦ elim (Option-cases (room_of value)) [
        | inl n ↦ rw (dispatch, p, n) i
        | inr (id, q) ↦
            rw (dispatch, p, q)
              (if-cases (λ (o : Outcome Event × List (String × Room)). Keeps env base o.1)
                (c.room_id === id) (λ _. route_by-Keeps principal c c.command_type db i) (λ _. i))
      ]
    ]
