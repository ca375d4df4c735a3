-- ===== src/Rooms/Commands/Closed.antt =====
-- The commands of apps/server/src/modules/rooms/command-service.ts on a closed room.
use learning_orbit.Prelude.{
  String, Option, none, some, List, ◌≡◌, refl, sym, ap, subst, ◌∙◌, if-cases, inl, inr, get, put,
  put-same, true, false, arith,
}
use learning_orbit.Wire.{
  RoomCommand, CommandType, room_open, room_pause, room_resume, message_add, message_revise,
  message_retract, opened, paused, closed, Status,
}
use learning_orbit.Rooms.Store.{Event, Room, ClassroomRoom, Body, room_paused, room_resumed}
use learning_orbit.Rooms.Work.{
  Work, Outcome, ok, fail, After, After-weaken, After-gets, After-cases, After-give, After-read,
}
use learning_orbit.Rooms.Ledger.{Environment, Draws, transact, commit}
use learning_orbit.Rooms.Ledger.Life.{pausing, resuming, Step}
use learning_orbit.Rooms.Ledger.Growth.{Grows}
use learning_orbit.Rooms.Ledger.Mirror.{locked_lem}
use learning_orbit.Rooms.Messages.{AuthSession, student, teacher, is_command}
use learning_orbit.Rooms.Messages.Commands.{in_room, add_message, revise_message, retract_message}
use learning_orbit.Rooms.Messages.Growth.{add_work-Grows, revise_work-Grows, retract_work-Grows}
use learning_orbit.Rooms.Lifecycle.Commands.{
  open_room, pause_room, resume_room, close_room, three, after_retry, after_due,
}
use learning_orbit.Rooms.Lifecycle.Growth.{
  open_work-Grows, simple_transition-Grows, close_work-Grows, require_owner-Reads,
}
use learning_orbit.Rooms.Lifecycle.Due.{owner_retry-Reads}
use learning_orbit.Rooms.Lifecycle.{is_open, may_close, close_due_in_context, owner_close}
use learning_orbit.Rooms.Commands.{route_teacher, route_lifecycle, route_by, route}

module _ (env : Environment) where
  closed_no_Step :
      (r : Room) (b : Body) (u : Status) → r.row.status ≡ closed → ¬ Step r.row.status b u
  closed_no_Step r b u h step = no_step b u (subst (λ s. Step s b u) h step)
    where
      no_step : (b : Body) (u : Status) → ¬ Step closed b u
      no_step b u step = elim step [ ]

  closed-Grows :
      (c : String) (r r' : Room) (e : Event) → r.row.status ≡ closed → Grows env c r e r' → r' ≡ r
  closed-Grows c r r' e h (inl g) = g.0
  closed-Grows c r r' e h (inr s) = elim (closed_no_Step r e.body r'.row.status h s.2) [ ]

  closed_not_due : (row : ClassroomRoom) → row.status ≡ closed → ¬ (may_close row ≡ true)
  closed_not_due row h t =
      let shut : is_open row.status ≡ false = ap is_open h in ground (arith, t, shut)

  close_due_shut :
      (draws : Draws) (r : Room)
      → r.row.status ≡ closed
      → After (λ _ r'. r' ≡ r) (close_due_in_context env draws r)
  unfolding close_due_in_context
  close_due_shut draws r h = After-gets _ _ _ r (
      After-cases _ (may_close r.row) _ _ r (λ t. elim (closed_not_due r.row h t) [ ])
        (After-give _ none r refl))

  -- The room is there, and it is closed.
  pub record IsShut (id : String) (db : List (String × Room)) : Type 0 where
    pub room : Room
    pub there : get id db ≡ some room
    pub shut : room.row.status ≡ closed

  commit-same :
      {A : Type 0} (id : String) (db : List (String × Room)) (r : Room) (o : Outcome (A × Room))
      → get id db ≡ some r
      → After (λ _ r'. r' ≡ r) o
      → (commit env id db o).1 ≡ db
  unfolding commit After
  commit-same id db r (ok (a, r')) g h = ap (λ x. put id x db) h ∙ put-same id r db g
  commit-same id db r (fail e) g h = refl

  transact-same :
      {A : Type 0} (id : String) (work : Work A) (db : List (String × Room))
      → IsShut id db
      → ((r : Room) → r.row.status ≡ closed → After (λ _ r'. r' ≡ r) (work r))
      → (transact env id work db).1 ≡ db
  unfolding transact
  transact-same {A} id work db s h =
      if-cases (λ (x : Outcome A × List (String × Room)). x.1 ≡ db) (env.is_uuid id)
        (λ _. rw s.there (
          commit-same id db s.room _ s.there (locked_lem env work _ s.room (λ _. h s.room s.shut))))
        (λ _. refl)

  transact_shut :
      (id c : String) (work : Work Event) (db : List (String × Room))
      → IsShut id db
      → ((r : Room) → After (Grows env c r) (work r))
      → (transact env id work db).1 ≡ db
  transact_shut id c work db s h =
      transact-same id work db s
        (λ r shut. After-weaken _ _ _ (λ e r' g. closed-Grows c r r' e shut g) (h r))

  module _ (room_id teacher_id causation_id : String) (session : Option String) where
    owner_close_shut :
        (draws : Draws) (r : Room)
        → r.row.status ≡ closed
        → After (λ _ r'. r' ≡ r) (owner_close env room_id teacher_id causation_id session draws r)
    unfolding owner_close
    owner_close_shut draws r h =
        After-read _ (λ _. r.row.teacher_id ≡ teacher_id) _ _ r
          (require_owner-Reads env room_id teacher_id causation_id session r)
          (λ _ _. close_due_shut draws r h)

    after_due_shut :
        (work : Work Event) (db : List (String × Room))
        (o : Outcome (Option Event) × List (String × Room))
        → o.1 ≡ db
        → IsShut room_id db
        → ((r : Room) → After (Grows env causation_id r) (work r))
        → (after_due env room_id teacher_id causation_id session work o).1 ≡ db
    unfolding after_due
    after_due_shut work db (fail e, d) q s h = q
    after_due_shut work db (ok (some e), d) q s h = q
    after_due_shut work db (ok none, d) q s h =
        transact_shut room_id causation_id work d (subst (IsShut room_id) (sym q) s) h ∙ q

    after_retry_shut :
        (due : Draws) (work : Work Event) (db : List (String × Room))
        (o : Outcome (Option Event) × List (String × Room))
        → o.1 ≡ db
        → IsShut room_id db
        → ((r : Room) → After (Grows env causation_id r) (work r))
        → (after_retry env room_id teacher_id causation_id session due work o).1 ≡ db
    unfolding after_retry
    after_retry_shut due work db (fail e, d) q s h = q
    after_retry_shut due work db (ok (some e), d) q s h = q
    after_retry_shut due work db (ok none, d) q s h =
        let s' = subst (IsShut room_id) (sym q) s in
        after_due_shut work db _ (transact-same room_id _ d s' (owner_close_shut due) ∙ q) s h

    three_shut :
        (expected : String) (due : Draws) (work : Work Event) (db : List (String × Room))
        → IsShut room_id db
        → ((r : Room) → After (Grows env causation_id r) (work r))
        → (three env room_id teacher_id causation_id session expected due work db).1 ≡ db
    unfolding three
    three_shut expected due work db s h =
        after_retry_shut due work db _
          (transact-same room_id _ db s (λ r _.
            After-weaken _ _ _ (λ o r' x. x.0)
              (owner_retry-Reads env room_id teacher_id causation_id session expected r)))
          s h

  module _ (session : Option String) (due draws : Draws) where
    route_teacher_shut :
        (id : String) (c : RoomCommand) (t : CommandType) (db : List (String × Room))
        → IsShut c.room_id db
        → (route_teacher env session due draws id c t db).1 ≡ db
    unfolding route_teacher open_room pause_room resume_room close_room
    route_teacher_shut id c room_open db s =
        transact_shut c.room_id c.command_id _ db s
          (open_work-Grows env c.room_id id c.command_id session draws)
    route_teacher_shut id c room_pause db s =
        three_shut c.room_id id c.command_id session _ due _ db s (λ r.
          simple_transition-Grows env c.room_id id c.command_id session _ opened paused room_paused
            draws r (λ t. pausing))
    route_teacher_shut id c room_resume db s =
        three_shut c.room_id id c.command_id session _ due _ db s (λ r.
          simple_transition-Grows env c.room_id id c.command_id session _ paused opened room_resumed
            draws r (λ t. resuming))
    route_teacher_shut id c _ db s =
        three_shut c.room_id id c.command_id session _ due _ db s
          (close_work-Grows env c.room_id id c.command_id session draws)

    route_by_shut :
        (principal : AuthSession) (c : RoomCommand) (t : CommandType) (db : List (String × Room))
        → IsShut c.room_id db
        → (route_by env session due draws principal c t db).1 ≡ db
    unfolding route_by route_lifecycle add_message revise_message retract_message
    route_by_shut principal c message_add db s =
        if-cases (λ (o : Outcome Event × List (String × Room)). o.1 ≡ db)
          (is_command env c message_add)
          (λ _.
            if-cases (λ (o : Outcome Event × List (String × Room)). o.1 ≡ db)
              (in_room env principal session draws c)
              (λ _.
                transact_shut c.room_id c.command_id _ db s
                  (add_work-Grows env principal session draws c))
              (λ _. refl))
          (λ _. refl)
    route_by_shut principal c message_revise db s =
        if-cases (λ (o : Outcome Event × List (String × Room)). o.1 ≡ db)
          (is_command env c message_revise)
          (λ _.
            transact_shut c.room_id c.command_id _ db s
              (revise_work-Grows env principal session draws c))
          (λ _. refl)
    route_by_shut principal c message_retract db s =
        if-cases (λ (o : Outcome Event × List (String × Room)). o.1 ≡ db)
          (is_command env c message_retract)
          (λ _.
            transact_shut c.room_id c.command_id _ db s
              (retract_work-Grows env principal session draws c))
          (λ _. refl)
    route_by_shut (student room member actor) c _ db s = refl
    route_by_shut (teacher id actor) c _ db s = route_teacher_shut id c c.command_type db s

    -- A closed room is final: whatever command reaches it, no row of any room changes, whatever the
    -- rooms hold.
    pub route_shut :
        (principal : AuthSession) (c : RoomCommand) (db : List (String × Room))
        → IsShut c.room_id db
        → (route env session due draws principal c db).1 ≡ db
    route_shut principal c db s = route_by_shut principal c c.command_type db s
