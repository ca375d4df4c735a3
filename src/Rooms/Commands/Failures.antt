-- ===== src/Rooms/Commands/Failures.antt =====
-- The commands of apps/server/src/modules/rooms/command-service.ts that fail.
use learning_orbit.Prelude.{
  String, Option, none, some, List, ◌≡◌, ◌⊎◌, refl, inl, inr, if-cases, Option-cases, get, put,
  put-same, get-All,
}
use learning_orbit.Wire.{
  RoomCommand, CommandType, room_open, room_pause, room_resume, message_add, message_revise,
  message_retract, closed,
}
use learning_orbit.Rooms.Store.{Event, Room}
use learning_orbit.Rooms.Work.{Work, Outcome, ok, fail, Failure, After, After-weaken}
use learning_orbit.Rooms.Ledger.{Environment, Draws, transact, commit, locked}
use learning_orbit.Rooms.Ledger.Mirror.{IsLedgers, IsLedger, locked_lem}
use learning_orbit.Rooms.Messages.{AuthSession, student, teacher, is_command}
use learning_orbit.Rooms.Messages.Commands.{in_room, add_message, revise_message, retract_message}
use learning_orbit.Rooms.Lifecycle.Commands.{
  open_room, pause_room, resume_room, close_room, three, after_retry, after_due,
}
use learning_orbit.Rooms.Lifecycle.Due.{Due, owner_close-Due, owner_retry-Reads}
use learning_orbit.Rooms.Commands.{route_teacher, route_lifecycle, route_by, route}

-- The rooms after an outcome: a failure has left all of them, or has closed this one.
abbrev pub FailsCleanly :
    String → List (String × Room) → Outcome Event × List (String × Room) → Type 0
FailsCleanly id db (ok e, db') = Unit
FailsCleanly id db (fail e, db') =
    (db' ≡ db)
    ⊎ ((r : Room) × (get id db ≡ some r)
        × ((r' : Room) × (db' ≡ put id r' db) × (r'.row.status ≡ closed)))

module _ (env : Environment) where
  -- A transaction fails and leaves the rooms, or commits what its work did to its room.
  data Shape {A : Type 0} (id : String) (db : List (String × Room)) (P : Room → A → Room → Type 0)
      (o : Outcome A × List (String × Room)) : Type 0 where
    rolled_back : (e : Failure) → o ≡ (fail e, db) → Shape id db P o
    committed :
        (a : A) (r r' : Room)
        → get id db ≡ some r
        → P r a r'
        → o ≡ (ok a, put id r' db)
        → Shape id db P o

  commit-Shape :
      {A : Type 0} (id : String) (db : List (String × Room)) (P : Room → A → Room → Type 0)
      (r : Room) (o : Outcome (A × Room))
      → get id db ≡ some r
      → After (P r) o
      → Shape id db P (commit env id db o)
  unfolding commit After
  commit-Shape id db P r (ok (a, r')) g h = committed a r r' g h refl
  commit-Shape id db P r (fail e) g h = rolled_back e refl

  transact-Shape :
      {A : Type 0} (id : String) (work : Work A) (db : List (String × Room))
      (P : Room → A → Room → Type 0)
      → IsLedgers env db
      → ((r : Room) → IsLedger env r → After (P r) (work r))
      → Shape id db P (transact env id work db)
  unfolding transact
  transact-Shape {A} id work db P i h =
      if-cases (λ (x : Outcome A × List (String × Room)). Shape id db P x) (env.is_uuid id)
        (λ _. elim (Option-cases (get id db)) [
          | inl n ↦ rw n (rolled_back _ refl)
          | inr (r, g) ↦ rw g (
              commit-Shape id db P r _ g (
                locked_lem env work (P r) r (λ _.
                  h r
                    (get-All (λ (e : String × Room). (e.1.row.room_id ≡ e.0) × IsLedger env e.1) id
                      db r g i).1)))
        ])
        (λ _. rolled_back _ refl)

  -- One transaction alone.
  transact-FailsCleanly :
      (id : String) (work : Work Event) (db : List (String × Room))
      → FailsCleanly id db (transact env id work db)
  unfolding transact commit
  transact-FailsCleanly id work db =
      if-cases (FailsCleanly id db) (env.is_uuid id)
        (λ _. elim (Option-cases (get id db)) [
          | inl n ↦ rw n (inl refl)
          | inr (r, g) ↦ rw g (commit_cleanly (locked env work r))
        ])
        (λ _. inl refl)
    where
      commit_cleanly : (o : Outcome (Event × Room)) → FailsCleanly id db (commit env id db o)
      commit_cleanly (ok (e, r')) = tt
      commit_cleanly (fail e) = inl refl

  module _ (room_id teacher_id causation_id : String) (session : Option String) where
    after_due-FailsCleanly :
        (work : Work Event) (db : List (String × Room))
        (o : Outcome (Option Event) × List (String × Room))
        → Shape room_id db (Due env) o
        → FailsCleanly room_id db (after_due env room_id teacher_id causation_id session work o)
    unfolding after_due
    after_due-FailsCleanly work db o (rolled_back e q) = rw q (inl refl)
    after_due-FailsCleanly work db o (committed none r r' g same q) =
        rw (q, same, put-same room_id r db g) (transact-FailsCleanly room_id work db)
    after_due-FailsCleanly work db o (committed (some e) r r' g (s, shut) q) =
        rw q (inr (r, g, (r', refl, shut)))

    after_retry-FailsCleanly :
        (due : Draws) (work : Work Event) (db : List (String × Room))
        (o : Outcome (Option Event) × List (String × Room))
        → IsLedgers env db
        → Shape room_id db (λ r a r'. r' ≡ r) o
        → FailsCleanly room_id db
            (after_retry env room_id teacher_id causation_id session due work o)
    unfolding after_retry
    after_retry-FailsCleanly due work db o i (rolled_back e q) = rw q (inl refl)
    after_retry-FailsCleanly due work db o i (committed (some e) r r' g same q) = rw q tt
    after_retry-FailsCleanly due work db o i (committed none r r' g same q) =
        rw (q, same, put-same room_id r db g)
          (after_due-FailsCleanly work db _ (
            transact-Shape room_id _ db (Due env) i
              (λ r l. owner_close-Due env room_id teacher_id causation_id session due r l.life)))

    three-FailsCleanly :
        (expected : String) (due : Draws) (work : Work Event) (db : List (String × Room))
        → IsLedgers env db
        → FailsCleanly room_id db
            (three env room_id teacher_id causation_id session expected due work db)
    unfolding three
    three-FailsCleanly expected due work db i = after_retry-FailsCleanly due work db _ i (
        transact-Shape room_id _ db (λ r a r'. r' ≡ r) i
          (λ r _.
            After-weaken _ _ _ (λ o r' x. x.0)
              (owner_retry-Reads env room_id teacher_id causation_id session expected r)))

  module _ (session : Option String) (due draws : Draws) where
    route_teacher-FailsCleanly :
        (id : String) (c : RoomCommand) (t : CommandType) (db : List (String × Room))
        → IsLedgers env db
        → FailsCleanly c.room_id db (route_teacher env session due draws id c t db)
    unfolding route_teacher open_room pause_room resume_room close_room
    route_teacher-FailsCleanly id c room_open db i = transact-FailsCleanly c.room_id _ db
    route_teacher-FailsCleanly id c room_pause db i =
        three-FailsCleanly c.room_id id c.command_id session _ due _ db i
    route_teacher-FailsCleanly id c room_resume db i =
        three-FailsCleanly c.room_id id c.command_id session _ due _ db i
    route_teacher-FailsCleanly id c _ db i =
        three-FailsCleanly c.room_id id c.command_id session _ due _ db i

    route_by-FailsCleanly :
        (principal : AuthSession) (c : RoomCommand) (t : CommandType) (db : List (String × Room))
        → IsLedgers env db
        → FailsCleanly c.room_id db (route_by env session due draws principal c t db)
    unfolding route_by route_lifecycle add_message revise_message retract_message
    route_by-FailsCleanly principal c message_add db i =
        if-cases (FailsCleanly c.room_id db) (is_command env c message_add)
          (λ _.
            if-cases (FailsCleanly c.room_id db) (in_room env principal session draws c)
              (λ _. transact-FailsCleanly c.room_id _ db) (λ _. inl refl))
          (λ _. inl refl)
    route_by-FailsCleanly principal c message_revise db i =
        if-cases (FailsCleanly c.room_id db) (is_command env c message_revise)
          (λ _. transact-FailsCleanly c.room_id _ db) (λ _. inl refl)
    route_by-FailsCleanly principal c message_retract db i =
        if-cases (FailsCleanly c.room_id db) (is_command env c message_retract)
          (λ _. transact-FailsCleanly c.room_id _ db) (λ _. inl refl)
    route_by-FailsCleanly (student room member actor) c _ db i = inl refl
    route_by-FailsCleanly (teacher id actor) c _ db i =
        route_teacher-FailsCleanly id c c.command_type db i

    -- Where the ledgers hold, a command that fails has changed no row of any room, or it has closed
    -- the room that it names and changed no other.
    pub route-FailsCleanly :
        (principal : AuthSession) (c : RoomCommand) (db : List (String × Room))
        → IsLedgers env db
        → FailsCleanly c.room_id db (route env session due draws principal c db)
    route-FailsCleanly principal c db i = route_by-FailsCleanly principal c c.command_type db i
