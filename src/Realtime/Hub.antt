-- ===== src/Realtime/Hub.antt =====
-- apps/server/src/modules/realtime/room-hub.ts and the handler `#handle` of connection.ts that calls
-- it. What the awaited calls return, and what other tasks do to the connection meanwhile, are
-- arguments: the authorization of each turn, the rows of the outbox, the events broadcast between.
-- `parseRoomEventEnvelope` (an Ajv schema) is the parameter `parse_envelope`.
pub mod Replay
pub mod Handler
pub mod Room
use learning_orbit.Prelude.{
  ℕ, suc, String, Bool, true, false, Option, none, some, List, [], ◌∷◌, ◌++◌, leb, ltb, ◌==◌, ◌===◌,
  if◌then◌else◌, ◌&&◌, not, is_safe_integer, length, sort_by, filterb, take, any,
}
use learning_orbit.Wire.{
  RoomEvent, ServerFrame, event, snapshot_required, resume_complete, welcome, ack, reject, Status,
  ClientFrame, RejectCode,
}
use learning_orbit.Wire
use learning_orbit.Realtime.Backpressure.{Number, safe, unsafe}
use learning_orbit.Realtime.Signals.{EphemeralSignals, expire, remove_actor}
use learning_orbit.Realtime.Connection.{
  Connection, Meter, close, send, send_durable, finish_replay, max_inbound_frame_bytes, RoomError,
  command_reject_code, take_presence, take_typing,
}

pub data Role : Type 0 where
  student teacher : Role

-- `DeliveryAuthorization`.
pub data Authorization : Type 0 where
  granted : (role : Role) (actor_id : String) → Authorization
  denied : (close_code : ℕ) → Authorization

-- What other tasks do to a connection while one of its own awaits.
pub data Meanwhile : Type 0 where
  durable : RoomEvent → Meanwhile
  ephemeral : ServerFrame → Meanwhile
  shut : ℕ → Meanwhile

pub record Turn : Type 0 where
  pub authorization : Authorization
  pub meanwhile : List Meanwhile

pub record OutboxRow (Raw : Type 0) : Type 0 where
  pub room_id : String
  pub room_seq : ℕ
  pub envelope : Raw

-- The SELECT of `resume`: the rows of the room after the cursor, in order, 501 at most.
unfoldable pub select_after :
    {Raw : Type 0} → String → ℕ → List (OutboxRow Raw) → List (OutboxRow Raw)
select_after {Raw} room from table = take 501 (
    sort_by (λ (r : OutboxRow Raw). r.room_seq)
      (filterb (λ (r : OutboxRow Raw). r.room_id === room && ltb from r.room_seq) table))

abbrev pub last_seq : {Raw : Type 0} → List (OutboxRow Raw) → ℕ
last_seq [] = 0
last_seq (r ∷ []) = r.room_seq
last_seq (r ∷ s ∷ rs) = last_seq (s ∷ rs)

-- The loop goes on with the new cursor, or has returned.
abbrev pub proceed : (ℕ → Connection → Connection) → Connection × Option ℕ → Connection
proceed next (c, none) = c
proceed next (c, some seq) = next seq c

module _ (meter : Meter) where
  unfoldable pub interfere : List Meanwhile → Connection → Connection
  interfere [] c = c
  interfere (durable e ∷ ms) c = interfere ms (send_durable meter e c)
  interfere (ephemeral f ∷ ms) c = interfere ms (send meter f c)
  interfere (shut code ∷ ms) c = interfere ms (close code c)

  -- Every failure of the replay: the client has to rebuild from a snapshot.
  unfoldable pub give_up : ℕ → ℕ → Connection → Connection
  give_up from through c = close 4409 (send meter (snapshot_required from through) c)

  module _ {Raw : Type 0} (parse_envelope : Raw → Option RoomEvent) where
    -- What one row leads to: the connection after it, and the new cursor if the loop goes on.
    unfoldable pub replay_envelope :
        ℕ → ℕ → OutboxRow Raw → Option RoomEvent → Connection → Connection × Option ℕ
    replay_envelope from through row none c = (give_up from through c, none)
    replay_envelope from through row (some e) c =
        if e.room_seq == row.room_seq
        then (send meter (event e) c, some e.room_seq)
        else (give_up from through c, none)

    unfoldable pub replay_authorized :
        ℕ → ℕ → OutboxRow Raw → Authorization → Connection → Connection × Option ℕ
    replay_authorized from through row (denied code) c = (close code c, none)
    replay_authorized from through row (granted _ _) c =
        replay_envelope from through row (parse_envelope row.envelope) c

    unfoldable pub replay_row : ℕ → ℕ → OutboxRow Raw → Turn → Connection → Connection × Option ℕ
    replay_row from through row turn c =
        if is_safe_integer row.room_seq && row.room_seq == suc through
        then replay_authorized from through row turn.authorization (interfere turn.meanwhile c)
        else (give_up from through c, none)

    -- The loop over the rows; each comes with the turn of the event loop that its await yields to.
    unfoldable pub replay : ℕ → ℕ → List (OutboxRow Raw × Turn) → Connection → Connection
    replay from through [] c = finish_replay meter through (send meter (resume_complete through) c)
    replay from through ((row, turn) ∷ rest) c =
        proceed (λ seq d. replay from seq rest d) (replay_row from through row turn c)

    abbrev pub with_turns : (ℕ → Turn) → List (OutboxRow Raw) → List (OutboxRow Raw × Turn)
    with_turns turns [] = []
    with_turns turns (row ∷ rows) = (row, turns row.room_seq) ∷ with_turns turns rows

    unfoldable pub resume_rows : (ℕ → Turn) → List (OutboxRow Raw) → Connection → Connection
    resume_rows turns rows c =
        if ltb 500 (length rows)
        then give_up c.resume_from (last_seq rows) c
        else replay c.resume_from c.resume_from (with_turns turns rows) c

    unfoldable pub resume : (ℕ → Turn) → List (OutboxRow Raw) → Connection → Connection
    unfolding resume_rows
    resume turns table c = resume_rows turns (select_after c.identity.room_id c.resume_from table) c
