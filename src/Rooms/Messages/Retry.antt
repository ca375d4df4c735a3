-- ===== src/Rooms/Messages/Retry.antt =====
-- A command of message-service.ts that comes again.
use learning_orbit.Prelude.{String, Bool, false, ◌&&◌, Option, ◌≡◌, ◌===◌}
use learning_orbit.Rooms.Store.{Event, Room}
use learning_orbit.Rooms.Work.{Work, ◌>>=◌}
use learning_orbit.Rooms.Work.Surely.{Surely}
use learning_orbit.Rooms.Ledger.{Environment}
use learning_orbit.Rooms.Messages.{AuthSession, student, teacher, session_holds, is_member}

module _ (env : Environment) where
  -- The checks of a student's membership and session, as one test.
  abbrev may_write : AuthSession → Option String → Room → Bool
  may_write (teacher id actor) session r = false
  may_write (student room_id member actor) session r =
      room_id === r.row.room_id
      && (session_holds env session (λ s. env.student_session s member)
          && is_member env member actor r.members)

  -- Its result and the rows: the same event, and no change.
  abbrev pub Answers : Event → Room → Event → Room → Type 0
  Answers e r' x s = (s ≡ r') × (x ≡ e)
