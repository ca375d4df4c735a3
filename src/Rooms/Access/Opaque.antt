-- ===== src/Rooms/Access/Opaque.antt =====
-- What a refusal of authorize-room-action.ts tells about the tables.
use learning_orbit.Prelude.{ℕ, String, Bool, Option, none, some, ◌≡◌, arith}
use learning_orbit.Rooms.Messages.{AuthSession, student, teacher}
use learning_orbit.Rooms.Access.{
  RoomAction, RoomAuthorizationError, denied, Tables, is_deleting, authorize_principal,
  authorize_room_action, room_not_found,
}

module _ (is_uuid : String → Bool) (now : ℕ) (tables : Tables) where
  principal-denied :
      (p : AuthSession) (session room : String) (action : RoomAction) (e : RoomAuthorizationError)
      → authorize_principal is_uuid now tables p session room action ≡ denied e
      → e ≡ room_not_found
  unfolding authorize_principal
  principal-denied (teacher id actor) session room action e h = ground arith
  principal-denied (student room_id member actor) session room action e h = ground arith

-- A refusal does not enumerate rooms. Of two states of the tables that agree on whether the room is
-- being deleted, and in both of which a request is refused, both give the same error: the answer is
-- the same for a room of someone else as for one that does not exist.
pub authorize_room_action_opaque :
    (is_uuid : String → Bool) (now later : ℕ) (tables other : Tables) (p : Option AuthSession)
    (session : Option String) (room : String) (action : RoomAction) (e e' : RoomAuthorizationError)
    → is_deleting is_uuid now tables room ≡ is_deleting is_uuid later other room
    → authorize_room_action is_uuid now tables p session room action ≡ denied e
    → authorize_room_action is_uuid later other p session room action ≡ denied e'
    → e ≡ e'
unfolding authorize_room_action
authorize_room_action_opaque is_uuid now later tables other none session room action e e' d h h' =
    ground arith
authorize_room_action_opaque is_uuid now later tables other (some p) none room action e e' d h h' =
    ground arith
authorize_room_action_opaque is_uuid now later tables other (some p) (some session) room action e e'
      d h h' =
    ground (
      arith,
      principal-denied is_uuid now tables p session room action e,
      principal-denied is_uuid later other p session room action e',
    )
