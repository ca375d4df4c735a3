-- ===== src/Examples/Grants.antt =====
-- The theorems on the authorization of room actions at a teacher with one room.
use learning_orbit.Prelude.{true, false, refl, some, [], ◌∷◌, ◌≡◌, ◌↔◌, All}
use learning_orbit.Rooms.Messages.{teacher}
use learning_orbit.Rooms.Access.{
  room_read, Tables, teacher_of, RoomActorGrant, granted, as_teacher, is_deleting, room_not_found,
  owns, authorize_room_action, authorize_principal,
}
use learning_orbit.Rooms.Access.Opaque.{authorize_room_action_opaque}
use learning_orbit.Rooms.Access.Entitled.{
  Entitled, IsKept, grant_of, authorize_room_action-Entitled,
}

abbrev tables : Tables
tables = record {
  rooms = record { room_id = "r1"; teacher_id = "t1" } ∷ [];
  members = [];
  sessions =
      record { session_id = "x1"; holder = teacher_of "t1"; revoked = false; expires_at = 9 } ∷ [];
  deletion_jobs = [];
}

abbrev grant : RoomActorGrant
grant = record { room_id = "r1"; actor_id = "t1"; role = as_teacher; action = room_read }

authorize_room_action-Entitled_example :
    (authorize_room_action
        (λ _. true)
        5
        tables
        (some (teacher "t1" "t1"))
        (some "x1")
        "r1"
        room_read
      ≡ granted grant)
    ↔ ((true ≡ true)
        × (true ≡ true)
        × All (IsKept 5 tables "r1") []
        × Entitled 5 tables (teacher "t1" "t1") "x1" "r1" room_read
        × (grant ≡ grant_of (teacher "t1" "t1") "r1" room_read))
authorize_room_action-Entitled_example =
    authorize_room_action-Entitled (λ _. true) 5 tables (teacher "t1" "t1") "x1" "r1" room_read
      grant

-- The room of another teacher, and no room at all.
authorize_room_action_opaque_example : room_not_found ≡ room_not_found
unfolding authorize_room_action authorize_principal is_deleting owns
authorize_room_action_opaque_example =
    authorize_room_action_opaque (λ _. true) 5 5 tables (record tables { rooms = [] })
      (some (teacher "t2" "t2")) (some "x1") "r1" room_read room_not_found room_not_found refl refl
      refl
