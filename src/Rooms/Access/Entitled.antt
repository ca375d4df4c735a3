-- ===== src/Rooms/Access/Entitled.antt =====
-- What a grant of authorize-room-action.ts tells about the rows of the tables.
use learning_orbit.Prelude.{
  ℕ, String, Bool, true, false, ◌&&◌, some, ◌≡◌, ◌≢◌, ◌↔◌, ◌<◌, ◌===◌, ===_iff, arith, All, Exists,
  any-Exists, any-All,
}
use learning_orbit.Rooms.Messages.{AuthSession, student, teacher}
use learning_orbit.Rooms.Access.{
  RoomAction, room_read, room_command, analytics_read, media_read, media_write, agent_trigger,
  export_request, deletion_request, RoomActorGrant, as_teacher, as_student, granted, Tables,
  DeletionStatus, queued, running, retryable, dead, completed, DeletionJob, Holder, teacher_of,
  member_of, SessionRow, RoomRow, MemberRow, teacher_may, student_may, is_active_job,
  is_held_by_teacher, is_held_by_member, is_deleting, is_current_session, owns, belongs,
  authorize_principal, authorize_room_action,
}

teacher_may_lem :
    (a : RoomAction) → (teacher_may a ≡ true) ↔ ((a ≢ media_write) × (a ≢ agent_trigger))
teacher_may_lem room_read = ground arith
teacher_may_lem room_command = ground arith
teacher_may_lem analytics_read = ground arith
teacher_may_lem media_read = ground arith
teacher_may_lem media_write = ground arith
teacher_may_lem agent_trigger = ground arith
teacher_may_lem export_request = ground arith
teacher_may_lem deletion_request = ground arith

student_may_lem :
    (a : RoomAction) → (student_may a ≡ true) ↔ ((a ≢ export_request) × (a ≢ deletion_request))
student_may_lem room_read = ground arith
student_may_lem room_command = ground arith
student_may_lem analytics_read = ground arith
student_may_lem media_read = ground arith
student_may_lem media_write = ground arith
student_may_lem agent_trigger = ground arith
student_may_lem export_request = ground arith
student_may_lem deletion_request = ground arith

is_active_job_lem : (s : DeletionStatus) → (is_active_job s ≡ false) ↔ (s ≡ completed)
is_active_job_lem queued = ground arith
is_active_job_lem running = ground arith
is_active_job_lem retryable = ground arith
is_active_job_lem dead = ground arith
is_active_job_lem completed = ground arith

held_by_teacher :
    (id : String) (h : Holder) → (is_held_by_teacher id h ≡ true) ↔ (h ≡ teacher_of id)
held_by_teacher id (teacher_of t) = ground (arith, ===_iff t id)
held_by_teacher id (member_of m) = ground arith

held_by_member : (id : String) (h : Holder) → (is_held_by_member id h ≡ true) ↔ (h ≡ member_of id)
held_by_member id (teacher_of t) = ground arith
held_by_member id (member_of m) = ground (arith, ===_iff m id)

-- What a grant says.
abbrev pub grant_of : AuthSession → String → RoomAction → RoomActorGrant
grant_of (teacher id actor) room action = record {
  room_id = room;
  actor_id = id;
  role = as_teacher;
  action = action;
}
grant_of (student room_id member actor) room action = record {
  room_id = room;
  actor_id = actor;
  role = as_student;
  action = action;
}

module _ (now : ℕ) (tables : Tables) where
  -- The row of this session, held by this principal, not revoked and not over.
  abbrev pub IsLive : String → Holder → SessionRow → Type 0
  IsLive session holder s =
      (s.session_id ≡ session) × (s.holder ≡ holder) × (s.revoked ≡ false) × (now < s.expires_at)

  abbrev pub IsRoomOf : String → String → RoomRow → Type 0
  IsRoomOf room id r = (r.room_id ≡ room) × (r.teacher_id ≡ id)

  abbrev pub IsMemberOf : String → String → String → MemberRow → Type 0
  IsMemberOf room member actor m =
      (m.room_id ≡ room) × (m.room_member_id ≡ member) × (m.actor_id ≡ actor)

  -- The principal may do this in this room, with this session, by the rows of the tables.
  abbrev pub Entitled : AuthSession → String → String → RoomAction → Type 0
  Entitled (teacher id actor) session room action =
      (action ≢ media_write)
      × (action ≢ agent_trigger)
      × Exists (IsRoomOf room id) tables.rooms
      × Exists (IsLive session (teacher_of id)) tables.sessions
  Entitled (student room_id member actor) session room action =
      (action ≢ export_request)
      × (action ≢ deletion_request)
      × Exists (IsMemberOf room member actor) tables.members
      × Exists (IsLive session (member_of member)) tables.sessions

  -- A deletion job of the room is completed.
  abbrev pub IsKept : String → DeletionJob → Type 0
  IsKept room d = d.room_id ≡ room → d.status ≡ completed

module _ (is_uuid : String → Bool) (now : ℕ) (tables : Tables) where
  is_deleting_lem :
      (room : String)
      → (is_deleting is_uuid now tables room ≡ false)
        ↔ All (IsKept now tables room) tables.deletion_jobs
  unfolding is_deleting
  is_deleting_lem room =
      any-All _ (IsKept now tables room)
        (λ d. ground (arith, ===_iff d.room_id room, is_active_job_lem d.status))
        tables.deletion_jobs

  current_lem :
      (session : String) (holder : Holder) (held : Holder → Bool)
      → ((h : Holder) → (held h ≡ true) ↔ (h ≡ holder))
      → (is_current_session is_uuid now tables session held ≡ true)
        ↔ Exists (IsLive now tables session holder) tables.sessions
  current_lem session holder held own =
      any-Exists _ (IsLive now tables session holder)
        (λ s. ground (arith, ===_iff s.session_id session, own s.holder)) tables.sessions

  owns_lem :
      (room id session : String)
      → (owns is_uuid now tables room id session ≡ true) ↔ (
          Exists (IsRoomOf now tables room id) tables.rooms
          × Exists (IsLive now tables session (teacher_of id)) tables.sessions)
  unfolding owns
  owns_lem room id session =
      let rows =
        any-Exists (λ (r : RoomRow). r.room_id === room && r.teacher_id === id)
          (IsRoomOf now tables room id)
          (λ r. ground (arith, ===_iff r.room_id room, ===_iff r.teacher_id id)) tables.rooms in
      let live = current_lem session (teacher_of id) (is_held_by_teacher id) (held_by_teacher id) in
      ground (arith, rows, live)

  belongs_lem :
      (room member actor session : String)
      → (belongs is_uuid now tables room member actor session ≡ true) ↔ (
          Exists (IsMemberOf now tables room member actor) tables.members
          × Exists (IsLive now tables session (member_of member)) tables.sessions)
  unfolding belongs
  belongs_lem room member actor session =
      let rows =
        any-Exists
          (λ (m : MemberRow).
            m.room_id === room && m.room_member_id === member && m.actor_id === actor)
          (IsMemberOf now tables room member actor)
          (λ m. ground (
            arith,
            ===_iff m.room_id room,
            ===_iff m.room_member_id member,
            ===_iff m.actor_id actor,
          ))
          tables.members in
      let live =
        current_lem session (member_of member) (is_held_by_member member) (held_by_member member) in
      ground (arith, rows, live)

  principal-Entitled :
      (p : AuthSession) (session room : String) (action : RoomAction) (g : RoomActorGrant)
      → (authorize_principal is_uuid now tables p session room action ≡ granted g)
        ↔ (Entitled now tables p session room action × (g ≡ grant_of p room action))
  unfolding authorize_principal
  principal-Entitled (teacher id actor) session room action g =
      ground (arith, teacher_may_lem action, owns_lem room id session)
  principal-Entitled (student room_id member actor) session room action g =
      ground (arith, student_may_lem action, belongs_lem room member actor session)

  -- A request with a principal and a session id is granted exactly if the ids are UUIDs, every
  -- deletion job of the room is completed, the role may do the action, there is a row of the room
  -- with this teacher or a row of this member and actor in this very room, and there is a row of the
  -- session, held by the principal, not revoked and not over; and the grant names this room, this
  -- actor, this role and this action.
  pub authorize_room_action-Entitled :
      (p : AuthSession) (session room : String) (action : RoomAction) (g : RoomActorGrant)
      → (authorize_room_action is_uuid now tables (some p) (some session) room action ≡ granted g)
        ↔ ((is_uuid session ≡ true)
            × (is_uuid room ≡ true)
            × All (IsKept now tables room) tables.deletion_jobs
            × Entitled now tables p session room action
            × (g ≡ grant_of p room action))
  unfolding authorize_room_action
  authorize_room_action-Entitled p session room action g =
      ground (arith, principal-Entitled p session room action g, is_deleting_lem room)
