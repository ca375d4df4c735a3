-- ===== src/Rooms/Access.antt =====
-- The authorization of a room action, authorize-room-action.ts of the server, over the tables that its
-- queries read. `now` is the transaction's timestamp; the pattern of a UUID is a parameter.
pub mod Opaque
pub mod Entitled
use learning_orbit.Prelude.{
  ℕ, String, Bool, true, false, not, ◌&&◌, ◌||◌, Option, none, some, List, [], ◌∷◌, ◌≡◌, ◌===◌, ltb,
  any, if◌then◌else◌,
}
use learning_orbit.Rooms.Messages.{AuthSession, student, teacher}

pub data RoomAction : Type 0 where
  room_read room_command analytics_read media_read media_write agent_trigger : RoomAction
  export_request deletion_request : RoomAction

-- 401, 410 and the two kinds of 404.
pub data RoomAuthorizationError : Type 0 where
  auth_required room_deletion_in_progress room_not_found deletion_job_not_found :
      RoomAuthorizationError

pub data GrantRole : Type 0 where
  as_teacher as_student : GrantRole

pub record RoomActorGrant : Type 0 where
  pub room_id : String
  pub actor_id : String
  pub role : GrantRole
  pub action : RoomAction

pub data Decision {ℓ} (A : Type ℓ) : Type ℓ where
  granted : A → Decision A
  denied : RoomAuthorizationError → Decision A

pub data DeletionStatus : Type 0 where
  queued running retryable dead completed : DeletionStatus

pub record DeletionJob : Type 0 where
  pub deletion_job_id : String
  pub room_id : String
  pub owner_teacher_id : String
  pub status : DeletionStatus

-- The holder of a session: a teacher, or a member of a room.
pub data Holder : Type 0 where
  teacher_of member_of : String → Holder

pub record SessionRow : Type 0 where
  pub session_id : String
  pub holder : Holder
  pub revoked : Bool
  pub expires_at : ℕ

pub record RoomRow : Type 0 where
  pub room_id : String
  pub teacher_id : String

pub record MemberRow : Type 0 where
  pub room_id : String
  pub room_member_id : String
  pub actor_id : String

pub record Tables : Type 0 where
  pub rooms : List RoomRow
  pub members : List MemberRow
  pub sessions : List SessionRow
  pub deletion_jobs : List DeletionJob

abbrev pub teacher_may : RoomAction → Bool
teacher_may media_write = false
teacher_may agent_trigger = false
teacher_may _ = true

abbrev pub student_may : RoomAction → Bool
student_may export_request = false
student_may deletion_request = false
student_may _ = true

abbrev pub is_active_job : DeletionStatus → Bool
is_active_job completed = false
is_active_job _ = true

abbrev pub is_held_by_teacher : String → Holder → Bool
is_held_by_teacher id (teacher_of t) = t === id
is_held_by_teacher id (member_of m) = false

abbrev pub is_held_by_member : String → Holder → Bool
is_held_by_member id (teacher_of t) = false
is_held_by_member id (member_of m) = m === id

module _ (is_uuid : String → Bool) (now : ℕ) (tables : Tables) where
  unfoldable pub is_deleting : String → Bool
  is_deleting room_id =
      any (λ d. d.room_id === room_id && is_active_job d.status) tables.deletion_jobs

  -- A session row that is neither revoked nor over.
  abbrev pub is_current_session : String → (Holder → Bool) → Bool
  is_current_session id held =
      any (λ s. s.session_id === id && held s.holder && not s.revoked && ltb now s.expires_at)
        tables.sessions

  unfoldable pub owns : String → String → String → Bool
  owns room_id teacher_id session_id =
      any (λ r. r.room_id === room_id && r.teacher_id === teacher_id) tables.rooms
      && is_current_session session_id (is_held_by_teacher teacher_id)

  unfoldable pub belongs : String → String → String → String → Bool
  belongs room_id member_id actor_id session_id =
      any (λ m. m.room_id === room_id && m.room_member_id === member_id && m.actor_id === actor_id)
        tables.members
      && is_current_session session_id (is_held_by_member member_id)

  unfoldable pub authorize_principal :
      AuthSession → String → String → RoomAction → Decision RoomActorGrant
  authorize_principal (teacher id actor) session room action =
      if not (teacher_may action)
      then denied room_not_found
      else if owns room id session
      then granted (record { room_id = room; actor_id = id; role = as_teacher; action = action })
      else denied room_not_found
  authorize_principal (student room_id member actor) session room action =
      if not (student_may action)
      then denied room_not_found
      else if belongs room member actor session
      then granted (record { room_id = room; actor_id = actor; role = as_student; action = action })
      else denied room_not_found

  -- An absent or an empty session id is none.
  unfoldable pub authorize_room_action :
      Option AuthSession → Option String → String → RoomAction → Decision RoomActorGrant
  authorize_room_action none session room action = denied auth_required
  authorize_room_action (some p) none room action = denied auth_required
  authorize_room_action (some p) (some session) room action =
      if not (is_uuid session)
      then denied auth_required
      else if not (is_uuid room)
      then denied room_not_found
      else if is_deleting room
      then denied room_deletion_in_progress
      else authorize_principal p session room action

  abbrev pub has_job : String → String → Bool
  has_job job_id owner =
      any (λ d. d.deletion_job_id === job_id && d.owner_teacher_id === owner) tables.deletion_jobs

  -- The owner of the job.
  unfoldable pub authorize_deletion_status_read :
      Option AuthSession → Option String → String → Decision String
  authorize_deletion_status_read none session job = denied auth_required
  authorize_deletion_status_read (some (student room member actor)) session job =
      denied deletion_job_not_found
  authorize_deletion_status_read (some (teacher id actor)) none job = denied deletion_job_not_found
  authorize_deletion_status_read (some (teacher id actor)) (some session) job =
      if not (is_uuid session) || not (is_uuid job)
      then denied deletion_job_not_found
      else if has_job job id && is_current_session session (is_held_by_teacher id)
      then granted id
      else denied deletion_job_not_found
