-- ===== src/Realtime/Hub/Room.antt =====
-- room-hub.ts: the sockets of one room, their departures and the broadcasts. The set of a room is
-- the list of its peers in the order in which they joined; `handle` is a socket's identity.
pub mod Access
use learning_orbit.Prelude.{
  ℕ, String, Bool, true, false, Option, none, some, List, [], ◌∷◌, ◌++◌, ◌==◌, ◌===◌, ◌+◌,
  if◌then◌else◌, ◌&&◌, filterb, any, ◌||◌,
}
use learning_orbit.Wire.{
  RoomEvent, ServerFrame, event, projection, degraded, Degraded, ProjectionFrame, ProjectionKey,
  echo_student_approved, trace_student_bundle, DegradedScope,
}
use learning_orbit.Realtime.Signals.{remove_actor}
use learning_orbit.Realtime.Connection.{Connection, Meter, close, send, send_durable}
use learning_orbit.Realtime.Hub.{Role, student, teacher, Authorization, granted, denied}

pub record Peer : Type 0 where
  pub handle : ℕ
  pub connection : Connection

abbrev pub Room : Type 0
Room = List Peer

unfoldable pub join : Peer → Room → Room
join p room = room ++ p ∷ []

abbrev pub is_member : ℕ → Room → Bool
is_member h = any (λ p. p.handle == h)

abbrev pub same_actor : Connection → Peer → Bool
same_actor c p = p.connection.said_hello && p.connection.identity.actor_id === c.identity.actor_id

-- The tombstones of a departure, unless another live socket of the actor remains.
unfoldable pub farewell : ℕ → Connection → Room → List ServerFrame
farewell now c rest =
    if any (same_actor c) rest then [] else (remove_actor c.signals c.identity.actor_id now).1

-- `leave`: the room without the peer, and what is broadcast to those that remain.
unfoldable pub leave : ℕ → Peer → Room → Room × List ServerFrame
leave now p room =
    let rest = filterb (λ q. if q.handle == p.handle then false else true) room in
    (
      rest,
      if is_member p.handle room && p.connection.said_hello
          then farewell now p.connection rest
          else [],
    )

-- `sendDegraded`: a notice to one socket.
unfoldable pub send_degraded : Meter → Degraded → Connection → Connection
send_degraded meter d c = if c.said_hello then send meter (degraded d) c else c

abbrev pub is_role : Option Role → Role → Bool
is_role none r = true
is_role (some student) student = true
is_role (some teacher) teacher = true
is_role (some _) _ = false

-- One round of `broadcastEphemeral`.
abbrev reach_ephemeral : Meter → Option Role → ServerFrame → Authorization → Connection → Connection
reach_ephemeral meter only f (denied code) c = close code c
reach_ephemeral meter only f (granted role _) c = if is_role only role then send meter f c else c

unfoldable pub deliver_ephemeral :
    Meter → Option Role → ServerFrame → Authorization → Connection → Connection
deliver_ephemeral meter only f a c = if c.said_hello then reach_ephemeral meter only f a c else c

-- One round of `broadcastAuthorized`.
unfoldable pub deliver_authorized : Meter → ServerFrame → Authorization → Connection → Connection
deliver_authorized meter f (denied code) c = close code c
deliver_authorized meter (event e) (granted _ _) c = send_durable meter e c
deliver_authorized meter f (granted _ _) c = send meter f c

abbrev pub is_student_key : ProjectionKey → Bool
is_student_key echo_student_approved = true
is_student_key trace_student_bundle = true
is_student_key _ = false

-- `broadcastDegraded`: a notice that names a student projection is addressed to students only.
abbrev names_student : Option ProjectionKey → Bool
names_student none = false
names_student (some key) = is_student_key key

unfoldable pub degraded_audience : Degraded → Option Role
degraded_audience d = if names_student d.projection_key then some student else none

-- What the projection policy answers for one socket; `failed` is an exception.
pub data PolicyAnswer : Type 0 where
  allow : PolicyAnswer
  withhold : (close_code : Option ℕ) → PolicyAnswer
  failed : PolicyAnswer

abbrev pub analytics_unavailable : ℕ → Degraded
analytics_unavailable now = record {
  scope = DegradedScope.analytics;
  code = "ANALYTICS_UNAVAILABLE";
  updated_at = now;
  retry_after_ms = some 5_000;
  projection_key = none;
}

abbrev pub not_promoted : ℕ → ProjectionKey → Degraded
not_promoted now key = record {
  scope = DegradedScope.analytics;
  code = "STUDENT_ANALYTICS_NOT_PROMOTED";
  updated_at = now;
  retry_after_ms = none;
  projection_key = some key;
}

-- One round of `broadcastProjectionAuthorized` after the base authorization.
unfoldable pub apply_policy : Meter → ℕ → ProjectionFrame → PolicyAnswer → Connection → Connection
apply_policy meter now f allow c = send meter (projection f) c
apply_policy meter now f (withhold (some code)) c = close code c
apply_policy meter now f (withhold none) c =
    if is_student_key f.projection_key
    then send_degraded meter (not_promoted now f.projection_key) c
    else c
apply_policy meter now f failed c = send_degraded meter (analytics_unavailable now) c

abbrev reach_projection :
    Meter → ℕ → ProjectionFrame → Authorization → PolicyAnswer → Connection → Connection
reach_projection meter now f (denied code) p c = close code c
reach_projection meter now f (granted _ _) p c = apply_policy meter now f p c

-- A frame of another room reaches nobody.
unfoldable pub deliver_projection :
    Meter → ℕ → ProjectionFrame → Authorization → PolicyAnswer → Connection → Connection
deliver_projection meter now f a p c =
    if f.room_id === c.identity.room_id && c.said_hello
    then reach_projection meter now f a p c
    else c

-- The loop of each broadcast over a copy of the set: a socket that the round closes leaves at once.
-- The second part is the tombstones that its departures broadcast.
unfoldable pub broadcast_from : ℕ → (Peer → Connection) → Room → Room → Room × List ServerFrame
broadcast_from now deliver seen [] = (seen, [])
broadcast_from now deliver seen (p ∷ todo) =
    let p' = record p { connection = deliver p } in
    let left = (leave now p' (seen ++ p' ∷ todo)).1 in
    elim (deliver p).closed [
      | true ↦ let (rest, out) = broadcast_from now deliver seen todo in (rest, left ++ out)
      | false ↦ broadcast_from now deliver (seen ++ p' ∷ []) todo
    ]

unfoldable pub broadcast : ℕ → (Peer → Connection) → Room → Room × List ServerFrame
unfolding broadcast_from
broadcast now deliver room = broadcast_from now deliver [] room

-- `evictRoom`.
unfoldable pub evict : ℕ → ℕ → Room → Room × List ServerFrame
unfolding broadcast
evict now code room = broadcast now (λ p. close code p.connection) room
