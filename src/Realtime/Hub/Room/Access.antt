-- ===== src/Realtime/Hub/Room/Access.antt =====
-- Who stays in a room and who receives an analytics pointer.
use learning_orbit.Prelude.{
  ℕ, ◌≡◌, refl, ◌≢◌, String, true, false, none, some, inl, inr, List, [], ◌∷◌, ◌++◌, arith, All,
  All-append, append-nil, Bool-cases, if-cases, ◌===◌, ◌&&◌,
}
use learning_orbit.Wire.{ServerFrame, ProjectionFrame, projection, degraded, Degraded}
use learning_orbit.Realtime.Connection.{Connection, Meter, close, write}
use learning_orbit.Realtime.Connection.Silence.{send-cases}
use learning_orbit.Realtime.Hub.{Role, Authorization, granted, denied}
use learning_orbit.Realtime.Hub.Room.{
  Peer, Room, PolicyAnswer, allow, withhold, failed, send_degraded, apply_policy, reach_projection,
  deliver_projection, is_student_key, not_promoted, broadcast_from, broadcast, evict,
}

abbrev pub IsOpen : Peer → Type 0
IsOpen p = p.connection.closed ≡ false

broadcast_from-IsOpen :
    (now : ℕ) (deliver : Peer → Connection) (seen todo : Room)
    → All IsOpen seen
    → All IsOpen (broadcast_from now deliver seen todo).0
unfolding broadcast_from
broadcast_from-IsOpen now deliver seen [] h = h
broadcast_from-IsOpen now deliver seen (p ∷ todo) h = elim (Bool-cases (deliver p).closed) [
  | inl t ↦ rw (t, broadcast_from) (broadcast_from-IsOpen now deliver seen todo h)
  | inr t ↦
      rw (t, broadcast_from)
        (broadcast_from-IsOpen now deliver _ todo (All-append IsOpen seen _ h (t, tt)))
]

-- After any broadcast the set of a room holds open sockets only: whatever a round does to a socket,
-- one that it closes has left.
pub broadcast-IsOpen :
    (now : ℕ) (deliver : Peer → Connection) (room : Room)
    → All IsOpen (broadcast now deliver room).0
unfolding broadcast
broadcast-IsOpen now deliver room = broadcast_from-IsOpen now deliver [] room tt

close-closed : (code : ℕ) (c : Connection) → (close code c).closed ≡ true
unfolding close
close-closed code c = ground arith

evict_from :
    (now code : ℕ) (todo : Room)
    → (broadcast_from now (λ p. close code p.connection) [] todo).0 ≡ []
unfolding broadcast_from
evict_from now code [] = refl
evict_from now code (p ∷ todo) =
    rw (close-closed code p.connection, broadcast_from) (evict_from now code todo)

-- Evicting a room leaves no socket in it.
pub evict-empty : (now code : ℕ) (room : Room) → (evict now code room).0 ≡ []
unfolding evict broadcast
evict-empty now code room = evict_from now code room

-- The analytics pointers among the frames.
abbrev pub projections_of : List ServerFrame → List ProjectionFrame
projections_of [] = []
projections_of (projection f ∷ fs) = f ∷ projections_of fs
projections_of (_ ∷ fs) = projections_of fs

projections_of-append :
    (fs gs : List ServerFrame) → projections_of (fs ++ gs) ≡ projections_of fs ++ projections_of gs
projections_of-append [] gs = refl
projections_of-append (projection f ∷ fs) gs = rw (projections_of-append fs gs)
projections_of-append (_ ∷ fs) gs = projections_of-append fs gs

abbrev SamePointers : Connection → Connection → Type 0
SamePointers c d = projections_of d.sent ≡ projections_of c.sent

close-SamePointers : (code : ℕ) (c : Connection) → SamePointers c (close code c)
unfolding close
close-SamePointers code c = ground arith

send_degraded-SamePointers :
    (meter : Meter) (d : Degraded) (c : Connection) → SamePointers c (send_degraded meter d c)
unfolding send_degraded write
send_degraded-SamePointers meter d c = ground (
  arith,
  send-cases meter (degraded d) c,
  projections_of-append c.sent (degraded d ∷ []),
  append-nil (projections_of c.sent),
)

apply_policy-SamePointers :
    (meter : Meter) (now : ℕ) (f : ProjectionFrame) (p : PolicyAnswer) (c : Connection)
    → p ≢ allow
    → SamePointers c (apply_policy meter now f p c)
unfolding apply_policy
apply_policy-SamePointers meter now f allow c h = absurd (h refl)
apply_policy-SamePointers meter now f (withhold (some code)) c h = close-SamePointers code c
apply_policy-SamePointers meter now f (withhold none) c h =
    if-cases (SamePointers c) (is_student_key f.projection_key)
      (λ _. send_degraded-SamePointers meter (not_promoted now f.projection_key) c) (λ _. refl)
apply_policy-SamePointers meter now f failed c h = send_degraded-SamePointers meter _ c

reach_projection-SamePointers :
    (meter : Meter) (now : ℕ) (f : ProjectionFrame) (a : Authorization) (p : PolicyAnswer)
    (c : Connection)
    → ¬ (((role : Role) × (actor : String) × (a ≡ granted role actor)) × (p ≡ allow))
    → SamePointers c (reach_projection meter now f a p c)
reach_projection-SamePointers meter now f (denied code) p c h = close-SamePointers code c
reach_projection-SamePointers meter now f (granted role actor) p c h =
    apply_policy-SamePointers meter now f p c (λ e. h ((role, actor, refl), e))

-- No analytics pointer leaks: unless the session is still authorized, the policy allows this very
-- projection, the pointer is of the connection's room and the hello has been said, the pointers that
-- a socket has been sent are those from before, whatever else the round does.
pub deliver_projection-no_leak :
    (meter : Meter) (now : ℕ) (f : ProjectionFrame) (a : Authorization) (p : PolicyAnswer)
    (c : Connection)
    → ¬ (
        ((role : Role) × (actor : String) × (a ≡ granted role actor))
        × (p ≡ allow)
        × (f.room_id === c.identity.room_id && c.said_hello ≡ true))
    → projections_of (deliver_projection meter now f a p c).sent ≡ projections_of c.sent
unfolding deliver_projection
deliver_projection-no_leak meter now f a p c h =
    if-cases (SamePointers c) (f.room_id === c.identity.room_id && c.said_hello)
      (λ t. reach_projection-SamePointers meter now f a p c (λ g. h (g.0, g.1, t))) (λ _. refl)
