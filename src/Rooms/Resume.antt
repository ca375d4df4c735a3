-- ===== src/Rooms/Resume.antt =====
-- The services of apps/server/src/modules/rooms and a resume of modules/realtime/room-hub.ts together:
-- the outbox that the commands write is the one that the hub reads.
use learning_orbit.Prelude.{
  ℕ, suc, ◌+◌, ◌≤◌, String, Bool, false, ◌&&◌, Option, some, List, [], ◌∷◌, ◌++◌, map, ◌≡◌, refl,
  ap, ◌∙◌, subst, length, take, filterb, sort_by, ltb, ◌===◌, ===_iff, zero, arith, if-cases,
}
use learning_orbit.Wire.{RoomEvent, EventBody, RoomCommand}
use learning_orbit.Wire
use learning_orbit.Realtime.Hub.{OutboxRow, Turn, select_after, resume}
use learning_orbit.Realtime.Connection.{Connection, Meter}
use learning_orbit.Client.Socket.{RoomSocket, SocketLike, on_frames}
use learning_orbit.Client.Socket.Pending.{PendingIsValid, IsHealthy}
use learning_orbit.Sync.{HasRoom, IsQuiet, Stored, frames_of, CaughtUp, resume-catches_up}
use learning_orbit.Rooms.Store.{
  Body, room_opened, room_paused, room_resumed, room_closed, message_added, message_revised,
  message_retracted, other, Event, OutboxEvent, Room,
}
use learning_orbit.Rooms.Ledger.{Environment, outbox_of}
use learning_orbit.Rooms.Ledger.Mirror.{IsLedger, Numbered}

-- The envelope on the wire, which the client's parser reads.
abbrev pub wire_body : Body → EventBody
wire_body (room_opened s c) = Wire.room_opened
wire_body (room_paused t) = Wire.room_paused
wire_body (room_resumed t) = Wire.room_resumed
wire_body (room_closed t) = Wire.room_closed
wire_body (message_added p) = Wire.message_added p
wire_body (message_revised p) = Wire.message_revised p
wire_body (message_retracted id) = Wire.message_retracted id
wire_body (other t id p) = Wire.other t

abbrev pub wire : Event → RoomEvent
wire e = record {
  event_id = e.event_id;
  room_id = e.room_id;
  room_seq = e.room_seq;
  body = wire_body e.body;
  actor_id = e.actor_id;
  actor_kind = e.actor_kind;
  actor_role = e.actor_role;
  revision = e.revision;
  operation = e.operation;
  event_time = e.event_time;
  causation_id = e.causation_id;
  correlation_id = e.correlation_id;
}

-- The columns of the outbox that the hub reads.
abbrev pub hub_row : OutboxEvent → OutboxRow Event
hub_row o = record { room_id = o.room_id; room_seq = o.room_seq; envelope = o.envelope }

abbrev pub rows_of : List Event → List (OutboxRow Event)
rows_of = map (λ (e : Event). hub_row (outbox_of e))

-- The events that a client misses whose cursor is `k`.
abbrev pub missing : ℕ → List Event → List Event
missing k = filterb (λ (e : Event). ltb k e.room_seq)

abbrev is_kept : String → ℕ → OutboxRow Event → Bool
is_kept room k row = row.room_id === room && ltb k row.room_seq

filterb-rows_of :
    (room : String) (k lo : ℕ) (es : List Event)
    → Numbered room lo es
    → filterb (is_kept room k) (rows_of es) ≡ rows_of (missing k es)
filterb-rows_of room k lo [] n = refl
filterb-rows_of room k lo (e ∷ es) (s, b, r, n) =
    ground (arith, filterb-rows_of room k (suc lo) es n, ===_iff e.room_id room, r)

-- All later events are missing, in their order.
missing_all :
    (room : String) (k lo : ℕ) (es : List Event) → Numbered room lo es → k ≤ lo → missing k es ≡ es
missing_all room k lo [] n h = refl
missing_all room k lo (e ∷ es) (s, b, r, n) h =
    ground (arith, missing_all room k (suc lo) es n (omega arith), s)

pub missing-Numbered :
    (room : String) (k lo : ℕ) (es : List Event)
    → Numbered room lo es
    → lo ≤ k
    → Numbered room k (missing k es)
missing-Numbered room k lo [] n h = tt
missing-Numbered room k lo (e ∷ es) (s, b, r, n) h =
    if-cases (Numbered room k) (ltb k e.room_seq)
      (λ t.
        let same : lo ≡ k = ground (arith, t, s) in
        let all = missing_all room k (suc lo) es n (omega (arith, same)) in
        (
          s ∙ ap suc same,
          omega (arith, b, same),
          r,
          rw all (subst (λ i. Numbered room (suc i) es) same n),
        ))
      (λ t. missing-Numbered room k (suc lo) es n (ground (arith, t, s)))

-- Numbered rows stand in their order.
sort_by-rows_of :
    (room : String) (lo : ℕ) (es : List Event)
    → Numbered room lo es
    → sort_by (λ (x : OutboxRow Event). x.room_seq) (rows_of es) ≡ rows_of es
sort_by-rows_of room lo [] n = refl
sort_by-rows_of room lo (e ∷ []) n = refl
sort_by-rows_of room lo (e ∷ f ∷ es) (s, b, r, n) =
    rw (sort_by-rows_of room (suc lo) (f ∷ es) n) (ground (arith, s, n.0))

take-all : {A : Type 0} (n : ℕ) (xs : List A) → length xs ≤ n → take n xs ≡ xs
take-all zero [] h = refl
take-all (suc n) [] h = refl
take-all zero (x ∷ xs) h = ground arith
take-all (suc n) (x ∷ xs) h = ap (λ l. x ∷ l) (take-all n xs (omega arith))

length-map : {A B : Type 0} (f : A → B) (xs : List A) → length (map f xs) ≡ length xs
length-map f [] = refl
length-map f (x ∷ xs) = ap suc (length-map f xs)

-- Numbered events are stored without a gap.
Stored-rows_of :
    (room : String) (lo : ℕ) (es : List Event)
    → Numbered room lo es
    → Stored (λ e. some (wire e)) room lo (rows_of es) (map wire es) (lo + length es)
Stored-rows_of room lo [] n = omega arith
Stored-rows_of room lo (e ∷ es) (s, b, r, n) = (
  s,
  refl,
  s,
  b,
  r,
  subst (Stored (λ e. some (wire e)) room (suc lo) (rows_of es) (map wire es)) (omega arith)
      (Stored-rows_of room (suc lo) es n),
)

length-missing :
    (room : String) (k lo : ℕ) (es : List Event)
    → Numbered room lo es
    → lo ≤ k
    → k ≤ lo + length es
    → k + length (missing k es) ≡ lo + length es
length-missing room k lo [] n h g = omega arith
length-missing room k lo (e ∷ es) (s, b, r, n) h g =
    if-cases (λ (l : List Event). k + length l ≡ lo + length (e ∷ es)) (ltb k e.room_seq)
      (λ t.
        let all = missing_all room k (suc lo) es n (ground (arith, t, s)) in
        rw all (ground (arith, t, s)))
      (λ t.
        let rest = length-missing room k (suc lo) es n (ground (arith, t, s)) (omega arith) in
        omega (arith, rest))

-- The SELECT of a resume finds the missing events.
select_after-missing :
    (room : String) (k : ℕ) (es : List Event)
    → Numbered room 0 es
    → length (missing k es) ≤ 500
    → select_after room k (rows_of es) ≡ rows_of (missing k es)
unfolding select_after
select_after-missing room k es n h =
    let few : length (rows_of (missing k es)) ≤ 501 =
      omega (arith, h, length-map (λ e. hub_row (outbox_of e)) (missing k es)) in
    rw
      (
        filterb-rows_of room k 0 es n,
        sort_by-rows_of room k (missing k es) (missing-Numbered room k 0 es n (omega arith)),
      )
      (take-all 501 (rows_of (missing k es)) few)

map-map :
    {A B C : Type 0} (g : B → C) (f : A → B) (xs : List A)
    → map g (map f xs) ≡ map (λ x. g (f x)) xs
map-map g f [] = refl
map-map g f (x ∷ xs) = ap (λ l. g (f x) ∷ l) (map-map g f xs)

-- From the commands to the client. The room's ledger is one that the commands keep; a client of that
-- room comes back with a cursor within it, 500 events behind at most; the session stays authorized,
-- the socket keeps room and takes every frame, and no broadcast interferes. Then the frames that the
-- resume writes from the room's outbox make the client deliver exactly the stored events after its
-- cursor, in order, and leave it ready at the last sequence of the room.
pub resume-delivers_ledger :
    (env : Environment) (encode : RoomCommand → Option String) (meter : Meter) (turns : ℕ → Turn)
    (r : Room) (sock : SocketLike) (c : Connection) (s : RoomSocket)
    → IsLedger env r
    → HasRoom meter
    → IsQuiet turns
    → IsHealthy sock
    → PendingIsValid encode s
    → s.room_id ≡ r.row.room_id
    → c.identity.room_id ≡ r.row.room_id
    → c.resume_from ≡ s.last_room_seq
    → s.last_room_seq ≤ length r.events
    → length (missing s.last_room_seq r.events) ≤ 500
    → c.closed ≡ false
    → c.live_buffer ≡ []
    → let es = map wire (missing s.last_room_seq r.events) in
      let d = resume meter (λ e. some (wire e)) turns (map hub_row r.outbox) c in
      (d.sent ≡ c.sent ++ frames_of es (length r.events))
      × (d.closed ≡ false)
      × (d.replaying ≡ false)
      × CaughtUp encode sock s es
          (length r.events)
          (on_frames encode sock (frames_of es (length r.events)) s)
unfolding resume
resume-delivers_ledger env encode meter turns r sock c s i room q h v sr cr from within few o b =
    let k = s.last_room_seq in
    let table : map hub_row r.outbox ≡ rows_of r.events =
      ap (map hub_row) i.mirrored ∙ map-map hub_row outbox_of r.events in
    let select : select_after c.identity.room_id c.resume_from (map hub_row r.outbox)
        ≡ rows_of (missing k r.events) =
      rw (table, cr, from) (select_after-missing r.row.room_id k r.events i.numbered few) in
    let later = missing-Numbered r.row.room_id k 0 r.events i.numbered (omega arith) in
    let stored : Stored (λ e. some (wire e)) s.room_id k (rows_of (missing k r.events))
        (map wire (missing k r.events)) (length r.events) =
      rw sr (
        subst
          (Stored (λ e. some (wire e)) r.row.room_id k (rows_of (missing k r.events))
            (map wire (missing k r.events)))
          (omega (
            arith,
            length-missing r.row.room_id k 0 r.events i.numbered (omega arith)
                (omega (arith, within)),
          ))
          (Stored-rows_of r.row.room_id k (missing k r.events) later)) in
    rw select (
      resume-catches_up encode (λ e. some (wire e)) meter turns (rows_of (missing k r.events))
        (map wire (missing k r.events)) (length r.events) sock c s room q h v stored
        (omega (arith, few, length-map (λ e. hub_row (outbox_of e)) (missing k r.events))) from o b)
