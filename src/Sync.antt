-- ===== src/Sync.antt =====
-- The two ends of a resume together: what RoomHub.resume writes (apps/server) is what
-- RoomSocket.onFrame reads (apps/web).
use learning_orbit.Prelude.{
  ℕ, suc, ◌≤◌, ◌<◌, ◌≡◌, refl, ap, sym, ◌∙◌, subst, String, true, false, Option, none, some, ◌⊎◌,
  List, [], ◌∷◌, ◌++◌, arith, length, append-nil, append_assoc, max_safe_integer, ltb, ===_iff,
}
use learning_orbit.Wire.{RoomEvent, ServerFrame, event, resume_complete, RoomCommand}
use learning_orbit.Realtime.Backpressure.{safe, enforce_backpressure}
use learning_orbit.Realtime.Connection.{Connection, Meter, write, send, open_gate, finish_replay}
use learning_orbit.Realtime.Hub.{
  Role, granted, Turn, OutboxRow, interfere, replay_envelope, replay_authorized, replay_row, replay,
  resume_rows, with_turns,
}
use learning_orbit.Client.Socket.{RoomSocket, SocketLike, on_frames, on_frame, accept_event}
use learning_orbit.Client.Socket.Delivery.{on_frame-SameCursor, accept_event-next}
use learning_orbit.Client.Socket.Pending.{
  PendingIsValid, IsHealthy, resent, resume_done-resends, on_frame-PendingIsValid,
}

-- The socket's backlog never reaches the close threshold.
abbrev pub HasRoom : Meter → Type 0
HasRoom meter =
    (fs : List ServerFrame)
    → (meter fs ≡ none) ⊎ ((n : ℕ) × (meter fs ≡ some (safe n)) × (n < 1_000_000))

-- Each row is reauthorized, and nobody interferes.
abbrev pub IsQuiet : (ℕ → Turn) → Type 0
IsQuiet turns =
    (seq : ℕ)
    → ((role : Role) × (actor : String) × ((turns seq).authorization ≡ granted role actor))
      × ((turns seq).meanwhile ≡ [])

-- The rows are these events of the room, consecutive from the one after `lo` up to `hi`.
abbrev pub Stored :
    {Raw : Type 0}
    → (Raw → Option RoomEvent)
    → String
    → ℕ
    → List (OutboxRow Raw)
    → List RoomEvent
    → ℕ
    → Type 0
Stored parse room lo [] [] hi = lo ≡ hi
Stored parse room lo (row ∷ rows) (e ∷ es) hi =
    (row.room_seq ≡ suc lo)
    × (parse row.envelope ≡ some e)
    × (e.room_seq ≡ suc lo)
    × (suc lo ≤ max_safe_integer)
    × (e.room_id ≡ room)
    × Stored parse room (suc lo) rows es hi
Stored parse room lo _ _ hi = ⊥

-- The frames of a replay that goes through.
abbrev pub frames_of : List RoomEvent → ℕ → List ServerFrame
frames_of [] hi = resume_complete hi ∷ []
frames_of (e ∷ es) hi = event e ∷ frames_of es hi

module _ (meter : Meter) (room_left : HasRoom meter) where
  send_roomy : (f : ServerFrame) (c : Connection) → c.closed ≡ false → send meter f c ≡ write f c
  unfolding send enforce_backpressure write
  send_roomy f c h = ground (arith, room_left c.sent)

  finish_replay_idle :
      (through : ℕ) (c : Connection)
      → c.closed ≡ false
      → c.live_buffer ≡ []
      → finish_replay meter through c ≡ open_gate through c
  unfolding finish_replay
  finish_replay_idle through c o b = ground arith

  module _ {Raw : Type 0} (parse : Raw → Option RoomEvent) where
    replay_row-quiet :
        (from lo : ℕ) (row : OutboxRow Raw) (turn : Turn) (e : RoomEvent) (c : Connection)
        (role : Role) (actor : String)
        → turn.authorization ≡ granted role actor
        → turn.meanwhile ≡ []
        → row.room_seq ≡ suc lo
        → parse row.envelope ≡ some e
        → e.room_seq ≡ suc lo
        → suc lo ≤ max_safe_integer
        → c.closed ≡ false
        → replay_row meter parse from lo row turn c ≡ (write (event e) c, some e.room_seq)
    unfolding replay_row replay_authorized replay_envelope interfere
    replay_row-quiet from lo row turn e c role actor a m s p q h o =
        ground (arith, send_roomy (event e) c o)

    -- The replay writes the frames and nothing else, and leaves the connection open.
    replay-quiet :
        (turns : ℕ → Turn) (from lo hi : ℕ) (rows : List (OutboxRow Raw)) (es : List RoomEvent)
        (c : Connection) (room : String)
        → IsQuiet turns
        → Stored parse room lo rows es hi
        → c.closed ≡ false
        → c.live_buffer ≡ []
        → let d = replay meter parse from lo (with_turns meter parse turns rows) c in
          (d.sent ≡ c.sent ++ frames_of es hi) × (d.closed ≡ false) × (d.replaying ≡ false)
    unfolding replay write open_gate
    replay-quiet turns from lo hi [] [] c room q s o b =
        let f = resume_complete lo in
        rw (send_roomy f c o, finish_replay_idle lo (write f c) o b)
          (ap (λ n. c.sent ++ resume_complete n ∷ []) s, o, refl)
    replay-quiet turns from lo hi [] (e ∷ es) c room q s o b = elim s [ ]
    replay-quiet turns from lo hi (row ∷ rows) [] c room q s o b = elim s [ ]
    replay-quiet turns from lo hi (row ∷ rows) (e ∷ es) c room q (rs, p, es', safe', r, s) o b =
        let ((role, actor, granted'), none') = q row.room_seq in
        let step =
          replay_row-quiet from lo row (turns row.room_seq) e c role actor granted' none' rs p es'
            safe' o in
        let rest : Stored parse room e.room_seq rows es hi = rw es' s in
        let (sent, open', gate) =
          replay-quiet turns from e.room_seq hi rows es (write (event e) c) room q rest o b in
        rw step (sent ∙ append_assoc c.sent (event e ∷ []) (frames_of es hi), open', gate)

-- The client's view of the same events.
abbrev Upcoming : String → ℕ → List RoomEvent → ℕ → Type 0
Upcoming room lo [] hi = lo ≡ hi
Upcoming room lo (e ∷ es) hi =
    (e.room_seq ≡ suc lo)
    × (suc lo ≤ max_safe_integer)
    × (e.room_id ≡ room)
    × Upcoming room (suc lo) es hi

Upcoming-Stored :
    {Raw : Type 0} (parse : Raw → Option RoomEvent) (room : String) (lo hi : ℕ)
    (rows : List (OutboxRow Raw)) (es : List RoomEvent)
    → Stored parse room lo rows es hi
    → Upcoming room lo es hi
Upcoming-Stored parse room lo hi [] [] s = s
Upcoming-Stored parse room lo hi [] (e ∷ es) s = elim s [ ]
Upcoming-Stored parse room lo hi (row ∷ rows) [] s = elim s [ ]
Upcoming-Stored parse room lo hi (row ∷ rows) (e ∷ es) (rs, p, seq, safe', r, s) =
    (seq, safe', r, Upcoming-Stored parse room (suc lo) hi rows es s)

module _ (encode : RoomCommand → Option String) where
  -- What a client has after a resume that went through.
  pub record CaughtUp (sock : SocketLike) (s : RoomSocket) (es : List RoomEvent) (hi : ℕ)
      (t : RoomSocket) : Type 0 where
    pub delivers : t.delivered ≡ s.delivered ++ es
    pub cursor : t.last_room_seq ≡ hi
    pub ready : t.resume_ready ≡ true
    pub resends : t.written ≡ s.written ++ resent sock.id s.pending
    pub queued : t.pending ≡ s.pending

  catch_up :
      (sock : SocketLike) (s : RoomSocket) (es : List RoomEvent) (hi : ℕ)
      → IsHealthy sock
      → PendingIsValid encode s
      → Upcoming s.room_id s.last_room_seq es hi
      → CaughtUp sock s es hi (on_frames encode sock (frames_of es hi) s)
  unfolding on_frames on_frame
  catch_up sock s [] hi h v u =
      let done = resume_done-resends encode sock s h v in
      let kept = on_frame-SameCursor encode sock (resume_complete s.last_room_seq) s refl in
      subst (λ n. CaughtUp sock s [] n (on_frame encode sock (resume_complete n) s)) u
        (record {
          delivers = kept.delivered_same ∙ sym (append-nil s.delivered);
          cursor = kept.last_same;
          ready = done.2;
          resends = done.0;
          queued = done.1;
        })
  catch_up sock s (e ∷ es) hi h v (seq, fits, same, u) =
      let s' = record s {
        last_room_seq = suc s.last_room_seq;
        stored = some (suc s.last_room_seq);
        delivered = s.delivered ++ e ∷ [];
      } in
      let taken : accept_event e s ≡ s' =
        accept_event-next encode e s (rw seq fits) (ground (arith, ===_iff e.room_id s.room_id)) in
      let v' =
        subst (PendingIsValid encode) taken (on_frame-PendingIsValid encode sock (event e) s v) in
      let r = catch_up sock s' es hi h v' u in
      subst (λ x. CaughtUp sock s (e ∷ es) hi (on_frames encode sock (frames_of es hi) x))
        (sym taken)
        (record {
          delivers = r.delivers ∙ append_assoc s.delivered (e ∷ []) es;
          cursor = r.cursor;
          ready = r.ready;
          resends = r.resends;
          queued = r.queued;
        })

-- A reconnect from end to end. The client says hello with its cursor; the room's outbox holds the
-- events from there on without a gap, 500 at most; the session stays authorized, the socket keeps
-- room and takes every frame, and no other broadcast interferes. Then the server's resume writes
-- frames from which the client delivers exactly the missing events in order, ends ready at the last
-- sequence, and sends each pending command once more, in order.
pub resume-catches_up :
    {Raw : Type 0} (encode : RoomCommand → Option String) (parse : Raw → Option RoomEvent)
    (meter : Meter) (turns : ℕ → Turn) (rows : List (OutboxRow Raw)) (es : List RoomEvent) (hi : ℕ)
    (sock : SocketLike) (c : Connection) (s : RoomSocket)
    → HasRoom meter
    → IsQuiet turns
    → IsHealthy sock
    → PendingIsValid encode s
    → Stored parse s.room_id s.last_room_seq rows es hi
    → length rows ≤ 500
    → c.resume_from ≡ s.last_room_seq
    → c.closed ≡ false
    → c.live_buffer ≡ []
    → let d = resume_rows meter parse turns rows c in
      (d.sent ≡ c.sent ++ frames_of es hi)
      × (d.closed ≡ false)
      × (d.replaying ≡ false)
      × CaughtUp encode sock s es hi (on_frames encode sock (frames_of es hi) s)
unfolding resume_rows
resume-catches_up encode parse meter turns rows es hi sock c s room q h v st small from o b =
    let stored = subst (λ n. Stored parse s.room_id n rows es hi) (sym from) st in
    let (sent, open', gate) =
      replay-quiet meter room parse turns c.resume_from c.resume_from hi rows es c s.room_id q
        stored o b in
    let few : ltb 500 (length rows) ≡ false = ground arith in
    let up = Upcoming-Stored parse s.room_id s.last_room_seq hi rows es st in
    rw few (sent, open', gate, catch_up encode sock s es hi h v up)
