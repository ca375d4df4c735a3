-- ===== src/Client/Socket/Delivery.antt =====
-- Which events reach the sink: each of the room exactly once, in order.
use learning_orbit.Prelude.{
  ℕ, suc, ◌≤◌, ◌≡◌, refl, sym, ◌∙◌, String, true, false, Option, none, some, inl, inr, List, [],
  ◌∷◌, ◌++◌, arith, ◌==◌, ◌===◌, ◌&&◌, if◌then◌else◌, max_safe_integer, ===_iff, All, append-nil,
  put, append_assoc, get, if-cases, Bool-cases, Option-cases,
}
use learning_orbit.Wire.{RoomEvent, ServerFrame, event, events_of, RoomCommand, resume_complete}
use learning_orbit.Realtime.Connection.Order.{Contiguous}
use learning_orbit.Client.Socket.{
  RoomSocket, SocketLike, connection_change, notify, close_socket, schedule_reconnect, closed_by,
  on_close, transmit, send_encoded, send, flush_pending, accept_event, resume_done, on_frame,
  on_frames,
}

-- What a step that is no delivery leaves alone.
pub record SameCursor (s t : RoomSocket) : Type 0 where
  pub delivered_same : t.delivered ≡ s.delivered
  pub last_same : t.last_room_seq ≡ s.last_room_seq
  pub stored_same : t.stored ≡ s.stored
  pub room_same : t.room_id ≡ s.room_id

pub SameCursor-trans : {s t u : RoomSocket} → SameCursor s t → SameCursor t u → SameCursor s u
SameCursor-trans p q = record {
  delivered_same = q.delivered_same ∙ p.delivered_same;
  last_same = q.last_same ∙ p.last_same;
  stored_same = q.stored_same ∙ p.stored_same;
  room_same = q.room_same ∙ p.room_same;
}

schedule_reconnect-SameCursor : (s : RoomSocket) → SameCursor s (schedule_reconnect s)
unfolding schedule_reconnect
schedule_reconnect-SameCursor s = ground arith

closed_by-SameCursor : (code : ℕ) (s : RoomSocket) → SameCursor s (closed_by code s)
unfolding closed_by
closed_by-SameCursor code s = ground (arith, schedule_reconnect-SameCursor s)

pub on_close-SameCursor : (code : ℕ) (s : RoomSocket) → SameCursor s (on_close code s)
unfolding on_close
on_close-SameCursor code s =
    let t = notify (connection_change false) (record s { socket = none; resume_ready = false }) in
    ground (arith, closed_by-SameCursor code t)

transmit-SameCursor :
    (sock : SocketLike) (c : RoomCommand) (s : RoomSocket) → SameCursor s (transmit sock c s)
unfolding transmit
transmit-SameCursor sock c s = ground (arith, on_close-SameCursor 0 (close_socket sock.id 1011 s))

module _ (encode : RoomCommand → Option String) where
  send_encoded-SameCursor :
      (sock : SocketLike) (c : RoomCommand) (text : String) (found : Option RoomCommand)
      (s : RoomSocket)
      → SameCursor s (send_encoded encode sock c text found s).0
  unfolding send_encoded
  send_encoded-SameCursor sock c text (some e) s = ground (arith, transmit-SameCursor sock e s)
  send_encoded-SameCursor sock c text none s =
      ground
        (arith, transmit-SameCursor sock c (record s { pending = put c.command_id c s.pending }))

  pub send-SameCursor :
      (sock : SocketLike) (c : RoomCommand) (s : RoomSocket) → SameCursor s (send encode sock c s).0
  unfolding send
  send-SameCursor sock c s = elim (Option-cases (encode c)) [
    | inl e ↦ rw (e, send) (ground arith)
    | inr (text, e) ↦
        rw (e, send) (send_encoded-SameCursor sock c text (get c.command_id s.pending) s)
  ]

  pub flush_pending-SameCursor :
      (sock : SocketLike) (cs : List (String × RoomCommand)) (s : RoomSocket)
      → SameCursor s (flush_pending encode sock cs s)
  unfolding flush_pending
  flush_pending-SameCursor sock [] s = ground arith
  flush_pending-SameCursor sock ((_, c) ∷ cs) s =
      SameCursor-trans (send-SameCursor sock c s) (flush_pending-SameCursor sock cs _)

  resume_done-SameCursor :
      (sock : SocketLike) (through : ℕ) (s : RoomSocket)
      → SameCursor s (resume_done encode sock through s)
  unfolding resume_done
  resume_done-SameCursor sock through s = ground (
    arith,
    flush_pending-SameCursor sock s.pending
        (notify (connection_change true) (record s { retry_index = 0; resume_ready = true })),
  )

  -- A frame that is no durable event never moves the cursor; an acknowledgement in particular.
  pub on_frame-SameCursor :
      (sock : SocketLike) (f : ServerFrame) (s : RoomSocket)
      → events_of (f ∷ []) ≡ []
      → SameCursor s (on_frame encode sock f s)
  unfolding on_frame
  on_frame-SameCursor sock (event e) s h = cc
  on_frame-SameCursor sock (resume_complete through) s h = resume_done-SameCursor sock through s
  on_frame-SameCursor sock f s h = ground arith

-- The specification: of the events that arrive, those of the room that come next, in turn.
unfoldable pub next_events : String → ℕ → List RoomEvent → List RoomEvent
next_events room last [] = []
next_events room last (e ∷ es) =
    let taken = e ∷ next_events room (suc last) es in
    let skipped = next_events room last es in
    if e.room_id === room && e.room_seq == suc last then taken else skipped

abbrev pub IsSafeSeq : RoomEvent → Type 0
IsSafeSeq e = e.room_seq ≤ max_safe_integer

next_events-Contiguous :
    (room : String) (last : ℕ) (es : List RoomEvent)
    → (hi : ℕ) × Contiguous last (next_events room last es) hi
unfolding next_events
next_events-Contiguous room last [] = (last, refl)
next_events-Contiguous room last (e ∷ es) =
    if-cases (λ (xs : List RoomEvent). (hi : ℕ) × Contiguous last xs hi)
      (e.room_id === room && e.room_seq == suc last)
      (λ t.
        let same : e.room_seq ≡ suc last = ground arith in
        let (hi, c) = next_events-Contiguous room (suc last) es in (hi, (same, rw same c)))
      (λ _. next_events-Contiguous room last es)

module _ (encode : RoomCommand → Option String) where
  -- The state after some frames with these events, as far as deliveries go.
  pub record Delivers (s : RoomSocket) (es : List RoomEvent) (t : RoomSocket) : Type 0 where
    pub delivers : t.delivered ≡ s.delivered ++ next_events s.room_id s.last_room_seq es
    pub follows :
        Contiguous s.last_room_seq (next_events s.room_id s.last_room_seq es) t.last_room_seq
    pub room : t.room_id ≡ s.room_id

  pub accept_event-next :
      (e : RoomEvent) (s : RoomSocket)
      → IsSafeSeq e
      → e.room_id === s.room_id && e.room_seq == suc s.last_room_seq ≡ true
      → accept_event e s ≡ record s {
        last_room_seq = suc s.last_room_seq;
        stored = some (suc s.last_room_seq);
        delivered = s.delivered ++ e ∷ [];
      }
  unfolding accept_event
  accept_event-next e s h t = ground arith

  accept_event-SameCursor :
      (e : RoomEvent) (s : RoomSocket)
      → e.room_id === s.room_id && e.room_seq == suc s.last_room_seq ≡ false
      → SameCursor s (accept_event e s)
  unfolding accept_event
  accept_event-SameCursor e s t = ground arith

  Delivers-same :
      (s u t : RoomSocket) (es : List RoomEvent)
      → SameCursor s u
      → Delivers u es t
      → Delivers s es t
  Delivers-same s u t es k d = record {
    delivers = rw (← k.delivered_same, ← k.room_same, ← k.last_same) d.delivers;
    follows = rw (← k.room_same, ← k.last_same) d.follows;
    room = d.room ∙ k.room_same;
  }

  Delivers-next :
      (s t : RoomSocket) (e : RoomEvent) (es : List RoomEvent)
      → IsSafeSeq e
      → e.room_id === s.room_id && e.room_seq == suc s.last_room_seq ≡ true
      → Delivers (accept_event e s) es t
      → Delivers s (e ∷ es) t
  unfolding next_events
  Delivers-next s t e es h k d =
      let d' = rw (accept_event-next e s h k) at d in
      let same : e.room_seq ≡ suc s.last_room_seq = ground arith in
      record {
        delivers = rw k (d'.delivers ∙ append_assoc s.delivered (e ∷ []) _);
        follows = rw k (same, rw same d'.follows);
        room = d'.room;
      }

  Delivers-skip :
      (s t : RoomSocket) (e : RoomEvent) (es : List RoomEvent)
      → e.room_id === s.room_id && e.room_seq == suc s.last_room_seq ≡ false
      → Delivers (accept_event e s) es t
      → Delivers s (e ∷ es) t
  unfolding next_events
  Delivers-skip s t e es k d =
      let d' = Delivers-same s _ t es (accept_event-SameCursor e s k) d in
      record { delivers = rw k d'.delivers; follows = rw k d'.follows; room = d'.room }

  pub on_frames-Delivers :
      (sock : SocketLike) (fs : List ServerFrame) (s : RoomSocket)
      → All IsSafeSeq (events_of fs)
      → Delivers s (events_of fs) (on_frames encode sock fs s)
  unfolding on_frames on_frame next_events
  on_frames-Delivers sock [] s h = record {
    delivers = sym (append-nil s.delivered);
    follows = refl;
    room = refl;
  }
  on_frames-Delivers sock (event e ∷ fs) s (h, hs) =
      let rest = on_frames-Delivers sock fs (on_frame encode sock (event e) s) hs in
      elim (Bool-cases (e.room_id === s.room_id && e.room_seq == suc s.last_room_seq)) [
        | inl t ↦ Delivers-next s _ e (events_of fs) h t rest
        | inr t ↦ Delivers-skip s _ e (events_of fs) t rest
      ]
  on_frames-Delivers sock (f ∷ fs) s h =
      Delivers-same s _ _ (events_of fs) (on_frame-SameCursor encode sock f s refl)
        (on_frames-Delivers sock fs (on_frame encode sock f s) h)

  -- Whatever frames arrive, repeated, out of order or of another room, the sink is given exactly the
  -- events of the room that come next, in turn: consecutive room sequences from the cursor to the
  -- new cursor, none of them twice. Sequences are safe integers.
  pub on_frames-exactly_once :
      (sock : SocketLike) (fs : List ServerFrame) (s : RoomSocket)
      → All IsSafeSeq (events_of fs)
      → let t = on_frames encode sock fs s in
        let new = next_events s.room_id s.last_room_seq (events_of fs) in
        (t.delivered ≡ s.delivered ++ new) × Contiguous s.last_room_seq new t.last_room_seq
  on_frames-exactly_once sock fs s h =
      let d = on_frames-Delivers sock fs s h in (d.delivers, d.follows)

pub next_events-AreOwn :
    (room : String) (last : ℕ) (es : List RoomEvent)
    → All (λ e. e.room_id ≡ room) (next_events room last es)
unfolding next_events
next_events-AreOwn room last [] = tt
next_events-AreOwn room last (e ∷ es) =
    if-cases (λ (xs : List RoomEvent). All (λ d. d.room_id ≡ room) xs)
      (e.room_id === room && e.room_seq == suc last)
      (λ t. (ground (arith, t, ===_iff e.room_id room), next_events-AreOwn room (suc last) es))
      (λ _. next_events-AreOwn room last es)

next_events-All :
    (room : String) (lo hi : ℕ) (es : List RoomEvent)
    → Contiguous lo es hi
    → All (λ e. e.room_id ≡ room) es
    → next_events room lo es ≡ es
unfolding next_events
next_events-All room lo hi [] c r = refl
next_events-All room lo hi (e ∷ es) (same, c) (r, rs) =
    let rest = next_events-All room (suc lo) hi es (rw (← same) c) rs in
    ground (arith, ===_iff e.room_id room, rest)

Contiguous-end :
    (lo a b : ℕ) (es : List RoomEvent) → Contiguous lo es a → Contiguous lo es b → a ≡ b
Contiguous-end lo a b [] p q = sym p ∙ q
Contiguous-end lo a b (e ∷ es) p q = Contiguous-end e.room_seq a b es p.1 q.1

module _ (encode : RoomCommand → Option String) where
  -- If the events among the frames are the room's next ones without a gap, every one of them is
  -- given to the sink, and the cursor ends at the last.
  pub on_frames-no_loss :
      (sock : SocketLike) (fs : List ServerFrame) (s : RoomSocket) (hi : ℕ)
      → All IsSafeSeq (events_of fs)
      → Contiguous s.last_room_seq (events_of fs) hi
      → All (λ e. e.room_id ≡ s.room_id) (events_of fs)
      → let t = on_frames encode sock fs s in
        (t.delivered ≡ s.delivered ++ events_of fs) × (t.last_room_seq ≡ hi)
  on_frames-no_loss sock fs s hi h c r =
      let d = on_frames-Delivers encode sock fs s h in
      let all = next_events-All s.room_id s.last_room_seq hi (events_of fs) c r in
      (
        rw (← all) d.delivers,
        Contiguous-end s.last_room_seq _ hi (events_of fs) (rw all at d.follows) c,
      )
