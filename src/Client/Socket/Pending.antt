-- ===== src/Client/Socket/Pending.antt =====
-- Pending commands: their invariant, their bound, and what a reconnect sends again.
use learning_orbit.Prelude.{
  ℕ, ◌≤◌, ◌≡◌, refl, ap, sym, ◌∙◌, String, true, false, Option, none, some, inl, inr, List, [], ◌∷◌,
  ◌++◌, arith, leb, ===_iff, ===_refl, length, All, All-map, All-append, All-and, map, append-nil,
  append_assoc, get, put, put-new, remove, remove-All, get-put, get-put_self, get-remove, keys,
  AreDistinct, put-AreDistinct, remove-AreDistinct, remove-other, length-append, length-remove-le,
  if-cases, Option-cases, ◌≢◌, subst,
}
use learning_orbit.Wire.{RoomEvent, ServerFrame, event, RoomCommand, resume_complete, ClientFrame}
use learning_orbit.Wire
use learning_orbit.Client.Socket.{
  RoomSocket, SocketLike, close_socket, on_close, closed_by, schedule_reconnect, connection_change,
  notify, write_to, transmit, send_encoded, send, max_pending_commands, flush_pending, accept_event,
  resume_done, on_frame, SendResult, same_encoding,
}

schedule_reconnect-pending : (s : RoomSocket) → (schedule_reconnect s).pending ≡ s.pending
unfolding schedule_reconnect
schedule_reconnect-pending s = ground arith

closed_by-pending : (code : ℕ) (s : RoomSocket) → (closed_by code s).pending ≡ s.pending
unfolding closed_by
closed_by-pending code s = ground (arith, schedule_reconnect-pending s)

pub on_close-pending : (code : ℕ) (s : RoomSocket) → (on_close code s).pending ≡ s.pending
unfolding on_close
on_close-pending code s =
    let t = notify (connection_change false) (record s { socket = none; resume_ready = false }) in
    ground (arith, closed_by-pending code t)

transmit-pending :
    (sock : SocketLike) (c : RoomCommand) (s : RoomSocket) → (transmit sock c s).pending ≡ s.pending
unfolding transmit
transmit-pending sock c s = ground (arith, on_close-pending 0 (close_socket sock.id 1011 s))

accept_event-pending : (e : RoomEvent) (s : RoomSocket) → (accept_event e s).pending ≡ s.pending
unfolding accept_event
accept_event-pending e s = ground arith

module _ (encode : RoomCommand → Option String) where
  -- A pending command is valid, stands under its own id, and is the one found there.
  abbrev pub IsPending : List (String × RoomCommand) → String × RoomCommand → Type 0
  IsPending m e =
      (e.0 ≡ e.1.command_id) × (get e.0 m ≡ some e.1) × ((text : String) × (encode e.1 ≡ some text))

  -- Every pending command is valid, no two have the same id, and there are at most a hundred.
  pub record PendingIsValid (s : RoomSocket) : Type 0 where
    pub entries : All (IsPending s.pending) s.pending
    pub distinct : AreDistinct (keys s.pending)
    pub bounded : length s.pending ≤ max_pending_commands

  -- A new command goes to the end, and what stood before is found as before.
  IsPending-put :
      (c : RoomCommand) (text : String) (m : List (String × RoomCommand))
      → encode c ≡ some text
      → get c.command_id m ≡ none
      → All (IsPending m) m
      → All (IsPending (put c.command_id c m)) (put c.command_id c m)
  IsPending-put c text m valid new h =
      let all' : List (String × RoomCommand) = put c.command_id c m in
      subst (All (IsPending all')) (sym (put-new c.command_id c m new)) (
        All-append (IsPending all') m _ (All-map (IsPending m) (IsPending all') keep m h)
          ((refl, get-put_self c.command_id c m, (text, valid)), tt))
    where
      keep : (e : String × RoomCommand) → IsPending m e → IsPending (put c.command_id c m) e
      keep (k, d) (own, found, ok) =
          (own, ground (arith, get-put c.command_id k c m, ===_iff c.command_id k), ok)

  IsPending-remove :
      (id : String) (m : List (String × RoomCommand))
      → All (IsPending m) m
      → All (IsPending (remove id m)) (remove id m)
  IsPending-remove id m h =
      All-map (λ e. IsPending m e × (e.0 ≢ id)) (IsPending (remove id m)) keep (remove id m)
        (All-and (IsPending m) (λ e. e.0 ≢ id) (remove id m) (remove-All (IsPending m) id m h)
          (remove-other id m))
    where
      keep : (e : String × RoomCommand) → IsPending m e × (e.0 ≢ id) → IsPending (remove id m) e
      keep (k, d) ((own, found, ok), other) =
          (own, ground (arith, get-remove id k m, ===_iff id k, other), ok)

  PendingIsValid-same :
      (s t : RoomSocket) → t.pending ≡ s.pending → PendingIsValid s → PendingIsValid t
  PendingIsValid-same s t e v = record {
    entries = subst (λ m. All (IsPending m) m) (sym e) v.entries;
    distinct = subst (λ m. AreDistinct (keys m)) (sym e) v.distinct;
    bounded = rw e v.bounded;
  }

  send_encoded-PendingIsValid :
      (sock : SocketLike) (c : RoomCommand) (text : String) (found : Option RoomCommand)
      (s : RoomSocket)
      → encode c ≡ some text
      → get c.command_id s.pending ≡ found
      → PendingIsValid s
      → PendingIsValid (send_encoded encode sock c text found s).0
  unfolding send_encoded
  send_encoded-PendingIsValid sock c text (some old) s valid found v =
      if-cases (λ (r : RoomSocket × SendResult). PendingIsValid r.0) (same_encoding encode old text)
        (λ _. PendingIsValid-same s _ (transmit-pending sock old s) v) (λ _. v)
  send_encoded-PendingIsValid sock c text none s valid new v =
      let t = record s { pending = put c.command_id c s.pending } in
      if-cases (λ (r : RoomSocket × SendResult). PendingIsValid r.0)
        (leb max_pending_commands (length s.pending)) (λ _. v)
        (λ room. PendingIsValid-same t _ (transmit-pending sock c t) (record {
          entries = IsPending-put c text s.pending valid new v.entries;
          distinct = put-AreDistinct c.command_id c s.pending new v.distinct;
          bounded =
              rw (put-new c.command_id c s.pending new)
                (ground (arith, length-append s.pending ((c.command_id, c) ∷ [])));
        }))

  -- Sending keeps the queue valid: no invalid command enters, no two commands have the same id, and
  -- there are never more than a hundred.
  pub send-PendingIsValid :
      (sock : SocketLike) (c : RoomCommand) (s : RoomSocket)
      → PendingIsValid s
      → PendingIsValid (send encode sock c s).0
  unfolding send
  send-PendingIsValid sock c s v = elim (Option-cases (encode c)) [
    | inl e ↦ rw (e, send) v
    | inr (text, e) ↦
        rw (e, send)
          (send_encoded-PendingIsValid sock c text (get c.command_id s.pending) s e refl v)
  ]

  same_encoding_self :
      (c : RoomCommand) (text : String) → encode c ≡ some text → same_encoding encode c text ≡ true
  unfolding same_encoding
  same_encoding_self c text valid = rw (valid, same_encoding) (===_refl text)

  send_known :
      (sock : SocketLike) (c : RoomCommand) (text : String) (s : RoomSocket)
      → encode c ≡ some text
      → get c.command_id s.pending ≡ some c
      → (send encode sock c s).0 ≡ transmit sock c s
  unfolding send send_encoded
  send_known sock c text s valid found =
      rw (valid, found, send, send_encoded) (rw (same_encoding_self c text valid) refl)

  flush_pending-pending :
      (sock : SocketLike) (cs : List (String × RoomCommand)) (s : RoomSocket)
      → All (IsPending s.pending) cs
      → (flush_pending encode sock cs s).pending ≡ s.pending
  unfolding flush_pending
  flush_pending-pending sock [] s h = refl
  flush_pending-pending sock ((k, c) ∷ cs) s ((own, found, (text, valid)), hs) =
      let sent = send_known sock c text s valid (subst (λ j. get j s.pending ≡ some c) own found) in
      let same : (send encode sock c s).0.pending ≡ s.pending =
        ap (λ (t : RoomSocket). t.pending) sent ∙ transmit-pending sock c s in
      flush_pending-pending sock cs _ (rw same hs) ∙ same

  resume_done-pending :
      (sock : SocketLike) (through : ℕ) (s : RoomSocket)
      → PendingIsValid s
      → (resume_done encode sock through s).pending ≡ s.pending
  unfolding resume_done
  resume_done-pending sock through s v =
      let t = notify (connection_change true) (record s { retry_index = 0; resume_ready = true }) in
      ground (arith, flush_pending-pending sock s.pending t v.entries)

  remove-PendingIsValid :
      (id : String) (s t : RoomSocket)
      → t.pending ≡ remove id s.pending
      → PendingIsValid s
      → PendingIsValid t
  remove-PendingIsValid id s t e v =
      PendingIsValid-same (record s { pending = remove id s.pending }) t e
        (record {
          entries = IsPending-remove id s.pending v.entries;
          distinct = remove-AreDistinct id s.pending v.distinct;
          bounded = omega (arith, length-remove-le id s.pending, v.bounded);
        })

  -- Handling any frame from the server keeps the queue of pending commands valid: no invalid
  -- command, no two of the same id, never more than a hundred.
  pub on_frame-PendingIsValid :
      (sock : SocketLike) (f : ServerFrame) (s : RoomSocket)
      → PendingIsValid s
      → PendingIsValid (on_frame encode sock f s)
  unfolding on_frame
  on_frame-PendingIsValid sock (event e) s v = PendingIsValid-same s _ (accept_event-pending e s) v
  on_frame-PendingIsValid sock (resume_complete through) s v =
      PendingIsValid-same s _ (resume_done-pending sock through s v) v
  on_frame-PendingIsValid sock (Wire.ack id seq revision) s v = remove-PendingIsValid id s _ refl v
  on_frame-PendingIsValid sock (Wire.reject none code retryable) s v =
      PendingIsValid-same s _ refl v
  on_frame-PendingIsValid sock (Wire.reject (some id) code true) s v =
      PendingIsValid-same s _ refl v
  on_frame-PendingIsValid sock (Wire.reject (some id) code false) s v =
      remove-PendingIsValid id s _ refl v
  on_frame-PendingIsValid sock f s v = PendingIsValid-same s _ refl v

-- A socket that is open and whose `send` never throws.
pub record IsHealthy (sock : SocketLike) : Type 0 where
  pub opened : sock.is_open ≡ true
  pub takes_all : (f : ClientFrame) → sock.takes f ≡ true

-- The commands of a queue as they are written to a socket.
abbrev pub resent : ℕ → List (String × RoomCommand) → List (ℕ × ClientFrame)
resent id cs = map (λ e. (id, ClientFrame.command e.1)) cs

module _ (encode : RoomCommand → Option String) where
  transmit_healthy :
      (sock : SocketLike) (c : RoomCommand) (s : RoomSocket)
      → IsHealthy sock
      → s.resume_ready ≡ true
      → transmit sock c s ≡ write_to sock.id (ClientFrame.command c) s
  unfolding transmit
  transmit_healthy sock c s h ready = ground (arith, h.takes_all (ClientFrame.command c), h.opened)

  flush_pending_healthy :
      (sock : SocketLike) (cs : List (String × RoomCommand)) (s : RoomSocket)
      → IsHealthy sock
      → s.resume_ready ≡ true
      → All (IsPending encode s.pending) cs
      → flush_pending encode sock cs s ≡ record s { written = s.written ++ resent sock.id cs }
  unfolding flush_pending
  flush_pending_healthy sock [] s h ready v = rw (append-nil s.written)
  flush_pending_healthy sock ((k, c) ∷ cs) s h ready ((own, found, (text, valid)), hs) =
      rw
        (
          send_known encode sock c text s valid (subst (λ j. get j s.pending ≡ some c) own found),
          transmit_healthy sock c s h ready,
        )
        (flush_pending_healthy sock cs (write_to sock.id (ClientFrame.command c) s) h ready hs
          ∙ ap (λ w. record s { written = w }) (append_assoc s.written _ _))

  -- On a socket that is open and takes every frame: when the server completes the resume at the
  -- client's cursor and the pending queue is valid, the client is ready, tells its
  -- owner, and writes each pending command once, in the order in which it was first sent; the
  -- commands stay pending.
  pub resume_done-resends :
      (sock : SocketLike) (s : RoomSocket)
      → IsHealthy sock
      → PendingIsValid encode s
      → let t = on_frame encode sock (resume_complete s.last_room_seq) s in
        (t.written ≡ s.written ++ resent sock.id s.pending)
        × (t.pending ≡ s.pending)
        × (t.resume_ready ≡ true)
        × (t.retry_index ≡ 0)
        × (t.notices ≡ s.notices ++ connection_change true ∷ [])
        × (t.controls ≡ s.controls ++ resume_complete s.last_room_seq ∷ [])
  unfolding on_frame
  resume_done-resends sock s h v =
      let t = notify (connection_change true) (record s { retry_index = 0; resume_ready = true }) in
      let f = flush_pending_healthy sock s.pending t h refl v.entries in ground (arith, f)
