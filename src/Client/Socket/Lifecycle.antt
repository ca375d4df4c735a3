-- ===== src/Client/Socket/Lifecycle.antt =====
-- The life of a room socket: what its environment can do to it, and what a terminal close ends.
use learning_orbit.Prelude.{
  ℕ, suc, ◌<◌, ◌≡◌, refl, ◌↔◌, String, Bool, true, false, not, Option, none, some, List, [], ◌∷◌,
  arith, ◌==◌, ◌||◌, ◌&&◌, is_some, length,
}
use learning_orbit.Wire.{ServerFrame, RoomCommand}
use learning_orbit.Client.Socket.{
  RoomSocket, SocketLike, schedule_reconnect, closed_by, on_close, gate_resolved, gate_rejected,
  on_message, on_open, on_socket_close, retry, delay_at,
}

-- What the environment does: a frame or a close arrives, a socket opens, a timer fires, or the gate
-- of a recovery settles.
pub data Stimulus : Type 0 where
  message : SocketLike → Option ServerFrame → Stimulus
  opened : SocketLike → Stimulus
  socket_closed : (id code : ℕ) → Stimulus
  timer : SocketLike → Stimulus
  resolved rejected : (gate : ℕ) → Stimulus

module _ (encode : RoomCommand → Option String) where
  unfoldable pub react : Stimulus → RoomSocket → RoomSocket
  react (message sock f) s = on_message encode sock f s
  react (opened sock) s = on_open sock s
  react (socket_closed id code) s = on_socket_close id code s
  react (timer sock) s = retry sock s
  react (resolved gate) s = gate_resolved gate s
  react (rejected gate) s = gate_rejected gate s

  unfoldable pub react_all : List Stimulus → RoomSocket → RoomSocket
  react_all [] s = s
  react_all (x ∷ xs) s = react_all xs (react x s)

  -- The same to everyone outside: nothing delivered, controlled, written, closed or notified.
  pub record IsSilent (s t : RoomSocket) : Type 0 where
    pub delivered_same : t.delivered ≡ s.delivered
    pub controls_same : t.controls ≡ s.controls
    pub written_same : t.written ≡ s.written
    pub closes_same : t.closes ≡ s.closes
    pub notices_same : t.notices ≡ s.notices
    pub still_closed : t.closed ≡ true

  react-IsSilent : (x : Stimulus) (s : RoomSocket) → s.closed ≡ true → IsSilent s (react x s)
  unfolding react on_message on_open on_socket_close on_close retry gate_resolved gate_rejected
      schedule_reconnect
  react-IsSilent x s h = ground arith

  -- A room socket that is closed, by its owner or for good by the server, stays so until its owner
  -- connects it again: whatever still arrives, no event is delivered, nothing is written, no socket
  -- is closed, and nobody is told anything.
  pub react_all-IsSilent :
      (xs : List Stimulus) (s : RoomSocket) → s.closed ≡ true → IsSilent s (react_all xs s)
  unfolding react_all
  react_all-IsSilent [] s h = ground arith
  react_all-IsSilent (x ∷ xs) s h =
      let a = react-IsSilent x s h in
      let b = react_all-IsSilent xs (react x s) a.still_closed in ground (arith, a, b)

-- The close codes after which the browser does not come back.
abbrev pub is_terminal : ℕ → Bool → Bool
is_terminal code gated =
    code == 4400 || code == 4401 || code == 4403 || code == 4410 || code == 4409 && not gated

-- A close of the live socket ends the session for good exactly for the terminal codes; then no timer
-- runs. For any other code, with no recovery pending, a factory and a delay to wait, the socket is
-- not closed and the retry timer runs. In every case the socket is gone, the resume is undone, and
-- cursor, pending commands and deliveries are as before.
pub on_close_lem :
    (code : ℕ) (s : RoomSocket) (d : ℕ)
    → s.closed ≡ false
    → s.retry_timer ≡ none
    → s.has_factory ≡ true
    → delay_at s.retry_delays s.retry_index ≡ some d
    → let t = on_close code s in
      let gated = is_some s.reconnect_gate in
      ((t.closed ≡ true) ↔ (is_terminal code gated ≡ true))
      × ((t.retry_timer ≡ some d) ↔ ((is_terminal code gated ≡ false) × (gated ≡ false)))
      × (t.socket ≡ none)
      × (t.resume_ready ≡ false)
      × (t.last_room_seq ≡ s.last_room_seq)
      × (t.pending ≡ s.pending)
      × (t.delivered ≡ s.delivered)
unfolding on_close closed_by schedule_reconnect
on_close_lem code s d o r f w = (
  (ground arith, ground arith),
  (ground arith, ground arith),
  ground arith,
  ground arith,
  ground arith,
  ground arith,
  ground arith,
)

-- The back-off never runs out of delays: past the last one it stays there.
pub delay_at_total : (ds : List ℕ) (i : ℕ) → 0 < length ds → (d : ℕ) × (delay_at ds i ≡ some d)
unfolding delay_at
delay_at_total [] i h = elim h [ ]
delay_at_total (d ∷ []) i h = (d, refl)
delay_at_total (d ∷ e ∷ ds) ℕ.zero h = (d, refl)
delay_at_total (d ∷ e ∷ ds) (suc i) h = delay_at_total (e ∷ ds) i (omega arith)
