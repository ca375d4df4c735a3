-- ===== src/Realtime/Connection/Silence.antt =====
-- What a send can do to a connection, and the bound on the live buffer.
use learning_orbit.Prelude.{
  ℕ, ◌≤◌, ◌≡◌, true, false, ◌⊎◌, [], ◌∷◌, arith, length, length-append, List, max_ℕ,
}
use learning_orbit.Wire.{RoomEvent, ServerFrame, snapshot_required, event}
use learning_orbit.Realtime.Connection.{
  Connection, Meter, close, write, send, send_durable, max_live_buffer_events,
}

-- The same connection, closed with its buffer dropped, whatever codes the socket was given.
abbrev pub shut_with : List ℕ → Connection → Connection
shut_with codes c = record c { closed = true; live_buffer = []; close_codes = codes }

module _ (meter : Meter) where
  -- A send writes the frame, or closes the connection, or finds it closed.
  pub send-cases :
      (f : ServerFrame) (c : Connection)
      → ((c.closed ≡ true) × (send meter f c ≡ c))
        ⊎ ((c.closed ≡ false) × (send meter f c ≡ write f c))
        ⊎ ((c.closed ≡ false) × (send meter f c ≡ shut_with (send meter f c).close_codes c))
  unfolding send close
  send-cases f c = ground arith

  abbrev pub BufferIsBounded : Connection → Type 0
  BufferIsBounded c = length c.live_buffer ≤ max_live_buffer_events

  pub length-send :
      (f : ServerFrame) (c : Connection)
      → length (send meter f c).live_buffer ≤ length c.live_buffer
  unfolding write
  length-send f c = ground (arith, send-cases f c)

  -- A live buffer within its limit of 512 events stays within it when a durable event is sent,
  -- whatever the socket's backlog.
  pub send_durable-BufferIsBounded :
      (e : RoomEvent) (c : Connection)
      → BufferIsBounded c
      → BufferIsBounded (send_durable meter e c)
  unfolding send_durable close
  send_durable-BufferIsBounded e c h = ground (
    arith,
    length-append c.live_buffer (e ∷ []),
    length-send (event e) c,
    length-send (snapshot_required c.resume_from (max_ℕ c.resume_from c.replay_through)) c,
  )
