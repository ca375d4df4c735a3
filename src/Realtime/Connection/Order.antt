-- ===== src/Realtime/Connection/Order.antt =====
-- The order of the durable events that a connection writes.
use learning_orbit.Prelude.{
  ℕ, suc, ◌≤◌, ◌<◌, ◌≡◌, refl, inl, inr, ◌++◌, [], ◌∷◌, arith, List, max_ℕ, ltb, sort_by,
  Bool-cases, if-cases,
}
use learning_orbit.Wire.{RoomEvent, ServerFrame, event, events_of}
use learning_orbit.Realtime.Connection.Silence.{send-cases}
use learning_orbit.Realtime.Connection.{
  Connection, Meter, write, send, flush, flush_event, open_gate, finish_replay,
}

-- Strictly increasing sequence numbers above `lo` and up to `hi`.
abbrev pub Runs : ℕ → List RoomEvent → ℕ → Type 0
Runs lo [] hi = lo ≤ hi
Runs lo (e ∷ es) hi = (lo < e.room_seq) × Runs e.room_seq es hi

-- Strictly increasing sequence numbers above `lo`.
abbrev pub IsIncreasing : ℕ → List RoomEvent → Type 0
IsIncreasing lo [] = Unit
IsIncreasing lo (e ∷ es) = (lo < e.room_seq) × IsIncreasing e.room_seq es

pub IsIncreasing-Runs : (lo hi : ℕ) (es : List RoomEvent) → Runs lo es hi → IsIncreasing lo es
IsIncreasing-Runs lo hi [] r = tt
IsIncreasing-Runs lo hi (e ∷ es) r = (r.0, IsIncreasing-Runs e.room_seq hi es r.1)

-- Consecutive sequence numbers, from the one after `lo` to `hi`.
abbrev pub Contiguous : ℕ → List RoomEvent → ℕ → Type 0
Contiguous lo [] hi = lo ≡ hi
Contiguous lo (e ∷ es) hi = (e.room_seq ≡ suc lo) × Contiguous e.room_seq es hi

pub Runs-weaken : (lo mid hi : ℕ) (es : List RoomEvent) → mid ≤ hi → Runs lo es mid → Runs lo es hi
Runs-weaken lo mid hi [] h r = omega arith
Runs-weaken lo mid hi (e ∷ es) h r = (r.0, Runs-weaken e.room_seq mid hi es h r.1)

pub Runs-concat :
    (lo hi : ℕ) (es : List RoomEvent) (e : RoomEvent)
    → Runs lo es hi
    → hi < e.room_seq
    → Runs lo (es ++ e ∷ []) e.room_seq
Runs-concat lo hi [] e r h = (omega arith, omega arith)
Runs-concat lo hi (x ∷ es) e r h = (r.0, Runs-concat x.room_seq hi es e r.1 h)

pub events_of-append :
    (fs gs : List ServerFrame) → events_of (fs ++ gs) ≡ events_of fs ++ events_of gs
events_of-append [] gs = refl
events_of-append (event e ∷ fs) gs = rw (events_of-append fs gs)
events_of-append (_ ∷ fs) gs = events_of-append fs gs

module _ (meter : Meter) where
  pub send-Runs :
      (lo hi : ℕ) (e : RoomEvent) (c : Connection)
      → Runs lo (events_of c.sent) hi
      → hi < e.room_seq
      → Runs lo (events_of (send meter (event e) c).sent) e.room_seq
  unfolding write
  send-Runs lo hi e c r h =
      let weak = Runs-weaken lo hi e.room_seq (events_of c.sent) (omega arith) r in
      elim (send-cases meter (event e) c) [
        | inl (_, q) ↦ rw q weak
        | inr (inl (_, q)) ↦
            rw (q, events_of-append c.sent (event e ∷ []))
              (Runs-concat lo hi (events_of c.sent) e r h)
        | inr (inr (_, q)) ↦ rw q weak
      ]

  pub flush_event-Runs :
      (lo : ℕ) (e : RoomEvent) (c : Connection)
      → Runs lo (events_of c.sent) c.replay_through
      → Runs lo (events_of (flush_event meter e c).sent) (flush_event meter e c).replay_through
  unfolding flush_event
  flush_event-Runs lo e c r = elim (Bool-cases (ltb c.replay_through e.room_seq)) [
    | inl t ↦ rw t (send-Runs lo c.replay_through e c r (ground arith))
    | inr t ↦ rw t r
  ]

  pub flush-Runs :
      (lo : ℕ) (es : List RoomEvent) (c : Connection)
      → Runs lo (events_of c.sent) c.replay_through
      → Runs lo (events_of (flush meter es c).sent) (flush meter es c).replay_through
  unfolding flush
  flush-Runs lo [] c r = r
  flush-Runs lo (e ∷ es) c r = flush-Runs lo es (flush_event meter e c) (flush_event-Runs lo e c r)

  open_gate-Runs :
      (lo through : ℕ) (c : Connection)
      → Runs lo (events_of c.sent) through
      → Runs lo (events_of (open_gate through c).sent) (open_gate through c).replay_through
  unfolding open_gate
  open_gate-Runs lo through c r =
      Runs-weaken lo through (max_ℕ c.replay_through through) (events_of c.sent) (ground arith) r

  -- Ending the replay keeps the order: what the flush adds lies above the replay cursor.
  pub finish_replay-IsIncreasing :
      (lo through : ℕ) (c : Connection)
      → Runs lo (events_of c.sent) through
      → IsIncreasing lo (events_of (finish_replay meter through c).sent)
  unfolding finish_replay
  finish_replay-IsIncreasing lo through c r =
      if-cases (λ (d : Connection). IsIncreasing lo (events_of d.sent)) c.closed
        (λ _. IsIncreasing-Runs lo through (events_of c.sent) r)
        (λ _. IsIncreasing-Runs lo _ _ (
          flush-Runs lo (sort_by (λ (e : RoomEvent). e.room_seq) c.live_buffer)
            (open_gate through c) (open_gate-Runs lo through c r)))
