-- ===== src/Realtime/Hub/Replay.antt =====
-- The replay after a hello: the order of what is sent, against every interleaving and backlog.
use learning_orbit.Prelude.{
  ℕ, suc, ◌≡◌, refl, true, Option, none, some, ◌⊎◌, inr, List, [], ◌∷◌, arith, append-nil, ◌∙◌, ltb,
  length, if-cases, ◌==◌, ◌&&◌, is_safe_integer, max_ℕ,
}
use learning_orbit.Wire.{
  RoomEvent, ServerFrame, event, events_of, snapshot_required, resume_complete,
}
use learning_orbit.Realtime.Connection.{Connection, Meter, close, write, send, send_durable}
use learning_orbit.Realtime.Connection.Silence.{send-cases}
use learning_orbit.Realtime.Connection.Order.{
  Runs, IsIncreasing, IsIncreasing-Runs, events_of-append, send-Runs, finish_replay-IsIncreasing,
}
use learning_orbit.Realtime.Hub.{
  Meanwhile, durable, ephemeral, shut, Turn, Authorization, granted, denied, OutboxRow, interfere,
  give_up, replay_envelope, replay_authorized, replay_row, replay, resume_rows, proceed, last_seq,
  with_turns,
}

-- A frame that is no durable event.
abbrev pub IsOther : ServerFrame → Type 0
IsOther f = events_of (f ∷ []) ≡ []

-- Hello is said and the replay gate is shut, or the connection is closed.
abbrev pub IsGated : Connection → Type 0
IsGated c = (c.closed ≡ true) ⊎ (c.replaying ≡ true)

-- What others may send meanwhile: any durable event, but no event by the ephemeral way.
abbrev pub AreOther : List Meanwhile → Type 0
AreOther [] = Unit
AreOther (ephemeral f ∷ ms) = IsOther f × AreOther ms
AreOther (_ ∷ ms) = AreOther ms

-- A step that adds no durable event to what was sent, and leaves the gate shut.
record Quiet (c d : Connection) : Type 0 where
  sent_same : events_of d.sent ≡ events_of c.sent
  gated : IsGated d

Quiet-trans : {c d e : Connection} → Quiet c d → Quiet d e → Quiet c e
Quiet-trans p q = record { sent_same = q.sent_same ∙ p.sent_same; gated = q.gated }

module _ (meter : Meter) where
  send-Quiet : (f : ServerFrame) (c : Connection) → IsOther f → IsGated c → Quiet c (send meter f c)
  unfolding write
  send-Quiet f c o g =
      ground (
        arith,
        send-cases meter f c,
        events_of-append c.sent (f ∷ []),
        append-nil (events_of c.sent),
      )

  send-IsGated : (f : ServerFrame) (c : Connection) → IsGated c → IsGated (send meter f c)
  unfolding write
  send-IsGated f c g = ground (arith, send-cases meter f c)

  close-Quiet : (code : ℕ) (c : Connection) → IsGated c → Quiet c (close code c)
  unfolding close
  close-Quiet code c g = ground arith

  send_durable-Quiet :
      (e : RoomEvent) (c : Connection) → IsGated c → Quiet c (send_durable meter e c)
  unfolding send_durable
  send_durable-Quiet e c g =
      let lost = snapshot_required c.resume_from (max_ℕ c.resume_from c.replay_through) in
      let q = send-Quiet lost c refl g in
      ground (arith, q, close-Quiet 4409 (send meter lost c) q.gated)

  interfere-Quiet :
      (ms : List Meanwhile) (c : Connection)
      → AreOther ms
      → IsGated c
      → Quiet c (interfere meter ms c)
  unfolding interfere
  interfere-Quiet [] c o g = ground arith
  interfere-Quiet (durable e ∷ ms) c o g =
      let q = send_durable-Quiet e c g in Quiet-trans q (interfere-Quiet ms _ o q.gated)
  interfere-Quiet (ephemeral f ∷ ms) c (h, o) g =
      let q = send-Quiet f c h g in Quiet-trans q (interfere-Quiet ms _ o q.gated)
  interfere-Quiet (shut code ∷ ms) c o g =
      let q = close-Quiet code c g in Quiet-trans q (interfere-Quiet ms _ o q.gated)

  give_up-Quiet :
      (from through : ℕ) (c : Connection) → IsGated c → Quiet c (give_up meter from through c)
  unfolding give_up
  give_up-Quiet from through c g =
      let q = send-Quiet (snapshot_required from through) c refl g in
      Quiet-trans q (close-Quiet 4409 _ q.gated)

  module _ {Raw : Type 0} (parse_envelope : Raw → Option RoomEvent) where
    -- What holds before and after each row: everything sent runs up to the cursor.
    abbrev Follows : ℕ → Connection × Option ℕ → Type 0
    Follows lo (c, none) = IsIncreasing lo (events_of c.sent)
    Follows lo (c, some seq) = Runs lo (events_of c.sent) seq × IsGated c

    replay_envelope-Follows :
        (lo from through : ℕ) (row : OutboxRow Raw) (found : Option RoomEvent) (c : Connection)
        → row.room_seq ≡ suc through
        → Runs lo (events_of c.sent) through
        → IsGated c
        → Follows lo (replay_envelope meter parse_envelope from through row found c)
    unfolding replay_envelope
    replay_envelope-Follows lo from through row none c s r g =
        rw (give_up-Quiet from through c g).sent_same (IsIncreasing-Runs lo through _ r)
    replay_envelope-Follows lo from through row (some e) c s r g =
        if-cases (Follows lo) (e.room_seq == row.room_seq)
          (λ t. (send-Runs meter lo through e c r (ground arith), send-IsGated (event e) c g))
          (λ _. rw (give_up-Quiet from through c g).sent_same (IsIncreasing-Runs lo through _ r))

    replay_authorized-Follows :
        (lo from through : ℕ) (row : OutboxRow Raw) (a : Authorization) (c : Connection)
        → row.room_seq ≡ suc through
        → Runs lo (events_of c.sent) through
        → IsGated c
        → Follows lo (replay_authorized meter parse_envelope from through row a c)
    unfolding replay_authorized
    replay_authorized-Follows lo from through row (denied code) c s r g =
        rw (close-Quiet code c g).sent_same (IsIncreasing-Runs lo through _ r)
    replay_authorized-Follows lo from through row (granted role actor) c s r g =
        replay_envelope-Follows lo from through row (parse_envelope row.envelope) c s r g

    replay_row-Follows :
        (lo from through : ℕ) (row : OutboxRow Raw) (turn : Turn) (c : Connection)
        → AreOther turn.meanwhile
        → Runs lo (events_of c.sent) through
        → IsGated c
        → Follows lo (replay_row meter parse_envelope from through row turn c)
    unfolding replay_row
    replay_row-Follows lo from through row turn c o r g =
        let q = interfere-Quiet turn.meanwhile c o g in
        if-cases (Follows lo) (is_safe_integer row.room_seq && row.room_seq == suc through)
          (λ t.
            replay_authorized-Follows lo from through row turn.authorization _ (ground arith)
              (rw q.sent_same r) q.gated)
          (λ _. rw (give_up-Quiet from through c g).sent_same (IsIncreasing-Runs lo through _ r))

    abbrev pub TurnsAreOther : List (OutboxRow Raw × Turn) → Type 0
    TurnsAreOther [] = Unit
    TurnsAreOther ((row, turn) ∷ rest) = AreOther turn.meanwhile × TurnsAreOther rest

    proceed-IsIncreasing :
        (lo : ℕ) (k : ℕ → Connection → Connection) (next : Connection × Option ℕ)
        → ((seq : ℕ) (d : Connection)
            → Runs lo (events_of d.sent) seq
            → IsGated d
            → IsIncreasing lo (events_of (k seq d).sent))
        → Follows lo next
        → IsIncreasing lo (events_of (proceed k next).sent)
    proceed-IsIncreasing lo k (d, none) h f = f
    proceed-IsIncreasing lo k (d, some seq) h (r, g) = h seq d r g

    with_turns-AreOther :
        (turns : ℕ → Turn)
        → ((seq : ℕ) → AreOther (turns seq).meanwhile)
        → (rows : List (OutboxRow Raw)) → TurnsAreOther (with_turns meter parse_envelope turns rows)
    with_turns-AreOther turns o [] = tt
    with_turns-AreOther turns o (row ∷ rows) = (o row.room_seq, with_turns-AreOther turns o rows)

    replay-IsIncreasing :
        (lo from through : ℕ) (rows : List (OutboxRow Raw × Turn)) (c : Connection)
        → TurnsAreOther rows
        → Runs lo (events_of c.sent) through
        → IsGated c
        → IsIncreasing lo (events_of (replay meter parse_envelope from through rows c).sent)
    unfolding replay
    replay-IsIncreasing lo from through [] c o r g =
        finish_replay-IsIncreasing meter lo through _
          (rw (send-Quiet (resume_complete through) c refl g).sent_same r)
    replay-IsIncreasing lo from through ((row, turn) ∷ rest) c (h, o) r g =
        proceed-IsIncreasing lo (λ seq d. replay meter parse_envelope from seq rest d)
          (replay_row meter parse_envelope from through row turn c)
          (λ seq d r' g'. replay-IsIncreasing lo from seq rest d o r' g')
          (replay_row-Follows lo from through row turn c h r g)

    -- Whatever the outbox holds, however the backlog stands, and whatever other tasks broadcast
    -- between two rows, the durable events that a connection is sent from its hello to the end of
    -- its resume have strictly increasing room sequences, all above the cursor that it asked for.
    pub resume_rows-IsIncreasing :
        (turns : ℕ → Turn) (rows : List (OutboxRow Raw)) (c : Connection)
        → ((seq : ℕ) → AreOther (turns seq).meanwhile)
        → events_of c.sent ≡ []
        → c.replaying ≡ true
        → IsIncreasing c.resume_from
            (events_of (resume_rows meter parse_envelope turns rows c).sent)
    unfolding resume_rows
    resume_rows-IsIncreasing turns rows c o s g =
        let lo = c.resume_from in
        if-cases (λ (d : Connection). IsIncreasing lo (events_of d.sent)) (ltb 500 (length rows))
          (λ _. rw ((give_up-Quiet lo (last_seq rows) c (inr g)).sent_same, s) tt)
          (λ _.
            replay-IsIncreasing lo lo lo (with_turns meter parse_envelope turns rows) c
              (with_turns-AreOther turns o rows) (rw s (omega arith)) (inr g))
