-- ===== src/Realtime/Connection/Complete.antt =====
-- Nothing that was buffered during the replay is lost when the gate opens.
use learning_orbit.Prelude.{
  ℕ, ◌≤◌, ◌≡◌, refl, false, ◌⊎◌, inl, inr, ◌++◌, [], ◌∷◌, arith, List, max_ℕ, ltb, All,
  All-of-sort_by, IsSorted, sort_by-IsSorted, sort_by, Bool-cases, if-cases, subst,
}
use learning_orbit.Wire.{RoomEvent, ServerFrame, event, events_of}
use learning_orbit.Realtime.Connection.Silence.{send-cases}
use learning_orbit.Realtime.Connection.Order.{events_of-append}
use learning_orbit.Realtime.Connection.{
  Connection, Meter, write, send, flush_event, flush, open_gate, finish_replay,
}

-- An event with this room sequence is among them.
abbrev pub HasSeq : ℕ → List RoomEvent → Type 0
HasSeq n [] = ⊥
HasSeq n (e ∷ es) = (e.room_seq ≡ n) ⊎ HasSeq n es

HasSeq-append : (n : ℕ) (es fs : List RoomEvent) → HasSeq n es → HasSeq n (es ++ fs)
HasSeq-append n [] fs h = elim h [ ]
HasSeq-append n (e ∷ es) fs (inl h) = inl h
HasSeq-append n (e ∷ es) fs (inr h) = inr (HasSeq-append n es fs h)

HasSeq-last : (es : List RoomEvent) (e : RoomEvent) → HasSeq e.room_seq (es ++ e ∷ [])
HasSeq-last [] e = inl refl
HasSeq-last (x ∷ es) e = inr (HasSeq-last es e)

module _ (meter : Meter) where
  -- What was sent stays sent, and a closed connection stays closed.
  record Extends (c d : Connection) : Type 0 where
    kept : (n : ℕ) → HasSeq n (events_of c.sent) → HasSeq n (events_of d.sent)
    opener : d.closed ≡ false → c.closed ≡ false

  Extends-trans : {c d e : Connection} → Extends c d → Extends d e → Extends c e
  Extends-trans p q = record {
    kept = λ n h. q.kept n (p.kept n h);
    opener = λ h. p.opener (q.opener h);
  }

  send-Extends : (f : ServerFrame) (c : Connection) → Extends c (send meter f c)
  unfolding write
  send-Extends f c = elim (send-cases meter f c) [
    | inl (_, q) ↦ rw q (record { kept = λ n h. h; opener = λ h. h })
    | inr (inl (t, q)) ↦ rw q (record {
      kept = λ n h. rw (events_of-append c.sent (f ∷ [])) (HasSeq-append n _ _ h);
      opener = λ h. h;
    })
    | inr (inr (t, q)) ↦ rw q (record { kept = λ n h. h; opener = λ h. t })
  ]

  flush_event-Extends : (e : RoomEvent) (c : Connection) → Extends c (flush_event meter e c)
  unfolding flush_event
  flush_event-Extends e c =
      let s = send-Extends (event e) c in
      if-cases (Extends c) (ltb c.replay_through e.room_seq)
        (λ _. record { kept = s.kept; opener = s.opener })
        (λ _. record { kept = λ n h. h; opener = λ h. h })

  flush-Extends : (es : List RoomEvent) (c : Connection) → Extends c (flush meter es c)
  unfolding flush
  flush-Extends [] c = record { kept = λ n h. h; opener = λ h. h }
  flush-Extends (e ∷ es) c =
      Extends-trans (flush_event-Extends e c) (flush-Extends es (flush_event meter e c))

  -- The event is covered by the cursor, or it was sent.
  abbrev pub Covered : ℕ → Connection → RoomEvent → Type 0
  Covered through d e = (e.room_seq ≤ through) ⊎ HasSeq e.room_seq (events_of d.sent)

  send-sends :
      (e : RoomEvent) (c : Connection)
      → (send meter (event e) c).closed ≡ false
      → HasSeq e.room_seq (events_of (send meter (event e) c).sent)
  unfolding write
  send-sends e c h = elim (send-cases meter (event e) c) [
    | inl (t, q) ↦ cc
    | inr (inl (t, q)) ↦
        rw (q, events_of-append c.sent (event e ∷ [])) (HasSeq-last (events_of c.sent) e)
    | inr (inr (t, q)) ↦ ground (arith, q)
  ]

  flush_event-Covered :
      (e : RoomEvent) (c : Connection)
      → (flush_event meter e c).closed ≡ false
      → Covered c.replay_through (flush_event meter e c) e
  unfolding flush_event
  flush_event-Covered e c h = elim (Bool-cases (ltb c.replay_through e.room_seq)) [
    | inl t ↦ inr (rw t (send-sends e c (rw t at h)))
    | inr t ↦ inl (ground arith)
  ]

  -- A later event that the moved cursor covers is covered by the old one, or has the number sent.
  flush_event-cursor :
      (e e' : RoomEvent) (c d : Connection)
      → e.room_seq ≤ e'.room_seq
      → (flush_event meter e c).closed ≡ false
      → Extends (flush_event meter e c) d
      → Covered (flush_event meter e c).replay_through d e'
      → Covered c.replay_through d e'
  unfolding flush_event
  flush_event-cursor e e' c d le h x (inr s) = inr s
  flush_event-cursor e e' c d le h x (inl s) = elim (Bool-cases (ltb c.replay_through e.room_seq)) [
    | inl t ↦
        let same : e.room_seq ≡ e'.room_seq = ground arith in
        inr (
          subst (λ n. HasSeq n (events_of d.sent)) same
            (x.kept e.room_seq (rw t (send-sends e c (rw t at h)))))
    | inr t ↦ inl (ground arith)
  ]

  flush-Covered :
      (es : List RoomEvent) (c : Connection)
      → IsSorted (λ (e : RoomEvent). e.room_seq) es
      → (flush meter es c).closed ≡ false
      → All (Covered c.replay_through (flush meter es c)) es
  unfolding flush
  flush-Covered [] c s h = tt
  flush-Covered (e ∷ es) c (le, s) h =
      let mid = flush_event meter e c in
      let later = flush-Extends es mid in
      let is_open = later.opener h in
      (
        here (flush_event-Covered e c is_open) later,
        both es le (flush-Covered es mid s h) is_open later,
      )
    where
      here :
          {through : ℕ} {c d : Connection} → Covered through c e → Extends c d → Covered through d e
      here (inl q) x = inl q
      here (inr q) x = inr (x.kept e.room_seq q)

      both :
          (fs : List RoomEvent)
          → All (λ f. e.room_seq ≤ f.room_seq) fs
          → All
              (Covered
                (flush_event meter e c).replay_through
                (flush meter es (flush_event meter e c)))
              fs
          → (flush_event meter e c).closed ≡ false
          → Extends (flush_event meter e c) (flush meter es (flush_event meter e c))
          → All (Covered c.replay_through (flush meter es (flush_event meter e c))) fs
      both [] l a o x = tt
      both (f ∷ fs) l a o x = (flush_event-cursor e f c _ l.0 o x a.0, both fs l.1 a.1 o x)

  -- If the connection survives the end of its replay, each event that was buffered while it ran is
  -- covered by the replay cursor or has been sent.
  pub finish_replay_complete :
      (through : ℕ) (c : Connection)
      → (finish_replay meter through c).closed ≡ false
      → All (Covered (max_ℕ c.replay_through through) (finish_replay meter through c)) c.live_buffer
  unfolding finish_replay
  finish_replay_complete through c =
      let key = λ (e : RoomEvent). e.room_seq in
      let most = max_ℕ c.replay_through through in
      if-cases (λ (d : Connection). d.closed ≡ false → All (Covered most d) c.live_buffer) c.closed
        (λ t h. cc)
        (λ t h.
          let sorted = sort_by key c.live_buffer in
          let last = flush meter sorted (open_gate through c) in
          All-of-sort_by key (Covered most last) c.live_buffer
            (flush-Covered sorted (open_gate through c) (sort_by-IsSorted key c.live_buffer) h))
