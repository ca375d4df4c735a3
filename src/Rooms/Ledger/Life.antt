-- ===== src/Rooms/Ledger/Life.antt =====
-- The life of a room as its events tell it: the specification that the services of
-- apps/server/src/modules/rooms implement.
use learning_orbit.Prelude.{
  String, some, List, [], ◌∷◌, ◌++◌, ◌≡◌, refl, sym, subst, Bool, true, false, arith, ◌===◌,
  Bool-cases, inl, inr,
}
use learning_orbit.Wire.{Status, scheduled, opened, paused, closed, MessagePayload}
use learning_orbit.Rooms.Store.{
  Body, room_opened, room_paused, room_resumed, room_closed, message_added, message_revised,
  message_retracted, Event,
}
use learning_orbit.Rooms.Ledger.{with_causation}

-- The life of a room: from one status to the next with an event.
pub data Step : Status → Body → Status → Type 0 where
  opening : {s c : String} → Step scheduled (room_opened s c) opened
  pausing : {t : String} → Step opened (room_paused t) paused
  resuming : {t : String} → Step paused (room_resumed t) opened
  closing_open : {t : String} → Step opened (room_closed t) closed
  closing_paused : {t : String} → Step paused (room_closed t) closed
  adding : {p : MessagePayload} → Step opened (message_added p) opened
  revising : {p : MessagePayload} → Step opened (message_revised p) opened
  retracting : {id : String} → Step opened (message_retracted id) opened

-- The events lead from one status to another.
abbrev pub Life : Status → List Event → Status → Type 0
Life s [] t = s ≡ t
Life s (e ∷ es) t = (u : Status) × Step s e.body u × Life u es t

pub Life-append :
    (s t u : Status) (es : List Event) (e : Event)
    → Life s es t
    → Step t e.body u
    → Life s (es ++ e ∷ []) u
Life-append s t u [] e l step = (u, rw l step, refl)
Life-append s t u (x ∷ es) e (v, first, l) step = (v, first, Life-append v t u es e l step)

-- Nothing follows the closing.
pub closed-Life : (es : List Event) (t : Status) → Life closed es t → (es ≡ []) × (t ≡ closed)
closed-Life [] t l = (refl, sym l)
closed-Life (e ∷ es) t (u, step, l) = elim (no_step e.body u step) [ ]
  where
    no_step : (b : Body) (u : Status) → ¬ Step closed b u
    no_step b u step = elim step [ ]

abbrev pub is_closing : Body → Bool
is_closing (room_closed t) = true
is_closing _ = false

closing : {s u : Status} {b : Body} → Step s b u → is_closing b ≡ true → u ≡ closed
closing opening h = cc
closing pausing h = cc
closing resuming h = cc
closing closing_open h = refl
closing closing_paused h = refl
closing adding h = cc
closing revising h = cc
closing retracting h = cc

-- A closing among the events has closed the room.
pub closed-with_causation :
    (id : String) (es : List Event) (e : Event) (s t : Status)
    → with_causation id es ≡ some e
    → is_closing e.body ≡ true
    → Life s es t
    → t ≡ closed
unfolding with_causation
closed-with_causation id [] e s t h c l = cc
closed-with_causation id (x ∷ es) e s t h c (u, step, l) =
    elim (Bool-cases (x.causation_id === id)) [
      | inl y ↦
          let same : x ≡ e = ground (arith, y, h) in
          let shut = closing step (rw same c) in
          (closed-Life es t (subst (λ w. Life w es t) shut l)).1
      | inr n ↦ closed-with_causation id es e u t (ground (arith, n, h)) c l
    ]
