-- ===== src/Client/Reducer.antt =====
-- apps/web/src/lib/session/session-store.ts: the state of the session page and its reducer.
use learning_orbit.Prelude.{
  ℕ, String, Bool, true, false, Option, none, List, [], ◌∷◌, ◌≡◌, refl, ◌≤◌, leb, arith,
  if◌then◌else◌, ◌∙◌, All,
}
use learning_orbit.Wire.{Status, scheduled, paused}

pub record SessionState : Type 0 where
  pub room_id : String
  pub status : Status
  pub connected : Bool
  pub is_paused : Bool
  pub starts_at : Option String
  pub closes_at : Option String
  pub last_room_seq : ℕ
  pub live_announcement : String

pub data SessionAction : Type 0 where
  connection : (connected : Bool) → SessionAction
  status : Status → SessionAction
  cursor : (room_seq : ℕ) → SessionAction
  timing : (starts_at closes_at : Option String) → SessionAction
  announcement : (message : String) → SessionAction
  reset : SessionAction

abbrev pub status_is_paused : Status → Bool
status_is_paused paused = true
status_is_paused _ = false

unfoldable pub create_session_state : String → Status → Option String → Option String → SessionState
create_session_state room st starts closes = record {
  room_id = room;
  status = st;
  connected = false;
  is_paused = status_is_paused st;
  starts_at = starts;
  closes_at = closes;
  last_room_seq = 0;
  live_announcement = "";
}

unfoldable pub session_reducer : SessionState → SessionAction → SessionState
unfolding create_session_state
session_reducer s (connection connected) = record s { connected = connected }
session_reducer s (status st) = record s { status = st; is_paused = status_is_paused st }
session_reducer s (cursor seq) =
    if leb s.last_room_seq seq then record s { last_room_seq = seq } else s
session_reducer s (timing starts closes) = record s { starts_at = starts; closes_at = closes }
session_reducer s (announcement message) = record s { live_announcement = message }
session_reducer s reset = create_session_state s.room_id scheduled none none

unfoldable pub session_reducer_all : List SessionAction → SessionState → SessionState
session_reducer_all [] s = s
session_reducer_all (a ∷ acts) s = session_reducer_all acts (session_reducer s a)

-- What a page relies on after an action.
pub record IsConsistent (s t : SessionState) : Type 0 where
  pub paused_agrees : t.is_paused ≡ status_is_paused t.status
  pub same_room : t.room_id ≡ s.room_id

cursor-IsConsistent :
    (s : SessionState) (seq : ℕ)
    → s.is_paused ≡ status_is_paused s.status
    → IsConsistent s (session_reducer s (cursor seq))
unfolding session_reducer
cursor-IsConsistent s seq h = ground (arith, h)

session_reducer-IsConsistent :
    (s : SessionState) (a : SessionAction)
    → s.is_paused ≡ status_is_paused s.status
    → IsConsistent s (session_reducer s a)
unfolding session_reducer create_session_state
session_reducer-IsConsistent s (connection b) h = record { paused_agrees = h; same_room = refl }
session_reducer-IsConsistent s (status st) h = record { paused_agrees = refl; same_room = refl }
session_reducer-IsConsistent s (cursor seq) h = cursor-IsConsistent s seq h
session_reducer-IsConsistent s (timing a b) h = record { paused_agrees = h; same_room = refl }
session_reducer-IsConsistent s (announcement m) h = record { paused_agrees = h; same_room = refl }
session_reducer-IsConsistent s reset h = record { paused_agrees = refl; same_room = refl }

-- In a state whose pause flag agrees with its status, the flag agrees after any sequence of actions,
-- resets included, and the room is the same.
pub session_reducer_all-IsConsistent :
    (acts : List SessionAction) (s : SessionState)
    → s.is_paused ≡ status_is_paused s.status
    → IsConsistent s (session_reducer_all acts s)
unfolding session_reducer_all
session_reducer_all-IsConsistent [] s h = record { paused_agrees = h; same_room = refl }
session_reducer_all-IsConsistent (a ∷ acts) s h =
    let first = session_reducer-IsConsistent s a h in
    let rest = session_reducer_all-IsConsistent acts (session_reducer s a) first.paused_agrees in
    record { paused_agrees = rest.paused_agrees; same_room = rest.same_room ∙ first.same_room }

-- An action that is no reset.
abbrev pub IsLasting : SessionAction → Type 0
IsLasting reset = ⊥
IsLasting _ = Unit

-- A cursor action is covered by a cursor.
abbrev pub IsCovered : ℕ → SessionAction → Type 0
IsCovered n (cursor seq) = seq ≤ n
IsCovered n _ = Unit

IsCovered-≤ : (m n : ℕ) (a : SessionAction) → m ≤ n → IsCovered m a → IsCovered n a
IsCovered-≤ m n (connection b) h c = tt
IsCovered-≤ m n (status st) h c = tt
IsCovered-≤ m n (cursor seq) h c = omega (arith, h, c)
IsCovered-≤ m n (timing a b) h c = tt
IsCovered-≤ m n (announcement x) h c = tt
IsCovered-≤ m n reset h c = tt

session_reducer-IsCovered :
    (s : SessionState) (a : SessionAction)
    → IsLasting a
    → (s.last_room_seq ≤ (session_reducer s a).last_room_seq)
      × IsCovered (session_reducer s a).last_room_seq a
unfolding session_reducer
session_reducer-IsCovered s (connection b) h = (omega arith, tt)
session_reducer-IsCovered s (status st) h = (omega arith, tt)
session_reducer-IsCovered s (cursor seq) h = (ground arith, ground arith)
session_reducer-IsCovered s (timing a b) h = (omega arith, tt)
session_reducer-IsCovered s (announcement x) h = (omega arith, tt)
session_reducer-IsCovered s reset h = absurd h

-- Without a reset the cursor never goes back, and in the end it is at or past every cursor that was
-- dispatched, in whatever order they came.
pub session_reducer_all_cursor :
    (acts : List SessionAction) (s : SessionState)
    → All IsLasting acts
    → (s.last_room_seq ≤ (session_reducer_all acts s).last_room_seq)
      × All (IsCovered (session_reducer_all acts s).last_room_seq) acts
unfolding session_reducer_all
session_reducer_all_cursor [] s h = (omega arith, tt)
session_reducer_all_cursor (a ∷ acts) s h =
    let t = session_reducer s a in
    let first = session_reducer-IsCovered s a h.0 in
    let rest = session_reducer_all_cursor acts t h.1 in
    (
      omega (arith, first.0, rest.0),
      (
        IsCovered-≤ t.last_room_seq (session_reducer_all acts t).last_room_seq a rest.0 first.1,
        rest.1,
      ),
    )
