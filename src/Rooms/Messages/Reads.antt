-- ===== src/Rooms/Messages/Reads.antt =====
-- The checks of message-service.ts, and what each tells of the room.
use learning_orbit.Prelude.{
  ℕ, String, Bool, true, Option, none, some, List, ◌≡◌, refl, sym, ◌∙◌, ap, is_yes_elim, arith,
  ===_iff,
}
use learning_orbit.Wire.{opened, RoomCommand}
use learning_orbit.Rooms.Store.{Event, Room, Status-discrete}
use learning_orbit.Rooms.Work.{
  After, Reads, Anything, After-read, After-gets, After-present, After-give, After-throw,
  After-require, After-required, After-got, After-branch,
}
use learning_orbit.Rooms.Ledger.{Environment, Draws}
use learning_orbit.Rooms.Messages.{
  AuthSession, student, teacher, actor_of, is_student, authorize_student, assert_teacher_session,
  retry, assert_writable, read_uuid_array, assert_reply, assert_mentions_and_reply, base_of,
  latest_message, latest, is_retry, live, message_id_of,
}
use learning_orbit.Rooms.Messages.Commands.{authorize, prior_of}

module _ (env : Environment) where
  pub authorize_student-Reads :
      (principal : AuthSession) (session : Option String) (r : Room)
      → After (Reads r Anything) (authorize_student env principal session r)
  unfolding authorize_student
  authorize_student-Reads (teacher id actor) session r = After-throw _ _ r
  authorize_student-Reads (student room_id member actor) session r =
      After-gets _ _ _ r (After-require _ _ _ _ r (λ _. After-required _ _ _ r (λ _. (refl, tt))))

  pub assert_teacher_session-Reads :
      (principal : AuthSession) (session : Option String) (r : Room)
      → After (Reads r Anything) (assert_teacher_session env principal session r)
  unfolding assert_teacher_session
  assert_teacher_session-Reads (student room_id member actor) session r = After-throw _ _ r
  assert_teacher_session-Reads (teacher id actor) session r =
      After-gets _ _ _ r (After-require _ _ _ _ r (λ _. After-required _ _ _ r (λ _. (refl, tt))))

  pub assert_writable-Reads :
      (draws : Draws) (r : Room)
      → After (Reads r (λ _. r.row.status ≡ opened)) (assert_writable env draws r)
  unfolding assert_writable
  assert_writable-Reads draws r = After-present _ _ _ _ r (λ now _. After-gets _ _ _ r (
      After-require _ _ _ _ r (λ t.
        After-give _ now r
          (refl, is_yes_elim (Status-discrete r.row.status opened) (ground (arith, t))))))

  pub read_uuid_array-Reads :
      (ids : Option (List String)) (max : ℕ) (r : Room)
      → After (Reads r Anything) (read_uuid_array env ids max r)
  unfolding read_uuid_array
  read_uuid_array-Reads none max r = After-give _ _ r (refl, tt)
  read_uuid_array-Reads (some ids) max r =
      After-require _ _ _ _ r (λ _. After-give _ _ r (refl, tt))

  pub latest_message-Reads :
      (id : String) (r : Room)
      → After (Reads r (λ x. x ≡ latest id r.events)) (latest_message env id r)
  unfolding latest_message
  latest_message-Reads id r = After-require _ _ _ _ r (λ _. After-got _ _ r (refl, refl))

  pub assert_reply-Reads :
      (id : Option String) (r : Room) → After (Reads r Anything) (assert_reply env id r)
  unfolding assert_reply
  assert_reply-Reads none r = After-give _ _ r (refl, tt)
  assert_reply-Reads (some id) r = After-require _ _ _ _ r (λ _.
      After-read _ (λ x. x ≡ latest id r.events) _ _ r (latest_message-Reads id r)
        (λ x _. After-required _ _ _ r (λ _. (refl, tt))))

  pub assert_mentions-Reads :
      (mentions : List String) (reply_to : Option String) (r : Room)
      → After (Reads r Anything) (assert_mentions_and_reply env mentions reply_to r)
  unfolding assert_mentions_and_reply
  assert_mentions-Reads mentions reply_to r =
      After-require _ _ _ _ r
        (λ _. After-gets _ _ _ r (After-require _ _ _ _ r (λ _. assert_reply-Reads reply_to r)))

  -- A stored event is that of the same command.
  abbrev pub IsRetried : String → String → Option Event → Type 0
  IsRetried expected actor none = Unit
  IsRetried expected actor (some e) = is_retry env expected actor e ≡ true

  pub retry-Reads :
      (o : Option Event) (expected actor : String) (r : Room)
      → After (Reads r (λ x. (x ≡ o) × IsRetried expected actor x)) (retry env o expected actor r)
  unfolding retry
  retry-Reads none expected actor r = After-give _ none r (refl, (refl, tt))
  retry-Reads (some e) expected actor r =
      After-require _ _ _ _ r (λ t. After-give _ (some e) r (refl, (refl, t)))

  pub base_of-Reads :
      (base : Option ℕ) (r : Room) → After (Reads r (λ n. base ≡ some n)) (base_of env base r)
  unfolding base_of
  base_of-Reads none r = After-throw _ _ r
  base_of-Reads (some n) r = After-require _ _ _ _ r (λ _. After-give _ n r (refl, refl))

  module _ (principal : AuthSession) (session : Option String) (draws : Draws)
      (c : RoomCommand) where
    pub authorize-Reads :
        (r : Room) → After (Reads r Anything) (authorize env principal session draws c r)
    authorize-Reads r =
        After-branch _ (is_student principal) _ _ r (authorize_student-Reads principal session r)
          (assert_teacher_session-Reads principal session r)

    -- The message that a command changes: its newest row is live, and the command names its revision.
    pub record Prior (r : Room) (e : Event) : Type 0 where
      pub newest : live (latest (message_id_of env c.payload.message_id) r.events) ≡ some e
      pub current : c.base_revision ≡ some e.revision
      pub owned : is_student principal ≡ true → e.actor_id ≡ actor_of principal

    pub prior_of-Reads :
        (owner_only : Bool) (r : Room)
        → After
            (Reads r (λ e. (owner_only ≡ true) × Prior r e))
            (prior_of env principal session draws c owner_only r)
    unfolding prior_of
    prior_of-Reads owner_only r =
        let id = message_id_of env c.payload.message_id in
        After-read _ (λ n. c.base_revision ≡ some n) _ _ r (base_of-Reads c.base_revision r)
          (λ n base.
            After-read _ (λ x. x ≡ latest id r.events) _ _ r (latest_message-Reads id r)
              (λ x found. After-present _ _ _ _ r (λ e alive. After-require _ _ _ _ r (λ may.
                After-require _ _ _ _ r (λ own. After-require _ _ _ _ r (λ same. After-give _ e r (
                  refl,
                  (
                    may,
                    record {
                      newest = ap live (sym found) ∙ alive;
                      current = base ∙ ap some (ground (arith, same));
                      owned = λ s. ground (arith, own, s, ===_iff e.actor_id (actor_of principal));
                    },
                  ),
                )))))))
