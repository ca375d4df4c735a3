-- ===== src/Rooms/Messages/Growth.antt =====
-- The work of message-service.ts on the rows of its room.
use learning_orbit.Prelude.{
  ℕ, ◌+◌, String, true, Option, none, some, ◌≡◌, refl, sym, ◌∙◌, ◌⊎◌, subst, ===_refl, inl, inr, ap,
}
use learning_orbit.Wire.{opened, human, RoomCommand}
use learning_orbit.Rooms.Store.{Event, Room, message_of, body_type}
use learning_orbit.Rooms.Work.{
  Work, After, Anything, After-then, After-read, After-lift, After-give, After-require,
  After-stored, After-weaken, stored_or, ◌>>=◌,
}
use learning_orbit.Rooms.Ledger.{Environment, Draws, Draft, with_causation, find_by_causation}
use learning_orbit.Rooms.Ledger.Life.{Step, adding, revising, retracting}
use learning_orbit.Rooms.Ledger.Growth.{
  Grows, Steps, Drafted, Appended-Steps, append-new, find_by_causation_lem,
}
use learning_orbit.Rooms.Messages.{
  AuthSession, student, teacher, actor_of, is_student, retry, is_retry, is_participant,
  message_id_of,
}
use learning_orbit.Rooms.Messages.Commands.{
  role_of, append_drawn, add_new, add_work, revise_new, revise_work, retract_new, retract_work,
}
use learning_orbit.Rooms.Messages.Reads.{
  authorize_student-Reads, assert_writable-Reads, read_uuid_array-Reads, assert_mentions-Reads,
  retry-Reads, IsRetried, authorize-Reads, prior_of-Reads, Prior,
}

module _ (env : Environment) where
  module _ (principal : AuthSession) (session : Option String) (draws : Draws)
      (c : RoomCommand) where
    -- The retry and the rest of a command's work.
    pub stored_or_lem :
        (Q : Event → Room → Type 0) (expected : String) (k : Work Event) (r : Room)
        → (with_causation c.command_id r.events ≡ none → After Q (k r))
        → After
            (λ e r'.
              ((r' ≡ r)
                × (with_causation c.command_id r.events ≡ some e)
                × (is_retry env expected (actor_of principal) e ≡ true))
              ⊎ Q e r')
            ((do
              existing ← find_by_causation env c.command_id
              stored ← retry env existing expected (actor_of principal)
              stored_or stored k)
              r)
    stored_or_lem Q expected k r h =
        After-read _ (λ x. with_causation c.command_id r.events ≡ x) _ _ r
          (find_by_causation_lem env c.command_id r)
          (λ x found.
            After-read _ (λ y. (y ≡ x) × IsRetried env expected (actor_of principal) y) _ _ r
              (retry-Reads env x expected (actor_of principal) r)
              (λ y (same, again).
                After-stored _ y k r
                  (λ none'. After-weaken _ _ _ (λ e r' s. inr s) (h (found ∙ sym same ∙ none')))
                  (λ e e'. inl (
                    refl,
                    found ∙ sym same ∙ e',
                    subst (IsRetried env expected (actor_of principal)) e' again,
                  ))))

    stored_or-Grows :
        (expected : String) (k : Work Event) (r : Room)
        → (with_causation c.command_id r.events ≡ none → After (Steps env c.command_id r) (k r))
        → After (Grows env c.command_id r) (
            (do
              existing ← find_by_causation env c.command_id
              stored ← retry env existing expected (actor_of principal)
              stored_or stored k)
              r)
    stored_or-Grows expected k r h =
        After-weaken _ _ _ forget (stored_or_lem (Steps env c.command_id r) expected k r h)
      where
        forget :
            (e : Event) (r' : Room)
            → ((r' ≡ r)
                × (with_causation c.command_id r.events ≡ some e)
                × (is_retry env expected (actor_of principal) e ≡ true))
              ⊎ Steps env c.command_id r e r'
            → Grows env c.command_id r e r'
        forget e r' (inl g) = inl (g.0, g.1)
        forget e r' (inr s) = inr s

    -- What a retry of the command checks holds of the event of its draft.
    Drafted-is_retry :
        (expected : String) (d : Draft) (id : String) (n : ℕ) (e : Event)
        → Drafted env d id n e
        → body_type d.body ≡ expected
        → d.actor_id ≡ actor_of principal
        → d.actor_kind ≡ human
        → is_participant d.actor_role ≡ true
        → is_retry env expected (actor_of principal) e ≡ true
    Drafted-is_retry expected d id n e h b a k p =
        rw
          (
            h.body,
            b,
            h.actor,
            a,
            h.kind,
            k,
            h.role,
            p,
            ===_refl expected,
            ===_refl (actor_of principal),
          )
          refl

    role_of_participant : is_participant (role_of principal) ≡ true
    role_of_participant = participant principal
      where
        participant : (p : AuthSession) → is_participant (role_of p) ≡ true
        participant (student room member actor) = refl
        participant (teacher id actor) = refl

    -- A retry of the command finds its own event.
    abbrev pub Again : String → Event → Type 0
    Again expected e = is_retry env expected (actor_of principal) e ≡ true

    pub add_new-Steps :
        (r : Room)
        → with_causation c.command_id r.events ≡ none
        → After
            (λ e r'. Steps env c.command_id r e r' × Again "message.added" e)
            (add_new env principal session draws c r)
    unfolding add_new body_type
    add_new-Steps r none' =
        After-read _ (λ _. r.row.status ≡ opened) _ _ r (assert_writable-Reads env draws r)
          (λ _ status. After-read _ Anything _ _ r (read_uuid_array-Reads env _ _ r) (λ media _.
            After-read _ Anything _ _ r (read_uuid_array-Reads env _ _ r) (λ mentions _.
              After-require _ _ _ _ r (λ _.
                After-read _ Anything _ _ r (assert_mentions-Reads env _ _ r) (λ _ _.
                  After-lift _ _ _ r (λ _.
                    After-then _ (λ e r'. Steps env c.command_id r e r' × Again "message.added" e) _
                      _ r
                      (After-weaken _ _ _
                        (λ e r' a. (
                          Appended-Steps env _ r r r' e refl refl refl refl refl refl refl
                              (rw status adding) none' a,
                          Drafted-is_retry "message.added" _ _ _ e a.drafted refl refl refl refl,
                        ))
                        (append-new env _ _ _ _ r none'))
                      (λ e r' s. After-lift _ _ _ r' (λ _. After-give _ e r' s))))))))

    pub add_work-Grows :
        (r : Room) → After (Grows env c.command_id r) (add_work env principal session draws c r)
    unfolding add_work
    add_work-Grows r =
        After-read _ Anything _ _ r (authorize_student-Reads env principal session r) (λ _ _.
          stored_or-Grows "message.added" _ r
            (λ n. After-weaken _ _ _ (λ e r' s. s.0) (add_new-Steps r n)))

    -- A step that takes a message of the room from one revision to the next.
    abbrev pub Supersedes : Room → Event → Room → Type 0
    Supersedes r e r' =
        Steps env c.command_id r e r'
        × ((p : Event) × Prior env principal session draws c r p
            × (e.revision ≡ p.revision + 1)
            × (message_of e.body ≡ some (message_id_of env c.payload.message_id)))

    append_drawn-Supersedes :
        (expected : String) (d : Draft) (p : Event) (r : Room)
        → body_type d.body ≡ expected
        → d.actor_id ≡ actor_of principal
        → d.actor_kind ≡ human
        → is_participant d.actor_role ≡ true
        → Step opened d.body opened
        → r.row.status ≡ opened
        → with_causation d.causation_id r.events ≡ none
        → d.causation_id ≡ c.command_id
        → Prior env principal session draws c r p
        → d.revision ≡ p.revision + 1
        → message_of d.body ≡ some (message_id_of env c.payload.message_id)
        → After
            (λ e r'. Supersedes r e r' × Again expected e)
            (append_drawn env principal session draws c d r)
    append_drawn-Supersedes expected d p r t actor kind role step status none' same prior next id =
        After-weaken _ _ _
          (λ e r' a.
            let own : Step r.row.status d.body r.row.status = rw status step in
            let steps =
              Appended-Steps env d r r r' e refl refl refl refl refl refl refl own none' a in
            (
              (
                rw (sym same) steps,
                (p, prior, a.drafted.revision ∙ next, ap message_of a.drafted.body ∙ id),
              ),
              Drafted-is_retry expected d _ _ e a.drafted t actor kind role,
            ))
          (append-new env _ _ _ d r none')

    pub revise_new-Supersedes :
        (r : Room)
        → with_causation c.command_id r.events ≡ none
        → After
            (λ e r'.
              (Supersedes r e r' × Again "message.revised" e) × (is_student principal ≡ true))
            (revise_new env principal session draws c r)
    unfolding revise_new message_of body_type
    revise_new-Supersedes r none' =
        After-read _ (λ _. r.row.status ≡ opened) _ _ r (assert_writable-Reads env draws r)
          (λ _ status.
            After-read _
              (λ p. (is_student principal ≡ true) × Prior env principal session draws c r p) _ _ r
              (prior_of-Reads env principal session draws c _ r)
              (λ p (own, prior).
                After-read _ Anything _ _ r (read_uuid_array-Reads env _ _ r) (λ mentions _.
                  After-require _ _ _ _ r (λ _.
                    After-read _ Anything _ _ r (assert_mentions-Reads env _ _ r) (λ _ _.
                      After-weaken _ _ _ (λ e r' s. (s, own))
                        (append_drawn-Supersedes "message.revised" _ p r refl refl refl refl
                          revising status none' refl prior refl refl))))))

    pub retract_new-Supersedes :
        (r : Room)
        → with_causation c.command_id r.events ≡ none
        → After
            (λ e r'. Supersedes r e r' × Again "message.retracted" e)
            (retract_new env principal session draws c r)
    unfolding retract_new message_of body_type
    retract_new-Supersedes r none' =
        After-read _ (λ _. r.row.status ≡ opened) _ _ r (assert_writable-Reads env draws r)
          (λ _ status.
            After-read _ (λ p. (true ≡ true) × Prior env principal session draws c r p) _ _ r
              (prior_of-Reads env principal session draws c _ r)
              (λ p (_, prior).
                append_drawn-Supersedes "message.retracted" _ p r refl refl refl role_of_participant
                  retracting status none' refl prior refl refl))

    pub revise_work-Grows :
        (r : Room) → After (Grows env c.command_id r) (revise_work env principal session draws c r)
    unfolding revise_work
    revise_work-Grows r =
        After-read _ Anything _ _ r (authorize-Reads env principal session draws c r) (λ _ _.
          stored_or-Grows "message.revised" _ r
            (λ n. After-weaken _ _ _ (λ e r' s. s.0.0.0) (revise_new-Supersedes r n)))

    pub retract_work-Grows :
        (r : Room) → After (Grows env c.command_id r) (retract_work env principal session draws c r)
    unfolding retract_work
    retract_work-Grows r =
        After-read _ Anything _ _ r (authorize-Reads env principal session draws c r) (λ _ _.
          stored_or-Grows "message.retracted" _ r
            (λ n. After-weaken _ _ _ (λ e r' s. s.0.0) (retract_new-Supersedes r n)))
