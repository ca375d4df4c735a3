-- ===== src/Rooms/Lifecycle/Growth.antt =====
-- The work of lifecycle-service.ts on the rows of its room.
use learning_orbit.Prelude.{
  ℕ, String, true, Option, none, some, List, ◌≡◌, refl, sym, ◌∙◌, inl, inr, subst, ===_iff,
  is_yes_elim,
}
use learning_orbit.Wire.{Status, scheduled, opened, paused, closed}
use learning_orbit.Rooms.Store.{Body, room_closed, Event, Room, Job, Status-discrete}
use learning_orbit.Rooms.Work.{
  Work, After, Reads, After-then, After-read, After-gets, After-present, After-give, After-require,
  After-required, After-stored, After-change, After-weaken, stored_or, change, ◌>>=◌, ◌>>◌,
}
use learning_orbit.Rooms.Ledger.{Environment, Draws, with_causation}
use learning_orbit.Rooms.Ledger.Life.{Step, opening, closing_open, closing_paused}
use learning_orbit.Rooms.Ledger.Growth.{
  Grows, Steps, Appended-Steps, append-new, find_by_causation_lem,
}
use learning_orbit.Rooms.Lifecycle.{
  assert_manual_retry, is_open, require_owner, existing_manual_retry, append_manual,
}
use learning_orbit.Rooms.Lifecycle.Commands.{
  enqueue, open_new, open_work, transition_new, simple_transition, close_new, close_work,
}

assert_manual_retry-Reads :
    (o : Option Event) (expected room_id teacher_id : String) (r : Room)
    → After (Reads r (λ x. x ≡ o)) (assert_manual_retry o expected room_id teacher_id r)
unfolding assert_manual_retry
assert_manual_retry-Reads none expected room_id teacher_id r = After-give _ none r (refl, refl)
assert_manual_retry-Reads (some e) expected room_id teacher_id r =
    After-require _ _ _ _ r (λ _. After-give _ (some e) r (refl, refl))

Step-at : {s s' t : Status} {b : Body} → s ≡ s' → Step s' b t → Step s b t
Step-at {t = t} {b = b} q step = subst (λ x. Step x b t) (sym q) step

pub closing-Step : (s : Status) (t : String) → is_open s ≡ true → Step s (room_closed t) closed
closing-Step scheduled t h = cc
closing-Step opened t h = closing_open
closing-Step paused t h = closing_paused
closing-Step closed t h = cc

module _ (env : Environment) where
  -- Only the room's jobs change.
  requeue :
      (c : String) (r r' : Room) (e : Event) (js : List Job)
      → Steps env c r e r'
      → Steps env c r e (record r' { jobs = js })
  requeue c r r' e js (l, same, step) = (
    record {
      seq = l.seq;
      room = l.room;
      accepted = l.accepted;
      fresh = l.fresh;
      unused = l.unused;
      logged = l.logged;
      published = l.published;
      advanced = l.advanced;
      same_room = l.same_room;
      same_deletion = l.same_deletion;
      same_teacher = l.same_teacher;
      same_members = l.same_members;
    },
    same,
    step,
  )

  enqueue-Steps :
      (c : String) (r r' : Room) (e : Event) (j : Job)
      → Steps env c r e r'
      → After (λ _ m. Steps env c r e m) (enqueue j r')
  unfolding enqueue change After
  enqueue-Steps c r r' e j s =
      After-gets _ _ _ r' (After-require _ _ _ _ r' (λ _. requeue c r r' e _ s))

  module _ (room_id teacher_id causation_id : String) (session : Option String) where
    pub require_owner-Reads :
        (r : Room)
        → After
            (Reads r (λ _. r.row.teacher_id ≡ teacher_id))
            (require_owner env room_id teacher_id causation_id session r)
    unfolding require_owner
    require_owner-Reads r = After-gets _ _ _ r (
        After-require _ _ _ _ r
          (λ t. After-required _ _ _ r (λ _. (refl, (===_iff r.row.teacher_id teacher_id).0 t))))

    pub existing_retry-Reads :
        (expected : String) (r : Room)
        → After
            (Reads r (λ x. with_causation causation_id r.events ≡ x))
            (existing_manual_retry env room_id teacher_id causation_id session expected r)
    unfolding existing_manual_retry
    existing_retry-Reads expected r =
        After-read _ (λ x. with_causation causation_id r.events ≡ x) _ _ r
          (find_by_causation_lem env causation_id r)
          (λ x found.
            After-weaken _ _ _ (λ y r' t. (t.0, found ∙ sym t.1))
              (assert_manual_retry-Reads x expected room_id teacher_id r))

    -- The owner's check, the retry and the rest of a command's work.
    manual-Grows :
        (expected : String) (k : Work Event) (r : Room)
        → (with_causation causation_id r.events ≡ none → After (Steps env causation_id r) (k r))
        → After (Grows env causation_id r) (
            (do
              require_owner env room_id teacher_id causation_id session
              stored ← existing_manual_retry env room_id teacher_id causation_id session expected
              stored_or stored k)
              r)
    manual-Grows expected k r h =
        After-read _ (λ _. r.row.teacher_id ≡ teacher_id) _ _ r (require_owner-Reads r)
          (λ _ _.
            After-read _ (λ x. with_causation causation_id r.events ≡ x) _ _ r
              (existing_retry-Reads expected r)
              (λ x found.
                After-stored _ x k r (λ n. After-weaken _ _ _ (λ e r' s. inr s) (h (found ∙ n)))
                  (λ e t. inl (refl, found ∙ t))))

    -- The row and the jobs change first, and the event of the step follows.
    append_manual-Steps :
        (draws : Draws) (body : Body) (now : ℕ) (r m : Room)
        → m.events ≡ r.events
        → m.outbox ≡ r.outbox
        → m.deletion_active ≡ r.deletion_active
        → m.row.teacher_id ≡ r.row.teacher_id
        → m.members ≡ r.members
        → m.row.room_id ≡ r.row.room_id
        → m.row.next_room_seq ≡ r.row.next_room_seq
        → Step r.row.status body m.row.status
        → with_causation causation_id r.events ≡ none
        → After
            (Steps env causation_id r)
            (append_manual env room_id teacher_id causation_id session draws body now m)
    append_manual-Steps draws body now r m es os del owner ms id next step none' =
        After-weaken _ _ _
          (λ e r' a. Appended-Steps env _ r m r' e es os del owner ms id next step none' a)
          (append-new env _ _ _ _ m (rw es none'))

    open_new-Steps :
        (draws : Draws) (r : Room)
        → with_causation causation_id r.events ≡ none
        → After
            (Steps env causation_id r)
            (open_new env room_id teacher_id causation_id session draws r)
    unfolding open_new
    open_new-Steps draws r none' = After-gets _ _ _ r (
        After-require _ _ _ _ r (λ t. After-present _ _ _ _ r (λ now _. After-change _ _ _ r (
          After-then _ (Steps env causation_id r) _ _ _
            (append_manual-Steps draws _ now r _ refl refl refl refl refl refl refl
              (Step-at (is_yes_elim (Status-discrete r.row.status scheduled) t) opening) none')
            (λ e r' s.
              After-then _ (λ _ m. Steps env causation_id r e m) _ _ r'
                (enqueue-Steps causation_id r r' e _ s) (λ _ m s'. After-give _ e m s'))))))

    transition_new-Steps :
        (required next : Status) (body : String → Body) (draws : Draws) (r : Room)
        → ((t : String) → Step required (body t) next)
        → with_causation causation_id r.events ≡ none
        → After
            (Steps env causation_id r)
            (transition_new env room_id teacher_id causation_id session required next body draws r)
    unfolding transition_new
    transition_new-Steps required next body draws r step none' = After-gets _ _ _ r (
        After-require _ _ _ _ r (λ t. After-present _ _ _ _ r (λ now _. After-change _ _ _ r (
          append_manual-Steps draws _ now r _ refl refl refl refl refl refl refl
            (Step-at (is_yes_elim (Status-discrete r.row.status required) t)
              (step (env.to_iso now)))
            none'))))

    close_new-Steps :
        (draws : Draws) (r : Room)
        → with_causation causation_id r.events ≡ none
        → After
            (Steps env causation_id r)
            (close_new env room_id teacher_id causation_id session draws r)
    unfolding close_new
    close_new-Steps draws r none' = After-gets _ _ _ r (
        After-require _ _ _ _ r (λ t. After-present _ _ _ _ r (λ now _. After-change _ _ _ r (
          After-change _ _ _ _ (
            append_manual-Steps draws _ now r _ refl refl refl refl refl refl refl
              (closing-Step r.row.status (env.to_iso now) t) none')))))

    pub open_work-Grows :
        (draws : Draws) (r : Room)
        → After
            (Grows env causation_id r)
            (open_work env room_id teacher_id causation_id session draws r)
    unfolding open_work
    open_work-Grows draws r = manual-Grows "room.opened" _ r (open_new-Steps draws r)

    pub simple_transition-Grows :
        (expected : String) (required next : Status) (body : String → Body) (draws : Draws)
        (r : Room)
        → ((t : String) → Step required (body t) next)
        → After (Grows env causation_id r) (
            simple_transition env room_id teacher_id causation_id session expected required next
              body draws r)
    unfolding simple_transition
    simple_transition-Grows expected required next body draws r step =
        manual-Grows expected _ r (transition_new-Steps required next body draws r step)

    pub close_work-Grows :
        (draws : Draws) (r : Room)
        → After
            (Grows env causation_id r)
            (close_work env room_id teacher_id causation_id session draws r)
    unfolding close_work
    close_work-Grows draws r = manual-Grows "room.closed" _ r (close_new-Steps draws r)
