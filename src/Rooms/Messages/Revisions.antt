-- ===== src/Rooms/Messages/Revisions.antt =====
-- The revisions of a message in message-service.ts.
use learning_orbit.Prelude.{
  ◌+◌, ◌<◌, String, true, false, Option, none, some, List, [], ◌∷◌, ◌++◌, ◌≡◌, ◌⊎◌, refl, ap, ◌∙◌,
  inl, inr, arith, Bool-cases, ===_refl,
}
use learning_orbit.Wire.{RoomCommand}
use learning_orbit.Rooms.Store.{Event, Room, message_of}
use learning_orbit.Rooms.Work.{After, Anything, After-read, After-weaken}
use learning_orbit.Rooms.Ledger.{Environment, Draws, with_causation}
use learning_orbit.Rooms.Messages.{
  AuthSession, first_of, concerns, latest, live, message_id_of, is_student, actor_of,
}
use learning_orbit.Rooms.Messages.Commands.{revise_work, retract_work}
use learning_orbit.Rooms.Messages.Reads.{authorize-Reads}
use learning_orbit.Rooms.Messages.Growth.{
  Supersedes, Again, stored_or_lem, revise_new-Supersedes, retract_new-Supersedes,
}

-- The newest row has a smaller revision, if there is one.
abbrev IsBefore : Option Event → Event → Type 0
IsBefore none e = Unit
IsBefore (some p) e = p.revision < e.revision

first_of-IsBefore :
    (x : Event) (o : Option Event) (e : Event)
    → IsBefore (first_of x o) e
    → IsBefore o e × (first_of x (some e) ≡ some e)
first_of-IsBefore x none e h = (tt, ground (arith, h))
first_of-IsBefore x (some p) e h = (ground (arith, h), ground (arith, h))

-- A row with a greater revision becomes the newest.
latest-append :
    (id : String) (es : List Event) (e : Event)
    → concerns id e ≡ true
    → IsBefore (latest id es) e
    → latest id (es ++ e ∷ []) ≡ some e
unfolding latest
latest-append id [] e c h = rw c refl
latest-append id (x ∷ es) e c h = elim (Bool-cases (concerns id x)) [
  | inl t ↦
      let (before, first) = first_of-IsBefore x (latest id es) e (rw t at h) in
      let rest = latest-append id es e c before in rw (t, rest) first
  | inr n ↦ rw n (latest-append id es e c (rw n at h))
]

Prior-IsBefore :
    (o : Option Event) (p e : Event) → live o ≡ some p → e.revision ≡ p.revision + 1 → IsBefore o e
Prior-IsBefore none p e h n = tt
Prior-IsBefore (some q) p e h n = let same : q ≡ p = ground (arith, h) in rw same (omega (arith, n))

concerns_lem : (id : String) (e : Event) → message_of e.body ≡ some id → concerns id e ≡ true
concerns_lem id e h = rw (concerns, h) (===_refl id)

module _ (env : Environment) (principal : AuthSession) (session : Option String) (draws : Draws)
    (c : RoomCommand) where
  abbrev pub target : String
  target = message_id_of env c.payload.message_id

  -- The principal is a student and wrote this row; or is a teacher, or wrote it.
  abbrev pub IsAuthor : Event → Type 0
  IsAuthor p = (is_student principal ≡ true) × (p.actor_id ≡ actor_of principal)

  abbrev pub MayRetract : Event → Type 0
  MayRetract p = (is_student principal ≡ false) ⊎ (p.actor_id ≡ actor_of principal)

  -- A change of a message: the row before was its newest and live one, of the revision that the
  -- command names, and the principal may change it; the new row is the next revision, and the newest.
  pub record Revises (May : Event → Type 0) (r : Room) (e : Event) (r' : Room) : Type 0 where
    pub prior : Event
    pub newest : live (latest target r.events) ≡ some prior
    pub current : c.base_revision ≡ some prior.revision
    pub owned : May prior
    pub next : e.revision ≡ prior.revision + 1
    pub appended : r'.events ≡ r.events ++ e ∷ []
    pub latest_now : latest target r'.events ≡ some e

  Supersedes-Revises :
      (May : Event → Type 0) (r : Room) (e : Event) (r' : Room)
      → ((p : Event) → MayRetract p → May p)
      → Supersedes env principal session draws c r e r'
      → Revises May r e r'
  Supersedes-Revises May r e r' may (steps, (p, prior, next, id)) =
      let logged = steps.0.logged in
      record {
        prior = p;
        newest = prior.newest;
        current = prior.current;
        owned = may p (elim (Bool-cases (is_student principal)) [
          | inl t ↦ inr (prior.owned t)
          | inr n ↦ inl n
        ]);
        next = next;
        appended = logged;
        latest_now =
            ap (latest target) logged
            ∙ latest-append target r.events e (concerns_lem target e id)
                (Prior-IsBefore (latest target r.events) p e prior.newest next);
      }

  author : is_student principal ≡ true → (p : Event) → MayRetract p → IsAuthor p
  author s p (inl n) = ground (arith, s, n)
  author s p (inr own) = (s, own)

  -- The outcome of a change: the command's stored event, or a revision of a message that the
  -- principal may change.
  abbrev pub Changes : (Event → Type 0) → Room → Event → Room → Type 0
  Changes May r e r' =
      ((r' ≡ r) × (with_causation c.command_id r.events ≡ some e)) ⊎ Revises May r e r'

  -- No update is lost: whenever a revision succeeds, it is a retry, which changes nothing and answers
  -- the stored event; or the principal is a student and the author of the newest live revision of
  -- the message, which is the base that the command names, and its event, the next revision, is the
  -- newest afterwards.
  pub revise_work-Changes :
      (r : Room) → After (Changes IsAuthor r) (revise_work env principal session draws c r)
  unfolding revise_work
  revise_work-Changes r =
      After-read _ Anything _ _ r (authorize-Reads env principal session draws c r) (λ _ _.
        After-weaken _ _ _ as_Changes (
          stored_or_lem env principal session draws c _ "message.revised" _ r
            (revise_new-Supersedes env principal session draws c r)))
    where
      as_Changes :
          (e : Event) (r' : Room)
          → ((r' ≡ r)
              × (with_causation c.command_id r.events ≡ some e)
              × Again env principal session draws c "message.revised" e)
            ⊎ ((Supersedes env principal session draws c r e r'
                  × Again env principal session draws c "message.revised" e)
                × (is_student principal ≡ true))
          → Changes IsAuthor r e r'
      as_Changes e r' (inl g) = inl (g.0, g.1)
      as_Changes e r' (inr s) = inr (Supersedes-Revises IsAuthor r e r' (author s.1) s.0.0)

  -- The same of a retraction, which the teacher may give for any student.
  pub retract_work-Changes :
      (r : Room) → After (Changes MayRetract r) (retract_work env principal session draws c r)
  unfolding retract_work
  retract_work-Changes r =
      After-read _ Anything _ _ r (authorize-Reads env principal session draws c r) (λ _ _.
        After-weaken _ _ _ as_Changes (
          stored_or_lem env principal session draws c _ "message.retracted" _ r
            (retract_new-Supersedes env principal session draws c r)))
    where
      as_Changes :
          (e : Event) (r' : Room)
          → ((r' ≡ r)
              × (with_causation c.command_id r.events ≡ some e)
              × Again env principal session draws c "message.retracted" e)
            ⊎ (Supersedes env principal session draws c r e r'
                × Again env principal session draws c "message.retracted" e)
          → Changes MayRetract r e r'
      as_Changes e r' (inl g) = inl (g.0, g.1)
      as_Changes e r' (inr s) = inr (Supersedes-Revises MayRetract r e r' (λ _ m. m) s.0)
