-- ===== src/Rooms/Ledger/Growth.antt =====
-- Steps of a room by the append of room-event-repository.ts: the event, its rows and the row of the
-- room before and after.
use learning_orbit.Prelude.{
  ℕ, suc, String, true, false, Option, none, some, List, [], ◌∷◌, ◌++◌, ◌≡◌, ◌⊎◌, refl, sym, ap,
  ◌∙◌, inl, inr, is_yes, is_yes_elim, arith,
}
use learning_orbit.Rooms.Store.{Event, OutboxEvent, Room, Event-discrete, Body-discrete}
use learning_orbit.Rooms.Ledger.Life.{Step}
use learning_orbit.Rooms.Work.{
  After, After-require, After-present, After-option, After-read, After-gets, After-give,
  After-change, After-weaken,
}
use learning_orbit.Rooms.Ledger.{
  Environment, Draft, with_causation, parse_row, parse_stored_event, find_by_causation,
  validate_draft, outbox_of, consume_job, has_event, has_job, inserted, insert, append,
  immutable_draft_matches,
}

module _ (env : Environment) where
  -- The repository's part of a step: the event takes the next sequence, and its outbox row comes
  -- with it.
  pub record Logged (r : Room) (e : Event) (r' : Room) : Type 0 where
    pub seq : e.room_seq ≡ r.row.next_room_seq
    pub room : e.room_id ≡ r.row.room_id
    pub accepted : env.accepts e ≡ true
    pub fresh : has_event e r.events ≡ false
    pub unused : with_causation e.causation_id r.events ≡ none
    pub logged : r'.events ≡ r.events ++ e ∷ []
    pub published : r'.outbox ≡ r.outbox ++ outbox_of e ∷ []
    pub advanced : r'.row.next_room_seq ≡ suc e.room_seq
    pub same_room : r'.row.room_id ≡ r.row.room_id
    pub same_deletion : r'.deletion_active ≡ r.deletion_active
    pub same_teacher : r'.row.teacher_id ≡ r.row.teacher_id
    pub same_members : r'.members ≡ r.members

  -- A new event of the command.
  abbrev pub Steps : String → Room → Event → Room → Type 0
  Steps causation r e r' =
      Logged r e r' × (e.causation_id ≡ causation) × Step r.row.status e.body r'.row.status

  -- A committed command: its event was stored before, or it is new.
  abbrev pub Grows : String → Room → Event → Room → Type 0
  Grows causation r e r' =
      ((r' ≡ r) × (with_causation causation r.events ≡ some e)) ⊎ Steps causation r e r'

  parse_row_lem : (e : Event) (o : OutboxEvent) (x : Event) → parse_row env e o ≡ some x → x ≡ e
  unfolding parse_row
  parse_row_lem e o x h =
      let same : (is_yes (Event-discrete o.envelope e) ≡ true) × (o.envelope ≡ x) = ground arith in
      sym same.1 ∙ is_yes_elim (Event-discrete o.envelope e) same.0

  pub parse_stored_event_lem :
      (os : List OutboxEvent) (e x : Event) → parse_stored_event env os e ≡ some x → x ≡ e
  unfolding parse_stored_event
  parse_stored_event_lem os e x h = grind (arith, parse_row_lem e)

  abbrev pub Found : String → Room → Option Event → Room → Type 0
  Found id r x r' = (r' ≡ r) × (with_causation id r.events ≡ x)

  -- What is found is the stored event of that causation, and finding it changes nothing.
  pub find_by_causation_lem :
      (id : String) (r : Room) → After (Found id r) (find_by_causation env id r)
  unfolding find_by_causation
  find_by_causation_lem id r = After-require _ _ _ _ r (λ _. After-gets _ _ _ r (
      After-option _ _ _ (with_causation id r.events) r (λ t. After-give _ none r (refl, t))
        (λ e t. After-gets _ _ _ r (
          After-present _ _ _ _ r (λ x p.
            After-give _ (some x) r
              (refl, t ∙ ap some (sym (parse_stored_event_lem r.outbox e x p))))))))

  -- A draft becomes an event of the room with its sequence.
  pub record Drafted (d : Draft) (id : String) (n : ℕ) (e : Event) : Type 0 where
    pub seq : e.room_seq ≡ n
    pub room : e.room_id ≡ id
    pub body : e.body ≡ d.body
    pub causation : e.causation_id ≡ d.causation_id
    pub actor : e.actor_id ≡ d.actor_id
    pub kind : e.actor_kind ≡ d.actor_kind
    pub role : e.actor_role ≡ d.actor_role
    pub revision : e.revision ≡ d.revision
    pub operation : e.operation ≡ d.operation
    pub accepted : env.accepts e ≡ true

  abbrev IsDrafted : Draft → String → ℕ → Room → Event → Room → Type 0
  IsDrafted d room_id seq r e r' = (r' ≡ r) × Drafted d room_id seq e

  validate_draft_lem :
      (now : Option ℕ) (event_id room_id : String) (seq : ℕ) (d : Draft) (r : Room)
      → After (IsDrafted d room_id seq r) (validate_draft env now event_id room_id seq d r)
  unfolding validate_draft
  validate_draft_lem now event_id room_id seq d r = After-present _ _ _ _ r (λ t _.
      After-present _ _ _ _ r (λ i _. After-require _ _ _ _ r (λ a. After-give _ _ r (
        refl,
        record {
          seq = refl;
          room = refl;
          body = refl;
          causation = refl;
          actor = refl;
          kind = refl;
          role = refl;
          revision = refl;
          operation = refl;
          accepted = a;
        },
      ))))

  -- What a draft appends when its causation is new: the event alone, in the room as it is.
  pub record Appended (d : Draft) (r : Room) (e : Event) (r' : Room) : Type 0 where
    pub drafted : Drafted d r.row.room_id r.row.next_room_seq e
    pub job : String
    pub fresh : has_event e r.events ≡ false
    pub unqueued : has_job (consume_job job e) r.jobs ≡ false
    pub result : r' ≡ inserted e (consume_job job e) r

  insert_lem :
      (d : Draft) (job_id : String) (r : Room) (e : Event)
      → Drafted d r.row.room_id r.row.next_room_seq e
      → After (Appended d r) (insert e (consume_job job_id e) r)
  unfolding insert
  insert_lem d job_id r e h = After-gets _ _ _ r (
      After-require _ _ _ _ r (λ t. After-change _ _ _ r (
        After-give _ e _ (record {
          drafted = h;
          job = job_id;
          result = refl;
          fresh = ground (arith, t);
          unqueued = ground (arith, t);
        }))))

  pub append-new :
      (now : Option ℕ) (event_id job_id : String) (d : Draft) (r : Room)
      → with_causation d.causation_id r.events ≡ none
      → After (Appended d r) (append env now event_id job_id d r)
  unfolding append
  append-new now event_id job_id d r none' = After-gets _ _ _ r (
      After-read _ (Drafted d r.row.room_id r.row.next_room_seq) _ _ r
        (validate_draft_lem now event_id r.row.room_id r.row.next_room_seq d r)
        (λ e h.
          After-read _ (λ x. with_causation e.causation_id r.events ≡ x) _ _ r
            (find_by_causation_lem e.causation_id r)
            (λ x f.
              let absent : x ≡ none =
                sym f ∙ ap (λ c. with_causation c r.events) h.causation ∙ none' in
              rw absent (insert_lem d job_id r e h))))

  -- A step of the room: its row and jobs change first, to those of `m`, and the event follows.
  pub Appended-Steps :
      (d : Draft) (r m r' : Room) (e : Event)
      → m.events ≡ r.events
      → m.outbox ≡ r.outbox
      → m.deletion_active ≡ r.deletion_active
      → m.row.teacher_id ≡ r.row.teacher_id
      → m.members ≡ r.members
      → m.row.room_id ≡ r.row.room_id
      → m.row.next_room_seq ≡ r.row.next_room_seq
      → Step r.row.status d.body m.row.status
      → with_causation d.causation_id r.events ≡ none
      → Appended d m e r'
      → Steps d.causation_id r e r'
  Appended-Steps d r m r' e es os del owner ms id next step none' a =
      let h = a.drafted in
      rw a.result (
        record {
          seq = h.seq ∙ next;
          room = h.room ∙ id;
          accepted = h.accepted;
          fresh = ap (has_event e) (sym es) ∙ a.fresh;
          unused = ap (λ c. with_causation c r.events) h.causation ∙ none';
          logged = ap (λ x. x ++ e ∷ []) es;
          published = ap (λ x. x ++ outbox_of e ∷ []) os;
          advanced = refl;
          same_room = id;
          same_deletion = del;
          same_teacher = owner;
          same_members = ms;
        },
        h.causation,
        rw h.body step,
      )

  -- What a draft does in general: its event is stored already, with the same body, or is new.
  abbrev pub Appends : Draft → Room → Event → Room → Type 0
  Appends d r e r' =
      ((r' ≡ r) × (with_causation d.causation_id r.events ≡ some e) × (e.body ≡ d.body))
      ⊎ (Appended d r e r' × (with_causation d.causation_id r.events ≡ none))

  matches-body : (e c : Event) → immutable_draft_matches e c ≡ true → e.body ≡ c.body
  unfolding immutable_draft_matches
  matches-body e c t = is_yes_elim (Body-discrete e.body c.body) (ground (arith, t))

  pub append_lem :
      (now : Option ℕ) (event_id job_id : String) (d : Draft) (r : Room)
      → After (Appends d r) (append env now event_id job_id d r)
  unfolding append
  append_lem now event_id job_id d r = After-gets _ _ _ r (
      After-read _ (Drafted d r.row.room_id r.row.next_room_seq) _ _ r
        (validate_draft_lem now event_id r.row.room_id r.row.next_room_seq d r)
        (λ e h.
          After-read _ (λ x. with_causation e.causation_id r.events ≡ x) _ _ r
            (find_by_causation_lem e.causation_id r)
            (λ x f.
              let found = sym (ap (λ c. with_causation c r.events) h.causation) ∙ f in
              After-option _ _ _ x r
                (λ t.
                  After-weaken _ _ _ (λ e' r' a. inr (a, found ∙ t)) (insert_lem d job_id r e h))
                (λ p t.
                  After-require _ _ _ _ r
                    (λ m. After-give _ p r (inl (refl, found ∙ t, matches-body p e m ∙ h.body)))))))
