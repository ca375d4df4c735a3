-- ===== src/Rooms/Ledger/Mirror.antt =====
-- The ledger of a room as room-event-repository.ts keeps it: the numbers of its events, the outbox
-- beside them, and the status that they lead to.
use learning_orbit.Prelude.{
  ℕ, suc, ◌+◌, ◌≤◌, String, true, false, List, [], ◌∷◌, ◌++◌, map, ◌≡◌, refl, sym, ap, ◌∙◌, subst,
  inl, inr, length, length-append, All, All-append, AreDistinct, append-AreDistinct, includes,
  max_safe_integer, arith, get, put-All, get-All, Option-cases, if-cases, append-nil, append_assoc,
  some, put, get-put, Bool-cases, ◌===◌, ===_iff, if◌then◌else◌,
}
use learning_orbit.Wire.{scheduled}
use learning_orbit.Rooms.Store.{Event, Room}
use learning_orbit.Rooms.Work.{
  Work, Outcome, ok, fail, After, After-gets, After-require, After-weaken,
}
use learning_orbit.Rooms.Ledger.{
  Environment, is_safe_positive, outbox_of, has_event, transact, locked, commit,
}
use learning_orbit.Rooms.Ledger.Life.{Life, Life-append}
use learning_orbit.Rooms.Ledger.Growth.{Grows, Steps}

abbrev pub Numbered : String → ℕ → List Event → Type 0
Numbered room lo [] = Unit
Numbered room lo (e ∷ es) =
    (e.room_seq ≡ suc lo)
    × (suc lo ≤ max_safe_integer)
    × (e.room_id ≡ room)
    × Numbered room (suc lo) es

Numbered-append :
    (room : String) (lo : ℕ) (es : List Event) (e : Event)
    → Numbered room lo es
    → e.room_seq ≡ suc (lo + length es)
    → e.room_seq ≤ max_safe_integer
    → e.room_id ≡ room
    → Numbered room lo (es ++ e ∷ [])
Numbered-append room lo [] e n s b r = (omega (arith, s), omega (arith, s, b), r, tt)
Numbered-append room lo (x ∷ es) e (xs, xb, xr, n) s b r =
    (xs, xb, xr, Numbered-append room (suc lo) es e n (omega (arith, s)) b r)

map_append :
    {A B : Type 0} (f : A → B) (xs : List A) (y : A) → map f (xs ++ y ∷ []) ≡ map f xs ++ f y ∷ []
map_append f [] y = refl
map_append f (x ∷ xs) y = ap (λ l. f x ∷ l) (map_append f xs y)

abbrev pub ids_of : List Event → List String
ids_of = map (λ (e : Event). e.event_id)

has_event-includes :
    (e : Event) (es : List Event) → has_event e es ≡ false → includes e.event_id (ids_of es) ≡ false
has_event-includes e [] h = refl
has_event-includes e (x ∷ es) h = ground (arith, h, has_event-includes e es)

some_same : {A : Type 0} {a b : A} → some a ≡ some b → a ≡ b
some_same h = cc

module _ (env : Environment) where
  pub record IsLedger (r : Room) : Type 0 where
    pub numbered : Numbered r.row.room_id 0 r.events
    pub next : r.row.next_room_seq ≡ suc (length r.events)
    pub mirrored : r.outbox ≡ map outbox_of r.events
    pub distinct : AreDistinct (ids_of r.events)
    pub accepted : All (λ (e : Event). env.accepts e ≡ true) r.events
    pub life : Life scheduled r.events r.row.status

  pub Steps-IsLedger :
      (c : String) (r r' : Room) (e : Event)
      → IsLedger r
      → is_safe_positive r.row.next_room_seq ≡ true
      → Steps env c r e r'
      → IsLedger r'
  Steps-IsLedger c r r' e i safe (l, _, step) =
      let bound : e.room_seq ≤ max_safe_integer = ground (arith, safe, l.seq) in
      let last : e.room_seq ≡ suc (0 + length r.events) = omega (arith, l.seq, i.next) in
      let numbered = Numbered-append r.row.room_id 0 r.events e i.numbered last bound l.room in
      record {
        numbered = rw (l.logged, l.same_room) numbered;
        next = omega (arith, l.advanced, last, ap length l.logged, length-append r.events (e ∷ []));
        mirrored =
            l.published
            ∙ ap (λ x. x ++ outbox_of e ∷ []) i.mirrored
            ∙ sym (ap (map outbox_of) l.logged ∙ map_append outbox_of r.events e);
        distinct =
            subst AreDistinct
              (sym (ap ids_of l.logged ∙ map_append (λ (x : Event). x.event_id) r.events e))
              (append-AreDistinct e.event_id (ids_of r.events) i.distinct
                (has_event-includes e r.events l.fresh));
        accepted = rw l.logged (
            All-append (λ (x : Event). env.accepts x ≡ true) r.events (e ∷ []) i.accepted
              (l.accepted, tt));
        life = rw l.logged (Life-append scheduled _ _ r.events e i.life step);
      }

  abbrev pub IsLedgers : List (String × Room) → Type 0
  IsLedgers = All (λ (e : String × Room). (e.1.row.room_id ≡ e.0) × IsLedger e.1)

  -- The later events begin with the earlier ones.
  abbrev pub Extends : List Event → List Event → Type 0
  Extends es fs = (new : List Event) × (fs ≡ es ++ new)

  -- A room after its transaction.
  pub record Kept (r r' : Room) : Type 0 where
    pub same_room : r'.row.room_id ≡ r.row.room_id
    pub ledger : IsLedger r'
    pub grown : Extends r.events r'.events

  pub same-Kept : (r r' : Room) → IsLedger r → r' ≡ r → Kept r r'
  same-Kept r r' i s =
      rw s (record { same_room = refl; ledger = i; grown = ([], sym (append-nil r.events)) })

  pub Steps-Kept :
      (c : String) (r r' : Room) (e : Event)
      → IsLedger r
      → is_safe_positive r.row.next_room_seq ≡ true
      → Steps env c r e r'
      → Kept r r'
  Steps-Kept c r r' e i safe s = record {
    same_room = s.0.same_room;
    ledger = Steps-IsLedger c r r' e i safe s;
    grown = (e ∷ [], s.0.logged);
  }

  pub Grows-Kept :
      (c : String) (r r' : Room) (e : Event)
      → IsLedger r
      → is_safe_positive r.row.next_room_seq ≡ true
      → Grows env c r e r'
      → Kept r r'
  Grows-Kept c r r' e i safe (inl g) = same-Kept r r' i g.0
  Grows-Kept c r r' e i safe (inr s) = Steps-Kept c r r' e i safe s

  Extends-trans : (es fs gs : List Event) → Extends es fs → Extends fs gs → Extends es gs
  Extends-trans es fs gs (m, p) (n, q) = (m ++ n, q ∙ ap (λ l. l ++ n) p ∙ append_assoc es m n)

  -- A room of the rooms before is there, with the events that it had, and new ones after them.
  abbrev pub Grown : List (String × Room) → String → Room → Type 0
  Grown db i x = (y : Room) × (get i db ≡ some y) × Extends x.events y.events

  put-Extends :
      (id i : String) (x r r' : Room) (db : List (String × Room))
      → get id db ≡ some r
      → Extends r.events r'.events
      → Grown db i x
      → Grown (put id r' db) i x
  put-Extends id i x r r' db g ext (y, gy, xy) = elim (Bool-cases (id === i)) [
    | inl t ↦
        let same : y ≡ r = some_same (sym gy ∙ ap (λ j. get j db) (sym ((===_iff id i).0 t)) ∙ g) in
        (
          r',
          get-put id i r' db ∙ ap (λ b. if b then some r' else get i db) t,
          Extends-trans x.events r.events r'.events (subst (λ z. Extends x.events z.events) same xy)
              ext,
        )
    | inr n ↦ (y, get-put id i r' db ∙ ap (λ b. if b then some r' else get i db) n ∙ gy, xy)
  ]

  -- The ledgers hold, and since `base` the rooms have only got new events.
  pub record Keeps (base db : List (String × Room)) : Type 0 where
    pub ledgers : IsLedgers db
    pub appended : (i : String) (x : Room) → get i base ≡ some x → Grown db i x

  pub refl-Keeps : (db : List (String × Room)) → IsLedgers db → Keeps db db
  refl-Keeps db l = record {
    ledgers = l;
    appended = λ i x g. (x, g, ([], sym (append-nil x.events)));
  }

  module _ {A : Type 0} (work : Work A) where
    -- What the checks before the work tell of the room.
    pub locked_lem :
        (P : A → Room → Type 0) (r : Room)
        → (is_safe_positive r.row.next_room_seq ≡ true → After P (work r))
        → After P (locked env work r)
    unfolding locked
    locked_lem P r h =
        After-gets _ _ _ r
          (After-require _ _ _ _ r (λ _. After-require _ _ _ _ r (λ _. After-require _ _ _ _ r h)))

    module _ (base : List (String × Room)) where
      commit-Keeps :
          (id : String) (db : List (String × Room)) (r : Room) (o : Outcome (A × Room))
          → get id db ≡ some r
          → After (λ _ r'. (r'.row.room_id ≡ id) × IsLedger r' × Extends r.events r'.events) o
          → Keeps base db
          → Keeps base (commit env id db o).1
      unfolding commit After
      commit-Keeps id db r (ok (a, r')) g (same, ledger, ext) k = record {
        ledgers = put-All _ id r' db (same, ledger) k.ledgers;
        appended = λ i x gx. put-Extends id i x r r' db g ext (k.appended i x gx);
      }
      commit-Keeps id db r (fail e) g h k = k

      pub transact-Keeps :
          (id : String) (db : List (String × Room))
          → ((r : Room)
              → IsLedger r
              → is_safe_positive r.row.next_room_seq ≡ true
              → After (λ _ r'. Kept r r') (work r))
          → Keeps base db
          → Keeps base (transact env id work db).1
      unfolding transact
      transact-Keeps id db h k =
          if-cases (λ (x : Outcome A × List (String × Room)). Keeps base x.1) (env.is_uuid id)
            (λ _. elim (Option-cases (get id db)) [
              | inl n ↦ rw n k
              | inr (r, g) ↦
                  let own = get-All _ id db r g k.ledgers in
                  rw g (
                    commit-Keeps id db r _ g
                      (locked_lem _ r (λ safe.
                        After-weaken _ _ _ (λ a r' x. (x.same_room ∙ own.0, x.ledger, x.grown))
                          (h r own.1 safe)))
                      k)
            ])
            (λ _. k)
