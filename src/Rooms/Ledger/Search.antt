-- ===== src/Rooms/Ledger/Search.antt =====
-- The search by causation of room-event-repository.ts in a ledger.
use learning_orbit.Prelude.{
  ℕ, suc, String, true, false, none, some, List, [], ◌∷◌, ◌++◌, map, ◌≡◌, refl, ap, ◌∙◌, subst, All,
  AreDistinct, includes, ◌===◌, ===_refl, ===_iff, is_yes_intro, arith, Bool-cases, inl, inr,
}
use learning_orbit.Rooms.Store.{Event, Room, Event-discrete}
use learning_orbit.Rooms.Work.Surely.{
  Surely, Surely-gets, Surely-option_some, Surely-present, Surely-require, Surely-give,
}
use learning_orbit.Rooms.Ledger.{
  Environment, with_causation, outbox_row, outbox_of, parse_row, parse_stored_event,
  find_by_causation, is_safe_positive,
}
use learning_orbit.Rooms.Ledger.Mirror.{IsLedger, Numbered, ids_of}

with_causation-All :
    (P : Event → Type 0) (id : String) (es : List Event) (e : Event)
    → with_causation id es ≡ some e
    → All P es
    → P e
unfolding with_causation
with_causation-All P id [] e h a = cc
with_causation-All P id (x ∷ es) e h a = elim (Bool-cases (x.causation_id === id)) [
  | inl t ↦ let same : x ≡ e = ground (arith, t, h) in subst P same a.0
  | inr n ↦ with_causation-All P id es e (ground (arith, n, h)) a.1
]

pub Numbered-is_safe_positive :
    (room : String) (lo : ℕ) (es : List Event)
    → Numbered room lo es
    → All (λ (e : Event). is_safe_positive e.room_seq ≡ true) es
Numbered-is_safe_positive room lo [] n = tt
Numbered-is_safe_positive room lo (e ∷ es) (s, b, r, n) =
    (ground (arith, s, b), Numbered-is_safe_positive room (suc lo) es n)

-- An identifier that the tail does not hold is not that of an event found there.
with_causation-includes :
    (i id : String) (es : List Event) (e : Event)
    → with_causation id es ≡ some e
    → includes i (ids_of es) ≡ false
    → (i === e.event_id) ≡ false
unfolding with_causation
with_causation-includes i id [] e h n = cc
with_causation-includes i id (x ∷ es) e h n = elim (Bool-cases (x.causation_id === id)) [
  | inl t ↦
      let same : x ≡ e = ground (arith, t, h) in
      subst (λ (y : Event). (i === y.event_id) ≡ false) same
        (ground (arith, n, ===_iff i x.event_id, ===_iff x.event_id i))
  | inr f ↦ with_causation-includes i id es e (ground (arith, f, h)) (ground (arith, n))
]

outbox_row-mirrored :
    (id : String) (es : List Event) (e : Event)
    → with_causation id es ≡ some e
    → AreDistinct (ids_of es)
    → outbox_row e.event_id (map outbox_of es) ≡ some (outbox_of e)
unfolding with_causation outbox_row
outbox_row-mirrored id [] e h d = cc
outbox_row-mirrored id (x ∷ es) e h d = elim (Bool-cases (x.causation_id === id)) [
  | inl t ↦
      let same : x ≡ e = ground (arith, t, h) in
      subst (λ (y : Event). outbox_row y.event_id (map outbox_of (x ∷ es)) ≡ some (outbox_of y))
        same (rw (===_refl x.event_id) refl)
  | inr n ↦
      let rest : with_causation id es ≡ some e = ground (arith, n, h) in
      rw (with_causation-includes x.event_id id es e rest d.0)
        (outbox_row-mirrored id es e rest d.1)
]

module _ (env : Environment) where
  pub parse_row_own :
      (e : Event)
      → env.accepts e ≡ true
      → is_safe_positive e.room_seq ≡ true
      → parse_row env e (outbox_of e) ≡ some e
  unfolding parse_row
  parse_row_own e a s =
      rw (===_refl e.room_id, a, is_yes_intro (Event-discrete e e) refl) (ground (arith, s))

  -- A stored event of the ledger passes the comparison with its envelope, and is found.
  pub find_by_causation-some :
      (id : String) (r : Room) (e : Event)
      → IsLedger env r
      → env.is_uuid id ≡ true
      → with_causation id r.events ≡ some e
      → Surely (λ x r'. (r' ≡ r) × (x ≡ some e)) (find_by_causation env id r)
  unfolding find_by_causation parse_stored_event
  find_by_causation-some id r e i u f =
      let row : outbox_row e.event_id r.outbox ≡ some (outbox_of e) =
        ap (outbox_row e.event_id) i.mirrored ∙ outbox_row-mirrored id r.events e f i.distinct in
      let own = parse_row_own e (with_causation-All _ id r.events e f i.accepted) (
        with_causation-All _ id r.events e f
          (Numbered-is_safe_positive r.row.room_id 0 r.events i.numbered)) in
      Surely-require _ _ _ _ r u (
        Surely-gets _ _ _ r (
          Surely-option_some _ _ _ (with_causation id r.events) e r f (
            Surely-gets _ _ _ r (
              Surely-present _ _ e _ _ r (rw (parse_stored_event, row) own)
                (Surely-give _ (some e) r (refl, refl))))))

pub with_causation-append :
    (id : String) (es : List Event) (e : Event)
    → with_causation id es ≡ none
    → e.causation_id ≡ id
    → with_causation id (es ++ e ∷ []) ≡ some e
unfolding with_causation
with_causation-append id [] e n h = rw (h, ===_refl id) refl
with_causation-append id (x ∷ es) e n h = ground (arith, with_causation-append id es e)
