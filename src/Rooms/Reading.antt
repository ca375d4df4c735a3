-- ===== src/Rooms/Reading.antt =====
-- `eventsAfter` of room-event-repository.ts in a ledger.
use learning_orbit.Prelude.{
  ℕ, zero, suc, ◌≤◌, String, Bool, true, false, ◌&&◌, some, List, [], ◌∷◌, map, ◌≡◌, refl, sym,
  subst, All, AreDistinct, includes, take, filterb, sort_by, ltb, leb, ===_refl, ===_iff, arith,
  is_safe_integer, get, if-cases,
}
use learning_orbit.Rooms.Store.{Event, OutboxEvent, Room}
use learning_orbit.Rooms.Work.{ok}
use learning_orbit.Rooms.Ledger.{
  Environment, outbox_row, outbox_of, parse_stored_event, parse_all, events_after, is_safe_positive,
}
use learning_orbit.Rooms.Ledger.Mirror.{IsLedger, Numbered, ids_of}
use learning_orbit.Rooms.Ledger.Search.{parse_row_own, Numbered-is_safe_positive}
use learning_orbit.Rooms.Resume.{missing, missing-Numbered}

filterb-All :
    (P : Event → Type 0) (f : Event → Bool) (es : List Event) → All P es → All P (filterb f es)
filterb-All P f [] h = tt
filterb-All P f (e ∷ es) h =
    if-cases (All P) (f e) (λ _. (h.0, filterb-All P f es h.1)) (λ _. filterb-All P f es h.1)

take-All : (P : Event → Type 0) (n : ℕ) (es : List Event) → All P es → All P (take n es)
take-All P zero es h = tt
take-All P (suc n) [] h = tt
take-All P (suc n) (e ∷ es) h = (h.0, take-All P n es h.1)

sort_by-Numbered :
    (room : String) (lo : ℕ) (es : List Event)
    → Numbered room lo es
    → sort_by (λ (e : Event). e.room_seq) es ≡ es
sort_by-Numbered room lo [] n = refl
sort_by-Numbered room lo (e ∷ []) n = refl
sort_by-Numbered room lo (e ∷ f ∷ es) (s, b, r, n) =
    rw (sort_by-Numbered room (suc lo) (f ∷ es) n) (ground (arith, s, n.0))

-- The outbox row of an event is its own.
abbrev HasRow : List OutboxEvent → Event → Type 0
HasRow os e = outbox_row e.event_id os ≡ some (outbox_of e)

later-HasRow :
    (x : Event) (os : List OutboxEvent) (es : List Event)
    → includes x.event_id (ids_of es) ≡ false
    → All (HasRow os) es
    → All (HasRow (outbox_of x ∷ os)) es
unfolding outbox_row
later-HasRow x os [] n h = tt
later-HasRow x os (e ∷ es) n h = (
  ground (arith, n, h.0, ===_iff x.event_id e.event_id, ===_iff e.event_id x.event_id),
  later-HasRow x os es (ground (arith, n)) h.1,
)

All-HasRow : (es : List Event) → AreDistinct (ids_of es) → All (HasRow (map outbox_of es)) es
unfolding outbox_row
All-HasRow [] d = tt
All-HasRow (e ∷ es) d =
    (rw (===_refl e.event_id) refl, later-HasRow e (map outbox_of es) es d.0 (All-HasRow es d.1))

module _ (env : Environment) where
  abbrev IsParsed : List OutboxEvent → Event → Type 0
  IsParsed os e = parse_stored_event env os e ≡ some e

  All-IsParsed :
      (os : List OutboxEvent) (es : List Event)
      → All (HasRow os) es
      → All (λ (e : Event). env.accepts e ≡ true) es
      → All (λ (e : Event). is_safe_positive e.room_seq ≡ true) es
      → All (IsParsed os) es
  unfolding parse_stored_event
  All-IsParsed os [] h a s = tt
  All-IsParsed os (e ∷ es) h a s =
      (rw (parse_stored_event, h.0) (parse_row_own env e a.0 s.0), All-IsParsed os es h.1 a.1 s.1)

  parse_all-ok :
      (os : List OutboxEvent) (es : List Event) → All (IsParsed os) es → parse_all env os es ≡ ok es
  unfolding parse_all
  parse_all-ok os [] h = refl
  parse_all-ok os (e ∷ es) h = rw (parse_all, h.0, parse_all-ok os es h.1) refl

  -- In a room whose ledger holds, `eventsAfter` never fails: for a safe cursor and a limit from 1 to
  -- 500 it answers the first of the events after the cursor, in their order and up to the limit.
  pub events_after-missing :
      (id : String) (k limit : ℕ) (db : List (String × Room)) (r : Room)
      → IsLedger env r
      → get id db ≡ some r
      → env.is_uuid id ≡ true
      → is_safe_integer k ≡ true
      → 1 ≤ limit
      → limit ≤ 500
      → events_after env id k limit db ≡ ok (take limit (missing k r.events))
  unfolding events_after
  events_after-missing id k limit db r i g u safe low high =
      let later = missing-Numbered r.row.room_id k 0 r.events i.numbered (omega arith) in
      let rows : All (HasRow r.outbox) r.events =
        subst (λ os. All (HasRow os) r.events) (sym i.mirrored) (All-HasRow r.events i.distinct) in
      let parsed =
        All-IsParsed r.outbox r.events rows i.accepted
          (Numbered-is_safe_positive r.row.room_id 0 r.events i.numbered) in
      let first =
        take-All (IsParsed r.outbox) limit (missing k r.events)
          (filterb-All (IsParsed r.outbox) (λ e. ltb k e.room_seq) r.events parsed) in
      let bounds : (leb 1 limit && leb limit 500) ≡ true = ground (arith, low, high) in
      rw (u, safe, bounds, g, sort_by-Numbered r.row.room_id k (missing k r.events) later)
        (parse_all-ok r.outbox (take limit (missing k r.events)) first)
