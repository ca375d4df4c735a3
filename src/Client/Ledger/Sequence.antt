-- ===== src/Client/Ledger/Sequence.antt =====
-- The events of a ledger: consecutive from 1 to its cursor.
use learning_orbit.Prelude.{
  ℕ, suc, ◌≡◌, refl, ap, sym, ◌∙◌, subst, String, true, Option, none, some, List, [], ◌∷◌, ◌++◌,
  arith, leb, has, get, put, put-new, map, All, sort_by, not, ◌==◌, append-nil, append_assoc,
  ===_iff, if-cases,
}
use learning_orbit.Wire.{RoomEvent}
use learning_orbit.Realtime.Connection.Order.{Contiguous}
use learning_orbit.Client.Ledger.{
  EventLedger, AppendOutcome, accept, append_event, append, events, values, is_other_room, create,
}

values-append {ℓ} : {V : Type ℓ} (m n : List (String × V)) → values (m ++ n) ≡ values m ++ values n
values-append [] n = refl
values-append (e ∷ m) n = rw (values-append m n)

pub Contiguous-concat :
    (lo hi : ℕ) (es : List RoomEvent) (e : RoomEvent)
    → Contiguous lo es hi
    → e.room_seq ≡ suc hi
    → Contiguous lo (es ++ e ∷ []) e.room_seq
Contiguous-concat lo hi [] e c h = (h ∙ ap suc (sym c), refl)
Contiguous-concat lo hi (x ∷ es) e (s, c) h = (s, Contiguous-concat x.room_seq hi es e c h)

-- In the order of insertion the events are those with the numbers from 1 to the cursor.
abbrev pub IsGapless : EventLedger → Type 0
IsGapless l = Contiguous 0 (values l.event_map) l.last_seq

accept-IsGapless :
    (e : RoomEvent) (l : EventLedger)
    → get e.event_id l.event_map ≡ none
    → e.room_seq ≡ suc l.last_seq
    → IsGapless l
    → IsGapless (accept e l)
unfolding accept
accept-IsGapless e l new next g =
    rw (put-new e.event_id e l.event_map new, values-append l.event_map ((e.event_id, e) ∷ []))
      (Contiguous-concat 0 l.last_seq (values l.event_map) e g next)

abbrev KeepsGapless : EventLedger × AppendOutcome → Type 0
KeepsGapless r = IsGapless r.0

append_event-IsGapless :
    (e : RoomEvent) (l : EventLedger) → IsGapless l → IsGapless (append_event e l).0
unfolding append_event
append_event-IsGapless e l g =
    if-cases KeepsGapless (is_other_room l.room_id e) (λ _. g)
      λ _.
        if-cases KeepsGapless (has e.event_id l.event_map) (λ _. g)
          λ new.
            if-cases KeepsGapless (leb e.room_seq l.last_seq) (λ _. g)
              λ _.
                if-cases KeepsGapless (not (e.room_seq == suc l.last_seq)) (λ _. g)
                  λ next. accept-IsGapless e l (ground arith) (ground arith) g

-- A history of calls of `append`.
unfoldable pub append_all : List (Option RoomEvent) → EventLedger → EventLedger
append_all [] l = l
append_all (v ∷ vs) l = append_all vs (append v l).0

append_all-IsGapless :
    (vs : List (Option RoomEvent)) (l : EventLedger) → IsGapless l → IsGapless (append_all vs l)
unfolding append_all append
append_all-IsGapless [] l g = g
append_all-IsGapless (none ∷ vs) l g = append_all-IsGapless vs l g
append_all-IsGapless (some e ∷ vs) l g = append_all-IsGapless vs _ (append_event-IsGapless e l g)

sort_by-Contiguous :
    (lo hi : ℕ) (es : List RoomEvent)
    → Contiguous lo es hi
    → sort_by (λ (e : RoomEvent). e.room_seq) es ≡ es
sort_by-Contiguous lo hi [] c = refl
sort_by-Contiguous lo hi (e ∷ []) c = refl
sort_by-Contiguous lo hi (e ∷ f ∷ es) (s, c) =
    let rest = sort_by-Contiguous e.room_seq hi (f ∷ es) c in
    let before : leb e.room_seq f.room_seq ≡ true = ground arith in rw rest (rw before)

-- Whatever is appended, in whatever order and however often, `events()` lists the events with the
-- room sequences from 1 to `lastRoomSeq`, each once and in order.
pub events_gapless :
    (room : Option String) (vs : List (Option RoomEvent))
    → let l = append_all vs (create room) in Contiguous 0 (events l) l.last_seq
unfolding events create
events_gapless room vs =
    let l = append_all vs (create room) in
    let g = append_all-IsGapless vs (create room) refl in
    rw (sort_by-Contiguous 0 l.last_seq (values l.event_map) g) g

-- Event ids that are new to a map, and to one another.
abbrev pub AreFresh : List (String × RoomEvent) → List RoomEvent → Type 0
AreFresh m [] = Unit
AreFresh m (e ∷ es) = (get e.event_id m ≡ none) × AreFresh (put e.event_id e m) es

append_event-accepts :
    (room : String) (e : RoomEvent) (l : EventLedger)
    → l.room_id ≡ some room
    → e.room_id ≡ room
    → e.room_seq ≡ suc l.last_seq
    → get e.event_id l.event_map ≡ none
    → (append_event e l).0 ≡ accept e l
unfolding append_event
append_event-accepts room e l r own next new = ground (arith, ===_iff e.room_id room)

-- Consecutive events of the room, from the ledger's cursor on and with new ids, are all appended.
pub append_all-delivered :
    (room : String) (es : List RoomEvent) (l : EventLedger) (hi : ℕ)
    → l.room_id ≡ some room
    → All (λ e. e.room_id ≡ room) es
    → Contiguous l.last_seq es hi
    → AreFresh l.event_map es
    → let m = append_all (map some es) l in
      (m.room_id ≡ some room) × (m.last_seq ≡ hi) × (values m.event_map ≡ values l.event_map ++ es)
unfolding append_all append accept
append_all-delivered room [] l hi r own c f = (r, c, sym (append-nil _))
append_all-delivered room (e ∷ es) l hi r (own, owns) (next, c) (new, f) =
    let m = accept e l in
    let (same, last, all) = append_all-delivered room es m hi r owns c f in
    let taken = sym (append_event-accepts room e l r own next new) in
    let grown : values m.event_map ≡ values l.event_map ++ e ∷ [] =
      ap values (put-new e.event_id e l.event_map new)
      ∙ values-append l.event_map ((e.event_id, e) ∷ []) in
    subst
      (λ (k : EventLedger).
        ((append_all (map some es) k).room_id ≡ some room)
        × ((append_all (map some es) k).last_seq ≡ hi)
        × (values (append_all (map some es) k).event_map ≡ values l.event_map ++ e ∷ es))
      taken
      (same, last, all ∙ ap (λ vs. vs ++ es) grown ∙ append_assoc (values l.event_map) (e ∷ []) es)
