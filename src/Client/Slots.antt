-- ===== src/Client/Slots.antt =====
-- apps/web/src/lib/media/media-slot-reservations.ts: how many attachments a message may have while
-- uploads are in flight. `run` is two steps, before and after its `await work()`; between them other
-- runs take theirs.
use learning_orbit.Prelude.{
  ℕ, String, Option, none, some, List, [], ◌∷◌, ◌++◌, ◌+◌, ◌-◌, ◌≤◌, ◌<◌, ◌≡◌, length, leb, ltb,
  filterb, not, ◌===◌, is_safe_integer, if◌then◌else◌, if-cases, arith, length-append,
  length-filterb-le, includes, unique, AreDistinct, append-AreDistinct, filterb-AreDistinct, ◌||◌,
}

-- `known` is the set, in the order of insertion.
pub record MediaSlotReservations : Type 0 where
  pub max : ℕ
  pub known : List String
  pub inflight : ℕ

abbrev pub occupied : MediaSlotReservations → ℕ
occupied s = length s.known + s.inflight

unfoldable pub create : ℕ → List String → Option MediaSlotReservations
create max ids =
    if not (is_safe_integer max) || ltb max 1 || ltb max (length (unique ids))
    then none
    else some (record { max = max; known = unique ids; inflight = 0 })

unfoldable pub remove_media : String → MediaSlotReservations → MediaSlotReservations
remove_media id s = record s { known = filterb (λ x. not (x === id)) s.known }

pub data Answer : Type 0 where
  waiting media_attachment_limit media_id_duplicate work_failed : Answer
  resolved : String → Answer

-- Until the await: `MediaAttachmentLimitError`, or a slot is held.
unfoldable pub reserve : MediaSlotReservations → MediaSlotReservations × Answer
reserve s =
    if leb s.max (occupied s)
    then (s, media_attachment_limit)
    else (record s { inflight = s.inflight + 1 }, waiting)

-- After the await, the `finally` included; `none` is work that rejects.
unfoldable pub settle : Option String → MediaSlotReservations → MediaSlotReservations × Answer
settle none s = (record s { inflight = s.inflight - 1 }, work_failed)
settle (some id) s =
    if includes id s.known
    then (record s { inflight = s.inflight - 1 }, media_id_duplicate)
    else (record s { known = s.known ++ id ∷ []; inflight = s.inflight - 1 }, resolved id)

-- An interleaving of calls: a run begins, one of the runs that hold a slot settles, or an id goes.
pub data Step : MediaSlotReservations → MediaSlotReservations → Type 0 where
  begins : {s : MediaSlotReservations} → Step s (reserve s).0
  settles :
      {s : MediaSlotReservations}
      → (result : Option String) → 0 < s.inflight
      → Step s (settle result s).0
  goes : {s : MediaSlotReservations} → (id : String) → Step s (remove_media id s)

pub data Steps : MediaSlotReservations → MediaSlotReservations → Type 0 where
  done : {s : MediaSlotReservations} → Steps s s
  then_step : {s t u : MediaSlotReservations} → Step s t → Steps t u → Steps s u

-- No more slots are taken than there are.
pub record IsWithin (max : ℕ) (s : MediaSlotReservations) : Type 0 where
  pub same_max : s.max ≡ max
  pub within : occupied s ≤ max
  pub distinct : AreDistinct s.known

reserve-IsWithin :
    (max : ℕ) (s : MediaSlotReservations) → IsWithin max s → IsWithin max (reserve s).0
unfolding reserve
reserve-IsWithin max s v =
    if-cases (λ (r : MediaSlotReservations × Answer). IsWithin max r.0) (leb s.max (occupied s))
      (λ _. v)
      (λ t. record {
        same_max = v.same_max;
        within = ground (arith, v.same_max, v.within, t);
        distinct = v.distinct;
      })

settle-IsWithin :
    (max : ℕ) (result : Option String) (s : MediaSlotReservations)
    → 0 < s.inflight
    → IsWithin max s
    → IsWithin max (settle result s).0
unfolding settle
settle-IsWithin max none s h v = record {
  same_max = v.same_max;
  within = omega (arith, v.within);
  distinct = v.distinct;
}
settle-IsWithin max (some id) s h v =
    if-cases (λ (r : MediaSlotReservations × Answer). IsWithin max r.0) (includes id s.known)
      (λ _. record {
        same_max = v.same_max;
        within = omega (arith, v.within);
        distinct = v.distinct;
      })
      (λ t. record {
        same_max = v.same_max;
        within = omega (arith, v.within, h, length-append s.known (id ∷ []));
        distinct = append-AreDistinct id s.known v.distinct t;
      })

Step-IsWithin :
    {s t : MediaSlotReservations} → (max : ℕ) → Step s t → IsWithin max s → IsWithin max t
unfolding remove_media
Step-IsWithin {s} max begins v = reserve-IsWithin max s v
Step-IsWithin {s} max (settles result h) v = settle-IsWithin max result s h v
Step-IsWithin {s} max (goes id) v = record {
  same_max = v.same_max;
  within = omega (arith, v.within, length-filterb-le (λ x. not (x === id)) s.known);
  distinct = filterb-AreDistinct (λ x. not (x === id)) s.known v.distinct;
}

-- If the known attachments and the uploads in flight together do not exceed the limit, and none is
-- known twice, this stays so, with the same limit, however the runs and the removals interleave.
pub Steps-IsWithin :
    {s t : MediaSlotReservations} → (max : ℕ) → Steps s t → IsWithin max s → IsWithin max t
Steps-IsWithin max done v = v
Steps-IsWithin max (then_step st sts) v = Steps-IsWithin max sts (Step-IsWithin max st v)
