-- ===== src/Rooms/Lifecycle/Due.antt =====
-- The automatic closing of lifecycle-service.ts in a room whose life its events tell.
use learning_orbit.Prelude.{ℕ, String, true, Option, none, some, ◌≡◌, refl, ap, arith, inl, inr}
use learning_orbit.Wire.{Status, scheduled, closed}
use learning_orbit.Rooms.Store.{Event, Room, Job}
use learning_orbit.Rooms.Work.{
  After, Reads, After-read, After-gets, After-present, After-give, After-change, After-option,
  After-weaken, After-cases, After-then,
}
use learning_orbit.Rooms.Ledger.{Environment, Draws, with_causation}
use learning_orbit.Rooms.Ledger.Life.{Life, is_closing, closed-with_causation}
use learning_orbit.Rooms.Ledger.Growth.{Steps, Appended-Steps, append_lem}
use learning_orbit.Rooms.Lifecycle.{
  is_open, may_close, append_automatic_close, close_due_in_context, due_job, owner_close,
  owner_retry,
}
use learning_orbit.Rooms.Lifecycle.Growth.{closing-Step, require_owner-Reads, existing_retry-Reads}

open_not_closed : (s : Status) → is_open s ≡ true → s ≡ closed → ⊥
open_not_closed s h c = cc

module _ (env : Environment) where
  -- Nothing happens, or the room is closed.
  abbrev pub Due : Room → Option Event → Room → Type 0
  Due r none r' = r' ≡ r
  Due r (some e) r' = Steps env e.causation_id r e r' × (r'.row.status ≡ closed)

  append_close-Steps :
      (draws : Draws) (j : Job) (closes_at : ℕ) (r : Room)
      → Life scheduled r.events r.row.status
      → is_open r.row.status ≡ true
      → After (λ e r'. Due r (some e) r') (append_automatic_close env draws j closes_at r)
  unfolding append_automatic_close
  append_close-Steps draws j closes_at r l h = After-present _ _ _ _ r (λ now _.
      After-change _ _ _ r (
        After-change _ _ _ _ (
          After-weaken _ _ _
            (λ e r' a. elim a [
              | inl (same, found, body) ↦
                  elim (open_not_closed r.row.status h (
                    closed-with_causation j.job_id r.events e scheduled r.row.status found
                      (ap is_closing body) l)) [ ]
              | inr (new, none') ↦
                  let s =
                    Appended-Steps env _ r _ r' e refl refl refl refl refl refl refl
                      (closing-Step r.row.status (env.to_iso closes_at) h) none' new in
                  ((s.0, refl, s.2), ap (λ x. x.row.status) new.result)
            ])
            (append_lem env _ _ _ _ _))))

  -- Whatever job there is, the work leaves the room or closes it.
  pub close_due_in_context-Due :
      (draws : Draws) (r : Room)
      → Life scheduled r.events r.row.status
      → After (Due r) (close_due_in_context env draws r)
  unfolding close_due_in_context
  close_due_in_context-Due draws r l = After-gets _ _ _ r (
      After-cases _ (may_close r.row) _ _ r
        (λ t. After-present _ _ _ _ r (λ now _. After-gets _ _ _ r (
          After-option _ _ _ (due_job env now r) r (λ _. After-give _ none r refl)
            (λ found _.
              After-then _ (λ e r'. Due r (some e) r') _ _ r
                (append_close-Steps draws found.0 found.1 r l (ground (arith, t)))
                (λ e r' s. After-give _ (some e) r' s)))))
        (After-give _ none r refl))

  module _ (room_id teacher_id causation_id : String) (session : Option String) where
    pub owner_close-Due :
        (draws : Draws) (r : Room)
        → Life scheduled r.events r.row.status
        → After (Due r) (owner_close env room_id teacher_id causation_id session draws r)
    unfolding owner_close
    owner_close-Due draws r l =
        After-read _ (λ _. r.row.teacher_id ≡ teacher_id) _ _ r
          (require_owner-Reads env room_id teacher_id causation_id session r)
          (λ _ _. close_due_in_context-Due draws r l)

    pub owner_retry-Reads :
        (expected : String) (r : Room)
        → After
            (Reads r (λ x. with_causation causation_id r.events ≡ x))
            (owner_retry env room_id teacher_id causation_id session expected r)
    unfolding owner_retry
    owner_retry-Reads expected r =
        After-read _ (λ _. r.row.teacher_id ≡ teacher_id) _ _ r
          (require_owner-Reads env room_id teacher_id causation_id session r)
          (λ _ _. existing_retry-Reads env room_id teacher_id causation_id session expected r)
