-- ===== src/Rooms/Lifecycle/Liveness.antt =====
-- The progress of `closeIfDue` in lifecycle-service.ts.
use learning_orbit.Prelude.{
  ℕ, ◌≤◌, String, true, false, Option, none, some, List, ◌≡◌, refl, ap, ◌∙◌, arith, is_some, get,
  put,
}
use learning_orbit.Wire.{closed}
use learning_orbit.Rooms.Store.{Event, Room, Job}
use learning_orbit.Rooms.Work.{Outcome, ok, fail}
use learning_orbit.Rooms.Work.Surely.{
  Surely, Surely-then, Surely-gets, Surely-present, Surely-option_some, Surely-give, Surely-change,
  Surely-require, Surely-cases, Surely-weaken, is_some_elim,
}
use learning_orbit.Rooms.Ledger.{
  Environment, Draws, candidate_of, locked, commit, transact, is_safe_positive,
}
use learning_orbit.Rooms.Ledger.Success.{Admits, append-Surely}
use learning_orbit.Rooms.Lifecycle.{
  may_close, due_job, append_automatic_close, close_due_in_context, close_if_due, cancel_room_jobs,
  closing_draft,
}
use learning_orbit.Rooms.Lifecycle.Closing.{IsTimed}

-- The room as the closing finds it when it appends its event.
abbrev pub shut_room : ℕ → Room → Room
shut_room closes_at r =
    cancel_room_jobs
      (record r { row = record r.row { status = closed; closed_at = some closes_at } })

module _ (env : Environment) (draws : Draws) where
  -- The clock has read three times, at `now` or later, and the rows admit the closing event.
  pub record CanClose (now closes_at : ℕ) (j : Job) (r : Room) : Type 0 where
    pub first : draws.clock 0 ≡ some now
    pub second : is_some (draws.clock 1) ≡ true
    pub third : ℕ
    pub ingest : draws.clock 2 ≡ some third
    pub admits :
        Admits env
          (shut_room closes_at r)
          (candidate_of
            (env.to_iso third)
            (draws.random_uuid 1)
            r.row.room_id
            r.row.next_room_seq
            (env.to_iso closes_at)
            (closing_draft env j closes_at))
          (draws.random_uuid 2)

  abbrev pub Closes : ℕ → Option Event → Room → Type 0
  Closes closes_at o r' =
      (is_some o ≡ true) × (r'.row.status ≡ closed) × (r'.row.closed_at ≡ some closes_at)

  append_close-Surely :
      (now closes_at : ℕ) (j : Job) (r : Room)
      → CanClose now closes_at j r
      → Surely
          (λ e r'. (r'.row.status ≡ closed) × (r'.row.closed_at ≡ some closes_at))
          (append_automatic_close env draws j closes_at r)
  unfolding append_automatic_close
  append_close-Surely now closes_at j r h =
      let (t, second) = is_some_elim (draws.clock 1) h.second in
      Surely-present _ _ t _ _ r second (
        Surely-change _ _ _ r (
          Surely-change _ _ _ _ (
            rw h.ingest (
              Surely-weaken _ _ _
                (λ e r' a. (ap (λ x. x.row.status) a.1, ap (λ x. x.row.closed_at) a.1))
                (append-Surely env h.third (draws.random_uuid 1) (draws.random_uuid 2)
                  (env.to_iso closes_at) (closing_draft env j closes_at) (shut_room closes_at r)
                  refl h.admits)))))

  close_due-Surely :
      (now closes_at : ℕ) (r : Room) (timed : IsTimed env closes_at r)
      → closes_at ≤ now
      → CanClose now closes_at timed.job r
      → Surely (Closes closes_at) (close_due_in_context env draws r)
  unfolding close_due_in_context
  close_due-Surely now closes_at r timed late h = Surely-gets _ _ _ r (
      Surely-cases _ (may_close r.row) _ _ r (rw (timed.status, timed.closing) refl) (
        Surely-present _ _ now _ _ r h.first (
          Surely-gets _ _ _ r (
            Surely-option_some _ _ _ (due_job env now r) (timed.job, closes_at) r
              (timed.due now ∙ (ground arith))
              (Surely-then _
                (λ e r'. (r'.row.status ≡ closed) × (r'.row.closed_at ≡ some closes_at)) _ _ r
                (append_close-Surely now closes_at timed.job r h)
                (λ e r' s. Surely-give _ (some e) r' (refl, s.0, s.1)))))))

  commit-Closes :
      (closes_at : ℕ) (id : String) (db : List (String × Room)) (o : Outcome (Option Event × Room))
      → Surely (Closes closes_at) o
      → (e : Event) × (r' : Room) × (commit env id db o ≡ (ok (some e), put id r' db))
        × (r'.row.status ≡ closed)
        × (r'.row.closed_at ≡ some closes_at)
  unfolding commit Surely
  commit-Closes closes_at id db (ok (some e, r')) s = (e, r', refl, s.1, s.2)
  commit-Closes closes_at id db (ok (none, r')) s = cc
  commit-Closes closes_at id db (fail f) s = elim s [ ]

  -- A room that its opening has timed does close. Once the clock reads its closing time or later, and
  -- the rows and the contract admit the closing event, one `closeIfDue` of the room, which is not being
  -- deleted, commits: it answers an event, and the room is closed as of its closing time.
  pub close_if_due-Closes :
      (id : String) (db : List (String × Room)) (r : Room) (now closes_at : ℕ)
      (timed : IsTimed env closes_at r)
      → get id db ≡ some r
      → env.is_uuid id ≡ true
      → env.is_uuid r.row.room_id ≡ true
      → r.deletion_active ≡ false
      → is_safe_positive r.row.next_room_seq ≡ true
      → closes_at ≤ now
      → CanClose now closes_at timed.job r
      → (e : Event) × (r' : Room) × (close_if_due env id draws db ≡ (ok (some e), put id r' db))
        × (r'.row.status ≡ closed)
        × (r'.row.closed_at ≡ some closes_at)
  unfolding close_if_due transact locked
  close_if_due-Closes id db r now closes_at timed g u v d safe late h =
      rw (u, g)
        (commit-Closes closes_at id db _ (
          Surely-gets _ _ _ r (
            Surely-require _ _ _ _ r v (
              Surely-require _ _ _ _ r (rw d refl)
                (Surely-require _ _ _ _ r safe (close_due-Surely now closes_at r timed late h))))))
