-- ===== src/Rooms/Ledger/Success.antt =====
-- When an append of room-event-repository.ts goes through: what the contract and the unique
-- constraints must admit.
use learning_orbit.Prelude.{ℕ, String, true, false, none, some, ◌≡◌, refl, arith}
use learning_orbit.Rooms.Store.{Event, Room}
use learning_orbit.Rooms.Work.Surely.{
  Surely, Surely-known, Surely-gets, Surely-present, Surely-option_none, Surely-give, Surely-change,
  Surely-require,
}
use learning_orbit.Rooms.Ledger.{
  Environment, Draft, with_causation, find_by_causation, validate_draft, candidate_of, consume_job,
  has_event, has_job, inserted, insert, append,
}

module _ (env : Environment) where
  pub find_by_causation-none :
      (id : String) (r : Room)
      → env.is_uuid id ≡ true
      → with_causation id r.events ≡ none
      → Surely (λ x r'. (r' ≡ r) × (x ≡ none)) (find_by_causation env id r)
  unfolding find_by_causation
  find_by_causation-none id r u n = Surely-require _ _ _ _ r u (
      Surely-gets _ _ _ r (
        Surely-option_none _ _ _ (with_causation id r.events) r n
          (Surely-give _ none r (refl, refl))))

  -- What the rows and the contract must not refuse.
  pub record Admits (r : Room) (e : Event) (job_id : String) : Type 0 where
    pub accepted : env.accepts e ≡ true
    pub uuid : env.is_uuid e.causation_id ≡ true
    pub unused : with_causation e.causation_id r.events ≡ none
    pub fresh : has_event e r.events ≡ false
    pub unqueued : has_job (consume_job job_id e) r.jobs ≡ false

  pub append-Surely :
      (ingest : ℕ) (event_id job_id time : String) (d : Draft) (r : Room)
      → let e =
          candidate_of (env.to_iso ingest) event_id r.row.room_id r.row.next_room_seq time d in
        d.event_time ≡ some time
        → Admits r e job_id
        → Surely
            (λ x r'. (x ≡ e) × (r' ≡ inserted e (consume_job job_id e) r))
            (append env (some ingest) event_id job_id d r)
  unfolding append validate_draft insert
  append-Surely ingest event_id job_id time d r t a =
      let e = candidate_of (env.to_iso ingest) event_id r.row.room_id r.row.next_room_seq time d in
      Surely-gets _ _ _ r (
        Surely-known _ e _ _ r
          (Surely-present _ _ time _ _ r t (
            Surely-present _ _ ingest _ _ r refl
              (Surely-require _ _ _ _ r a.accepted (Surely-give _ e r (refl, refl)))))
          (Surely-known _ none _ _ r (find_by_causation-none e.causation_id r a.uuid a.unused) (
            Surely-gets _ _ _ r (
              Surely-require _ _ _ _ r (ground (arith, a.fresh, a.unqueued))
                (Surely-change _ _ _ r (Surely-give _ e _ (refl, refl)))))))
