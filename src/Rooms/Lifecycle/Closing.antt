-- ===== src/Rooms/Lifecycle/Closing.antt =====
-- The auto-close job that the opening of lifecycle-service.ts writes, and how the clock finds it.
use learning_orbit.Prelude.{
  ℕ, ◌+◌, String, Bool, true, false, ◌&&◌, Option, none, some, List, [], ◌∷◌, ◌++◌, ◌≡◌, refl,
  arith, leb, is_yes_intro, ===_refl, if◌then◌else◌,
}
use learning_orbit.Wire.{opened, human, teacher, add}
use learning_orbit.Rooms.Store.{
  room_opened, body_type, Event, Room, Job, auto_close_key, auto_close, DedupeKey-discrete,
  JobPayload-discrete,
}
use learning_orbit.Rooms.Work.{
  change, After, After-then, After-gets, After-present, After-give, After-require, After-change,
}
use learning_orbit.Rooms.Ledger.{
  Environment, Draws, with_causation, has_event, consume_job, inserted,
}
use learning_orbit.Rooms.Ledger.Growth.{Appended, append-new}
use learning_orbit.Rooms.Lifecycle.{
  room_duration_ms, auto_close_job, is_auto_close, event_by_id, source_of, due_job, is_canonical,
}
use learning_orbit.Rooms.Lifecycle.Commands.{closing_job, enqueue, open_new}

auto_close_job-append :
    (js : List Job) (j : Job)
    → auto_close_job js ≡ none
    → is_auto_close j.job_type ≡ true
    → auto_close_job (js ++ j ∷ []) ≡ some j
unfolding auto_close_job
auto_close_job-append [] j n h = rw h refl
auto_close_job-append (x ∷ js) j n h = ground (arith, auto_close_job-append js j)

event_by_id-append :
    (es : List Event) (e : Event)
    → has_event e es ≡ false
    → event_by_id e.event_id (es ++ e ∷ []) ≡ some e
unfolding event_by_id
event_by_id-append [] e h = rw (===_refl e.event_id) refl
event_by_id-append (x ∷ es) e h = ground (arith, event_by_id-append es e)

auto_close_job-append_other :
    (js : List Job) (j : Job)
    → auto_close_job js ≡ none
    → is_auto_close j.job_type ≡ false
    → auto_close_job (js ++ j ∷ []) ≡ none
unfolding auto_close_job
auto_close_job-append_other [] j n h = rw h refl
auto_close_job-append_other (x ∷ js) j n h = ground (arith, auto_close_job-append_other js j)

and_true : {A : Type 0} (b : Bool) (x y : A) → (if b && true then x else y) ≡ (if b then x else y)
and_true true x y = refl
and_true false x y = refl

module _ (env : Environment) where
  -- An opening of the room, as `is_opening` wants it.
  record Opening (id : String) (iso : String) (e : Event) : Type 0 where
    opened_in : e.room_id ≡ id
    starts_at : String
    body : e.body ≡ room_opened starts_at iso
    kind : e.actor_kind ≡ human
    role : e.actor_role ≡ teacher
    revision : e.revision ≡ 1
    operation : e.operation ≡ add

  Opening-canonical :
      (job_id id : String) (e : Event) (closes_at : ℕ)
      → Opening id (env.to_iso closes_at) e
      → is_canonical env id
          (closing_job job_id id (env.to_iso closes_at) e closes_at)
          closes_at
          (some e)
        ≡ true
  unfolding body_type
  Opening-canonical job_id id e closes_at o =
      let iso = env.to_iso closes_at in
      rw
        (
          is_yes_intro (DedupeKey-discrete (auto_close_key id) (auto_close_key id)) refl,
          ===_refl iso,
          is_yes_intro (JobPayload-discrete (auto_close id iso) (auto_close id iso)) refl,
          o.opened_in,
          ===_refl id,
          o.body,
          o.kind,
          o.role,
          o.revision,
          o.operation,
          ===_refl e.correlation_id,
          ===_refl iso,
        )
        refl

  -- From its closing time on, and not before, the canonical job of the room is found.
  pub record IsTimed (closes_at : ℕ) (r : Room) : Type 0 where
    pub status : r.row.status ≡ opened
    pub closing : r.row.closes_at ≡ some closes_at
    pub job : Job
    pub due :
        (now : ℕ) → due_job env now r ≡ (if leb closes_at now then some (job, closes_at) else none)

  pub canonical-due :
      (now closes_at : ℕ) (r : Room) (j : Job) (e : Event)
      → r.row.closes_at ≡ some closes_at
      → auto_close_job r.jobs ≡ some j
      → source_of j.source_event_id r.events ≡ some e
      → is_canonical env r.row.room_id j closes_at (some e) ≡ true
      → due_job env now r ≡ (if leb closes_at now then some (j, closes_at) else none)
  unfolding due_job
  canonical-due now closes_at r j e c a s k = ground (arith, c, a, s, k)

  enqueue-IsTimed :
      (closes_at : ℕ) (r : Room) (e : Event) (j : Job)
      → r.row.status ≡ opened
      → r.row.closes_at ≡ some closes_at
      → auto_close_job r.jobs ≡ none
      → is_auto_close j.job_type ≡ true
      → source_of j.source_event_id r.events ≡ some e
      → is_canonical env r.row.room_id j closes_at (some e) ≡ true
      → After (λ _ r'. IsTimed closes_at r') (enqueue j r)
  unfolding enqueue change After
  enqueue-IsTimed closes_at r e j o c n t s k =
      let queue = auto_close_job-append r.jobs j n t in
      let r' = record r { jobs = r.jobs ++ j ∷ [] } in
      After-gets _ _ _ r (
        After-require _ _ _ _ r (λ _. record {
          status = o;
          closing = c;
          job = j;
          due = λ now. canonical-due now closes_at r' j e c queue s k;
        }))

  module _ (teacher_id causation_id : String) (session : Option String) where
    -- Opening a room that has no auto-close job yet leaves it open, with a job for the end of its 45
    -- minutes: the clock finds the room due from then on, and never before.
    pub open_new-IsTimed :
        (draws : Draws) (r : Room)
        → with_causation causation_id r.events ≡ none
        → auto_close_job r.jobs ≡ none
        → After
            (λ e r'. (now : ℕ) × (draws.clock 0 ≡ some now) × IsTimed (now + 2_700_000) r')
            (open_new env r.row.room_id teacher_id causation_id session draws r)
    unfolding open_new source_of
    open_new-IsTimed draws r unused jobless = After-gets _ _ _ r (
        After-require _ _ _ _ r (λ t. After-present _ _ _ _ r (λ now clock.
          let closes_at = now + room_duration_ms in
          let m = record r {
            row = record r.row {
              status = opened;
              starts_at = some now;
              closes_at = some closes_at;
            };
          } in
          After-change _ _ _ r (
            After-then _ (Appended env _ m) _ _ m (append-new env _ _ _ _ m unused) (λ e r' a.
              After-then _ (λ _ x. IsTimed closes_at x) _ _ r'
                (rw a.result (
                  enqueue-IsTimed closes_at (inserted e (consume_job a.job e) m) e _ refl refl
                    (auto_close_job-append_other r.jobs (consume_job a.job e) jobless refl) refl
                    (event_by_id-append r.events e a.fresh)
                    (Opening-canonical (draws.random_uuid 3) r.row.room_id e closes_at (record {
                      opened_in = a.drafted.room;
                      starts_at = env.to_iso now;
                      body = a.drafted.body;
                      kind = a.drafted.kind;
                      role = a.drafted.role;
                      revision = a.drafted.revision;
                      operation = a.drafted.operation;
                    }))))
                (λ _ x timed. After-give _ e x (now, clock, timed)))))))
