-- ===== src/Client/AgentRuns.antt =====
-- apps/web/src/lib/session/hydrated-session-state.ts: which status of the agent a page takes over
-- the one it shows. Times are milliseconds; a time that is unknown is `none`.
use learning_orbit.Prelude.{
  ℕ, String, Bool, true, false, Option, none, some, ◌&&◌, ◌||◌, not, ◌===◌, ===_iff, ltb, ◌≡◌, refl,
  ◌≤◌, ◌<◌, ◌⊎◌, inl, inr, arith, if◌then◌else◌, is_some, ◌≢◌, Bool-cases,
}
use learning_orbit.Wire.{
  AgentState, idle, queued, running, streaming, completed, blocked_by_policy, cancelled, failed,
  AgentStatus,
}

unfoldable pub is_terminal : AgentState → Bool
is_terminal completed = true
is_terminal blocked_by_policy = true
is_terminal cancelled = true
is_terminal failed = true
is_terminal _ = false

-- `AGENT_PROGRESS_RANK[state] ?? -1`, plus one.
unfoldable pub progress_rank : AgentState → ℕ
progress_rank queued = 1
progress_rank running = 2
progress_rank streaming = 3
progress_rank _ = 0

abbrev pub same_state : AgentState → AgentState → Bool
same_state idle idle = true
same_state queued queued = true
same_state running running = true
same_state streaming streaming = true
same_state completed completed = true
same_state blocked_by_policy blocked_by_policy = true
same_state cancelled cancelled = true
same_state failed failed = true
same_state _ _ = false

unfoldable pub agent_frame_identity_is_valid : AgentStatus → Bool
agent_frame_identity_is_valid f =
    if same_state f.state idle
    then not (is_some f.agent_run_id) && not (is_some f.failure_code)
    else is_some f.agent_run_id

-- The case of one and the same run.
unfoldable pub accept_same_run : AgentState → AgentState → ℕ → ℕ → Bool
unfolding is_terminal progress_rank
accept_same_run previous next before after =
    if same_state previous next
    then ltb before after
    else if is_terminal previous
    then false
    else if is_terminal next
    then true
    else ltb (progress_rank previous) (progress_rank next)

-- Both frames have a run, and the time of the previous one is known.
unfoldable pub accept_run : String → String → AgentState → AgentState → ℕ → ℕ → Bool → Bool
unfolding is_terminal accept_same_run
accept_run old new previous next before after authoritative =
    if ltb after before
    then false
    else if not (old === new)
    then ltb before after && (authoritative || is_terminal previous)
    else accept_same_run previous next before after

-- By the runs of the two frames and the time of the previous one.
unfoldable pub accept_by :
    Option String → Option String → Option ℕ → AgentState → AgentState → ℕ → Bool → Bool
unfolding accept_run
accept_by none none before previous next after authoritative = false
accept_by none (some new) none previous next after authoritative = false
accept_by none (some new) (some before) previous next after authoritative = ltb before after
accept_by (some old) none before previous next after authoritative = false
accept_by (some old) (some new) none previous next after authoritative = false
accept_by (some old) (some new) (some before) previous next after authoritative =
    accept_run old new previous next before after authoritative

unfoldable pub accept_agent_run_transition : AgentStatus → AgentStatus → Option ℕ → ℕ → Bool → Bool
unfolding accept_by
accept_agent_run_transition p n before after authoritative =
    accept_by p.agent_run_id n.agent_run_id before p.state n.state after authoritative

-- How far a run has come, with one last stage for all ways to end.
abbrev pub stage : AgentState → ℕ
stage idle = 0
stage queued = 1
stage running = 2
stage streaming = 3
stage completed = 4
stage blocked_by_policy = 4
stage cancelled = 4
stage failed = 4

stage_lem :
    (s : AgentState)
    → (stage s ≡ (if is_terminal s then 4 else progress_rank s)) × (progress_rank s ≤ 3)
unfolding is_terminal progress_rank
stage_lem idle = (refl, omega arith)
stage_lem queued = (refl, omega arith)
stage_lem running = (refl, omega arith)
stage_lem streaming = (refl, omega arith)
stage_lem completed = (refl, omega arith)
stage_lem blocked_by_policy = (refl, omega arith)
stage_lem cancelled = (refl, omega arith)
stage_lem failed = (refl, omega arith)

-- What a status that is taken over the one shown may be: for the same run, the same state at a later
-- time or a later stage; for another run, a later time, and the old run has ended unless the new one
-- is authoritative.
abbrev pub IsNext :
    Option String → Option String → Option ℕ → AgentState → AgentState → ℕ → Bool → Type 0
IsNext none none before previous next after authoritative = ⊥
IsNext none (some new) none previous next after authoritative = ⊥
IsNext none (some new) (some before) previous next after authoritative = before < after
IsNext (some old) none before previous next after authoritative = ⊥
IsNext (some old) (some new) none previous next after authoritative = ⊥
IsNext (some old) (some new) (some before) previous next after authoritative =
    (before ≤ after)
    × (((old ≡ new)
          × (((same_state previous next ≡ true) × (before < after))
              ⊎ (stage previous < stage next)))
        ⊎ ((old ≢ new)
            × (before < after)
            × ((authoritative ≡ true) ⊎ (is_terminal previous ≡ true))))

accept_same_run-stage :
    (previous next : AgentState) (before after : ℕ)
    → accept_same_run previous next before after ≡ true
    → ((same_state previous next ≡ true) × (before < after)) ⊎ (stage previous < stage next)
unfolding accept_same_run
accept_same_run-stage previous next before after h = elim (Bool-cases (same_state previous next)) [
  | inl t ↦ inl (t, ground (arith, t, h))
  | inr t ↦ inr (ground (arith, t, h, stage_lem previous, stage_lem next))
]

accept_run-IsNext :
    (old new : String) (previous next : AgentState) (before after : ℕ) (authoritative : Bool)
    → accept_run old new previous next before after authoritative ≡ true
    → IsNext (some old) (some new) (some before) previous next after authoritative
unfolding accept_run
accept_run-IsNext old new previous next before after authoritative h =
    elim (Bool-cases (old === new)) [
      | inl t ↦ (
        ground (arith, h),
        inl (
          (===_iff old new).0 t,
          accept_same_run-stage previous next before after (ground (arith, t, h)),
        ),
      )
      | inr t ↦ (
        ground (arith, h),
        inr (
          (λ q. ground (arith, t, q, ===_iff old new)),
          ground (arith, t, h),
          elim (Bool-cases authoritative) [ inl a ↦ inl a | inr a ↦ inr (ground (arith, t, h, a)) ],
        ),
      )
    ]

accept_by-IsNext :
    (o n : Option String) (before : Option ℕ) (previous next : AgentState) (after : ℕ)
    (authoritative : Bool)
    → accept_by o n before previous next after authoritative ≡ true
    → IsNext o n before previous next after authoritative
unfolding accept_by
accept_by-IsNext none none before previous next after a h = ground (arith, h)
accept_by-IsNext none (some new) none previous next after a h = ground (arith, h)
accept_by-IsNext none (some new) (some before) previous next after a h = ground (arith, h)
accept_by-IsNext (some old) none before previous next after a h = ground (arith, h)
accept_by-IsNext (some old) (some new) none previous next after a h = ground (arith, h)
accept_by-IsNext (some old) (some new) (some before) previous next after a h =
    accept_run-IsNext old new previous next before after a h

-- A status that is taken over the one shown never goes back in time. Within a run it keeps the
-- state at a later time or reaches a later stage, so that a run that has ended stays as it ended;
-- another run comes in only later, and over a run that has ended or by an authoritative answer.
pub accept_agent_run_transition-IsNext :
    (p n : AgentStatus) (before : Option ℕ) (after : ℕ) (authoritative : Bool)
    → accept_agent_run_transition p n before after authoritative ≡ true
    → IsNext p.agent_run_id n.agent_run_id before p.state n.state after authoritative
unfolding accept_agent_run_transition
accept_agent_run_transition-IsNext p n before after authoritative h =
    accept_by-IsNext p.agent_run_id n.agent_run_id before p.state n.state after authoritative h
