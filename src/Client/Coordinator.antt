-- ===== src/Client/Coordinator.antt =====
-- apps/web/src/lib/session/projection-coordinator.ts: the panels of a session are published together
-- or not at all. The two maps keyed by surface are functions of the surface; versions and cursors
-- are natural numbers, so of `Number.isSafeInteger(n) && n >= 0` the bound is left.
pub mod Coherence
use learning_orbit.Prelude.{
  ℕ, Bool, true, false, Option, none, some, List, [], ◌∷◌, ◌++◌, ◌&&◌, not, ◌==◌, filterb,
  is_safe_integer, if◌then◌else◌, is_some,
}

pub data ProjectionSurface : Type 0 where
  chat_ledger concept sna : ProjectionSurface

pub data SurfaceAvailability : Type 0 where
  enabled not_available_by_policy : SurfaceAvailability

abbrev pub projection_surfaces : List ProjectionSurface
projection_surfaces = chat_ledger ∷ concept ∷ sna ∷ []

pub record StagedProjection (V : Type 0) : Type 0 where
  pub projection_version : ℕ
  pub complete_through_room_seq : ℕ
  pub value : V

-- A value that no surface has staged is `null`.
pub record CoherentBatch (V : Type 0) : Type 0 where
  pub complete_through_room_seq : ℕ
  pub projection_versions : List (ProjectionSurface × ℕ)
  pub unavailable_by_policy : List ProjectionSurface
  pub chat_ledger : Option V
  pub concept : Option V
  pub sna : Option V

-- `published` are the calls of `publish`.
pub record ProjectionCoordinator (V : Type 0) : Type 0 where
  pub staged : ProjectionSurface → Option (StagedProjection V)
  pub availability : ProjectionSurface → SurfaceAvailability
  pub last_published : Option ℕ
  pub published : List (CoherentBatch V)

abbrev pub same_surface : ProjectionSurface → ProjectionSurface → Bool
same_surface chat_ledger chat_ledger = true
same_surface concept concept = true
same_surface sna sna = true
same_surface _ _ = false

abbrev pub set_at :
    {A : Type 0} → ProjectionSurface → A → (ProjectionSurface → A) → ProjectionSurface → A
set_at k a f j = if same_surface k j then a else f j

abbrev pub is_enabled : SurfaceAvailability → Bool
is_enabled enabled = true
is_enabled not_available_by_policy = false

-- The one element of the set of these cursors, if it has exactly one.
abbrev pub agreed : List ℕ → Option ℕ
agreed [] = none
agreed (c ∷ []) = some c
agreed (c ∷ d ∷ ds) = if c == d then agreed (d ∷ ds) else none

-- No agreement while a cursor is missing.
abbrev pub agreed_of : Option (List ℕ) → Option ℕ
agreed_of none = none
agreed_of (some cs) = agreed cs

-- Whether this cursor was the last one published.
abbrev pub is_last : Option ℕ → ℕ → Bool
is_last none c = false
is_last (some d) c = d == c

module _ {V : Type 0} where
  abbrev pub create : ProjectionCoordinator V
  create = record {
    staged = λ _. none;
    availability = λ _. enabled;
    last_published = none;
    published = [];
  }

  abbrev pub with_cursor : Option (StagedProjection V) → Option (List ℕ) → Option (List ℕ)
  with_cursor none r = none
  with_cursor (some p) none = none
  with_cursor (some p) (some cs) = some (p.complete_through_room_seq ∷ cs)

  -- The cursors of these surfaces, unless one has nothing staged.
  abbrev pub cursors_of :
      (ProjectionSurface → Option (StagedProjection V)) → List ProjectionSurface → Option (List ℕ)
  cursors_of staged [] = some []
  cursors_of staged (k ∷ ks) = with_cursor (staged k) (cursors_of staged ks)

  abbrev pub enabled_surfaces : ProjectionCoordinator V → List ProjectionSurface
  enabled_surfaces s = filterb (λ k. is_enabled (s.availability k)) projection_surfaces

  unfoldable pub coherent_cursor : ProjectionCoordinator V → Option ℕ
  coherent_cursor s = agreed_of (cursors_of s.staged (enabled_surfaces s))

  abbrev pub value_of : Option (StagedProjection V) → Option V
  value_of none = none
  value_of (some p) = some p.value

  abbrev pub versions_of :
      (ProjectionSurface → Option (StagedProjection V))
      → List ProjectionSurface
      → List (ProjectionSurface × ℕ)
  versions_of staged [] = []
  versions_of staged (k ∷ ks) = elim (staged k) [
    | none ↦ versions_of staged ks
    | some p ↦ (k, p.projection_version) ∷ versions_of staged ks
  ]

  unfoldable pub batch : ℕ → ProjectionCoordinator V → CoherentBatch V
  batch cursor s = record {
    complete_through_room_seq = cursor;
    projection_versions = versions_of s.staged projection_surfaces;
    unavailable_by_policy = filterb (λ k. not (is_enabled (s.availability k))) projection_surfaces;
    chat_ledger = value_of (s.staged chat_ledger);
    concept = value_of (s.staged concept);
    sna = value_of (s.staged sna);
  }

  unfoldable pub publish_at : Option ℕ → ProjectionCoordinator V → ProjectionCoordinator V
  publish_at none s = s
  publish_at (some cursor) s =
      if is_last s.last_published cursor
      then s
      else record s { last_published = some cursor; published = s.published ++ batch cursor s ∷ [] }

  unfoldable pub publish_when_coherent : ProjectionCoordinator V → ProjectionCoordinator V
  publish_when_coherent s = publish_at (coherent_cursor s) s

  unfoldable pub set_availability :
      ProjectionSurface → SurfaceAvailability → ProjectionCoordinator V → ProjectionCoordinator V
  set_availability k a s = publish_when_coherent (record s {
    availability = set_at k a s.availability;
    staged = if is_enabled a then s.staged else set_at k none s.staged;
  })

  unfoldable pub stage :
      ProjectionSurface → StagedProjection V → ProjectionCoordinator V → ProjectionCoordinator V
  stage k p s =
      if not (is_enabled (s.availability k))
      then s
      else if not (is_safe_integer p.projection_version)
      then s
      else if not (is_safe_integer p.complete_through_room_seq)
      then s
      else publish_when_coherent (record s { staged = set_at k (some p) s.staged })
