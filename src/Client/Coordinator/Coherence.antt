-- ===== src/Client/Coordinator/Coherence.antt =====
-- What a published batch promises: the panels that may be shown have read the same part of the room.
use learning_orbit.Prelude.{
  ℕ, false, Option, none, some, List, [], ◌∷◌, ◌++◌, ◌≡◌, refl, sym, subst, ◌⊎◌, All, if-cases, not,
  is_safe_integer,
}
use learning_orbit.Client.Coordinator.{
  ProjectionSurface, SurfaceAvailability, enabled, not_available_by_policy, projection_surfaces,
  StagedProjection, CoherentBatch, ProjectionCoordinator, is_enabled, batch, is_last, publish_at,
  publish_when_coherent, set_availability, stage, set_at,
}

abbrev Reached : {V : Type 0} → ℕ → Option (StagedProjection V) → Type 0
Reached c none = ⊥
Reached c (some p) = p.complete_through_room_seq ≡ c

-- A surface that policy does not withhold has staged a projection with this cursor.
abbrev pub IsAt : {V : Type 0} → ℕ → SurfaceAvailability → Option (StagedProjection V) → Type 0
IsAt c not_available_by_policy o = Unit
IsAt c enabled none = ⊥
IsAt c enabled (some p) = p.complete_through_room_seq ≡ c

abbrev AreAll : ℕ → Option (List ℕ) → Type 0
AreAll c none = ⊥
AreAll c (some cs) = All (λ d. d ≡ c) cs

-- What the clients of the coordinator call.
pub data Action (V : Type 0) : Type 0 where
  sets : ProjectionSurface → SurfaceAvailability → Action V
  stages : ProjectionSurface → StagedProjection V → Action V

module _ {V : Type 0} where
  unfoldable pub act : Action V → ProjectionCoordinator V → ProjectionCoordinator V
  act (sets k a) s = set_availability k a s
  act (stages k p) s = stage k p s

  unfoldable pub act_all : List (Action V) → ProjectionCoordinator V → ProjectionCoordinator V
  act_all [] s = s
  act_all (a ∷ acts) s = act_all acts (act a s)

  -- A batch that shows the state `t`: each surface that policy allows has reached the cursor.
  pub record IsCoherent (t : ProjectionCoordinator V) (b : CoherentBatch V) : Type 0 where
    pub shows : b ≡ batch b.complete_through_room_seq t
    pub reached :
        All
          (λ k. IsAt b.complete_through_room_seq (t.availability k) (t.staged k))
          projection_surfaces

  -- The calls of `publish` from `s` to `t`: none, or one batch that `t` agrees on.
  abbrev pub Publishes : ProjectionCoordinator V → ProjectionCoordinator V → Type 0
  Publishes s t =
      (t.published ≡ s.published)
      ⊎ ((b : CoherentBatch V) × (t.published ≡ s.published ++ b ∷ []) × IsCoherent t b)

  -- The cursors of these batches each differ from the one before, from the cursor `l` to `m`.
  abbrev pub Changing : Option ℕ → List (CoherentBatch V) → Option ℕ → Type 0
  Changing l [] m = l ≡ m
  Changing l (b ∷ bs) m =
      (is_last l b.complete_through_room_seq ≡ false)
      × Changing (some b.complete_through_room_seq) bs m

  Changing-append :
      (l : Option ℕ) (bs : List (CoherentBatch V)) (m : Option ℕ) (b : CoherentBatch V)
      → Changing l bs m
      → is_last m b.complete_through_room_seq ≡ false
      → Changing l (bs ++ b ∷ []) (some b.complete_through_room_seq)
  Changing-append l [] m b h d =
      (subst (λ o. is_last o b.complete_through_room_seq ≡ false) (sym h) d, refl)
  Changing-append l (x ∷ bs) m b h d =
      (h.0, Changing-append (some x.complete_through_room_seq) bs m b h.1 d)

  publish_at-Changing :
      (r : Option ℕ) (s : ProjectionCoordinator V)
      → Changing none s.published s.last_published
      → Changing none (publish_at r s).published (publish_at r s).last_published
  unfolding publish_at batch
  publish_at-Changing none s h = h
  publish_at-Changing (some c) s h =
      if-cases (λ (t : ProjectionCoordinator V). Changing none t.published t.last_published)
        (is_last s.last_published c) (λ _. h)
        (λ d. Changing-append none s.published s.last_published (batch c s) h d)

  act-Changing :
      (a : Action V) (s : ProjectionCoordinator V)
      → Changing none s.published s.last_published
      → Changing none (act a s).published (act a s).last_published
  unfolding act set_availability stage publish_when_coherent
  act-Changing (sets k a) s h = publish_at-Changing _ _ h
  act-Changing (stages k p) s h =
      let P = λ (t : ProjectionCoordinator V). Changing none t.published t.last_published in
      if-cases P (not (is_enabled (s.availability k))) (λ _. h)
        (λ _.
          if-cases P (not (is_safe_integer p.projection_version)) (λ _. h)
            (λ _.
              if-cases P (not (is_safe_integer p.complete_through_room_seq)) (λ _. h)
                (λ _. publish_at-Changing _ (record s { staged = set_at k (some p) s.staged }) h)))

  -- If no two batches published in a row had the same cursor and the last one is remembered, as at the
  -- start, where none was published, this stays so whatever is staged and withheld.
  pub act_all-Changing :
      (acts : List (Action V)) (s : ProjectionCoordinator V)
      → Changing none s.published s.last_published
      → Changing none (act_all acts s).published (act_all acts s).last_published
  unfolding act_all
  act_all-Changing [] s h = h
  act_all-Changing (a ∷ acts) s h = act_all-Changing acts (act a s) (act-Changing a s h)
