-- ===== src/Client/Projections/Patched.antt =====
-- What a series of patches makes of the concept map that a page shows.
use learning_orbit.Prelude.{
  ℕ, suc, String, true, Option, none, some, List, [], ◌∷◌, ◌≡◌, refl, sym, ap, ◌∙◌, subst, ◌≢◌, ◌⊎◌,
  inl, inr, ◌+◌, ◌≤◌, ◌===◌, ===_iff, ◌==◌, ◌||◌, not, length, if-cases, arith,
}
use learning_orbit.Wire.{
  ProjectionKey, echo_teacher_shadow, echo_student_approved, trace_teacher_bundle,
  trace_student_bundle, ProjectionFrame,
}
use learning_orbit.Client.Concept.{
  ConceptMapSnapshot, ConceptMapPatch, Result, done, fail, and_then, apply_concept_patch,
}
use learning_orbit.Client.Concept.Integrity.{Advances, Returns, apply_concept_patch-Advances}
use learning_orbit.Client.Projections.{
  ProjectionSync, ProjectionError, Answer, thrown, same_key, set_at, guarded, assert_frame,
  assert_allowed, apply_all, reach, base_of, patch_from, apply_echo_patches, echo, slot_of, ready,
}
use learning_orbit.Client.Projections.Versions.{same_key-≡}

module _ {Num : Type 0} (parse : ConceptMapSnapshot Num → Option (ConceptMapSnapshot Num)) where
  -- The version that a result reached from `c`, one for each patch, in the same room and epoch.
  abbrev pub Reaches : ℕ → ConceptMapSnapshot Num → Result (ConceptMapSnapshot Num) → Type 0
  Reaches n c (fail e) = Unit
  Reaches n c (done d) =
      (d.projection_version ≡ c.projection_version + n)
      × (d.room_id ≡ c.room_id)
      × (d.analysis_epoch ≡ c.analysis_epoch)
      × (c.complete_through_room_seq ≤ d.complete_through_room_seq)

  Reaches-suc :
      (n : ℕ) (p : ConceptMapPatch Num) (c d : ConceptMapSnapshot Num)
      (r : Result (ConceptMapSnapshot Num))
      → Advances c p d
      → Reaches n d r
      → Reaches (suc n) c r
  Reaches-suc n p c d (fail e) a h = tt
  Reaches-suc n p c d (done t) a h = (
    omega (arith, a.next_version, h.0),
    h.1 ∙ a.same_room,
    h.2 ∙ a.same_epoch,
    omega (arith, a.forward, h.3),
  )

  apply_next-Reaches :
      (p : ConceptMapPatch Num) (ps : List (ConceptMapPatch Num)) (c : ConceptMapSnapshot Num)
      (r : Result (ConceptMapSnapshot Num))
      → ((d : ConceptMapSnapshot Num) → r ≡ done d → Advances c p d)
      → ((d : ConceptMapSnapshot Num) → Reaches (length ps) d (apply_all parse ps d))
      → Reaches (length (p ∷ ps)) c (and_then r (λ d. apply_all parse ps d))
  apply_next-Reaches p ps c (fail e) one rest = tt
  apply_next-Reaches p ps c (done d) one rest =
      Reaches-suc (length ps) p c d (apply_all parse ps d) (one d refl) (rest d)

  apply_all-Reaches :
      (returns : Returns parse) (ps : List (ConceptMapPatch Num)) (c : ConceptMapSnapshot Num)
      → Reaches (length ps) c (apply_all parse ps c)
  unfolding apply_all
  apply_all-Reaches returns [] c = (omega arith, refl, refl, omega arith)
  apply_all-Reaches returns (p ∷ ps) c =
      apply_next-Reaches p ps c (apply_concept_patch parse c p)
        (apply_concept_patch-Advances parse returns c p) (apply_all-Reaches returns ps)

same_key_refl : (k : ProjectionKey) → same_key k k ≡ true
same_key_refl echo_teacher_shadow = refl
same_key_refl echo_student_approved = refl
same_key_refl trace_teacher_bundle = refl
same_key_refl trace_student_bundle = refl

set_at-same :
    {A : Type 0} → (k : ProjectionKey) (a : A) (f : ProjectionKey → A) → set_at k a f k ≡ a
set_at-same k a f = rw (same_key_refl k) refl

module _ {Num : Type 0} (parse : ConceptMapSnapshot Num → Option (ConceptMapSnapshot Num)) where
  -- The patches lead from one map to the other, each applied to what the one before it gave.
  abbrev pub Applied :
      List (ConceptMapPatch Num) → ConceptMapSnapshot Num → ConceptMapSnapshot Num → Type 0
  Applied [] b c = c ≡ b
  Applied (p ∷ ps) b c =
      (d : ConceptMapSnapshot Num) × (apply_concept_patch parse b p ≡ done d) × Applied ps d c

  and_then-done :
      (r : Result (ConceptMapSnapshot Num))
      (f : ConceptMapSnapshot Num → Result (ConceptMapSnapshot Num)) (c : ConceptMapSnapshot Num)
      → and_then r f ≡ done c
      → (d : ConceptMapSnapshot Num) × (r ≡ done d) × (f d ≡ done c)
  and_then-done (fail e) f c h = cc
  and_then-done (done d) f c h = (d, refl, h)

  apply_all-Applied :
      (ps : List (ConceptMapPatch Num)) (b c : ConceptMapSnapshot Num)
      → apply_all parse ps b ≡ done c
      → Applied ps b c
  unfolding apply_all
  apply_all-Applied [] b c h = ground (arith, h)
  apply_all-Applied (p ∷ ps) b c h =
      let (d, one, rest) =
        and_then-done (apply_concept_patch parse b p) (λ x. apply_all parse ps x) c h in
      (d, one, apply_all-Applied ps d c rest)

  Applied-apply_all :
      (ps : List (ConceptMapPatch Num)) (b c : ConceptMapSnapshot Num)
      → Applied ps b c
      → apply_all parse ps b ≡ done c
  unfolding apply_all
  Applied-apply_all [] b c h = ap done (sym h)
  Applied-apply_all (p ∷ ps) b c (d, one, rest) = rw one (Applied-apply_all ps d c rest)

-- The map is where the target says.
abbrev pub Meets : {Num : Type 0} → ProjectionFrame → ConceptMapSnapshot Num → Type 0
Meets target c =
    (c.projection_version ≡ target.projection_version)
    × (c.complete_through_room_seq ≡ target.complete_through_room_seq)
    × (c.analysis_epoch ≡ target.analysis_epoch)

other_key : (j k : ProjectionKey) → not (same_key j k) ≡ true → j ≢ k
other_key j k t q =
    let same : same_key j k ≡ true = subst (λ i. same_key j i ≡ true) q (same_key_refl j) in
    ground (arith, t, same)

module _ {Num Payload : Type 0} (latest : String → ProjectionKey → String)
    (parse : ConceptMapSnapshot Num → Option (ConceptMapSnapshot Num)) where
  -- Why a call throws: the role may not have the projection, the target is not of this room, it is
  -- another projection's, there is no map to patch, or the patches do not lead to the target.
  abbrev pub IsRefused :
      ProjectionKey
      → List (ConceptMapPatch Num)
      → ProjectionFrame
      → ProjectionSync Num Payload
      → Type 0
  IsRefused k ps target s =
      ((e : ProjectionError) × (assert_allowed k s ≡ some e))
      ⊎ ((e : ProjectionError) × (assert_frame latest target s ≡ some e))
      ⊎ (target.projection_key ≢ k)
      ⊎ (base_of latest parse (s.slots k) ≡ none)
      ⊎ ((b : ConceptMapSnapshot Num) × (base_of latest parse (s.slots k) ≡ some b)
          × ((c : ConceptMapSnapshot Num) → Applied parse ps b c → ¬ Meets target c))

  -- The call threw for one of these reasons and changed nothing; or the reference is the target and
  -- the slot shows the map that the patches make of the one that it showed before, which is where
  -- the target says, as many versions later as there are patches.
  abbrev pub IsPatched :
      ProjectionKey
      → List (ConceptMapPatch Num)
      → ProjectionFrame
      → ProjectionSync Num Payload
      → ProjectionSync Num Payload × Answer Unit
      → Type 0
  IsPatched k ps target s r =
      ((r.0 ≡ s) × ((e : ProjectionError) × (r.1 ≡ thrown e)) × IsRefused k ps target s)
      ⊎ ((r.0.references k ≡ some target)
          × ((b : ConceptMapSnapshot Num) × (c : ConceptMapSnapshot Num) × (base_of latest parse
                  (s.slots k)
                ≡ some b)
              × Applied parse ps b c
              × (r.0.slots k ≡ some (slot_of ready (some (echo c)) none))
              × Meets target c
              × (c.projection_version ≡ b.projection_version + length ps)))

  reach-IsPatched :
      (ps : List (ConceptMapPatch Num)) (target : ProjectionFrame) (b : ConceptMapSnapshot Num)
      (r : Result (ConceptMapSnapshot Num)) (s : ProjectionSync Num Payload)
      → base_of latest parse (s.slots target.projection_key) ≡ some b
      → apply_all parse ps b ≡ r
      → Reaches parse (length ps) b r
      → IsPatched target.projection_key ps target s (reach latest parse target r s)
  unfolding reach
  reach-IsPatched ps target b (fail e) s q made h = inl (
    refl,
    (_, refl),
    inr (
        inr (
          inr (
            inr (
              b,
              q,
              (λ c applied m.
                  let other : fail e ≡ done c = sym made ∙ Applied-apply_all parse ps b c applied in
                  cc),
            )))),
  )
  reach-IsPatched ps target b (done c) s q made h =
      if-cases (IsPatched target.projection_key ps target s)
        (not (c.analysis_epoch === target.analysis_epoch)
          || not (c.projection_version == target.projection_version)
          || not (c.complete_through_room_seq == target.complete_through_room_seq))
        (λ t. inl (
          refl,
          (_, refl),
          inr (
              inr (
                inr (
                  inr (
                    b,
                    q,
                    (λ d applied m.
                        let same : done c ≡ done d =
                          sym made ∙ Applied-apply_all parse ps b d applied in
                        let here : d ≡ c = ground (arith, same) in
                        let (version, through, epoch) = subst (Meets target) here m in
                        ground (
                          arith,
                          t,
                          version,
                          through,
                          epoch,
                          ===_iff c.analysis_epoch target.analysis_epoch,
                        )),
                  )))),
        ))
        (λ t. inr (
          set_at-same target.projection_key (some target) s.references,
          (
            b,
            c,
            q,
            apply_all-Applied parse ps b c made,
            set_at-same target.projection_key (some (slot_of ready (some (echo c)) none)) s.slots,
            (
              ground (arith, t),
              ground (arith, t),
              ground (arith, t, ===_iff c.analysis_epoch target.analysis_epoch),
            ),
            h.0,
          ),
        ))

  guarded-IsPatched :
      (k : ProjectionKey) (ps : List (ConceptMapPatch Num)) (target : ProjectionFrame)
      (o : Option ProjectionError) (s : ProjectionSync Num Payload)
      (r : ProjectionSync Num Payload × Answer Unit)
      → ((e : ProjectionError) → o ≡ some e → IsRefused k ps target s)
      → IsPatched k ps target s r
      → IsPatched k ps target s (guarded o s r)
  guarded-IsPatched k ps target none s r why h = h
  guarded-IsPatched k ps target (some e) s r why h = inl (refl, (e, refl), why e refl)

  module _ (returns : Returns parse) where
    patch_from-IsPatched :
        (ps : List (ConceptMapPatch Num)) (target : ProjectionFrame)
        (o : Option (ConceptMapSnapshot Num)) (s : ProjectionSync Num Payload)
        → base_of latest parse (s.slots target.projection_key) ≡ o
        → IsPatched target.projection_key ps target s (patch_from latest parse o ps target s)
    unfolding patch_from
    patch_from-IsPatched ps target none s q = inl (refl, (_, refl), inr (inr (inr (inl q))))
    patch_from-IsPatched ps target (some b) s q =
        reach-IsPatched ps target b (apply_all parse ps b) s q refl
          (apply_all-Reaches parse returns ps b)

    -- A series of patches applies as a whole or not at all. Either the call throws and the page's
    -- state is unchanged, since the role may not have the projection, the target is not of this room
    -- or not of this projection, there is no map to patch, or the patches do not lead from the map
    -- shown to the target; or the slot shows the very map that the patches, applied one after the
    -- other, make of the one shown before, one version further for each patch, with the epoch,
    -- version and cursor of the target, which is the reference from then on. The validator returns
    -- the value that it accepts.
    pub apply_echo_patches-IsPatched :
        (k : ProjectionKey) (ps : List (ConceptMapPatch Num)) (target : ProjectionFrame)
        (s : ProjectionSync Num Payload)
        → IsPatched k ps target s (apply_echo_patches latest parse k ps target s)
    unfolding apply_echo_patches
    apply_echo_patches-IsPatched k ps target s =
        guarded-IsPatched k ps target (assert_allowed k s) s _ (λ e q. inl (e, q))
          (guarded-IsPatched k ps target (assert_frame latest target s) s _
            (λ e q. inr (inl (e, q)))
            (if-cases (IsPatched k ps target s) (not (same_key target.projection_key k))
              (λ t. inl (refl, (_, refl), inr (inr (inl (other_key target.projection_key k t)))))
              (λ t.
                subst
                  (λ j.
                    IsPatched j ps target s
                      (patch_from latest parse (base_of latest parse (s.slots j)) ps target s))
                  (same_key-≡ target.projection_key k (ground (arith, t)))
                  (patch_from-IsPatched ps target _ s refl))))
