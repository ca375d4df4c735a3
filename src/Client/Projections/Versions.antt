-- ===== src/Client/Projections/Versions.antt =====
-- How the references of a page move.
use learning_orbit.Prelude.{
  suc, String, true, Option, none, some, ◌≡◌, refl, sym, subst, ◌≢◌, ◌⊎◌, inl, inr, ◌≤◌, ◌===◌,
  ===_iff, ◌==◌, not, ltb, if-cases, arith,
}
use learning_orbit.Wire.{
  ProjectionKey, echo_teacher_shadow, echo_student_approved, trace_teacher_bundle,
  trace_student_bundle, ProjectionFrame,
}
use learning_orbit.Client.Projections.{
  ProjectionSync, ProjectionAcceptResult, ProjectionError, Answer, same_key, guarded, assert_frame,
  refer, accept_over, accept,
}

-- What may come after a reference: itself; a frame of another epoch; or, in the same epoch, the very
-- next version, with a cursor that does not go back.
abbrev pub Follows : Option ProjectionFrame → Option ProjectionFrame → Type 0
Follows none o = Unit
Follows (some c) none = ⊥
Follows (some c) (some d) =
    (d ≡ c)
    ⊎ (d.analysis_epoch ≢ c.analysis_epoch)
    ⊎ ((d.projection_version ≡ suc c.projection_version)
        × (c.complete_through_room_seq ≤ d.complete_through_room_seq))

Follows-refl : (o : Option ProjectionFrame) → Follows o o
Follows-refl none = tt
Follows-refl (some c) = inl refl

pub same_key-≡ : (j k : ProjectionKey) → same_key j k ≡ true → j ≡ k
same_key-≡ echo_teacher_shadow echo_teacher_shadow h = refl
same_key-≡ echo_teacher_shadow echo_student_approved h = ground (arith, h)
same_key-≡ echo_teacher_shadow trace_teacher_bundle h = ground (arith, h)
same_key-≡ echo_teacher_shadow trace_student_bundle h = ground (arith, h)
same_key-≡ echo_student_approved echo_teacher_shadow h = ground (arith, h)
same_key-≡ echo_student_approved echo_student_approved h = refl
same_key-≡ echo_student_approved trace_teacher_bundle h = ground (arith, h)
same_key-≡ echo_student_approved trace_student_bundle h = ground (arith, h)
same_key-≡ trace_teacher_bundle echo_teacher_shadow h = ground (arith, h)
same_key-≡ trace_teacher_bundle echo_student_approved h = ground (arith, h)
same_key-≡ trace_teacher_bundle trace_teacher_bundle h = refl
same_key-≡ trace_teacher_bundle trace_student_bundle h = ground (arith, h)
same_key-≡ trace_student_bundle echo_teacher_shadow h = ground (arith, h)
same_key-≡ trace_student_bundle echo_student_approved h = ground (arith, h)
same_key-≡ trace_student_bundle trace_teacher_bundle h = ground (arith, h)
same_key-≡ trace_student_bundle trace_student_bundle h = refl

module _ {Num Payload : Type 0} (latest : String → ProjectionKey → String) where
  refer-Follows :
      (f : ProjectionFrame) (s : ProjectionSync Num Payload) (k : ProjectionKey)
      → Follows (s.references f.projection_key) (some f)
      → Follows (s.references k) ((refer latest f s).references k)
  refer-Follows f s k h =
      if-cases (Follows (s.references k)) (same_key f.projection_key k)
        (λ t. subst (λ j. Follows (s.references j) (some f)) (same_key-≡ f.projection_key k t) h)
        (λ _. Follows-refl (s.references k))

  accept_over-Follows :
      (o : Option ProjectionFrame) (f : ProjectionFrame) (s : ProjectionSync Num Payload)
      → s.references f.projection_key ≡ o
      → (k : ProjectionKey) → Follows (s.references k) ((accept_over latest o f s).0.references k)
  unfolding accept_over
  accept_over-Follows none f s h k =
      refer-Follows f s k (subst (λ o. Follows o (some f)) (sym h) tt)
  accept_over-Follows (some c) f s h k =
      let P = λ (r : ProjectionSync Num Payload × Answer ProjectionAcceptResult).
        Follows (s.references k) (r.0.references k) in
      let moves = λ (v : Follows (some c) (some f)).
        refer-Follows f s k (subst (λ o. Follows o (some f)) (sym h) v) in
      let stays = Follows-refl (s.references k) in
      if-cases P (not (f.analysis_epoch === c.analysis_epoch))
        (λ t. moves (inr (inl (λ q. ground (arith, t, ===_iff f.analysis_epoch c.analysis_epoch)))))
        (λ _.
          if-cases P (f.projection_version == c.projection_version) (λ _. stays)
            (λ _.
              if-cases P (ltb f.projection_version c.projection_version) (λ _. stays)
                (λ _.
                  if-cases P (not (f.projection_version == suc c.projection_version)) (λ _. stays)
                    (λ t.
                      if-cases P (ltb f.complete_through_room_seq c.complete_through_room_seq)
                        (λ _. stays)
                        (λ g. moves (inr (inr (ground (arith, t), ground (arith, g)))))))))

  guarded-Follows :
      (o : Option ProjectionError) (s : ProjectionSync Num Payload)
      (r : ProjectionSync Num Payload × Answer ProjectionAcceptResult) (k : ProjectionKey)
      → Follows (s.references k) (r.0.references k)
      → Follows (s.references k) ((guarded o s r).0.references k)
  guarded-Follows none s r k h = h
  guarded-Follows (some e) s r k h = Follows-refl (s.references k)

  -- Whatever frame arrives, no reference is lost or goes back: the one of any projection stays, is
  -- replaced by a frame of another epoch, or moves on by exactly one version with a cursor at or
  -- past its own.
  pub accept-Follows :
      (f : ProjectionFrame) (s : ProjectionSync Num Payload) (k : ProjectionKey)
      → Follows (s.references k) ((accept latest f s).0.references k)
  unfolding accept
  accept-Follows f s k =
      guarded-Follows (assert_frame latest f s) s
        (accept_over latest (s.references f.projection_key) f s) k
        (accept_over-Follows (s.references f.projection_key) f s refl k)
