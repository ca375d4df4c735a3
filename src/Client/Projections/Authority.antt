-- ===== src/Client/Projections/Authority.antt =====
-- A page holds nothing of a projection that its role does not have.
use learning_orbit.Prelude.{
  suc, ltb, String, Bool, true, false, Option, none, some, List, [], ◌∷◌, ◌≡◌, refl, sym, subst,
  not, ◌||◌, ◌===◌, ◌==◌, if-cases, arith,
}
use learning_orbit.Wire.{
  ProjectionKey, echo_teacher_shadow, echo_student_approved, trace_teacher_bundle,
  trace_student_bundle, ProjectionFrame,
}
use learning_orbit.Client.Concept.{ConceptMapSnapshot, ConceptMapPatch, Result, done, fail}
use learning_orbit.Client.Projections.Versions.{same_key-≡}
use learning_orbit.Client.Projections.{
  SessionRole, teacher, student, ProjectionSync, ProjectionSnapshot, ProjectionSlot,
  ProjectionError, ProjectionAcceptResult, echo, trace, Answer, same_key, set_at, keys_of,
  role_holds, is_in, loading_slots, fresh_slots, create, holds, guarded, assert_allowed,
  assert_frame, refer, accept_over, accept, key_of, frame_of, set_slot, install, replace_parsed,
  replace_snapshot, needs_replay, room_of, apply_all, reach, base_of, patch_from,
  apply_echo_patches, mark_loading, mark_failed, withdraw, mark_policy_unavailable, mark_not_ready,
  mark_authority_unavailable, reset, clear_authority,
}

-- Something that is there is held.
abbrev pub Owns : {A : Type 0} → Option A → Bool → Type 0
Owns none b = Unit
Owns (some a) b = b ≡ true

abbrev Lists : Option SessionRole → List ProjectionKey → Type 0
Lists none ks = Unit
Lists (some r) ks = ks ≡ keys_of r

module _ {Num Payload : Type 0} where
  pub record IsOwn (s : ProjectionSync Num Payload) : Type 0 where
    pub own_references : (k : ProjectionKey) → Owns (s.references k) (holds k s)
    pub own_slots : (k : ProjectionKey) → Owns (s.slots k) (holds k s)
    pub lists : Lists s.role s.allowed

keys_of-role_holds :
    (r : SessionRole) (k : ProjectionKey) → is_in k (keys_of r) ≡ true → role_holds r k ≡ true
unfolding keys_of role_holds
keys_of-role_holds teacher echo_teacher_shadow h = refl
keys_of-role_holds teacher trace_teacher_bundle h = refl
keys_of-role_holds teacher echo_student_approved h = ground (arith, h)
keys_of-role_holds teacher trace_student_bundle h = ground (arith, h)
keys_of-role_holds student echo_teacher_shadow h = ground (arith, h)
keys_of-role_holds student trace_teacher_bundle h = ground (arith, h)
keys_of-role_holds student echo_student_approved h = refl
keys_of-role_holds student trace_student_bundle h = refl

set_at-Owns :
    {A : Type 0}
    → (j k : ProjectionKey) (o : Option A) (f : ProjectionKey → Option A)
      (held : ProjectionKey → Bool)
    → Owns o (held j)
    → Owns (f k) (held k)
    → Owns (set_at j o f k) (held k)
set_at-Owns j k o f held h g =
    if-cases (λ r. Owns r (held k)) (same_key j k)
      (λ t. subst (λ i. Owns o (held i)) (same_key-≡ j k t) h) (λ _. g)

module _ (Num Payload : Type 0) where
  loading_slots-Owns :
      (ks : List ProjectionKey) (r : SessionRole) (k : ProjectionKey)
      → ks ≡ keys_of r
      → Owns (loading_slots {Num = Num} {Payload = Payload} ks k) (role_holds r k)
  loading_slots-Owns ks r k q =
      if-cases (λ (o : Option (ProjectionSlot Num Payload)). Owns o (role_holds r k)) (is_in k ks)
        (λ t. keys_of-role_holds r k (subst (λ l. is_in k l ≡ true) q t)) (λ _. tt)

  fresh_slots-Owns :
      (o : Option SessionRole) (ks : List ProjectionKey) (k : ProjectionKey)
      → Lists o ks
      → Owns
          (fresh_slots {Num = Num} {Payload = Payload} o ks k)
          (elim o [ none ↦ false | some r ↦ role_holds r k ])
  fresh_slots-Owns none ks k h = tt
  fresh_slots-Owns (some r) ks k h = loading_slots-Owns ks r k h

module _ {Num Payload : Type 0} where
  refusal-holds :
      (k : ProjectionKey) (s : ProjectionSync Num Payload) (o : Option SessionRole)
      → s.role ≡ o
      → assert_allowed k s ≡ none
      → holds k s ≡ true
  unfolding holds
  refusal-holds k s none q h = ground (arith, q, h)
  refusal-holds k s (some r) q h = ground (arith, q, h)

  allowed-holds :
      (k : ProjectionKey) (s : ProjectionSync Num Payload)
      → assert_allowed k s ≡ none
      → holds k s ≡ true
  allowed-holds k s h = refusal-holds k s s.role refl h

  set_slot-IsOwn :
      (latest : String → ProjectionKey → String) (k : ProjectionKey)
      (slot : ProjectionSlot Num Payload) (s : ProjectionSync Num Payload)
      → holds k s ≡ true
      → IsOwn s
      → IsOwn (set_slot latest k slot s)
  unfolding holds
  set_slot-IsOwn latest k slot s h v = record {
    own_references = v.own_references;
    own_slots = λ j. set_at-Owns k j (some slot) s.slots (λ i. holds i s) h (v.own_slots j);
    lists = v.lists;
  }

  set_reference-IsOwn :
      (k : ProjectionKey) (o : Option ProjectionFrame) (s : ProjectionSync Num Payload)
      → Owns o (holds k s)
      → IsOwn s
      → IsOwn (record s { references = set_at k o s.references })
  unfolding holds
  set_reference-IsOwn k o s h v = record {
    own_references = λ j. set_at-Owns k j o s.references (λ i. holds i s) h (v.own_references j);
    own_slots = v.own_slots;
    lists = v.lists;
  }

  guarded-IsOwn :
      {A : Type 0}
      → (o : Option ProjectionError) (s : ProjectionSync Num Payload)
        (r : ProjectionSync Num Payload × Answer A)
      → IsOwn s
      → (o ≡ none → IsOwn r.0)
      → IsOwn (guarded o s r).0
  guarded-IsOwn none s r v h = h refl
  guarded-IsOwn (some e) s r v h = v

  reset-IsOwn : (s : ProjectionSync Num Payload) → IsOwn s → IsOwn (reset s)
  unfolding reset holds
  reset-IsOwn s v = record {
    own_references = λ k. tt;
    own_slots = λ k. fresh_slots-Owns Num Payload s.role s.allowed k v.lists;
    lists = v.lists;
  }

  clear_authority-IsOwn : (s : ProjectionSync Num Payload) → IsOwn (clear_authority s)
  unfolding clear_authority holds
  clear_authority-IsOwn s = record { own_references = λ k. tt; own_slots = λ k. tt; lists = tt }

  pub create-IsOwn :
      (room_id : String) (r : SessionRole)
      → IsOwn (create {Num = Num} {Payload = Payload} room_id r)
  unfolding create holds
  create-IsOwn room_id r = record {
    own_references = λ k. tt;
    own_slots = λ k. loading_slots-Owns Num Payload (keys_of r) r k refl;
    lists = refl;
  }

-- Every call on the projections of a page.
pub data Call (Num Payload : Type 0) : Type 0 where
  accepts : ProjectionFrame → Call Num Payload
  replaces : ProjectionSnapshot Num Payload → Call Num Payload
  patches : ProjectionKey → List (ConceptMapPatch Num) → ProjectionFrame → Call Num Payload
  marks_loading marks_policy_unavailable marks_not_ready : ProjectionKey → Call Num Payload
  marks_failed marks_authority_unavailable : ProjectionKey → String → Call Num Payload
  resets clears_authority : Call Num Payload

module _ {Num Payload : Type 0} (latest : String → ProjectionKey → String)
    (parse : ProjectionSnapshot Num Payload → Option (ProjectionSnapshot Num Payload))
    (parse_echo : ConceptMapSnapshot Num → Option (ConceptMapSnapshot Num)) where
  unfoldable pub call : Call Num Payload → ProjectionSync Num Payload → ProjectionSync Num Payload
  call (accepts f) s = (accept latest f s).0
  call (replaces n) s = (replace_snapshot latest parse n s).0
  call (patches k ps target) s = (apply_echo_patches latest parse_echo k ps target s).0
  call (marks_loading k) s = (mark_loading latest k s).0
  call (marks_policy_unavailable k) s = (mark_policy_unavailable latest k s).0
  call (marks_not_ready k) s = (mark_not_ready latest k s).0
  call (marks_failed k e) s = (mark_failed latest k e s).0
  call (marks_authority_unavailable k e) s = (mark_authority_unavailable latest k e s).0
  call resets s = reset s
  call clears_authority s = clear_authority s

  unfoldable pub call_all :
      List (Call Num Payload) → ProjectionSync Num Payload → ProjectionSync Num Payload
  call_all [] s = s
  call_all (c ∷ cs) s = call_all cs (call c s)

  -- The parser of a snapshot returns the very value that it accepts.
  abbrev pub IsEcho : Type 0
  IsEcho = (x y : ProjectionSnapshot Num Payload) → parse x ≡ some y → y ≡ x

  frame-holds :
      (f : ProjectionFrame) (s : ProjectionSync Num Payload)
      → assert_frame latest f s ≡ none
      → holds f.projection_key s ≡ true
  unfolding assert_frame
  frame-holds f s h = allowed-holds f.projection_key s (ground (arith, h))

  install-IsOwn :
      (f : ProjectionFrame) (n : ProjectionSnapshot Num Payload) (s : ProjectionSync Num Payload)
      → holds f.projection_key s ≡ true
      → IsOwn s
      → IsOwn (install latest f n s)
  unfolding holds
  install-IsOwn f n s h v =
      set_slot-IsOwn latest f.projection_key _ (refer latest f s) h
        (set_reference-IsOwn f.projection_key (some f) s h v)

  accept_over-IsOwn :
      (o : Option ProjectionFrame) (f : ProjectionFrame) (s : ProjectionSync Num Payload)
      → holds f.projection_key s ≡ true
      → IsOwn s
      → IsOwn (accept_over latest o f s).0
  unfolding accept_over
  accept_over-IsOwn none f s h v = set_reference-IsOwn f.projection_key (some f) s h v
  accept_over-IsOwn (some c) f s h v =
      let P = λ (r : ProjectionSync Num Payload × Answer ProjectionAcceptResult). IsOwn r.0 in
      let moves = set_reference-IsOwn f.projection_key (some f) s h v in
      if-cases P (not (f.analysis_epoch === c.analysis_epoch)) (λ _. moves)
        (λ _.
          if-cases P (f.projection_version == c.projection_version) (λ _. v)
            (λ _.
              if-cases P (ltb f.projection_version c.projection_version) (λ _. v)
                (λ _.
                  if-cases P (not (f.projection_version == suc c.projection_version)) (λ _. v)
                    (λ _.
                      if-cases P (ltb f.complete_through_room_seq c.complete_through_room_seq)
                        (λ _. v) (λ _. moves)))))

  frame_of-key :
      (n : ProjectionSnapshot Num Payload) → (frame_of latest n).projection_key ≡ key_of latest n
  frame_of-key (echo c) = refl
  frame_of-key (trace t) = refl

  replace_parsed-IsOwn :
      (n : ProjectionSnapshot Num Payload) (o : Option (ProjectionSnapshot Num Payload))
      (s : ProjectionSync Num Payload)
      → ((m : ProjectionSnapshot Num Payload) → o ≡ some m → m ≡ n)
      → holds (key_of latest n) s ≡ true
      → IsOwn s
      → IsOwn (replace_parsed latest parse o s).0
  unfolding replace_parsed
  replace_parsed-IsOwn n none s q h v = v
  replace_parsed-IsOwn n (some m) s q h v =
      if-cases (λ (r : ProjectionSync Num Payload × Answer Unit). IsOwn r.0) (needs_replay latest m)
        (λ _. v)
        (λ _.
          install-IsOwn (frame_of latest m) m s
            (subst (λ j. holds j s ≡ true) (sym (frame_of-key m))
              (subst (λ x. holds (key_of latest x) s ≡ true) (sym (q m refl)) h))
            v)

  reach-IsOwn :
      (target : ProjectionFrame) (r : Result (ConceptMapSnapshot Num))
      (s : ProjectionSync Num Payload)
      → holds target.projection_key s ≡ true
      → IsOwn s
      → IsOwn (reach latest parse_echo target r s).0
  unfolding reach
  reach-IsOwn target (fail e) s h v = v
  reach-IsOwn target (done c) s h v =
      if-cases (λ (r : ProjectionSync Num Payload × Answer Unit). IsOwn r.0)
        (not (c.analysis_epoch === target.analysis_epoch)
          || not (c.projection_version == target.projection_version)
          || not (c.complete_through_room_seq == target.complete_through_room_seq))
        (λ _. v) (λ _. install-IsOwn target (echo c) s h v)

  patch_from-IsOwn :
      (o : Option (ConceptMapSnapshot Num)) (ps : List (ConceptMapPatch Num))
      (target : ProjectionFrame) (s : ProjectionSync Num Payload)
      → holds target.projection_key s ≡ true
      → IsOwn s
      → IsOwn (patch_from latest parse_echo o ps target s).0
  unfolding patch_from
  patch_from-IsOwn none ps target s h v = v
  patch_from-IsOwn (some c) ps target s h v = reach-IsOwn target (apply_all parse_echo ps c) s h v

  withdraw-IsOwn :
      (k : ProjectionKey) (slot : ProjectionSlot Num Payload) (s : ProjectionSync Num Payload)
      → IsOwn s
      → IsOwn (withdraw latest k slot s).0
  unfolding holds
  withdraw-IsOwn k slot s v = guarded-IsOwn (assert_allowed k s) s _ v (λ h.
      set_slot-IsOwn latest k slot (record s { references = set_at k none s.references })
        (allowed-holds k s h) (set_reference-IsOwn k none s tt v))

  call-IsOwn :
      (returns : IsEcho) (c : Call Num Payload) (s : ProjectionSync Num Payload)
      → IsOwn s
      → IsOwn (call c s)
  unfolding call accept replace_snapshot apply_echo_patches mark_loading mark_failed
      mark_policy_unavailable mark_not_ready mark_authority_unavailable
  call-IsOwn returns (accepts f) s v =
      guarded-IsOwn (assert_frame latest f s) s _ v
        (λ h. accept_over-IsOwn (s.references f.projection_key) f s (frame-holds f s h) v)
  call-IsOwn returns (replaces n) s v =
      guarded-IsOwn (assert_allowed (key_of latest n) s) s _ v (λ h.
        if-cases (λ (r : ProjectionSync Num Payload × Answer Unit). IsOwn r.0)
          (not (room_of latest n === s.room_id)) (λ _. v)
          (λ _. replace_parsed-IsOwn n (parse n) s (returns n) (allowed-holds _ s h) v))
  call-IsOwn returns (patches k ps target) s v = guarded-IsOwn (assert_allowed k s) s _ v (λ _.
      guarded-IsOwn (assert_frame latest target s) s _ v (λ h.
        if-cases (λ (r : ProjectionSync Num Payload × Answer Unit). IsOwn r.0)
          (not (same_key target.projection_key k)) (λ _. v)
          (λ _.
            patch_from-IsOwn (base_of latest parse_echo (s.slots k)) ps target s
              (frame-holds target s h) v)))
  call-IsOwn returns (marks_loading k) s v =
      guarded-IsOwn (assert_allowed k s) s _ v
        (λ h. set_slot-IsOwn latest k _ s (allowed-holds k s h) v)
  call-IsOwn returns (marks_failed k e) s v =
      guarded-IsOwn (assert_allowed k s) s _ v
        (λ h. set_slot-IsOwn latest k _ s (allowed-holds k s h) v)
  call-IsOwn returns (marks_policy_unavailable k) s v = withdraw-IsOwn k _ s v
  call-IsOwn returns (marks_not_ready k) s v = withdraw-IsOwn k _ s v
  call-IsOwn returns (marks_authority_unavailable k e) s v = withdraw-IsOwn k _ s v
  call-IsOwn returns resets s v = reset-IsOwn s v
  call-IsOwn returns clears_authority s v = clear_authority-IsOwn s

  -- From a state with no reference and no slot for a projection that the role does not hold, and with
  -- the keys of its role, as a new page is, any sequence of calls leads to such a state again; so
  -- nothing is left once the authority is cleared. The parser of snapshots returns the value that it
  -- accepts.
  pub call_all-IsOwn :
      (returns : IsEcho) (cs : List (Call Num Payload)) (s : ProjectionSync Num Payload)
      → IsOwn s
      → IsOwn (call_all cs s)
  unfolding call_all
  call_all-IsOwn returns [] s v = v
  call_all-IsOwn returns (c ∷ cs) s v =
      call_all-IsOwn returns cs (call c s) (call-IsOwn returns c s v)
