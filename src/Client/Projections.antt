-- ===== src/Client/Projections.antt =====
-- apps/web/src/lib/session/projection-sync.ts: which projections a page holds, and how far. The two
-- maps keyed by projection are functions of the key; a role is forgotten by `clearAuthority`. The
-- parsers of the contract and the URL of a snapshot are parameters, and the payload of a TRACE
-- bundle, which is only handed on, is of a type `Payload`.
pub mod Versions
pub mod Patched
pub mod Authority
use learning_orbit.Prelude.{
  ℕ, suc, String, Bool, true, false, Option, none, some, List, [], ◌∷◌, ◌++◌, ◌||◌, not, ◌==◌,
  ◌===◌, ltb, if◌then◌else◌,
}
use learning_orbit.Wire.{
  ProjectionKey, echo_teacher_shadow, echo_student_approved, trace_teacher_bundle,
  trace_student_bundle, ProjectionFrame,
}
use learning_orbit.Client.Concept.{
  ConceptMapSnapshot, ConceptMapPatch, ConceptError, Result, done, fail, EvidenceStatus, is_active,
  and_then, apply_concept_patch,
}

pub data SessionRole : Type 0 where
  teacher student : SessionRole

pub data ProjectionAcceptResult : Type 0 where
  accepted epoch_changed duplicate stale gap : ProjectionAcceptResult

pub data ProjectionError : Type 0 where
  authority_cleared role_forbidden room_mismatch snapshot_url_invalid : ProjectionError
  cursor_regression snapshot_invalid replay_required : ProjectionError
  patch_target_mismatch patch_base_missing patch_target_not_reached : ProjectionError
  patch_failed : ConceptError → ProjectionError

pub record SnaProjectionBundle (Payload : Type 0) : Type 0 where
  pub projection_key : ProjectionKey
  pub room_id : String
  pub analysis_epoch : String
  pub projection_version : ℕ
  pub complete_through_room_seq : ℕ
  pub requires_replay : Bool
  pub evidence_status : EvidenceStatus
  pub payload : Payload

pub data ProjectionSnapshot (Num Payload : Type 0) : Type 0 where
  echo : ConceptMapSnapshot Num → ProjectionSnapshot Num Payload
  trace : SnaProjectionBundle Payload → ProjectionSnapshot Num Payload

pub data ProjectionAvailability : Type 0 where
  loading ready not_available_by_policy not_ready failed : ProjectionAvailability

pub record ProjectionSlot (Num Payload : Type 0) : Type 0 where
  pub availability : ProjectionAvailability
  pub snapshot : Option (ProjectionSnapshot Num Payload)
  pub error_code : Option String

pub record ProjectionSync (Num Payload : Type 0) : Type 0 where
  pub references : ProjectionKey → Option ProjectionFrame
  pub slots : ProjectionKey → Option (ProjectionSlot Num Payload)
  pub allowed : List ProjectionKey
  pub role : Option SessionRole
  pub room_id : String

-- What a call returns or throws, with the state after it.
pub data Answer (A : Type 0) : Type 0 where
  returned : A → Answer A
  thrown : ProjectionError → Answer A

abbrev pub same_key : ProjectionKey → ProjectionKey → Bool
same_key echo_teacher_shadow echo_teacher_shadow = true
same_key echo_student_approved echo_student_approved = true
same_key trace_teacher_bundle trace_teacher_bundle = true
same_key trace_student_bundle trace_student_bundle = true
same_key _ _ = false

abbrev pub set_at : {A : Type 0} → ProjectionKey → A → (ProjectionKey → A) → ProjectionKey → A
set_at k a f j = if same_key k j then a else f j

unfoldable pub keys_of : SessionRole → List ProjectionKey
keys_of teacher = echo_teacher_shadow ∷ trace_teacher_bundle ∷ []
keys_of student = echo_student_approved ∷ trace_student_bundle ∷ []

-- Membership in TEACHER_KEYS or STUDENT_KEYS.
unfoldable pub role_holds : SessionRole → ProjectionKey → Bool
role_holds teacher echo_teacher_shadow = true
role_holds teacher trace_teacher_bundle = true
role_holds student echo_student_approved = true
role_holds student trace_student_bundle = true
role_holds _ _ = false

abbrev pub is_in : ProjectionKey → List ProjectionKey → Bool
is_in k [] = false
is_in k (j ∷ js) = same_key j k || is_in k js

abbrev pub is_echo : ProjectionKey → Bool
is_echo echo_teacher_shadow = true
is_echo echo_student_approved = true
is_echo _ = false

abbrev pub role_refusal : Option SessionRole → ProjectionKey → Option ProjectionError
role_refusal none k = some authority_cleared
role_refusal (some r) k = if role_holds r k then none else some role_forbidden

-- The references in the order of their keys' names.
abbrev pub collect :
    (ProjectionKey → Option ProjectionFrame) → List ProjectionKey → List ProjectionFrame
collect references [] = []
collect references (k ∷ ks) = elim (references k) [
  | none ↦ collect references ks
  | some f ↦ f ∷ collect references ks
]

-- The loop of `applyEchoPatches`.
unfoldable pub apply_all :
    {Num : Type 0}
    → (ConceptMapSnapshot Num → Option (ConceptMapSnapshot Num))
    → List (ConceptMapPatch Num)
    → ConceptMapSnapshot Num
    → Result (ConceptMapSnapshot Num)
apply_all parse_echo [] c = done c
apply_all parse_echo (p ∷ ps) c =
    and_then (apply_concept_patch parse_echo c p) (λ d. apply_all parse_echo ps d)

module _ {Num Payload : Type 0} where
  abbrev pub slot_of :
      ProjectionAvailability
      → Option (ProjectionSnapshot Num Payload)
      → Option String
      → ProjectionSlot Num Payload
  slot_of a snapshot error = record { availability = a; snapshot = snapshot; error_code = error }

  abbrev pub loading_slots :
      List ProjectionKey → ProjectionKey → Option (ProjectionSlot Num Payload)
  loading_slots ks k = if is_in k ks then some (slot_of loading none none) else none

  abbrev pub fresh_slots :
      Option SessionRole → List ProjectionKey → ProjectionKey → Option (ProjectionSlot Num Payload)
  fresh_slots none ks k = none
  fresh_slots (some _) ks k = loading_slots ks k

  unfoldable pub create : String → SessionRole → ProjectionSync Num Payload
  create room_id role = record {
    references = λ _. none;
    slots = loading_slots (keys_of role);
    allowed = keys_of role;
    role = some role;
    room_id = room_id;
  }

  unfoldable pub holds : ProjectionKey → ProjectionSync Num Payload → Bool
  holds k s = elim s.role [ none ↦ false | some r ↦ role_holds r k ]

  abbrev pub current : ProjectionKey → ProjectionSync Num Payload → Option ProjectionFrame
  current k s = s.references k

  unfoldable pub reference_list : ProjectionSync Num Payload → List ProjectionFrame
  reference_list s = collect s.references (
      echo_student_approved ∷ echo_teacher_shadow ∷ trace_student_bundle ∷ trace_teacher_bundle
      ∷ [])

  unfoldable pub slot :
      ProjectionKey → ProjectionSync Num Payload → Answer (ProjectionSlot Num Payload)
  slot k s = elim (role_refusal s.role k) [
    | some e ↦ thrown e
    | none ↦ returned (elim (s.slots k) [ none ↦ slot_of loading none none | some t ↦ t ])
  ]

  -- A guard that throws leaves the state as it is.
  abbrev pub guarded :
      {A : Type 0}
      → Option ProjectionError
      → ProjectionSync Num Payload
      → ProjectionSync Num Payload × Answer A
      → ProjectionSync Num Payload × Answer A
  guarded (some e) s r = (s, thrown e)
  guarded none s r = r

  -- `#assertAllowed`, and `#assertFrame` for the URL of latest snapshots.
  abbrev pub assert_allowed : ProjectionKey → ProjectionSync Num Payload → Option ProjectionError
  assert_allowed k s = role_refusal s.role k

  module _ (latest : String → ProjectionKey → String) where
    unfoldable pub assert_frame :
        ProjectionFrame → ProjectionSync Num Payload → Option ProjectionError
    assert_frame f s = elim (assert_allowed f.projection_key s) [
      | some e ↦ some e
      | none ↦
          if not (f.room_id === s.room_id)
          then some room_mismatch
          else if not (f.snapshot_url === latest s.room_id f.projection_key)
          then some snapshot_url_invalid
          else none
    ]

    abbrev pub refer : ProjectionFrame → ProjectionSync Num Payload → ProjectionSync Num Payload
    refer f s = record s { references = set_at f.projection_key (some f) s.references }

    -- The cases of `accept` by the reference that the page has for the key.
    unfoldable pub accept_over :
        Option ProjectionFrame
        → ProjectionFrame
        → ProjectionSync Num Payload
        → ProjectionSync Num Payload × Answer ProjectionAcceptResult
    accept_over none f s = (refer f s, returned accepted)
    accept_over (some c) f s =
        if not (f.analysis_epoch === c.analysis_epoch)
        then (refer f s, returned epoch_changed)
        else if f.projection_version == c.projection_version
        then (s, returned duplicate)
        else if ltb f.projection_version c.projection_version
        then (s, returned stale)
        else if not (f.projection_version == suc c.projection_version)
        then (s, returned gap)
        else if ltb f.complete_through_room_seq c.complete_through_room_seq
        then (s, thrown cursor_regression)
        else (refer f s, returned accepted)

    unfoldable pub accept :
        ProjectionFrame
        → ProjectionSync Num Payload
        → ProjectionSync Num Payload × Answer ProjectionAcceptResult
    unfolding assert_frame
    accept f s = guarded (assert_frame f s) s (accept_over (s.references f.projection_key) f s)

    abbrev pub key_of : ProjectionSnapshot Num Payload → ProjectionKey
    key_of (echo c) = c.projection_key
    key_of (trace t) = t.projection_key

    abbrev pub room_of : ProjectionSnapshot Num Payload → String
    room_of (echo c) = c.room_id
    room_of (trace t) = t.room_id

    abbrev pub needs_replay : ProjectionSnapshot Num Payload → Bool
    needs_replay (echo c) = c.requires_replay || not (is_active c.evidence_status)
    needs_replay (trace t) = t.requires_replay || not (is_active t.evidence_status)

    -- The reference that stands for a snapshot.
    abbrev pub frame_of : ProjectionSnapshot Num Payload → ProjectionFrame
    frame_of (echo c) = record {
      room_id = c.room_id;
      projection_key = c.projection_key;
      analysis_epoch = c.analysis_epoch;
      projection_version = c.projection_version;
      complete_through_room_seq = c.complete_through_room_seq;
      snapshot_url = latest c.room_id c.projection_key;
    }
    frame_of (trace t) = record {
      room_id = t.room_id;
      projection_key = t.projection_key;
      analysis_epoch = t.analysis_epoch;
      projection_version = t.projection_version;
      complete_through_room_seq = t.complete_through_room_seq;
      snapshot_url = latest t.room_id t.projection_key;
    }

    abbrev pub set_slot :
        ProjectionKey
        → ProjectionSlot Num Payload
        → ProjectionSync Num Payload
        → ProjectionSync Num Payload
    set_slot k slot s = record s { slots = set_at k (some slot) s.slots }

    abbrev pub install :
        ProjectionFrame
        → ProjectionSnapshot Num Payload
        → ProjectionSync Num Payload
        → ProjectionSync Num Payload
    install f n s = set_slot f.projection_key (slot_of ready (some n) none) (refer f s)

    module _
        (parse : ProjectionSnapshot Num Payload → Option (ProjectionSnapshot Num Payload)) where
      -- `replaceSnapshot` after the parser of the snapshot's key.
      unfoldable pub replace_parsed :
          Option (ProjectionSnapshot Num Payload)
          → ProjectionSync Num Payload
          → ProjectionSync Num Payload × Answer Unit
      replace_parsed none s = (s, thrown snapshot_invalid)
      replace_parsed (some n) s =
          if needs_replay n
          then (s, thrown replay_required)
          else (install (frame_of n) n s, returned tt)

      unfoldable pub replace_snapshot :
          ProjectionSnapshot Num Payload
          → ProjectionSync Num Payload
          → ProjectionSync Num Payload × Answer Unit
      unfolding replace_parsed
      replace_snapshot n s = guarded (assert_allowed (key_of n) s) s (
          if not (room_of n === s.room_id)
          then (s, thrown room_mismatch)
          else replace_parsed (parse n) s)

    module _ (parse_echo : ConceptMapSnapshot Num → Option (ConceptMapSnapshot Num)) where
      -- The end of `applyEchoPatches`: the target has to be reached.
      unfoldable pub reach :
          ProjectionFrame
          → Result (ConceptMapSnapshot Num)
          → ProjectionSync Num Payload
          → ProjectionSync Num Payload × Answer Unit
      reach target (fail e) s = (s, thrown (patch_failed e))
      reach target (done c) s =
          if not (c.analysis_epoch === target.analysis_epoch)
            || not (c.projection_version == target.projection_version)
            || not (c.complete_through_room_seq == target.complete_through_room_seq)
          then (s, thrown patch_target_not_reached)
          else (install target (echo c) s, returned tt)

      -- The map to start from: the snapshot of the slot, if it is a concept map.
      abbrev pub base_of : Option (ProjectionSlot Num Payload) → Option (ConceptMapSnapshot Num)
      base_of none = none
      base_of (some slot) = elim slot.snapshot [
        | none ↦ none
        | some n ↦ elim n [
          | echo c ↦ (if is_echo c.projection_key then some c else none)
          | trace t ↦ none
        ]
      ]

      unfoldable pub patch_from :
          Option (ConceptMapSnapshot Num)
          → List (ConceptMapPatch Num)
          → ProjectionFrame
          → ProjectionSync Num Payload
          → ProjectionSync Num Payload × Answer Unit
      unfolding reach apply_all
      patch_from none ps target s = (s, thrown patch_base_missing)
      patch_from (some c) ps target s = reach target (apply_all parse_echo ps c) s

      unfoldable pub apply_echo_patches :
          ProjectionKey
          → List (ConceptMapPatch Num)
          → ProjectionFrame
          → ProjectionSync Num Payload
          → ProjectionSync Num Payload × Answer Unit
      unfolding patch_from
      apply_echo_patches k ps target s = guarded (assert_allowed k s) s (
          guarded (assert_frame target s) s (
            if not (same_key target.projection_key k)
            then (s, thrown patch_target_mismatch)
            else patch_from (base_of (s.slots k)) ps target s))

    abbrev pub snapshot_at :
        ProjectionKey → ProjectionSync Num Payload → Option (ProjectionSnapshot Num Payload)
    snapshot_at k s = elim (s.slots k) [ none ↦ none | some slot ↦ slot.snapshot ]

    -- The five `mark` operations: the first two keep the snapshot, the others drop the reference.
    unfoldable pub mark_loading :
        ProjectionKey → ProjectionSync Num Payload → ProjectionSync Num Payload × Answer Unit
    mark_loading k s =
        guarded (assert_allowed k s) s
          (set_slot k (slot_of loading (snapshot_at k s) none) s, returned tt)

    unfoldable pub mark_failed :
        ProjectionKey
        → String
        → ProjectionSync Num Payload
        → ProjectionSync Num Payload × Answer Unit
    mark_failed k error s =
        guarded (assert_allowed k s) s
          (set_slot k (slot_of failed (snapshot_at k s) (some error)) s, returned tt)

    abbrev pub withdraw :
        ProjectionKey
        → ProjectionSlot Num Payload
        → ProjectionSync Num Payload
        → ProjectionSync Num Payload × Answer Unit
    withdraw k slot s =
        guarded (assert_allowed k s) s
          (set_slot k slot (record s { references = set_at k none s.references }), returned tt)

    unfoldable pub mark_policy_unavailable :
        ProjectionKey → ProjectionSync Num Payload → ProjectionSync Num Payload × Answer Unit
    mark_policy_unavailable k s = withdraw k (slot_of not_available_by_policy none none) s

    unfoldable pub mark_not_ready :
        ProjectionKey → ProjectionSync Num Payload → ProjectionSync Num Payload × Answer Unit
    mark_not_ready k s = withdraw k (slot_of not_ready none none) s

    unfoldable pub mark_authority_unavailable :
        ProjectionKey
        → String
        → ProjectionSync Num Payload
        → ProjectionSync Num Payload × Answer Unit
    mark_authority_unavailable k error s = withdraw k (slot_of failed none (some error)) s

  unfoldable pub reset : ProjectionSync Num Payload → ProjectionSync Num Payload
  reset s = record s { references = λ _. none; slots = fresh_slots s.role s.allowed }

  unfoldable pub clear_authority : ProjectionSync Num Payload → ProjectionSync Num Payload
  unfolding reset
  clear_authority s = record (reset s) { role = none; room_id = ""; slots = λ _. none }
