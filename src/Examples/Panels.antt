-- ===== src/Examples/Panels.antt =====
-- The theorems on the panels of a session page at concrete inputs.
use learning_orbit.Prelude.{
  ℕ, String, Option, none, some, [], ◌∷◌, ◌≡◌, refl, sym, ap, false, get, put,
}
use learning_orbit.Wire.{ProjectionKey, echo_teacher_shadow, ProjectionFrame}
use learning_orbit.Client.Coordinator.{
  ProjectionCoordinator, StagedProjection, sna, not_available_by_policy, chat_ledger, concept,
}
use learning_orbit.Client.Coordinator
use learning_orbit.Client.Coordinator.Coherence.{sets, stages, act_all, Changing, act_all-Changing}
use learning_orbit.Client.Concept.{
  ConceptMapSnapshot, ConceptMapPatch, ConceptNode, ConceptEdge, apply_concept_patch, done, active,
  unreviewed, map_from, add_items, update_items, hide_items,
}
use learning_orbit.Client.Concept.Integrity.{apply_concept_patch-Advances}
use learning_orbit.Client.Projections.{
  ProjectionSync, ProjectionSnapshot, student, teacher, accept, apply_echo_patches,
}
use learning_orbit.Client.Projections
use learning_orbit.Client.Projections.Versions.{Follows, accept-Follows}
use learning_orbit.Client.Projections.Patched.{IsPatched, apply_echo_patches-IsPatched}
use learning_orbit.Client.Projections.Authority.{
  call_all, IsOwn, create-IsOwn, call_all-IsOwn, accepts, resets,
}
use learning_orbit.Examples.Data.{room}

abbrev staged : StagedProjection ℕ
staged = record { projection_version = 1; complete_through_room_seq = 4; value = 0 }

abbrev panels : ProjectionCoordinator ℕ
panels = act_all (stages chat_ledger staged ∷ stages concept staged ∷ []) Coordinator.create

act_all-Changing_example :
    let t =
      act_all (sets sna not_available_by_policy ∷ stages concept staged ∷ []) Coordinator.create in
    Changing none t.published t.last_published
act_all-Changing_example =
    act_all-Changing (sets sna not_available_by_policy ∷ stages concept staged ∷ [])
      (Coordinator.create {V = ℕ}) refl

abbrev node : String → ConceptNode ℕ
node id = record {
  node_id = id;
  label = id;
  evidence_status = "supported";
  review_status = "unreviewed";
  display_status = "confirmed";
  x = 0;
  y = 0;
}

abbrev edge : ConceptEdge ℕ
edge = record {
  edge_id = "e";
  head = "a";
  predicate = "supports";
  tail = "b";
  relation_family = "causal";
  evidence_status = "supported";
  review_status = "unreviewed";
  display_status = "confirmed";
  detail = none;
}

abbrev concept_map : ConceptMapSnapshot ℕ
concept_map = record {
  projection_key = echo_teacher_shadow;
  room_id = room;
  analysis_epoch = "epoch";
  algorithm_version = "v1";
  parameter_hash = "hash";
  projection_version = 1;
  base_version = 0;
  complete_through_room_seq = 4;
  watermark_event_time = "10:00";
  requires_replay = false;
  evidence_status = active;
  review_status = unreviewed;
  display_status = "teacher_shadow";
  warnings = [];
  nodes = node "a" ∷ [];
  edges = [];
}

abbrev patch : ConceptMapPatch ℕ
patch = record {
  analysis_epoch = "epoch";
  algorithm_version = "v1";
  parameter_hash = "hash";
  projection_version = 2;
  base_version = 1;
  complete_through_room_seq = 6;
  requires_replay = false;
  warnings = [];
  nodes_added = node "b" ∷ [];
  nodes_updated = [];
  nodes_hidden = [];
  edges_added = edge ∷ [];
  edges_updated = [];
  edges_hidden = [];
  position_updates = [];
}

abbrev patched_map : ConceptMapSnapshot ℕ
patched_map = record concept_map {
  projection_version = 2;
  base_version = 1;
  complete_through_room_seq = 6;
  nodes = node "a" ∷ node "b" ∷ [];
  edges = edge ∷ [];
}

abbrev accepts_all : ConceptMapSnapshot ℕ → Option (ConceptMapSnapshot ℕ)
accepts_all c = some c

abbrev content : Option (ConceptMapSnapshot ℕ) → ConceptMapSnapshot ℕ
content none = concept_map
content (some c) = c

apply_patch : apply_concept_patch accepts_all concept_map patch ≡ done patched_map
unfolding apply_concept_patch add_items get map_from put update_items hide_items
apply_patch = refl

apply_concept_patch-Advances_example : patched_map.projection_version ≡ 2
apply_concept_patch-Advances_example =
    (apply_concept_patch-Advances accepts_all (λ x y h. sym (ap content h)) concept_map patch
      patched_map apply_patch).next_version

abbrev latest : String → ProjectionKey → String
latest room_id k = "/latest"

abbrev page : ProjectionSync ℕ ℕ
page = Projections.create room teacher

abbrev pointer : ProjectionFrame
pointer = record {
  room_id = room;
  projection_key = echo_teacher_shadow;
  analysis_epoch = "epoch";
  projection_version = 2;
  complete_through_room_seq = 6;
  snapshot_url = "/latest";
}

accept-Follows_example : Follows (some pointer) (
    (accept latest
        (record pointer { projection_version = 3 })
        (accept latest pointer page).0).0.references
      echo_teacher_shadow)
unfolding accept Projections.create Projections.role_holds Projections.accept_over
accept-Follows_example =
    accept-Follows latest (record pointer { projection_version = 3 }) (accept latest pointer page).0
      echo_teacher_shadow

abbrev shown : ProjectionSync ℕ ℕ
shown = record page {
  slots =
      λ _. some (Projections.slot_of Projections.ready (some (Projections.echo concept_map)) none);
}

apply_echo_patches-IsPatched_example :
    IsPatched latest accepts_all echo_teacher_shadow
      (patch ∷ [])
      pointer
      shown
      (apply_echo_patches latest accepts_all echo_teacher_shadow (patch ∷ []) pointer shown)
apply_echo_patches-IsPatched_example =
    apply_echo_patches-IsPatched latest accepts_all (λ x y h. sym (ap content h))
      echo_teacher_shadow (patch ∷ []) pointer shown

abbrev any_snapshot : ProjectionSnapshot ℕ ℕ → Option (ProjectionSnapshot ℕ ℕ)
any_snapshot n = some n

abbrev snapshot_in : Option (ProjectionSnapshot ℕ ℕ) → ProjectionSnapshot ℕ ℕ
snapshot_in none = Projections.echo concept_map
snapshot_in (some n) = n

call_all-IsOwn_example : IsOwn (
    call_all latest any_snapshot accepts_all (accepts pointer ∷ resets ∷ accepts pointer ∷ []) page)
call_all-IsOwn_example =
    call_all-IsOwn latest any_snapshot accepts_all (λ x y h. sym (ap snapshot_in h))
      (accepts pointer ∷ resets ∷ accepts pointer ∷ []) page (create-IsOwn room teacher)
