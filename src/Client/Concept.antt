-- ===== src/Client/Concept.antt =====
-- apps/web/src/lib/analytics/concept-reducer.ts: a patch applied to a concept map. Coordinates and
-- scores, which are only copied, are of a type `Num`; the validator of the contract is a parameter.
-- A Map from ids is an association list.
pub mod Integrity
use learning_orbit.Prelude.{
  ℕ, suc, String, Bool, true, false, Option, none, some, List, [], ◌∷◌, ◌||◌, ◌&&◌, not, ◌==◌,
  ◌===◌, ltb, length, get, put, remove, has, map, if◌then◌else◌,
}
use learning_orbit.Wire.{ProjectionKey, echo_student_approved}

pub record ConceptNode (Num : Type 0) : Type 0 where
  pub node_id : String
  pub label : String
  pub evidence_status : String
  pub review_status : String
  pub display_status : String
  pub x : Num
  pub y : Num

-- What the edges of a teacher's map have besides: the four channels, the score, and the evidence as
-- event, start and end.
pub record EdgeDetail (Num : Type 0) : Type 0 where
  pub support : Num
  pub challenge : Num
  pub uncertain : Num
  pub question : Num
  pub activity_score : Num
  pub evidence_refs : List (String × Num × Num)

pub record ConceptEdge (Num : Type 0) : Type 0 where
  pub edge_id : String
  pub head : String
  pub predicate : String
  pub tail : String
  pub relation_family : String
  pub evidence_status : String
  pub review_status : String
  pub display_status : String
  pub detail : Option (EdgeDetail Num)

pub data EvidenceStatus : Type 0 where
  active retracted superseded needs_replay : EvidenceStatus

pub data ReviewStatus : Type 0 where
  unreviewed approved rejected corrected : ReviewStatus

pub record ConceptMapSnapshot (Num : Type 0) : Type 0 where
  pub projection_key : ProjectionKey
  pub room_id : String
  pub analysis_epoch : String
  pub algorithm_version : String
  pub parameter_hash : String
  pub projection_version : ℕ
  pub base_version : ℕ
  pub complete_through_room_seq : ℕ
  pub watermark_event_time : String
  pub requires_replay : Bool
  pub evidence_status : EvidenceStatus
  pub review_status : ReviewStatus
  pub display_status : String
  pub warnings : List String
  pub nodes : List (ConceptNode Num)
  pub edges : List (ConceptEdge Num)

pub record PositionUpdate (Num : Type 0) : Type 0 where
  pub node_id : String
  pub x : Num
  pub y : Num

pub record ConceptMapPatch (Num : Type 0) : Type 0 where
  pub analysis_epoch : String
  pub algorithm_version : String
  pub parameter_hash : String
  pub projection_version : ℕ
  pub base_version : ℕ
  pub complete_through_room_seq : ℕ
  pub requires_replay : Bool
  pub warnings : List String
  pub nodes_added : List (ConceptNode Num)
  pub nodes_updated : List (ConceptNode Num)
  pub nodes_hidden : List String
  pub edges_added : List (ConceptEdge Num)
  pub edges_updated : List (ConceptEdge Num)
  pub edges_hidden : List String
  pub position_updates : List (PositionUpdate Num)

pub data ConceptError : Type 0 where
  replay_required epoch_mismatch baseline_mismatch version_mismatch cursor_regression : ConceptError
  node_add_conflict node_update_missing node_hide_missing : ConceptError
  edge_add_conflict edge_update_missing edge_hide_missing : ConceptError
  position_target_missing dangling_edge result_invalid : ConceptError

pub data Result (A : Type 0) : Type 0 where
  done : A → Result A
  fail : ConceptError → Result A

abbrev pub and_then : {A B : Type 0} → Result A → (A → Result B) → Result B
and_then (done a) f = f a
and_then (fail e) f = fail e

module _ {A : Type 0} (id : A → String) where
  -- `new Map(items.map((item) => [item.id, item]))`.
  unfoldable pub map_from : List A → List (String × A) → List (String × A)
  map_from [] m = m
  map_from (a ∷ xs) m = map_from xs (put (id a) a m)

  -- The three loops over added, updated and hidden items, with the error of each.
  unfoldable pub add_items : ConceptError → List A → List (String × A) → Result (List (String × A))
  add_items e [] m = done m
  add_items e (a ∷ xs) m = if has (id a) m then fail e else add_items e xs (put (id a) a m)

  unfoldable pub update_items :
      ConceptError → List A → List (String × A) → Result (List (String × A))
  update_items e [] m = done m
  update_items e (a ∷ xs) m = if has (id a) m then update_items e xs (put (id a) a m) else fail e

unfoldable pub hide_items :
    {A : Type 0} → ConceptError → List String → List (String × A) → Result (List (String × A))
hide_items e [] m = done m
hide_items e (k ∷ ks) m = if has k m then hide_items e ks (remove k m) else fail e

abbrev pub is_active : EvidenceStatus → Bool
is_active active = true
is_active _ = false

abbrev pub items : {A : Type 0} → List (String × A) → List A
items = map (λ e. e.1)

abbrev pub is_approved_key : ProjectionKey → Bool
is_approved_key echo_student_approved = true
is_approved_key _ = false

module _ {Num : Type 0} where
  abbrev pub move_to : PositionUpdate Num → ConceptNode Num → ConceptNode Num
  move_to p n = record n { x = p.x; y = p.y }

  unfoldable pub move_nodes :
      List (PositionUpdate Num)
      → List (String × ConceptNode Num)
      → Result (List (String × ConceptNode Num))
  move_nodes [] m = done m
  move_nodes (p ∷ ps) m = elim (get p.node_id m) [
    | none ↦ fail position_target_missing
    | some n ↦ move_nodes ps (put p.node_id (move_to p n) m)
  ]

  unfoldable pub check_edges : List (String × ConceptNode Num) → List (ConceptEdge Num) → Bool
  check_edges m [] = true
  check_edges m (e ∷ es) = has e.head m && has e.tail m && check_edges m es

  -- A student's map is approved as soon as it shows something.
  abbrev pub next_review :
      ConceptMapSnapshot Num → List (ConceptNode Num) → List (ConceptEdge Num) → ReviewStatus
  next_review s nodes edges =
      if is_approved_key s.projection_key
      then (if ltb 0 (length nodes) || ltb 0 (length edges) then approved else unreviewed)
      else s.review_status

  unfoldable pub patched :
      ConceptMapSnapshot Num
      → ConceptMapPatch Num
      → List (ConceptNode Num)
      → List (ConceptEdge Num)
      → ConceptMapSnapshot Num
  patched s p nodes edges = record s {
    analysis_epoch = p.analysis_epoch;
    algorithm_version = p.algorithm_version;
    parameter_hash = p.parameter_hash;
    projection_version = p.projection_version;
    base_version = p.base_version;
    complete_through_room_seq = p.complete_through_room_seq;
    requires_replay = false;
    evidence_status = active;
    review_status = next_review s nodes edges;
    warnings = p.warnings;
    nodes = nodes;
    edges = edges;
  }

  -- The guards before anything is applied.
  unfoldable pub refusal : ConceptMapSnapshot Num → ConceptMapPatch Num → Option ConceptError
  refusal s p =
      if s.requires_replay || not (is_active s.evidence_status) || p.requires_replay
      then some replay_required
      else if not (p.analysis_epoch === s.analysis_epoch)
      then some epoch_mismatch
      else if not (p.algorithm_version === s.algorithm_version)
          || not (p.parameter_hash === s.parameter_hash)
      then some baseline_mismatch
      else if not (p.base_version == s.projection_version)
          || not (p.projection_version == suc s.projection_version)
      then some version_mismatch
      else if ltb p.complete_through_room_seq s.complete_through_room_seq
      then some cursor_regression
      else none

  abbrev pub node_key : ConceptNode Num → String
  node_key n = n.node_id

  abbrev pub edge_key : ConceptEdge Num → String
  edge_key e = e.edge_id

  unfoldable pub patch_nodes :
      ConceptMapSnapshot Num → ConceptMapPatch Num → Result (List (String × ConceptNode Num))
  patch_nodes s p =
      and_then (add_items node_key node_add_conflict p.nodes_added (map_from node_key s.nodes []))
        (λ m.
          and_then (update_items node_key node_update_missing p.nodes_updated m)
            (λ n. hide_items node_hide_missing p.nodes_hidden n))

  unfoldable pub patch_edges :
      ConceptMapSnapshot Num → ConceptMapPatch Num → Result (List (String × ConceptEdge Num))
  patch_edges s p =
      and_then (add_items edge_key edge_add_conflict p.edges_added (map_from edge_key s.edges []))
        (λ m.
          and_then (update_items edge_key edge_update_missing p.edges_updated m)
            (λ n. hide_items edge_hide_missing p.edges_hidden n))

  -- The validator returns the snapshot, or throws.
  unfoldable pub validated : Option (ConceptMapSnapshot Num) → Result (ConceptMapSnapshot Num)
  validated none = fail result_invalid
  validated (some t) = done t

  module _ (parse_echo_snapshot : ConceptMapSnapshot Num → Option (ConceptMapSnapshot Num)) where
    -- The check for dangling edges, and the result.
    unfoldable pub finish :
        ConceptMapSnapshot Num
        → ConceptMapPatch Num
        → List (String × ConceptNode Num)
        → List (String × ConceptEdge Num)
        → Result (ConceptMapSnapshot Num)
    unfolding validated patched check_edges
    finish s p nodes edges =
        if check_edges nodes (items edges)
        then validated (parse_echo_snapshot (patched s p (items nodes) (items edges)))
        else fail dangling_edge

    unfoldable pub apply_unless :
        ConceptMapSnapshot Num
        → ConceptMapPatch Num
        → Option ConceptError
        → Result (ConceptMapSnapshot Num)
    unfolding patch_nodes patch_edges move_nodes finish
    apply_unless s p (some e) = fail e
    apply_unless s p none = and_then (patch_nodes s p) (λ nodes.
        and_then (patch_edges s p) (λ edges.
          and_then (move_nodes p.position_updates nodes) (λ moved. finish s p moved edges)))

    unfoldable pub apply_concept_patch :
        ConceptMapSnapshot Num → ConceptMapPatch Num → Result (ConceptMapSnapshot Num)
    unfolding apply_unless refusal
    apply_concept_patch s p = apply_unless s p (refusal s p)
