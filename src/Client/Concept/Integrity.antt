-- ===== src/Client/Concept/Integrity.antt =====
-- What a concept map keeps when a patch applies.
use learning_orbit.Prelude.{
  suc, String, Bool, true, false, Option, none, some, List, [], ◌∷◌, ◌≡◌, refl, sym, ◌∙◌, subst, ap,
  ◌≤◌, ◌===◌, ===_iff, any, All, get, put, remove, has, put-All, remove-All, if-cases, arith,
}
use learning_orbit.Client.Concept.{
  ConceptNode, ConceptEdge, ConceptMapSnapshot, ConceptMapPatch, PositionUpdate, ConceptError,
  Result, done, fail, and_then, map_from, add_items, update_items, hide_items, move_to, move_nodes,
  check_edges, items, patched, refusal, node_key, patch_nodes, patch_edges, validated, finish,
  position_target_missing, active, apply_unless, apply_concept_patch,
}

-- What holds of a result unless it is an error.
abbrev Holds : {A : Type 0} → (A → Type 0) → Result A → Type 0
Holds P (done a) = P a
Holds P (fail e) = Unit

module _ {A B : Type 0} (P : A → Type 0) (Q : B → Type 0) where
  and_then-Holds :
      (r : Result A) (f : A → Result B)
      → Holds P r
      → ((a : A) → P a → Holds Q (f a))
      → Holds Q (and_then r f)
  and_then-Holds (done a) f h g = g a h
  and_then-Holds (fail e) f h g = tt

-- Every item of a map stands under its own id.
module _ {A : Type 0} (id : A → String) where
  abbrev Keyed : List (String × A) → Type 0
  Keyed = All (λ e. id e.1 ≡ e.0)

  put-Keyed : (k : String) (a : A) (m : List (String × A)) → id a ≡ k → Keyed m → Keyed (put k a m)
  put-Keyed k a m p h = put-All (λ e. id e.1 ≡ e.0) k a m p h

  map_from-Keyed : (xs : List A) (m : List (String × A)) → Keyed m → Keyed (map_from id xs m)
  unfolding map_from
  map_from-Keyed [] m h = h
  map_from-Keyed (a ∷ xs) m h = map_from-Keyed xs (put (id a) a m) (put-Keyed (id a) a m refl h)

  add_items-Keyed :
      (e : ConceptError) (xs : List A) (m : List (String × A))
      → Keyed m
      → Holds Keyed (add_items id e xs m)
  unfolding add_items
  add_items-Keyed e [] m h = h
  add_items-Keyed e (a ∷ xs) m h =
      if-cases (Holds Keyed) (has (id a) m) (λ _. tt)
        (λ _. add_items-Keyed e xs (put (id a) a m) (put-Keyed (id a) a m refl h))

  update_items-Keyed :
      (e : ConceptError) (xs : List A) (m : List (String × A))
      → Keyed m
      → Holds Keyed (update_items id e xs m)
  unfolding update_items
  update_items-Keyed e [] m h = h
  update_items-Keyed e (a ∷ xs) m h =
      if-cases (Holds Keyed) (has (id a) m)
        (λ _. update_items-Keyed e xs (put (id a) a m) (put-Keyed (id a) a m refl h)) (λ _. tt)

  hide_items-Keyed :
      (e : ConceptError) (ks : List String) (m : List (String × A))
      → Keyed m
      → Holds Keyed (hide_items e ks m)
  unfolding hide_items
  hide_items-Keyed e [] m h = h
  hide_items-Keyed e (k ∷ ks) m h =
      if-cases (Holds Keyed) (has k m)
        (λ _. hide_items-Keyed e ks (remove k m) (remove-All (λ x. id x.1 ≡ x.0) k m h)) (λ _. tt)

  -- An id under which a map has an item is the id of one of its items.
  has-any :
      (k : String) (m : List (String × A))
      → Keyed m
      → has k m ≡ true
      → any (λ a. id a === k) (items m) ≡ true
  unfolding get
  has-any k [] h g = ground (arith, g)
  has-any k ((j, a) ∷ m) h g = ground (arith, ap (λ i. i === k) h.0, g, has-any k m h.1)

module _ {Num : Type 0} where
  abbrev pub is_node : String → List (ConceptNode Num) → Bool
  is_node k = any (λ n. node_key n === k)

  -- The two ends of an edge are nodes of the map.
  abbrev pub IsJoined : List (ConceptNode Num) → ConceptEdge Num → Type 0
  IsJoined ns e = (is_node e.head ns ≡ true) × (is_node e.tail ns ≡ true)

  get-cases :
      (Q : Option (ConceptNode Num) → Type 0) (k : String) (m : List (String × ConceptNode Num))
      → Keyed node_key m
      → Q none
      → ((n : ConceptNode Num) → node_key n ≡ k → Q (some n))
      → Q (get k m)
  unfolding get
  get-cases Q k [] h qn qs = qn
  get-cases Q k ((j, a) ∷ m) h qn qs =
      if-cases Q (j === k) (λ t. qs a (h.0 ∙ (===_iff j k).0 t)) (λ _. get-cases Q k m h.1 qn qs)

  move_nodes-Keyed :
      (ps : List (PositionUpdate Num)) (m : List (String × ConceptNode Num))
      → Keyed node_key m
      → Holds (Keyed node_key) (move_nodes ps m)
  unfolding move_nodes
  move_nodes-Keyed [] m h = h
  move_nodes-Keyed (p ∷ ps) m h =
      get-cases
        (λ o. Holds (Keyed node_key) (elim o [
          | none ↦ fail position_target_missing
          | some n ↦ move_nodes ps (put p.node_id (move_to p n) m)
        ]))
        p.node_id m h tt
        (λ n q.
          move_nodes-Keyed ps (put p.node_id (move_to p n) m)
            (put-Keyed node_key p.node_id (move_to p n) m q h))

  check_edges-All :
      (m : List (String × ConceptNode Num)) (es : List (ConceptEdge Num))
      → Keyed node_key m
      → check_edges m es ≡ true
      → All (IsJoined (items m)) es
  unfolding check_edges
  check_edges-All m [] h g = tt
  check_edges-All m (e ∷ es) h g = (
    (
      has-any node_key e.head m h (ground (arith, g)),
      has-any node_key e.tail m h (ground (arith, g)),
    ),
    check_edges-All m es h (ground (arith, g)),
  )

  -- What an accepted patch does to a map: it is the next version of the same epoch and baseline, in
  -- the same room, with the patch's cursor, which is no step back, and each edge joins two nodes.
  pub record Advances (s : ConceptMapSnapshot Num) (p : ConceptMapPatch Num)
      (t : ConceptMapSnapshot Num) : Type 0 where
    pub next_version : t.projection_version ≡ suc s.projection_version
    pub based : p.base_version ≡ s.projection_version
    pub same_epoch : t.analysis_epoch ≡ s.analysis_epoch
    pub same_algorithm : t.algorithm_version ≡ s.algorithm_version
    pub same_parameters : t.parameter_hash ≡ s.parameter_hash
    pub same_room : t.room_id ≡ s.room_id
    pub same_key : t.projection_key ≡ s.projection_key
    pub cursor : t.complete_through_room_seq ≡ p.complete_through_room_seq
    pub forward : s.complete_through_room_seq ≤ t.complete_through_room_seq
    pub no_replay : t.requires_replay ≡ false
    pub in_force : t.evidence_status ≡ active
    pub joined : All (IsJoined t.nodes) t.edges

  patched-Advances :
      (s : ConceptMapSnapshot Num) (p : ConceptMapPatch Num) (ns : List (ConceptNode Num))
      (es : List (ConceptEdge Num))
      → refusal s p ≡ none
      → All (IsJoined ns) es
      → Advances s p (patched s p ns es)
  unfolding refusal patched
  patched-Advances s p ns es h j = record {
    next_version = ground (arith, h);
    based = ground (arith, h);
    same_epoch = ground (arith, h, ===_iff p.analysis_epoch s.analysis_epoch);
    same_algorithm = ground (arith, h, ===_iff p.algorithm_version s.algorithm_version);
    same_parameters = ground (arith, h, ===_iff p.parameter_hash s.parameter_hash);
    same_room = refl;
    same_key = refl;
    cursor = refl;
    forward = ground (arith, h);
    no_replay = refl;
    in_force = refl;
    joined = j;
  }

  validated-Holds :
      (P : ConceptMapSnapshot Num → Type 0) (o : Option (ConceptMapSnapshot Num))
      → ((t : ConceptMapSnapshot Num) → o ≡ some t → P t)
      → Holds P (validated o)
  unfolding validated
  validated-Holds P none f = tt
  validated-Holds P (some t) f = f t refl

  -- The validator of the contract returns the very value that it accepts.
  abbrev pub Returns : (ConceptMapSnapshot Num → Option (ConceptMapSnapshot Num)) → Type 0
  Returns parse = (x y : ConceptMapSnapshot Num) → parse x ≡ some y → y ≡ x

  module _ (parse : ConceptMapSnapshot Num → Option (ConceptMapSnapshot Num))
      (returns : Returns parse) (s : ConceptMapSnapshot Num) (p : ConceptMapPatch Num) where
    finish-Advances :
        (ns : List (String × ConceptNode Num)) (es : List (String × ConceptEdge Num))
        → refusal s p ≡ none
        → Keyed node_key ns
        → Holds (Advances s p) (finish parse s p ns es)
    unfolding finish
    finish-Advances ns es h k =
        if-cases (Holds (Advances s p)) (check_edges ns (items es))
          (λ t. validated-Holds (Advances s p) (parse (patched s p (items ns) (items es))) (λ u q.
            subst (Advances s p) (sym (returns _ u q))
              (patched-Advances s p (items ns) (items es) h (check_edges-All ns (items es) k t))))
          (λ _. tt)

    patch_nodes-Keyed : Holds (Keyed node_key) (patch_nodes s p)
    unfolding patch_nodes
    patch_nodes-Keyed =
        and_then-Holds (Keyed node_key) (Keyed node_key) _ _
          (add_items-Keyed node_key _ p.nodes_added _ (map_from-Keyed node_key s.nodes [] tt))
          (λ m k.
            and_then-Holds (Keyed node_key) (Keyed node_key) _ _
              (update_items-Keyed node_key _ p.nodes_updated m k)
              (λ n l. hide_items-Keyed node_key _ p.nodes_hidden n l))

    any-Holds : {A : Type 0} → (r : Result A) → Holds (λ _. Unit) r
    any-Holds (done a) = tt
    any-Holds (fail e) = tt

    apply_unless-Advances :
        (r : Option ConceptError)
        → refusal s p ≡ r
        → Holds (Advances s p) (apply_unless parse s p r)
    unfolding apply_unless
    apply_unless-Advances (some e) h = tt
    apply_unless-Advances none h =
        and_then-Holds (Keyed node_key) (Advances s p) (patch_nodes s p) _ patch_nodes-Keyed
          (λ ns k.
            and_then-Holds (λ _. Unit) (Advances s p) (patch_edges s p) _
              (any-Holds (patch_edges s p))
              (λ es _.
                and_then-Holds (Keyed node_key) (Advances s p) (move_nodes p.position_updates ns) _
                  (move_nodes-Keyed p.position_updates ns k)
                  (λ moved l. finish-Advances moved es h l)))

    -- A patch that applies takes the map to its next version: same room, epoch and baseline, the
    -- patch's cursor, never behind the old one, and no edge without its two nodes. The validator
    -- returns the value that it accepts.
    pub apply_concept_patch-Advances :
        (t : ConceptMapSnapshot Num) → apply_concept_patch parse s p ≡ done t → Advances s p t
    unfolding apply_concept_patch
    apply_concept_patch-Advances t h =
        subst (Holds (Advances s p)) h (apply_unless-Advances (refusal s p) refl)
