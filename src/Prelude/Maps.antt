-- ===== src/Prelude/Maps.antt =====
-- `Map<string, V>` of ECMAScript as an association list: `set` on a present key keeps the entry's
-- place, on a new key appends, and `delete` removes the entry.
use Prim.Native.Nat.{◌+◌, ◌≤◌}
use Prim.Native.String.{String}
use mathlib.Core.Path.{◌≡◌, refl, sym, ap, subst}
use mathlib.Core.Bool.{Bool}
use mathlib.Core.Logic.{inl, inr}
use mathlib.Core.Option.{Option, none, some}
use mathlib.Core.List.{List, [], ◌∷◌, ◌++◌, map}
use native.Mathlib.Omega.{arith}
use learning_orbit.Prelude.Tests.{
  ◌===◌, ===_iff, ===_refl, if◌then◌else◌, is_some, if-cases, Bool-cases,
}
use learning_orbit.Prelude.Lists.{length, All}

module _ {ℓ} {V : Type ℓ} where
  unfoldable pub get : String → List (String × V) → Option V
  get k [] = none
  get k ((j, v) ∷ m) = if j === k then some v else get k m

  unfoldable pub put : String → V → List (String × V) → List (String × V)
  put k v [] = (k, v) ∷ []
  put k v ((j, w) ∷ m) = if j === k then (j, v) ∷ m else (j, w) ∷ put k v m

  unfoldable pub remove : String → List (String × V) → List (String × V)
  remove k [] = []
  remove k ((j, v) ∷ m) = if j === k then remove k m else (j, v) ∷ remove k m

  abbrev pub has : String → List (String × V) → Bool
  has k m = is_some (get k m)

  abbrev pub keys : List (String × V) → List String
  keys = map (λ e. e.0)

  pub get-put :
      (k j : String) (v : V) (m : List (String × V))
      → get j (put k v m) ≡ (if k === j then some v else get j m)
  unfolding get put
  get-put k j v [] = refl
  get-put k j v ((i, w) ∷ m) =
      ground (arith, ===_iff k j, ===_iff i k, ===_iff i j, get-put k j v m)

  pub get-put_self : (k : String) (v : V) (m : List (String × V)) → get k (put k v m) ≡ some v
  get-put_self k v m = simp (get-put, ===_refl)

  pub get-remove :
      (k j : String) (m : List (String × V))
      → get j (remove k m) ≡ (if k === j then none else get j m)
  unfolding get remove
  get-remove k j [] = ground arith
  get-remove k j ((i, w) ∷ m) =
      ground (arith, ===_iff k j, ===_iff i k, ===_iff i j, get-remove k j m)

  pub length-put :
      (k : String) (v : V) (m : List (String × V))
      → length (put k v m) ≡ (if has k m then length m else length m + 1)
  unfolding get put
  length-put k v [] = omega arith
  length-put k v ((j, w) ∷ m) = ground (arith, length-put k v m)

  pub length-remove-le : (k : String) (m : List (String × V)) → length (remove k m) ≤ length m
  unfolding remove
  length-remove-le k [] = omega arith
  length-remove-le k ((j, w) ∷ m) = ground (arith, length-remove-le k m)

  pub put-new :
      (k : String) (v : V) (m : List (String × V)) → get k m ≡ none → put k v m ≡ m ++ (k, v) ∷ []
  unfolding get put
  put-new k v [] h = refl
  put-new k v ((j, w) ∷ m) h = ground (arith, put-new k v m)

  pub put-same : (k : String) (v : V) (m : List (String × V)) → get k m ≡ some v → put k v m ≡ m
  unfolding get put
  put-same k v [] h = cc
  put-same k v ((j, w) ∷ m) h = elim (Bool-cases (j === k)) [
    | inl t ↦
        let same : w ≡ v = ground (arith, t, h) in
        rw t (subst (λ x. ((j, v) ∷ m) ≡ ((j, x) ∷ m)) (sym same) refl)
    | inr n ↦ rw n (ap (λ l. (j, w) ∷ l) (put-same k v m (ground (arith, n, h))))
  ]

  module _ (P : String × V → Type 0) where
    pub remove-All : (k : String) (m : List (String × V)) → All P m → All P (remove k m)
    unfolding remove
    remove-All k [] h = tt
    remove-All k ((j, w) ∷ m) h =
        if-cases (All P) (j === k) (λ _. remove-All k m h.1) (λ _. (h.0, remove-All k m h.1))

    pub put-All :
        (k : String) (v : V) (m : List (String × V)) → P (k, v) → All P m → All P (put k v m)
    unfolding put
    put-All k v [] p h = (p, tt)
    put-All k v ((j, w) ∷ m) p h =
        if-cases (All P) (j === k) (λ t. (subst (λ i. P (i, v)) (sym ((===_iff j k).0 t)) p, h.1))
          (λ _. (h.0, put-All k v m p h.1))

    pub get-All :
        (k : String) (m : List (String × V)) (v : V) → get k m ≡ some v → All P m → P (k, v)
    unfolding get
    get-All k [] v g h = cc
    get-All k ((j, w) ∷ m) v g h = elim (Bool-cases (j === k)) [
      | inl t ↦
          let same : w ≡ v = ground (arith, t, g) in
          subst (λ i. P (i, v)) ((===_iff j k).0 t) (subst (λ x. P (j, x)) same h.0)
      | inr n ↦ get-All k m v (ground (arith, n, g)) h.1
    ]
