-- ===== src/Prelude/Sort.antt =====
-- `sort_by` sorts, and keeps what holds of every element.
use Prim.Native.Nat.{ℕ, ◌≤◌}
use mathlib.Core.Logic.{inl, inr}
use mathlib.Core.List.{List, [], ◌∷◌}
use native.Mathlib.Omega.{arith}
use learning_orbit.Prelude.Tests.{leb, Bool-cases}
use learning_orbit.Prelude.Lists.{All, insert_by, sort_by}

module _ {ℓ κ} {A : Type ℓ} (P Q : A → Type κ) where
  pub All-map : ((a : A) → P a → Q a) → (xs : List A) → All P xs → All Q xs
  All-map f [] h = tt
  All-map f (x ∷ xs) h = (f x h.0, All-map f xs h.1)

module _ {ℓ} {A : Type ℓ} (key : A → ℕ) where
  abbrev pub IsSorted : List A → Type 0
  IsSorted [] = Unit
  IsSorted (x ∷ xs) = All (λ y. key x ≤ key y) xs × IsSorted xs

  module _ {κ} (P : A → Type κ) where
    pub All-insert_by : (a : A) (xs : List A) → P a → All P xs → All P (insert_by key a xs)
    All-insert_by a [] p h = (p, tt)
    All-insert_by a (x ∷ xs) p h = elim (Bool-cases (leb (key a) (key x))) [
      | inl t ↦ rw t (p, h)
      | inr t ↦ rw t (h.0, All-insert_by a xs p h.1)
    ]

    pub All-sort_by : (xs : List A) → All P xs → All P (sort_by key xs)
    All-sort_by [] h = tt
    All-sort_by (x ∷ xs) h = All-insert_by x (sort_by key xs) h.0 (All-sort_by xs h.1)

    pub All-of-insert_by : (a : A) (xs : List A) → All P (insert_by key a xs) → P a × All P xs
    All-of-insert_by a [] h = h
    All-of-insert_by a (x ∷ xs) h = elim (Bool-cases (leb (key a) (key x))) [
      | inl t ↦ rw t at h
      | inr t ↦
          let h' : All P (x ∷ insert_by key a xs) = rw t at h in
          let (p, q) = All-of-insert_by a xs (h'.1) in (p, (h'.0, q))
    ]

    pub All-of-sort_by : (xs : List A) → All P (sort_by key xs) → All P xs
    All-of-sort_by [] h = tt
    All-of-sort_by (x ∷ xs) h =
        let (p, q) = All-of-insert_by x (sort_by key xs) h in (p, All-of-sort_by xs q)

  insert_by-IsSorted : (a : A) (xs : List A) → IsSorted xs → IsSorted (insert_by key a xs)
  insert_by-IsSorted a [] s = (tt, tt)
  insert_by-IsSorted a (x ∷ xs) s = elim (Bool-cases (leb (key a) (key x))) [
    | inl t ↦
        let le : key a ≤ key x = ground arith in
        rw t
          ((le, All-map (λ y. key x ≤ key y) (λ y. key a ≤ key y) (λ y h. omega arith) xs s.0), s)
    | inr t ↦
        rw t
          (All-insert_by (λ y. key x ≤ key y) a xs (ground arith) s.0, insert_by-IsSorted a xs s.1)
  ]

  pub sort_by-IsSorted : (xs : List A) → IsSorted (sort_by key xs)
  sort_by-IsSorted [] = tt
  sort_by-IsSorted (x ∷ xs) = insert_by-IsSorted x (sort_by key xs) (sort_by-IsSorted xs)
