-- ===== src/Prelude/Lists.antt =====
-- Lists measured by native numbers, predicates on all elements, and the stable sort that
-- `Array.prototype.sort` performs on a numeric key.
use Prim.Native.Nat.{ℕ, zero, suc, ◌+◌, ◌≤◌}
use mathlib.Core.Path.{◌≡◌, refl}
use mathlib.Core.Bool.{Bool, true, false, ◌||◌, false≢true}
use mathlib.Core.Logic.{◌⊎◌, inl, inr, ◌↔◌}
use mathlib.Core.List.{List, [], ◌∷◌, ◌++◌}
use native.Mathlib.Omega.{arith}
use learning_orbit.Prelude.Tests.{leb, if◌then◌else◌}

or-cases : (a b : Bool) → a || b ≡ true → (a ≡ true) ⊎ (b ≡ true)
or-cases true b h = inl refl
or-cases false b h = inr h

module _ {ℓ} {A : Type ℓ} where
  abbrev pub length : List A → ℕ
  length [] = 0
  length (x ∷ xs) = suc (length xs)

  abbrev pub take : ℕ → List A → List A
  take zero xs = []
  take (suc n) [] = []
  take (suc n) (x ∷ xs) = x ∷ take n xs

  abbrev pub any : (A → Bool) → List A → Bool
  any p [] = false
  any p (x ∷ xs) = p x || any p xs

  abbrev pub filterb : (A → Bool) → List A → List A
  filterb p [] = []
  filterb p (x ∷ xs) = if p x then x ∷ filterb p xs else filterb p xs

  pub length-append : (xs ys : List A) → length (xs ++ ys) ≡ length xs + length ys
  length-append [] ys = omega arith
  length-append (x ∷ xs) ys = omega (arith, length-append xs ys)

  pub length-filterb-le : (p : A → Bool) (xs : List A) → length (filterb p xs) ≤ length xs
  length-filterb-le p [] = omega arith
  length-filterb-le p (x ∷ xs) = ground (arith, length-filterb-le p xs)

module _ {ℓ κ} {A : Type ℓ} (P : A → Type κ) where
  abbrev pub All : List A → Type κ
  All [] = Unit
  All (x ∷ xs) = P x × All xs

  pub All-append : (xs ys : List A) → All xs → All ys → All (xs ++ ys)
  All-append [] ys hx hy = hy
  All-append (x ∷ xs) ys (h, hx) hy = (h, All-append xs ys hx hy)

-- Some element has the property.
module _ {ℓ} {A : Type ℓ} (P : A → Type 0) where
  abbrev pub Exists : List A → Type 0
  Exists [] = ⊥
  Exists (x ∷ xs) = P x ⊎ Exists xs

module _ {ℓ} {A : Type ℓ} (p : A → Bool) (P : A → Type 0) where
  -- A test that decides a property finds an element with it.
  pub any-Exists : ((a : A) → (p a ≡ true) ↔ P a) → (xs : List A) → (any p xs ≡ true) ↔ Exists P xs
  any-Exists own [] = ((λ h. elim (false≢true h) [ ]), (λ h. elim h [ ]))
  any-Exists own (x ∷ xs) =
      let (to, from) = any-Exists own xs in
      (
        (λ h. elim (or-cases (p x) (any p xs) h) [
          | inl t ↦ inl ((own x).0 t)
          | inr t ↦ inr (to t)
        ]),
        (λ h. elim h [ inl q ↦ ground (arith, (own x).1 q) | inr q ↦ ground (arith, from q) ]),
      )

  -- A test that is false where a property holds.
  pub any-All : ((a : A) → (p a ≡ false) ↔ P a) → (xs : List A) → (any p xs ≡ false) ↔ All P xs
  any-All own [] = ((λ h. tt), (λ h. refl))
  any-All own (x ∷ xs) =
      let (to, from) = any-All own xs in
      (
        (λ h. ((own x).0 (ground (arith, h)), to (ground (arith, h)))),
        (λ (h, hs). ground (arith, (own x).1 h, from hs)),
      )

-- Insertion sort by a key; equal keys keep their order, as the sort of ECMAScript does.
module _ {ℓ} {A : Type ℓ} (key : A → ℕ) where
  abbrev pub insert_by : A → List A → List A
  insert_by a [] = a ∷ []
  insert_by a (x ∷ xs) = if leb (key a) (key x) then a ∷ x ∷ xs else x ∷ insert_by a xs

  abbrev pub sort_by : List A → List A
  sort_by [] = []
  sort_by (x ∷ xs) = insert_by x (sort_by xs)

module _ {ℓ κ μ} {A : Type ℓ} (P : A → Type κ) (Q : A → Type μ) where
  pub All-and : (xs : List A) → All P xs → All Q xs → All (λ a. P a × Q a) xs
  All-and [] hp hq = tt
  All-and (x ∷ xs) hp hq = ((hp.0, hq.0), All-and xs hp.1 hq.1)
