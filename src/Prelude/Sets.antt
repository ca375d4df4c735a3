-- ===== src/Prelude/Sets.antt =====
-- `Set<string>` of ECMAScript as the list of its elements in the order of insertion.
use Prim.Native.String.{String}
use mathlib.Core.Path.{◌≡◌, refl}
use mathlib.Core.Bool.{Bool, false, ◌||◌}
use mathlib.Core.List.{List, [], ◌∷◌, ◌++◌}
use native.Mathlib.Omega.{arith}
use learning_orbit.Prelude.Tests.{◌===◌, ===_iff, if◌then◌else◌, if-cases}
use learning_orbit.Prelude.Lists.{any, filterb}

-- Membership of an id in a list.
abbrev pub includes : String → List String → Bool
includes x = any (λ y. y === x)

-- The set after `add` of each element.
unfoldable pub add_ids : List String → List String → List String
add_ids [] ids = ids
add_ids (x ∷ xs) ids = add_ids xs (if includes x ids then ids else ids ++ x ∷ [])

-- `[...new Set(values)]`.
abbrev pub unique : List String → List String
unique xs = add_ids xs []

pub includes-append :
    (x y : String) (ys : List String) → includes x (ys ++ y ∷ []) ≡ (y === x || includes x ys)
includes-append x y [] = refl
includes-append x y (z ∷ zs) = ground (arith, includes-append x y zs)

-- No element stands twice.
abbrev pub AreDistinct : List String → Type 0
AreDistinct [] = Unit
AreDistinct (x ∷ xs) = (includes x xs ≡ false) × AreDistinct xs

pub append-AreDistinct :
    (y : String) (xs : List String)
    → AreDistinct xs
    → includes y xs ≡ false
    → AreDistinct (xs ++ y ∷ [])
append-AreDistinct y [] d h = (refl, tt)
append-AreDistinct y (x ∷ xs) d h = (
  ground (arith, h, includes-append x y xs, d.0, ===_iff x y, ===_iff y x),
  append-AreDistinct y xs d.1 (ground (arith, h)),
)

pub add_ids-AreDistinct : (xs ids : List String) → AreDistinct ids → AreDistinct (add_ids xs ids)
unfolding add_ids
add_ids-AreDistinct [] ids d = d
add_ids-AreDistinct (x ∷ xs) ids d =
    add_ids-AreDistinct xs (if includes x ids then ids else ids ++ x ∷ [])
      (if-cases AreDistinct (includes x ids) (λ _. d) (λ t. append-AreDistinct x ids d t))

filterb-includes :
    (x : String) (p : String → Bool) (xs : List String)
    → includes x xs ≡ false
    → includes x (filterb p xs) ≡ false
filterb-includes x p [] h = refl
filterb-includes x p (y ∷ ys) h = ground (arith, filterb-includes x p ys)

pub filterb-AreDistinct :
    (p : String → Bool) (xs : List String) → AreDistinct xs → AreDistinct (filterb p xs)
filterb-AreDistinct p [] d = tt
filterb-AreDistinct p (x ∷ xs) d =
    if-cases AreDistinct (p x) (λ _. (filterb-includes x p xs d.0, filterb-AreDistinct p xs d.1))
      (λ _. filterb-AreDistinct p xs d.1)
