-- ===== src/Prelude/Keys.antt =====
-- The keys of a `Map<string, V>`: no key stands twice, whatever is set and deleted.
use Prim.Native.String.{String}
use mathlib.Core.Path.{◌≡◌, refl, sym, ap, subst, ◌∙◌}
use mathlib.Core.Logic.{◌≢◌}
use mathlib.Core.Bool.{false}
use mathlib.Core.Option.{none}
use mathlib.Core.List.{List, [], ◌∷◌, ◌++◌}
use native.Mathlib.Omega.{arith}
use learning_orbit.Prelude.Tests.{◌===◌, ===_iff, if-cases}
use learning_orbit.Prelude.Lists.{All}
use learning_orbit.Prelude.Maps.{get, put, remove, keys, put-new}
use learning_orbit.Prelude.Sets.{includes, AreDistinct, append-AreDistinct}

module _ {V : Type 0} where
  pub remove-other : (k : String) (m : List (String × V)) → All (λ e. e.0 ≢ k) (remove k m)
  unfolding remove
  remove-other k [] = tt
  remove-other k ((j, w) ∷ m) =
      if-cases (All (λ e. e.0 ≢ k)) (j === k) (λ _. remove-other k m)
        (λ t. ((λ q. ground (arith, ===_iff j k)), remove-other k m))

  keys-append :
      (m : List (String × V)) (k : String) (v : V) → keys (m ++ (k, v) ∷ []) ≡ keys m ++ k ∷ []
  keys-append [] k v = refl
  keys-append ((j, w) ∷ m) k v = ap (λ ks. j ∷ ks) (keys-append m k v)

  includes-get : (k : String) (m : List (String × V)) → get k m ≡ none → includes k (keys m) ≡ false
  unfolding get
  includes-get k [] h = refl
  includes-get k ((j, w) ∷ m) h = ground (arith, h, includes-get k m)

  includes-remove :
      (k j : String) (m : List (String × V))
      → includes j (keys m) ≡ false
      → includes j (keys (remove k m)) ≡ false
  unfolding remove
  includes-remove k j [] h = refl
  includes-remove k j ((i, w) ∷ m) h = ground (arith, h, includes-remove k j m)

  pub put-AreDistinct :
      (k : String) (v : V) (m : List (String × V))
      → get k m ≡ none
      → AreDistinct (keys m)
      → AreDistinct (keys (put k v m))
  put-AreDistinct k v m new d =
      subst AreDistinct (sym (ap keys (put-new k v m new) ∙ keys-append m k v))
        (append-AreDistinct k (keys m) d (includes-get k m new))

  pub remove-AreDistinct :
      (k : String) (m : List (String × V)) → AreDistinct (keys m) → AreDistinct (keys (remove k m))
  unfolding remove
  remove-AreDistinct k [] d = tt
  remove-AreDistinct k ((j, w) ∷ m) d =
      if-cases (λ (n : List (String × V)). AreDistinct (keys n)) (j === k)
        (λ _. remove-AreDistinct k m d.1)
        (λ _. (includes-remove k j m d.0, remove-AreDistinct k m d.1))
