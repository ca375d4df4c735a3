-- ===== src/Rooms/Work/Surely.antt =====
-- Total correctness of the work of a room transaction: it succeeds, and what holds then.
use learning_orbit.Prelude.{Bool, true, false, Option, none, some, ◌≡◌, refl, sym, subst, is_some}
use learning_orbit.Rooms.Store.{Room}
use learning_orbit.Rooms.Work.{
  Work, Outcome, ok, fail, Failure, ◌>>=◌, give, require, present, gets, change, stored_or,
}

some_injective {ℓ} : {A : Type ℓ} {a b : A} → some a ≡ some b → a ≡ b
some_injective h = cc

unfoldable pub Surely {ℓ} : {A : Type ℓ} → (A → Room → Type 0) → Outcome (A × Room) → Type 0
Surely P (ok (a, r)) = P a r
Surely P (fail e) = ⊥

module _ {κ} {A : Type 0} {B : Type κ} (P : B → Room → Type 0) where
  Surely-elim :
      (Q : A → Room → Type 0) (f : A → Work B) (o : Outcome (A × Room))
      → Surely Q o
      → ((a : A) (r : Room) → Q a r → Surely P (f a r))
      → Surely P (elim o [ ok (a, r') ↦ f a r' | fail e ↦ fail e ])
  unfolding Surely
  Surely-elim Q f (ok (a, r)) q h = h a r q
  Surely-elim Q f (fail e) q h = q

  pub Surely-then :
      (Q : A → Room → Type 0) (m : Work A) (f : A → Work B) (r : Room)
      → Surely Q (m r)
      → ((a : A) (r' : Room) → Q a r' → Surely P (f a r'))
      → Surely P ((m >>= f) r)
  unfolding ◌>>=◌
  Surely-then Q m f r q h = Surely-elim Q f (m r) q h

  -- The first part gives this value and leaves the rows.
  pub Surely-known :
      (a : A) (m : Work A) (f : A → Work B) (r : Room)
      → Surely (λ x r'. (r' ≡ r) × (x ≡ a)) (m r)
      → Surely P (f a r)
      → Surely P ((m >>= f) r)
  Surely-known a m f r q h =
      Surely-then (λ x r'. (r' ≡ r) × (x ≡ a)) m f r q
        (λ x r' t.
          subst (λ y. Surely P (f y r')) (sym t.1) (subst (λ z. Surely P (f a z)) (sym t.0) h))

  pub Surely-gets :
      (g : Room → A) (f : A → Work B) (r : Room)
      → Surely P (f (g r) r)
      → Surely P ((gets g >>= f) r)
  unfolding gets ◌>>=◌
  Surely-gets g f r h = h

  pub Surely-present :
      (o : Option A) (a : A) (e : Failure) (f : A → Work B) (r : Room)
      → o ≡ some a
      → Surely P (f a r)
      → Surely P ((present o e >>= f) r)
  unfolding Surely ◌>>=◌ present
  Surely-present none a e f r t h = cc
  Surely-present (some b) a e f r t h = subst (λ x. Surely P (f x r)) (some_injective (sym t)) h

  pub Surely-option_none :
      (k : Work B) (f : A → Work B) (o : Option A) (r : Room)
      → o ≡ none
      → Surely P (k r)
      → Surely P (elim o as (λ _. Work B) [ none ↦ k | some a ↦ f a ] r)
  Surely-option_none k f none r t h = h
  Surely-option_none k f (some a) r t h = cc

  pub Surely-option_some :
      (k : Work B) (f : A → Work B) (o : Option A) (a : A) (r : Room)
      → o ≡ some a
      → Surely P (f a r)
      → Surely P (elim o as (λ _. Work B) [ none ↦ k | some a ↦ f a ] r)
  Surely-option_some k f none a r t h = cc
  Surely-option_some k f (some b) a r t h = subst (λ x. Surely P (f x r)) (some_injective (sym t)) h

module _ {κ} {B : Type κ} (P : B → Room → Type 0) where
  pub Surely-give : (b : B) (r : Room) → P b r → Surely P (give b r)
  unfolding Surely give
  Surely-give b r h = h

  pub Surely-change :
      (g : Room → Room) (k : Unit {0} → Work B) (r : Room)
      → Surely P (k tt (g r))
      → Surely P ((change g >>= k) r)
  unfolding ◌>>=◌ change
  Surely-change g k r h = h

  pub Surely-require :
      (b : Bool) (e : Failure) (k : Unit {0} → Work B) (r : Room)
      → b ≡ true
      → Surely P (k tt r)
      → Surely P ((require b e >>= k) r)
  unfolding Surely ◌>>=◌ require
  Surely-require true e k r t h = h
  Surely-require false e k r t h = cc

  pub Surely-stored :
      (o : Option B) (b : B) (k : Work B) (r : Room)
      → o ≡ some b
      → P b r
      → Surely P (stored_or o k r)
  unfolding Surely stored_or
  Surely-stored none b k r t h = cc
  Surely-stored (some x) b k r t h = subst (λ y. P y r) (some_injective (sym t)) h

  pub Surely-cases :
      (b : Bool) (k l : Work B) (r : Room)
      → b ≡ true
      → Surely P (l r)
      → Surely P (elim b as (λ _. Work B) [ false ↦ k | true ↦ l ] r)
  Surely-cases true k l r t h = h
  Surely-cases false k l r t h = cc

-- A success is the outcome itself.
pub Surely-ok {κ} :
    {B : Type κ} (P : B → Room → Type 0) (o : Outcome (B × Room))
    → Surely P o
    → (b : B) × (r : Room) × (o ≡ ok (b, r)) × P b r
unfolding Surely
Surely-ok P (ok (b, r)) h = (b, r, refl, h)
Surely-ok P (fail e) h = elim h [ ]

pub Surely-weaken {κ} :
    {B : Type κ} (P Q : B → Room → Type 0) (o : Outcome (B × Room))
    → ((b : B) (r : Room) → P b r → Q b r)
    → Surely P o
    → Surely Q o
unfolding Surely
Surely-weaken P Q (ok (b, r)) f h = f b r h
Surely-weaken P Q (fail e) f h = h

pub is_some_elim {ℓ} : {A : Type ℓ} (o : Option A) → is_some o ≡ true → (a : A) × (o ≡ some a)
is_some_elim none h = cc
is_some_elim (some a) h = (a, refl)

pub Surely-required :
    (P : Unit {0} → Room → Type 0) (b : Bool) (e : Failure) (r : Room)
    → b ≡ true
    → P tt r
    → Surely P (require b e r)
unfolding Surely require
Surely-required P true e r t h = h
Surely-required P false e r t h = cc
