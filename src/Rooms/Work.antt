-- ===== src/Rooms/Work.antt =====
-- The work of a room transaction: it reads and changes the rows of the locked room, and a failure
-- ends it. A service catches no failure of the repository, so that the failure is the outcome of
-- the whole transaction.
pub mod Surely
use learning_orbit.Prelude.{
  ℕ, String, Bool, true, false, Option, none, some, ◌≡◌, refl, if◌then◌else◌, subst, sym,
}
use learning_orbit.Rooms.Store.{Room}

pub data RoomError : Type 0 where
  forbidden invalid_command room_deletion_in_progress room_not_open message_not_found : RoomError
  revision_conflict : (current_revision : ℕ) → RoomError

-- A RoomError, or an Error with its message.
pub data Failure : Type 0 where
  refused : RoomError → Failure
  error : String → Failure

pub data Outcome {ℓ} (A : Type ℓ) : Type ℓ where
  ok : A → Outcome A
  fail : Failure → Outcome A

abbrev pub Work {ℓ} : Type ℓ → Type ℓ
Work A = Room → Outcome (A × Room)

infixl 5 ◌>>=◌ ◌>>◌
unfoldable pub ◌>>=◌ {ℓ κ} : {A : Type ℓ} {B : Type κ} → Work A → (A → Work B) → Work B
◌>>=◌ m f r = elim (m r) [ ok (a, r') ↦ f a r' | fail e ↦ fail e ]

abbrev pub ◌>>◌ {ℓ} : {B : Type ℓ} → Work (Unit {0}) → Work B → Work B
m >> k = m >>= λ _. k

unfoldable pub give {ℓ} : {A : Type ℓ} → A → Work A
give a r = ok (a, r)

unfoldable pub throw {ℓ} : {A : Type ℓ} → Failure → Work A
throw e r = fail e

unfoldable pub require : Bool → Failure → Work (Unit {0})
require b e r = if b then ok (tt, r) else fail e

unfoldable pub present {ℓ} : {A : Type ℓ} → Option A → Failure → Work A
present none e r = fail e
present (some a) e r = ok (a, r)

unfoldable pub gets {ℓ} : {A : Type ℓ} → (Room → A) → Work A
gets f r = ok (f r, r)

unfoldable pub lift {ℓ} : {A : Type ℓ} → Outcome A → Work A
lift (ok a) r = ok (a, r)
lift (fail e) r = fail e

unfoldable pub change : (Room → Room) → Work (Unit {0})
change f r = ok (tt, f r)

-- `return` of an event that is stored, and else the rest of the work.
unfoldable pub stored_or {ℓ} : {A : Type ℓ} → Option A → Work A → Work A
stored_or none k r = k r
stored_or (some a) k r = ok (a, r)

-- What holds of the result and the rows whenever the work succeeds.
unfoldable pub After {ℓ κ} : {A : Type ℓ} → (A → Room → Type κ) → Outcome (A × Room) → Type κ
After P (ok (a, r)) = P a r
After P (fail e) = Unit

-- The work reads only, and its result is like that.
abbrev pub Reads {ℓ} : {A : Type ℓ} → Room → (A → Type 0) → A → Room → Type 0
Reads r Q a r' = (r' ≡ r) × Q a

abbrev pub Anything {ℓ} : {A : Type ℓ} → A → Type 0
Anything a = Unit

module _ {ℓ κ μ} {A : Type ℓ} {B : Type κ} (P : B → Room → Type μ) where
  After-elim :
      (f : A → Work B) (o : Outcome (A × Room))
      → ((a : A) (r : Room) → o ≡ ok (a, r) → After P (f a r))
      → After P (elim o [ ok (a, r') ↦ f a r' | fail e ↦ fail e ])
  unfolding After
  After-elim f (ok (a, r)) h = h a r refl
  After-elim f (fail e) h = tt

  pub After-then {ν} :
      (Q : A → Room → Type ν) (m : Work A) (f : A → Work B) (r : Room)
      → After Q (m r)
      → ((a : A) (r' : Room) → Q a r' → After P (f a r'))
      → After P ((m >>= f) r)
  unfolding After ◌>>=◌
  After-then Q m f r q h = After-elim f (m r) (λ a r' t. h a r' (subst (After Q) t q))

  -- The work only reads.
  pub After-read {ν} :
      (Q : A → Type ν) (m : Work A) (f : A → Work B) (r : Room)
      → After (λ a r'. (r' ≡ r) × Q a) (m r)
      → ((a : A) → Q a → After P (f a r))
      → After P ((m >>= f) r)
  After-read Q m f r q h =
      After-then (λ a r'. (r' ≡ r) × Q a) m f r q
        (λ a r' t. subst (λ x. After P (f a x)) (sym t.0) (h a t.1))

  pub After-gets :
      (g : Room → A) (f : A → Work B) (r : Room) → After P (f (g r) r) → After P ((gets g >>= f) r)
  unfolding gets ◌>>=◌
  After-gets g f r h = h

  pub After-present :
      (o : Option A) (e : Failure) (f : A → Work B) (r : Room)
      → ((a : A) → o ≡ some a → After P (f a r))
      → After P ((present o e >>= f) r)
  unfolding After ◌>>=◌ present
  After-present none e f r h = tt
  After-present (some a) e f r h = h a refl

  pub After-lift :
      (o : Outcome A) (f : A → Work B) (r : Room)
      → ((a : A) → After P (f a r))
      → After P ((lift o >>= f) r)
  unfolding After ◌>>=◌ lift
  After-lift (ok a) f r h = h a
  After-lift (fail e) f r h = tt

  pub After-option :
      (k : Work B) (f : A → Work B) (o : Option A) (r : Room)
      → (o ≡ none → After P (k r))
      → ((a : A) → o ≡ some a → After P (f a r))
      → After P (elim o as (λ _. Work B) [ none ↦ k | some a ↦ f a ] r)
  After-option k f none r h g = h refl
  After-option k f (some a) r h g = g a refl

module _ {κ μ} {B : Type κ} (P : B → Room → Type μ) where
  pub After-give : (b : B) (r : Room) → P b r → After P (give b r)
  unfolding After give
  After-give b r h = h

  pub After-throw : (e : Failure) (r : Room) → After P (throw e r)
  unfolding After throw
  After-throw e r = tt

  pub After-change :
      (g : Room → Room) (k : Unit {0} → Work B) (r : Room)
      → After P (k tt (g r))
      → After P ((change g >>= k) r)
  unfolding ◌>>=◌ change
  After-change g k r h = h

  pub After-require :
      (b : Bool) (e : Failure) (k : Unit {0} → Work B) (r : Room)
      → (b ≡ true → After P (k tt r))
      → After P ((require b e >>= k) r)
  unfolding After ◌>>=◌ require
  After-require true e k r h = h refl
  After-require false e k r h = tt

  pub After-stored :
      (o : Option B) (k : Work B) (r : Room)
      → (o ≡ none → After P (k r))
      → ((b : B) → o ≡ some b → P b r)
      → After P (stored_or o k r)
  unfolding After stored_or
  After-stored none k r h g = h refl
  After-stored (some b) k r h g = g b refl

pub After-required {μ} :
    (P : Unit {0} → Room → Type μ) (b : Bool) (e : Failure) (r : Room)
    → (b ≡ true → P tt r)
    → After P (require b e r)
unfolding After require
After-required P true e r h = h refl
After-required P false e r h = tt

pub After-got {κ μ} :
    {B : Type κ} (P : B → Room → Type μ) (g : Room → B) (r : Room) → P (g r) r → After P (gets g r)
unfolding After gets
After-got P g r h = h

pub After-branch {κ μ} :
    {B : Type κ} (P : B → Room → Type μ) (b : Bool) (k l : Work B) (r : Room)
    → After P (k r)
    → After P (l r)
    → After P ((if b then k else l) r)
After-branch P true k l r h g = h
After-branch P false k l r h g = g

pub After-weaken {κ μ ν} :
    {B : Type κ} (P : B → Room → Type μ) (Q : B → Room → Type ν) (o : Outcome (B × Room))
    → ((b : B) (r : Room) → P b r → Q b r)
    → After P o
    → After Q o
unfolding After
After-weaken P Q (ok (b, r)) f h = f b r h
After-weaken P Q (fail e) f h = tt

pub After-cases {κ μ} :
    {B : Type κ} (P : B → Room → Type μ) (b : Bool) (k l : Work B) (r : Room)
    → (b ≡ true → After P (l r))
    → After P (k r)
    → After P (elim b as (λ _. Work B) [ false ↦ k | true ↦ l ] r)
After-cases P true k l r h g = h refl
After-cases P false k l r h g = g
