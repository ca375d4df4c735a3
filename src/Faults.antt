-- ===== src/Faults.antt =====
-- apps/server/src/modules/security/fault-controls.ts: the faults that a test may arm. A value is a
-- Boolean, an integer with its sign, or something else.
use learning_orbit.Prelude.{
  ℕ, String, Bool, true, false, Option, none, some, ◌===◌, ltb, if◌then◌else◌, ◌≡◌, refl, ◌≤◌,
  arith, List, [], ◌∷◌, ◌⊎◌, inl, inr, ◌+◌,
}

pub data FaultName : Type 0 where
  outbox_paused drop_next_ack crash_after_claim clock_skew_ms : FaultName

pub data FaultValue : Type 0 where
  flag : Bool → FaultValue
  number : (negative : Bool) (magnitude : ℕ) → FaultValue
  other : FaultValue

pub data FaultControlError : Type 0 where
  test_faults_forbidden_in_production test_faults_invalid : FaultControlError
  fault_unknown fault_value_invalid : FaultControlError

-- The sign and the magnitude of a skew in milliseconds.
pub record Skew : Type 0 where
  pub negative : Bool
  pub magnitude : ℕ

pub record FaultController : Type 0 where
  pub paused : Bool
  pub drop_ack : Bool
  pub crash : Bool
  pub skew : Skew

abbrev pub calm : FaultController
calm = record {
  paused = false;
  drop_ack = false;
  crash = false;
  skew = record { negative = false; magnitude = 0 };
}

-- `FAULT_NAMES.includes(name)`, with the name that it is.
unfoldable pub fault_name : String → Option FaultName
fault_name name =
    if name === "outbox.paused"
    then some outbox_paused
    else if name === "websocket.drop_next_ack"
    then some drop_next_ack
    else if name === "worker.crash_after_claim"
    then some crash_after_claim
    else if name === "client.clock_skew_ms"
    then some clock_skew_ms
    else none

pub data Enabled : Type 0 where
  enabled : Bool → Enabled
  refused : FaultControlError → Enabled

-- The variable LEARNING_ORBIT_TEST_FAULTS and NODE_ENV.
unfoldable pub fault_controls_enabled : Option String → String → Enabled
fault_controls_enabled none node_env = enabled false
fault_controls_enabled (some requested) node_env =
    if node_env === "production"
    then refused test_faults_forbidden_in_production
    else if requested === "1"
    then enabled true
    else refused test_faults_invalid

unfoldable pub take_ack_drop : FaultController → FaultController × Bool
take_ack_drop c = (record c { drop_ack = false }, c.drop_ack)

unfoldable pub assert_boolean : FaultValue → Option Bool
assert_boolean (flag b) = some b
assert_boolean _ = none

abbrev pub day : ℕ
day = 86_400_000

unfoldable pub assert_skew : FaultValue → Option Skew
assert_skew (number negative magnitude) =
    if ltb day magnitude then none else some (record { negative = negative; magnitude = magnitude })
assert_skew _ = none

abbrev pub stored :
    {A : Type 0}
    → FaultController
    → (A → FaultController)
    → Option A
    → FaultController × Option FaultControlError
stored c f none = (c, some fault_value_invalid)
stored c f (some a) = (f a, none)

unfoldable pub arm_fault :
    Option FaultName → FaultValue → FaultController → FaultController × Option FaultControlError
unfolding assert_boolean assert_skew
arm_fault none v c = (c, some fault_unknown)
arm_fault (some outbox_paused) v c = stored c (λ b. record c { paused = b }) (assert_boolean v)
arm_fault (some drop_next_ack) v c = stored c (λ b. record c { drop_ack = b }) (assert_boolean v)
arm_fault (some crash_after_claim) v c = stored c (λ b. record c { crash = b }) (assert_boolean v)
arm_fault (some clock_skew_ms) v c = stored c (λ s. record c { skew = s }) (assert_skew v)

unfoldable pub arm :
    String → FaultValue → FaultController → FaultController × Option FaultControlError
unfolding arm_fault fault_name
arm name v c = arm_fault (fault_name name) v c

unfoldable pub reset : FaultController → FaultController
reset c = calm

-- What a test does to the controller.
pub data Drill : Type 0 where
  arms : String → FaultValue → Drill
  sends : Drill
  resets : Drill

unfoldable pub drill : Drill → FaultController → FaultController
drill (arms name v) c = (arm name v c).0
drill sends c = (take_ack_drop c).0
drill resets c = reset c

unfoldable pub drill_all : List Drill → FaultController → FaultController
drill_all [] c = c
drill_all (d ∷ ds) c = drill_all ds (drill d c)

assert_skew-≤ : (v : FaultValue) (s : Skew) → assert_skew v ≡ some s → s.magnitude ≤ day
unfolding assert_skew
assert_skew-≤ (flag b) s h = ground (arith, h)
assert_skew-≤ other s h = ground (arith, h)
assert_skew-≤ (number negative magnitude) s h = ground (arith, h)

abbrev pub IsBounded : FaultController → Type 0
IsBounded c = c.skew.magnitude ≤ day

stored-IsBounded :
    {A : Type 0}
    → (c : FaultController) (f : A → FaultController) (o : Option A) → IsBounded c
    → ((a : A) → o ≡ some a → IsBounded (f a))
    → IsBounded (stored c f o).0
stored-IsBounded c f none b h = b
stored-IsBounded c f (some a) b h = h a refl

arm_fault-IsBounded :
    (o : Option FaultName) (v : FaultValue) (c : FaultController)
    → IsBounded c
    → IsBounded (arm_fault o v c).0
unfolding arm_fault
arm_fault-IsBounded none v c b = b
arm_fault-IsBounded (some outbox_paused) v c b =
    stored-IsBounded c _ (assert_boolean v) b (λ _ _. b)
arm_fault-IsBounded (some drop_next_ack) v c b =
    stored-IsBounded c _ (assert_boolean v) b (λ _ _. b)
arm_fault-IsBounded (some crash_after_claim) v c b =
    stored-IsBounded c _ (assert_boolean v) b (λ _ _. b)
arm_fault-IsBounded (some clock_skew_ms) v c b =
    stored-IsBounded c (λ s. record c { skew = s }) (assert_skew v) b (assert_skew-≤ v)

drill-IsBounded : (d : Drill) (c : FaultController) → IsBounded c → IsBounded (drill d c)
unfolding drill arm take_ack_drop reset
drill-IsBounded (arms name v) c b = arm_fault-IsBounded (fault_name name) v c b
drill-IsBounded sends c b = b
drill-IsBounded resets c b = omega arith

-- A clock skewed by no more than a day stays so, whatever a test arms, sends and resets.
pub drill_all-IsBounded :
    (ds : List Drill) (c : FaultController) → IsBounded c → IsBounded (drill_all ds c)
unfolding drill_all
drill_all-IsBounded [] c b = b
drill_all-IsBounded (d ∷ ds) c b = drill_all-IsBounded ds (drill d c) (drill-IsBounded d c b)

-- How many acknowledgements are dropped, and how often the drop is armed: only an arming of that
-- fault by its name with the Boolean `true` counts.
abbrev pub armed : FaultController → ℕ
armed c = if c.drop_ack then 1 else 0

abbrev pub dropped : Drill → FaultController → ℕ
dropped sends c = if (take_ack_drop c).1 then 1 else 0
dropped _ c = 0

abbrev pub arming : Drill → ℕ
arming (arms name (flag true)) = if name === "websocket.drop_next_ack" then 1 else 0
arming _ = 0

unfoldable pub drops : List Drill → FaultController → ℕ
drops [] c = 0
drops (d ∷ ds) c = dropped d c + drops ds (drill d c)

unfoldable pub armings : List Drill → ℕ
armings [] = 0
armings (d ∷ ds) = arming d + armings ds

arm_fault-armed :
    (o : Option FaultName) (v : FaultValue) (c : FaultController)
    → ((o ≡ some drop_next_ack) × (v ≡ flag true)) ⊎ (armed (arm_fault o v c).0 ≤ armed c)
unfolding arm_fault assert_boolean assert_skew
arm_fault-armed none v c = inr (omega arith)
arm_fault-armed (some outbox_paused) (flag b) c = inr (omega arith)
arm_fault-armed (some outbox_paused) (number n m) c = inr (omega arith)
arm_fault-armed (some outbox_paused) other c = inr (omega arith)
arm_fault-armed (some drop_next_ack) (flag true) c = inl (refl, refl)
arm_fault-armed (some drop_next_ack) (flag false) c = inr (omega arith)
arm_fault-armed (some drop_next_ack) (number n m) c = inr (omega arith)
arm_fault-armed (some drop_next_ack) other c = inr (omega arith)
arm_fault-armed (some crash_after_claim) (flag b) c = inr (omega arith)
arm_fault-armed (some crash_after_claim) (number n m) c = inr (omega arith)
arm_fault-armed (some crash_after_claim) other c = inr (omega arith)
arm_fault-armed (some clock_skew_ms) (flag b) c = inr (omega arith)
arm_fault-armed (some clock_skew_ms) (number n m) c = inr (ground arith)
arm_fault-armed (some clock_skew_ms) other c = inr (omega arith)

fault_name_lem :
    (name : String)
    → fault_name name ≡ some drop_next_ack
    → (name === "websocket.drop_next_ack") ≡ true
unfolding fault_name
fault_name_lem name h = ground (arith, h)

armed-≤ : (c : FaultController) → armed c ≤ 1
armed-≤ c = ground arith

drill-armed :
    (d : Drill) (c : FaultController) → armed (drill d c) + dropped d c ≤ arming d + armed c
unfolding drill arm take_ack_drop reset
drill-armed (arms name v) c = elim (arm_fault-armed (fault_name name) v c) [
  | inl (q, t) ↦
      rw (t, arming, fault_name_lem name q)
        (omega (arith, armed-≤ (arm_fault (fault_name name) (flag true) c).0))
  | inr q ↦ omega (arith, q)
]
drill-armed sends c = ground arith
drill-armed resets c = omega arith

-- A drop is one-shot: however a test arms, sends and resets, no more acknowledgements are dropped
-- than the drop was armed by its name with the value true, counting one that is armed at the start.
pub drops-≤ : (ds : List Drill) (c : FaultController) → drops ds c ≤ armings ds + armed c
unfolding drops armings
drops-≤ [] c = omega arith
drops-≤ (d ∷ ds) c = omega (arith, drops-≤ ds (drill d c), drill-armed d c)
