-- ===== src/Client/Trigger.antt =====
-- apps/web/src/lib/agent/agent-trigger-controller.ts: which committed events ask Nova for an answer.
use learning_orbit.Prelude.{
  ℕ, String, Bool, true, false, List, [], ◌∷◌, ◌++◌, ◌&&◌, not, ◌≡◌, refl, any, ◌===◌, arith,
  if◌then◌else◌, suc, ◌||◌, ap, if-cases, ===_iff, includes, includes-append, ◌∙◌,
}
use learning_orbit.Wire.{
  RoomEvent, EventBody, message_added, ActorKind, human, ActorRole, student, Operation, add,
}

pub record AgentTriggerPorts : Type 0 where
  pub nova_actor_id : String
  pub actor_id : String

-- `requested` is the set, in the order of insertion; `calls` are the calls of `requestRun`.
pub record AgentTriggerController : Type 0 where
  pub ports : AgentTriggerPorts
  pub requested : List String
  pub calls : List String

abbrev is_human : ActorKind → Bool
is_human human = true
is_human _ = false

abbrev is_student : ActorRole → Bool
is_student student = true
is_student _ = false

abbrev is_add : Operation → Bool
is_add add = true
is_add _ = false

-- The type is `message.added`, and the payload mentions Nova.
abbrev pub mentions_nova : String → EventBody → Bool
mentions_nova nova (message_added p) = includes nova p.mentions
mentions_nova nova _ = false

unfoldable pub should_trigger : AgentTriggerPorts → RoomEvent → Bool
should_trigger ports e =
    is_add e.operation
    && is_human e.actor_kind
    && is_student e.actor_role
    && e.actor_id === ports.actor_id
    && mentions_nova ports.nova_actor_id e.body

-- The id is marked before the request is awaited; `succeeds` is whether the awaited call resolves.
unfoldable pub observe : RoomEvent → Bool → AgentTriggerController → AgentTriggerController × Bool
observe e succeeds c =
    if not (should_trigger c.ports e)
    then (c, false)
    else if includes e.event_id c.requested
    then (c, false)
    else (
      record c { requested = c.requested ++ e.event_id ∷ []; calls = c.calls ++ e.event_id ∷ [] },
      succeeds,
    )

unfoldable pub observe_all :
    List (RoomEvent × Bool) → AgentTriggerController → AgentTriggerController
observe_all [] c = c
observe_all ((e, succeeds) ∷ es) c = observe_all es (observe e succeeds c).0

-- How often an id was asked about.
unfoldable pub times : String → List String → ℕ
times x [] = 0
times x (y ∷ ys) = if y === x then suc (times x ys) else times x ys

-- An event that is this seat's to ask about, with this id.
abbrev pub is_due : AgentTriggerPorts → String → RoomEvent × Bool → Bool
is_due ports x (e, _) = should_trigger ports e && e.event_id === x

times-append :
    (x y : String) (ys : List String)
    → times x (ys ++ y ∷ []) ≡ (if y === x then suc (times x ys) else times x ys)
unfolding times
times-append x y [] = refl
times-append x y (z ∷ zs) = ground (arith, times-append x y zs)

-- Every id on record was asked about once, and no other was.
record IsOnce (c : AgentTriggerController) : Type 0 where
  calls_requested : c.calls ≡ c.requested
  once : (x : String) → times x c.requested ≡ (if includes x c.requested then 1 else 0)

observe-IsOnce :
    (e : RoomEvent) (succeeds : Bool) (c : AgentTriggerController)
    → IsOnce c
    → IsOnce (observe e succeeds c).0
unfolding observe
observe-IsOnce e succeeds c v =
    if-cases (λ (r : AgentTriggerController × Bool). IsOnce r.0) (not (should_trigger c.ports e))
      (λ _. v)
      (λ _.
        if-cases (λ (r : AgentTriggerController × Bool). IsOnce r.0)
          (includes e.event_id c.requested) (λ _. v)
          (λ t. record {
            calls_requested = ap (λ ys. ys ++ e.event_id ∷ []) v.calls_requested;
            once = λ x. ground (
              arith,
              v.once x,
              times-append x e.event_id c.requested,
              includes-append x e.event_id c.requested,
              ===_iff e.event_id x,
            );
          }))

observe-includes :
    (e : RoomEvent) (succeeds : Bool) (c : AgentTriggerController) (x : String)
    → includes x (observe e succeeds c).0.requested
      ≡ (includes x c.requested || is_due c.ports x (e, succeeds))
unfolding observe
observe-includes e succeeds c x =
    ground (arith, includes-append x e.event_id c.requested, ===_iff e.event_id x)

observe-ports :
    (e : RoomEvent) (succeeds : Bool) (c : AgentTriggerController)
    → (observe e succeeds c).0.ports ≡ c.ports
unfolding observe
observe-ports e succeeds c = ground arith

times-observe_all :
    (ports : AgentTriggerPorts) (es : List (RoomEvent × Bool)) (c : AgentTriggerController)
    (x : String)
    → IsOnce c
    → c.ports ≡ ports
    → times x (observe_all es c).calls
      ≡ (if includes x c.requested || any (is_due ports x) es then 1 else 0)
unfolding observe_all
times-observe_all ports [] c x v h = ground (arith, v.once x, ap (times x) v.calls_requested)
times-observe_all ports ((e, succeeds) ∷ es) c x v h =
    let d = (observe e succeeds c).0 in
    ground (
      arith,
      times-observe_all ports es d x (observe-IsOnce e succeeds c v)
          (observe-ports e succeeds c ∙ h),
      observe-includes e succeeds c x,
      ap (λ p. is_due p x (e, succeeds)) h,
    )

abbrev pub new_controller : AgentTriggerPorts → AgentTriggerController
new_controller ports = record { ports = ports; requested = []; calls = [] }

-- Whatever events a client observes, in whatever order, however often and whether or not the
-- requests succeed, `requestRun` is called exactly once for each id of an event that is this seat's
-- to ask about, and never for another id.
pub observe_all_once :
    (ports : AgentTriggerPorts) (es : List (RoomEvent × Bool)) (x : String)
    → times x (observe_all es (new_controller ports)).calls
      ≡ (if any (is_due ports x) es then 1 else 0)
unfolding times
observe_all_once ports es x =
    times-observe_all ports es (new_controller ports) x
      (record { calls_requested = refl; once = λ _. refl }) refl
