-- ===== src/Examples/Page.antt =====
-- The theorems on the state of a session page, its triggers, its attachments and its commands, at
-- concrete inputs.
use learning_orbit.Prelude.{
  String, Option, none, some, [], ◌∷◌, ◌≡◌, refl, true, false, arith, get, put, remove, get-put,
  get-remove, List, ◌≤◌,
}
use learning_orbit.Wire.{
  RoomEvent, scheduled, message_added, RoomCommand, AgentStatus, queued, streaming, healthy,
}
use learning_orbit.Client.Reducer.{SessionState}
use learning_orbit.Client.Trigger.{
  AgentTriggerPorts, times, observe_all, new_controller, observe_all_once, should_trigger,
}
use learning_orbit.Client.Slots.{
  MediaSlotReservations, Steps, begins, settles, done, then_step, occupied, Steps-IsWithin, reserve,
  settle,
}
use learning_orbit.Client.Commands.{add, send}
use learning_orbit.Client.Commands.WellMade.{Amounts, send-Amounts}
use learning_orbit.Client.View.{
  UrlSearchParams, RoomViewPreferences, session_45m, lineage_adjusted, parse_room_view_preferences,
  room_view_search, parse-room_view_search,
}
use learning_orbit.Client.AgentRuns.{
  IsNext, accept_agent_run_transition, progress_rank, accept_agent_run_transition-IsNext,
}
use learning_orbit.Faults.{arms, sends, flag, calm, Drill, drops, armings, drops-≤}
use learning_orbit.Examples.Data.{room, greeted, greeting}

abbrev fresh_state : SessionState
fresh_state = record {
  room_id = room;
  status = scheduled;
  connected = false;
  is_paused = false;
  starts_at = none;
  closes_at = none;
  last_room_seq = 0;
  live_announcement = "";
}

abbrev ports : AgentTriggerPorts
ports = record { nova_actor_id = "nova"; actor_id = "s1" }

abbrev asked : RoomEvent
asked = record greeted { body = message_added (record greeting { mentions = "nova" ∷ [] }) }

observe_all_once_example :
    times "e2" (observe_all ((asked, false) ∷ (asked, true) ∷ []) (new_controller ports)).calls ≡ 1
unfolding should_trigger
observe_all_once_example = observe_all_once ports ((asked, false) ∷ (asked, true) ∷ []) "e2"

abbrev one_slot : MediaSlotReservations
one_slot = record { max = 1; known = []; inflight = 0 }

abbrev after_upload : MediaSlotReservations
after_upload = (settle (some "p1") (reserve (reserve one_slot).0).0).0

upload : Steps one_slot after_upload
unfolding reserve
upload = then_step begins (then_step begins (then_step (settles (some "p1") (omega arith)) done))

Steps-IsWithin_example : occupied after_upload ≤ 1
Steps-IsWithin_example =
    (Steps-IsWithin 1 upload
      (record { same_max = refl; within = omega arith; distinct = tt })).within

abbrev same_text : String → String
same_text t = t

abbrev as_id : RoomCommand → Option String
as_id c = some c.command_id

send-Amounts_example :
    Amounts same_text as_id as_id
      (some "10:01")
      "x1"
      room
      (add "hi" none ("s2" ∷ "s2" ∷ []) ("p1" ∷ []))
      (send same_text as_id as_id room
        (some "10:01")
        "x1"
        (add "hi" none ("s2" ∷ "s2" ∷ []) ("p1" ∷ [])))
send-Amounts_example =
    send-Amounts same_text as_id as_id room (some "10:01") "x1"
      (add "hi" none ("s2" ∷ "s2" ∷ []) ("p1" ∷ []))

abbrev listed_params : UrlSearchParams (List (String × String)) (List (String × String))
listed_params = record {
  get = get;
  set = put;
  delete = remove;
  sort = λ p. p;
  parse = λ p. p;
  to_string = λ p. p;
  get-set = λ k v j p. get-put k j v p;
  get-delete = get-remove;
  get-sort = λ k p. refl;
  get-parse = λ k p. refl;
}

abbrev lineage : RoomViewPreferences
lineage = record { window = session_45m; view = lineage_adjusted }

parse-room_view_search_example :
    parse_room_view_preferences listed_params
      (room_view_search listed_params lineage (("view", "observed") ∷ []))
    ≡ lineage
parse-room_view_search_example =
    parse-room_view_search listed_params lineage (("view", "observed") ∷ [])

abbrev thinking : AgentStatus
thinking = record {
  room_id = room;
  agent_run_id = some "r1";
  state = queued;
  service_health = healthy;
  agent_enabled = true;
  updated_at = 5;
  failure_code = none;
}

accept_agent_run_transition-IsNext_example :
    IsNext (some "r1") (some "r1") (some 5) queued streaming 9 false
unfolding accept_agent_run_transition progress_rank
accept_agent_run_transition-IsNext_example =
    accept_agent_run_transition-IsNext thinking
      (record thinking { state = streaming; updated_at = 9 }) (some 5) 9 false refl

abbrev double_send : List Drill
double_send = arms "websocket.drop_next_ack" (flag true) ∷ sends ∷ sends ∷ []

drops-≤_example : drops double_send calm ≤ 1
unfolding armings
drops-≤_example = drops-≤ double_send calm
