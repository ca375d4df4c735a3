-- ===== src/Examples/Browser.antt =====
-- The browser's theorems at concrete inputs.
use learning_orbit.Prelude.{
  ◌≡◌, refl, none, some, List, [], ◌∷◌, ◌++◌, true, includes, arith, get, put, map,
}
use learning_orbit.Wire.{ServerFrame, event, resume_complete, events_of}
use learning_orbit.Realtime.Connection.Order.{Contiguous}
use learning_orbit.Client.Socket.{on_frames, on_frame, accept_event, send, connection_change}
use learning_orbit.Client.Socket.Delivery.{next_events, on_frames-exactly_once, on_frames-no_loss}
use learning_orbit.Client.Socket.Pending.{
  PendingIsValid, IsHealthy, resent, send-PendingIsValid, on_frame-PendingIsValid,
  resume_done-resends,
}
use learning_orbit.Client.Socket.Lifecycle.{react_all, react_all-IsSilent, IsSilent, message, timer}
use learning_orbit.Client.Ledger.{
  EventLedger, LedgerMessage, create, append, events, active_media_ids,
}
use learning_orbit.Client.Ledger.Sequence.{append_all, events_gapless}
use learning_orbit.Client.Ledger.Fed.{IsInStep, append_all-IsInStep}
use learning_orbit.Client.Ledger.Revisions.{LivesOn, append-LivesOn, active_media_ids_lem}
use learning_orbit.Examples.Data.{room, opened, greeted, command, encode, line, waiting}

waiting_valid : PendingIsValid encode waiting
unfolding get
waiting_valid = record {
  entries = ((refl, refl, ("x1", refl)), tt);
  distinct = (refl, tt);
  bounded = omega arith;
}

line-IsHealthy : IsHealthy line
line-IsHealthy = record { opened = refl; takes_all = λ f. refl }

abbrev noisy : List ServerFrame
noisy = event greeted ∷ event opened ∷ event opened ∷ event greeted ∷ []

on_frames-exactly_once_example :
    let t = on_frames encode line noisy waiting in
    let new = next_events room 0 (events_of noisy) in
    (t.delivered ≡ [] ++ new) × Contiguous 0 new t.last_room_seq
on_frames-exactly_once_example = on_frames-exactly_once encode line noisy waiting (omega arith)

-- The events out of order and repeated are passed over.
noisy_run : (on_frames encode line noisy waiting).delivered ≡ opened ∷ greeted ∷ []
unfolding on_frames on_frame accept_event
noisy_run = refl

on_frames-no_loss_example :
    let t = on_frames encode line (event opened ∷ event greeted ∷ []) waiting in
    (t.delivered ≡ [] ++ opened ∷ greeted ∷ []) × (t.last_room_seq ≡ 2)
on_frames-no_loss_example =
    on_frames-no_loss encode line (event opened ∷ event greeted ∷ []) waiting 2 (omega arith)
      (refl, (refl, refl)) (refl, (refl, tt))

send-PendingIsValid_example :
    PendingIsValid encode (send encode line (record command { command_id = "x2" }) waiting).0
send-PendingIsValid_example =
    send-PendingIsValid encode line (record command { command_id = "x2" }) waiting waiting_valid

on_frame-PendingIsValid_example :
    PendingIsValid encode (on_frame encode line (ServerFrame.ack "x1" 3 1) waiting)
on_frame-PendingIsValid_example =
    on_frame-PendingIsValid encode line (ServerFrame.ack "x1" 3 1) waiting waiting_valid

resume_done-resends_example :
    let t = on_frame encode line (resume_complete 0) waiting in
    (t.written ≡ [] ++ resent 7 waiting.pending)
    × (t.pending ≡ waiting.pending)
    × (t.resume_ready ≡ true)
    × (t.retry_index ≡ 0)
    × (t.notices ≡ [] ++ connection_change true ∷ [])
    × (t.controls ≡ [] ++ resume_complete 0 ∷ [])
resume_done-resends_example = resume_done-resends encode line waiting line-IsHealthy waiting_valid

react_all-IsSilent_example :
    IsSilent encode
      (record waiting { closed = true })
      (react_all encode
        (message line (some (event opened)) ∷ timer line ∷ [])
        (record waiting { closed = true }))
react_all-IsSilent_example =
    react_all-IsSilent encode (message line (some (event opened)) ∷ timer line ∷ [])
      (record waiting { closed = true }) refl

abbrev empty : EventLedger
empty = record { event_map = []; message_map = []; last_seq = 0; room_id = some room }

events_gapless_example :
    let l = append_all (some greeted ∷ some opened ∷ some greeted ∷ []) (create (some room)) in
    Contiguous 0 (events l) l.last_seq
events_gapless_example = events_gapless (some room) (some greeted ∷ some opened ∷ some greeted ∷ [])

append_all-IsInStep_example :
    let t = on_frames encode line noisy waiting in
    let new = next_events room 0 (events_of noisy) in
    (t.delivered ≡ [] ++ new) × IsInStep (append_all (map some new) empty) t
unfolding get put next_events
append_all-IsInStep_example =
    append_all-IsInStep encode line noisy waiting empty (omega arith) (refl, (refl, tt))
      (record { own_room = refl; cursor = refl; held = refl })

abbrev posted : LedgerMessage
posted = record {
  message_id = "m1";
  text = "hello";
  actor_id = "s1";
  actor_kind = greeted.actor_kind;
  actor_role = greeted.actor_role;
  event_id = "e2";
  causation_id = "c1";
  revision = 1;
  operation = greeted.operation;
  event_time = "10:00";
  first_room_seq = 2;
  room_seq = 2;
  reply_to = none;
  mentions = [];
  media_ids = "p1" ∷ [];
}

abbrev talking : EventLedger
talking = record empty { message_map = ("m1", posted) ∷ []; last_seq = 1 }

append-LivesOn_example : LivesOn posted (get "m1" (append (some greeted) talking).0.message_map)
unfolding get
append-LivesOn_example = append-LivesOn (some greeted) talking "m1" posted refl

active_media_ids_lem_example : includes "p1" (active_media_ids talking) ≡ true
active_media_ids_lem_example = active_media_ids_lem "p1" talking
