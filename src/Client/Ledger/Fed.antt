-- ===== src/Client/Ledger/Fed.antt =====
-- The ledger of event-ledger.ts, fed with what the room socket of a page delivers.
use learning_orbit.Prelude.{◌≡◌, sym, ap, ◌∙◌, subst, String, Option, some, List, ◌++◌, All, map}
use learning_orbit.Wire.{ServerFrame, events_of, RoomCommand}
use learning_orbit.Realtime.Connection.Order.{Contiguous}
use learning_orbit.Client.Socket.{RoomSocket, SocketLike, on_frames}
use learning_orbit.Client.Socket.Delivery.{
  IsSafeSeq, next_events, next_events-AreOwn, on_frames-Delivers,
}
use learning_orbit.Client.Ledger.{EventLedger, values}
use learning_orbit.Client.Ledger.Sequence.{AreFresh, append_all, append_all-delivered}

-- The ledger holds what the socket has delivered, and stands at the socket's cursor in its room.
pub record IsInStep (l : EventLedger) (s : RoomSocket) : Type 0 where
  pub own_room : l.room_id ≡ some s.room_id
  pub cursor : l.last_seq ≡ s.last_room_seq
  pub held : values l.event_map ≡ s.delivered

-- A ledger in step with its socket stays in step: whatever frames the socket handles, repeated, out
-- of order or of another room, appending the events that it delivers, in turn, appends every one of
-- them, so that the ledger holds exactly what the socket has delivered and its cursor is the
-- socket's. Sequences are safe integers, and the ids of the delivered events are new to the ledger
-- and to one another.
pub append_all-IsInStep :
    (encode : RoomCommand → Option String) (sock : SocketLike) (fs : List ServerFrame)
    (s : RoomSocket) (l : EventLedger)
    → All IsSafeSeq (events_of fs)
    → AreFresh l.event_map (next_events s.room_id s.last_room_seq (events_of fs))
    → IsInStep l s
    → let t = on_frames encode sock fs s in
      let new = next_events s.room_id s.last_room_seq (events_of fs) in
      (t.delivered ≡ s.delivered ++ new) × IsInStep (append_all (map some new) l) t
append_all-IsInStep encode sock fs s l safe fresh i =
    let t = on_frames encode sock fs s in
    let new = next_events s.room_id s.last_room_seq (events_of fs) in
    let d = on_frames-Delivers encode sock fs s safe in
    let (room, last, all) =
      append_all-delivered s.room_id new l t.last_room_seq i.own_room
        (next_events-AreOwn s.room_id s.last_room_seq (events_of fs))
        (subst (λ n. Contiguous n new t.last_room_seq) (sym i.cursor) d.follows) fresh in
    (
      d.delivers,
      record {
        own_room = room ∙ ap some (sym d.room);
        cursor = last;
        held = all ∙ ap (λ es. es ++ new) i.held ∙ sym d.delivers;
      },
    )
