-- ===== src/Client/Ledger.antt =====
-- apps/web/src/lib/session/event-ledger.ts: the client's ledger of durable events and the messages
-- read from it. An event is what `parseServerFrame` returns; one that it refuses (also a core event
-- whose payload is malformed) throws before the state is read, and is `none` here.
pub mod Sequence
pub mod Revisions
pub mod Fed
use learning_orbit.Prelude.{
  ℕ, suc, String, Bool, true, false, Option, none, some, List, [], ◌∷◌, ◌++◌, leb, ◌==◌, ◌===◌, not,
  if◌then◌else◌, get, put, has, map, sort_by, any, add_ids, is_some,
}
use learning_orbit.Wire.{
  RoomEvent, EventBody, message_added, message_revised, message_retracted, MessagePayload,
  ActorKind, ActorRole, Operation, add, revise, retract,
}

pub data LedgerAppendResult : Type 0 where
  appended duplicate stale gap : LedgerAppendResult

pub data LedgerError : Type 0 where
  invalid_server_frame room_event_room_mismatch : LedgerError

pub record LedgerMessage : Type 0 where
  pub message_id : String
  pub text : String
  pub actor_id : String
  pub actor_kind : ActorKind
  pub actor_role : ActorRole
  pub event_id : String
  pub causation_id : String
  pub revision : ℕ
  pub operation : Operation
  pub event_time : String
  pub first_room_seq : ℕ
  pub room_seq : ℕ
  pub reply_to : Option String
  pub mentions : List String
  pub media_ids : List String

pub record EventLedger : Type 0 where
  pub event_map : List (String × RoomEvent)
  pub message_map : List (String × LedgerMessage)
  pub last_seq : ℕ
  pub room_id : Option String

unfoldable pub create : Option String → EventLedger
create room = record { event_map = []; message_map = []; last_seq = 0; room_id = room }

-- A message event: the message's id, and its payload unless it is a retraction.
abbrev pub message_of : EventBody → Option (String × Option MessagePayload)
message_of (message_added p) = some (p.message_id, some p)
message_of (message_revised p) = some (p.message_id, some p)
message_of (message_retracted id) = some (id, none)
message_of _ = none

-- `visible?.x ?? previous?.x ?? default`, where `visible` gives a value when it is there.
abbrev or_else {ℓ} : {A : Type ℓ} → Option A → A → A
or_else none d = d
or_else (some a) d = a

abbrev shown {ℓ} :
    {A : Type ℓ}
    → (MessagePayload → A)
    → (LedgerMessage → A)
    → A
    → Option MessagePayload
    → Option LedgerMessage
    → A
shown new old d (some p) previous = new p
shown new old d none (some m) = old m
shown new old d none none = d

-- `visible?.replyTo ?? previous?.replyTo ?? null`: a visible null falls back too.
abbrev reply_of : Option MessagePayload → Option LedgerMessage → Option String
reply_of visible previous = elim (shown (λ p. p.reply_to) (λ m. none) none visible none) [
  | some r ↦ some r
  | none ↦ elim previous [ none ↦ none | some m ↦ m.reply_to ]
]

abbrev kept {ℓ} : {A : Type ℓ} → (LedgerMessage → A) → A → Option LedgerMessage → A
kept old d none = d
kept old d (some m) = old m

unfoldable pub next_message :
    RoomEvent → String → Option MessagePayload → Option LedgerMessage → LedgerMessage
next_message e id visible previous = record {
  message_id = id;
  text = shown (λ p. p.text) (λ m. m.text) "" visible previous;
  actor_id = kept (λ m. m.actor_id) e.actor_id previous;
  actor_kind = kept (λ m. m.actor_kind) e.actor_kind previous;
  actor_role = kept (λ m. m.actor_role) e.actor_role previous;
  event_id = e.event_id;
  causation_id = e.causation_id;
  revision = e.revision;
  operation = e.operation;
  event_time = e.event_time;
  first_room_seq = kept (λ m. m.first_room_seq) e.room_seq previous;
  room_seq = e.room_seq;
  reply_to = reply_of visible previous;
  mentions = shown (λ p. p.mentions) (λ m. m.mentions) [] visible previous;
  media_ids = shown (λ p. p.media_ids) (λ m. m.media_ids) [] visible previous;
}

-- `!previous || event.revision >= previous.revision`.
abbrev pub supersedes : RoomEvent → Option LedgerMessage → Bool
supersedes e none = true
supersedes e (some m) = leb m.revision e.revision

unfoldable pub update_messages :
    RoomEvent
    → Option (String × Option MessagePayload)
    → List (String × LedgerMessage)
    → List (String × LedgerMessage)
update_messages e none ms = ms
update_messages e (some (id, visible)) ms =
    if supersedes e (get id ms) then put id (next_message e id visible (get id ms)) ms else ms

unfoldable pub accept : RoomEvent → EventLedger → EventLedger
unfolding update_messages
accept e l = record l {
  event_map = put e.event_id e l.event_map;
  message_map = update_messages e (message_of e.body) l.message_map;
  last_seq = e.room_seq;
}

abbrev pub is_other_room : Option String → RoomEvent → Bool
is_other_room none e = false
is_other_room (some room) e = not (e.room_id === room)

pub data AppendOutcome : Type 0 where
  returned : LedgerAppendResult → AppendOutcome
  thrown : LedgerError → AppendOutcome

unfoldable pub append_event : RoomEvent → EventLedger → EventLedger × AppendOutcome
append_event e l =
    if is_other_room l.room_id e
    then (l, thrown room_event_room_mismatch)
    else if has e.event_id l.event_map
    then (l, returned duplicate)
    else if leb e.room_seq l.last_seq
    then (l, returned stale)
    else if not (e.room_seq == suc l.last_seq)
    then (l, returned gap)
    else (accept e l, returned appended)

unfoldable pub append : Option RoomEvent → EventLedger → EventLedger × AppendOutcome
unfolding append_event
append none l = (l, thrown invalid_server_frame)
append (some e) l = append_event e l

abbrev pub values {ℓ} : {V : Type ℓ} → List (String × V) → List V
values = map (λ e. e.1)

unfoldable pub events : EventLedger → List RoomEvent
events l = sort_by (λ (e : RoomEvent). e.room_seq) (values l.event_map)

unfoldable pub messages : EventLedger → List LedgerMessage
messages l = sort_by (λ (m : LedgerMessage). m.first_room_seq) (values l.message_map)

abbrev is_retracted : Operation → Bool
is_retracted retract = true
is_retracted _ = false

-- The media ids in use, each once.
collect_media : List LedgerMessage → List String → List String
unfolding add_ids
collect_media [] ids = ids
collect_media (m ∷ ms) ids =
    collect_media ms (if is_retracted m.operation then ids else add_ids m.media_ids ids)

unfoldable pub active_media_ids : EventLedger → List String
unfolding collect_media
active_media_ids l = collect_media (values l.message_map) []

unfoldable pub reset : EventLedger → EventLedger
reset l = record l { event_map = []; message_map = []; last_seq = 0 }

unfoldable pub destroy : EventLedger → EventLedger
unfolding reset
destroy l = record (reset l) { room_id = none }
