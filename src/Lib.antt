-- ===== src/Lib.antt =====
-- The room synchronisation of learning-orbit: a classroom room has one durable sequence of events,
-- which the server replays and broadcasts over a WebSocket and the browser turns into a ledger. The
-- paths are from the root of the repository.
--
-- * Wire models the frames and the durable event (packages/contracts, generated types).
-- * Realtime models the server's side, apps/server/src/modules/realtime. Backpressure is
--   `enforceBackpressure`; Signals is `EphemeralSignals`; Connection is the state and the sending half
--   of `RealtimeConnection` (`send`, `sendDurable`, `finishReplay`, `close`), Hub is `RoomHub.resume`,
--   Hub/Handler is `receive` with `#handle` and with what `hub.leave` broadcasts as they close the
--   connection, and Hub/Room is the set of a room with `connect`, `leave`,
--   the broadcasts and `evictRoom`.
-- * Rooms models the services of apps/server/src/modules/rooms. Store has the tables of
--   infra/postgres/migrations/001_core.sql for one room, Work the work of a transaction; Ledger is
--   `RoomEventRepository` of room-event-repository.ts, Messages is message-service.ts, Lifecycle is
--   lifecycle-service.ts and Commands is command-service.ts, with the runs of all of them; Reading is
--   `eventsAfter`, and Access is authorize-room-action.ts of modules/authorization. Resume puts them
--   together with Realtime and Client.
-- * Client models the browser's side, apps/web/src/lib: Socket is `RoomSocket` of
--   realtime/room-socket.ts, Ledger is `EventLedger` of session/event-ledger.ts, and Ledger/Fed feeds
--   the one with what the other delivers. On top of the two,
--   Reducer is the reducer of session/session-store.ts, Trigger `AgentTriggerController` of
--   agent/agent-trigger-controller.ts, Slots `MediaSlotReservations` of
--   media/media-slot-reservations.ts, Commands `makeSessionCommandBus` of
--   session/session-command-bus.ts, Coordinator `ProjectionCoordinator` of
--   session/projection-coordinator.ts, Concept `applyConceptPatch` of analytics/concept-reducer.ts and
--   Projections `ProjectionSync` of session/projection-sync.ts, which applies patches by Concept;
--   View is the query of session/room-route.ts, and AgentRuns is `acceptAgentRunTransition` of
--   session/hydrated-session-state.ts.
-- * Sync puts both sides together: what a resume of the server writes, the room socket reads.
-- * Faults is `FaultController` of apps/server/src/modules/security/fault-controls.ts.
-- * Examples has the concrete inputs.
--
-- A method is a function on the record of its object's fields. What a method does to the outside is
-- a list that the record collects: the frames sent, the close codes, the events given to the sink.
-- What an `await` returns is an argument, and where other tasks may run meanwhile, what they do to
-- the connection is an argument as well (`Turn`, `Answers`). The services of rooms work on the rows
-- of the locked room, a list for each table; a failure undoes the work of its transaction, and what
-- one transaction reads of the clock, of random identifiers, of sessions and of the validators is an
-- argument (`Draws`, `Environment`). Identifiers are compared as texts, so that an identifier in
-- other letter cases, which Postgres takes for the same, is not. The validators (Ajv), the database
-- of the realtime side, the clock and the sockets are parameters: a parser to Option, an encoder to
-- Option, the amount that a socket has buffered, a socket that takes a frame or throws. Room
-- sequences and times are natural numbers; a sequence above 2^53 - 1 is refused where the source
-- asks for a safe integer. All loops run over a list, so there is no fuel.
--
-- Not modelled: the user interface, the HTTP routes, the roster and the creation of rooms, the
-- services of jobs, media, governance and analytics, the hydration of a session but for its agent
-- status, and the Python worker.

pub mod Prelude
pub mod Wire
pub mod Realtime
pub mod Rooms
pub mod Client
pub mod Faults
pub mod Sync
mod Examples
