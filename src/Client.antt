-- ===== src/Client.antt =====
-- apps/web/src/lib: the room socket, the event ledger and what the session page derives from them.
pub mod Socket
pub mod Ledger
pub mod Reducer
pub mod Trigger
pub mod Slots
pub mod Commands
pub mod Coordinator
pub mod Concept
pub mod Projections
pub mod View
pub mod AgentRuns
