-- ===== src/Rooms.antt =====
-- apps/server/src/modules/rooms: the durable rooms and the services that write them.
pub mod Store
pub mod Work
pub mod Ledger
pub mod Messages
pub mod Lifecycle
pub mod Commands
pub mod Resume
pub mod Access
pub mod Reading
