-- ===== src/Realtime.antt =====
-- apps/server/src/modules/realtime: the server's side of the room WebSocket.
pub mod Backpressure
pub mod Signals
pub mod Connection
pub mod Hub
