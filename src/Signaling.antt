-- ===== src/Signaling.antt =====
-- backend/signaling: what the backend does with the messages of its WebSocket clients.
pub mod Handled
pub mod Json
pub mod Router
pub mod Notices
pub mod WsServer
pub mod Connections
