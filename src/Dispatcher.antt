-- ===== src/Dispatcher.antt =====
-- turn_server/src/core: what the server does with a packet.
pub mod Packet
pub mod Guard
pub mod Total
