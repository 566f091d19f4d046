-- ===== src/TurnServer.antt =====
-- turn_server/src/main.cpp: the dispatcher behind its four transports.
pub mod Server
pub mod Kept
pub mod Waits
pub mod History
