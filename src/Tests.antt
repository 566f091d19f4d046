-- ===== src/Tests.antt =====
-- Concrete runs of the code, and the theorems at concrete inputs.
mod Message
mod Allocation
mod Calls
pub mod FlatJson
mod Client
mod Config
pub mod Backend
pub mod Server
mod Timers
mod Audio
mod Sound
mod Reconnects
mod Sockets
mod Framing
