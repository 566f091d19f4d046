-- ===== src/Allocation.antt =====
-- turn_server/src/allocation: the allocations of the TURN server. `Types`, `Denied`, `Manager` and
-- `Handlers` translate the code, the other modules hold proofs.
pub mod Types
pub mod Denied
pub mod Manager
pub mod Handlers
pub mod Relay
pub mod Ports
pub mod Lifetime
pub mod Invariant
pub mod Cases
pub mod Steps
pub mod Consistency
pub mod Quota
pub mod Channels
pub mod Guard
