-- ===== src/Calls.antt =====
-- backend/calls: the calls between users. `Manager` translates call_manager.cpp, the other modules
-- hold proofs.
pub mod Uuid
pub mod Manager
pub mod Exclusive
pub mod Lifecycle
pub mod Freed
pub mod Timeouts
