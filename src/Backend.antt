-- ===== src/Backend.antt =====
-- backend/main.cpp: the parts of the backend put together.
pub mod Server
pub mod History
pub mod Delivery
pub mod Timeouts
