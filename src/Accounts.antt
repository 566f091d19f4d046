-- ===== src/Accounts.antt =====
-- The accounts of the backend and its HTTP interface: backend/auth and backend/api.
pub mod Sqlite
pub mod UserStore
pub mod Jwt
pub mod AuthService
pub mod Routes
pub mod HttpServer
pub mod Access
pub mod Guard
pub mod TurnLogin
