-- ===== src/Auth.antt =====
-- turn_server/src/auth: nonces, the time-limited passwords, and the check of a request.
pub mod Crypto
pub mod Credentials
pub mod Stoll
pub mod Nonce
pub mod HmacValidator
pub mod LongTermCred
pub mod Access
pub mod Total
