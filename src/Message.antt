-- ===== src/Message.antt =====
-- turn_server/src/message: the STUN and TURN wire format. `Types`, `AttrType` and `XorCodec` are
-- the headers, `Parser` and `Builder` the two .cpp files; the other modules hold proofs.
pub mod AttrType
pub mod Types
pub mod XorCodec
pub mod Parser
pub mod Builder
pub mod TypeCodec
pub mod Safety
pub mod Encoding
pub mod AttrLoop
pub mod RoundTrip
pub mod Channel
