-- ===== src/Client.antt =====
-- client_cli/src: the session, the commands and the handling of the server's messages.
pub mod Session
pub mod Parser
pub mod Commands
pub mod MessageHandler
pub mod Repl
pub mod App
pub mod Coherence
pub mod Replies
pub mod History
pub mod Faults
pub mod Conversation
pub mod Rtc
pub mod Offers
pub mod Sound
pub mod Recordings
pub mod WsClient
pub mod Reconnects
