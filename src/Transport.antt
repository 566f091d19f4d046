-- ===== src/Transport.antt =====
-- turn_server/src/transport: the endpoints that name a peer, and the framing of streams.
pub mod Endpoint
pub mod TcpFraming
pub mod TcpStream
pub mod TlsSession
pub mod TlsStream
pub mod TlsFrames
pub mod TlsPackets
pub mod Dtls
pub mod DtlsLock
pub mod Sockets
