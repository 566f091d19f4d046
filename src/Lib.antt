-- ===== src/Lib.antt =====
-- Verification library of zaza, an audio call system in C++: a TURN server (turn_server/), a
-- backend with the accounts, that signals calls between users (backend/), and a command line
-- client (client_cli/).
--
-- How the parts interact. A client logs in over HTTP and connects a WebSocket with its token. It
-- asks the backend for a call over a WebSocket: the router (backend/signaling) keeps the calls in
-- the call manager (backend/calls) and passes the WebRTC messages of the two parties on. The audio
-- then flows through the TURN server: a packet comes to the dispatcher (turn_server/src/core),
-- which parses it (turn_server/src/message), checks who sent it (turn_server/src/auth), and has
-- the allocation manager (turn_server/src/allocation) answer it or relay its data.
--
-- Which module models which code:
--   Common      shared helpers: lists, maps, tests, machine words, checked reads, decimal texts,
--               searches in texts
--   Message     turn_server/src/message: `Parser` is parser.cpp (`parse`, `parse_channel_data`),
--               `Builder` is builder.cpp (`MessageBuilder`, `make_error`, `make_channel_data`)
--   Transport   turn_server/src/transport: `Endpoint` is the endpoint of transport.hpp with the text
--               that keys it, `TcpFraming` and `TcpStream` the framing of a stream in
--               tcp_transport.cpp, `TlsSession` the reads of tls_transport.cpp, `Dtls` is
--               dtls_transport.cpp, and `Sockets` has the maps of sessions and the UDP transport
--   Allocation  turn_server/src/allocation: `Types` is allocation.hpp, `Denied` is
--               permission_table.cpp, `Manager`, `Handlers` and `Relay` are allocation_manager.cpp
--               (`handle_allocate` is `handleAllocate`, and so on), `Steps` its histories
--   Auth        turn_server/src/auth: `Nonce` is nonce_manager.cpp, `HmacValidator` is
--               hmac_validator.cpp, `LongTermCred` is long_term_cred.cpp; `Stoll` is `std::stoll`,
--               `Crypto` is shared/crypto
--   Dispatcher  turn_server/src/core/turn_dispatcher.cpp: `Packet`
--   Calls       backend/calls/call_manager.cpp: `Manager` and `Uuid`; `Lifecycle` has its histories
--   Signaling   backend/signaling: `Router` is router.cpp, `WsServer` is ws_server.cpp with its
--               histories in `Connections`; `Json` is what the program uses of nlohmann::json
--   Accounts    backend/auth and backend/api: `UserStore`, `Jwt` and `AuthService` are the files of
--               those names, `Routes` is routes.cpp, `HttpServer` http_server.cpp; `Sqlite` is what
--               they use of SQLite
--   Client      client_cli/src: `Session` is session/, `Parser`, `Commands` and `Repl` are cli/,
--               `MessageHandler` is signaling/message_handler.cpp, `App` the callbacks of main.cpp and
--               of rtc/peer_connection.cpp, `Rtc` the rest of rtc/, `WsClient` is
--               signaling/ws_client.cpp; `History` has the histories of a client, `Conversation` a
--               call between two clients and the backend, and `Offers` the descriptions in it
--   TurnServer  turn_server/src/main.cpp: `Server` has the settings and the handlers of the transports,
--               `Waits` when an answer over DTLS waits for the mutex of its own session
--   Backend     backend/main.cpp: `Server` has its callbacks over the call manager, the router and the
--               WebSocket server, `History` what can happen to them
--   Config      shared/config/config.hpp
--   Audio       client_cli/src/audio: `JitterBuffer` is jitter_buffer.hpp, `Wav` is wav.cpp, `Capture`
--               is capture.cpp and `Playback` is playback.cpp; Client/Sound.antt has the callbacks of
--               client_cli/src/main.cpp that use them
--   Tests       concrete runs
-- The other modules of a component hold proofs.
--
-- How the code is modelled. The state of an object is a record, and a method is a function from
-- the state and its arguments to the new state and what it returns or sends. The public methods of
-- the managers take a lock, so a history of concurrent calls is a sequence of steps. A text is the
-- list of its bytes; a 16-bit value is a native number with its wrap-around written out. Code that
-- walks raw memory is in the type `Checked`: every read checks its index, so an access outside of
-- the buffer is `bad_access`. The loops that walk a packet are on fuel, one more than the bytes of
-- the packet, which is enough since each round moves on by 4 bytes at least; so is the loop over
-- the chunks of a WAV file. A stream of packets is read on fuel of one more than its packets. The
-- loops of `allocatePort` and of the maps are bounded by the code itself. The loop that draws a
-- nonce has no bound in the code, and its fuel is an argument. The two maps of the allocation
-- manager share their objects through identities and a heap. The order of an association list
-- stands for the iteration order of an unordered map.
--
-- Parameters, for code that is not part of the repository: the addresses of Boost.Asio
-- (`AddressV4`), the digests and the comparison of OpenSSL (`OpenSsl`), nlohmann::json
-- (`JsonLibrary`), SQLite (`Sqlite`), jwt-cpp (`JwtLibrary`), and, for the router, the generator
-- of rtc.config messages. What a theorem relies on of a library is a record of laws (`ObjectLaws`,
-- `TableLaws`), and the tests have a library that has them. The draws of random generators and the
-- times of the clocks are arguments. OpenSSL calls are taken not to fail, and nlohmann::json to
-- write every text, although its `dump` throws on one that is not UTF-8.
--
-- A callback of the client ends by returning, by an exception, or by a call on a smart pointer
-- that holds no object; what it asks of WebRTC is a list of actions. A call of the DTLS transport
-- ends by returning, by an exception, or hangs on a mutex that its own thread holds; so does the
-- TURN server as a whole. A round of the threads of the microphone and of the loudspeaker is one
-- step, and so is a callback of the backend, whose parts have their own locks.
--
-- Not modelled: the sockets of the transports, of the HTTP server and of the WebSocket server and
-- client, the handshakes of TLS, the WebRTC library of the client, the rest of the start-up of the
-- three programs with their signals and threads, and the log: they are network and device code.
pub mod Common
pub mod Transport
pub mod TurnServer
pub mod Message
pub mod Accounts
pub mod Allocation
pub mod Audio
pub mod Auth
pub mod Backend
pub mod Calls
pub mod Client
pub mod Config
pub mod Dispatcher
pub mod Signaling
pub mod Tests
