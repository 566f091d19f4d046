-- ===== src/Tests/Sockets.antt =====
-- Runs of the transports, and their theorems at concrete inputs.
use zaza.Common.{
  word16, word32, ◌≡◌, ◌⊎◌, refl, true, false, Bytes, List, [], ◌∷◌, replicate, Option, some,
  bytes_eq,
}
use zaza.Common.Decimal.{to_decimal}
use zaza.Common.Checked.{Checked, ret, bad_access, no_fuel}
use zaza.Transport.Endpoint.{Endpoint, endpoint_key}
use zaza.Transport.Dtls.{OpenSslDtls, shaken, hangs, DtlsSession, receive_dtls}
use zaza.Transport.DtlsLock.{receive_dtls-hangs}
use zaza.Transport.Sockets.{comes, ends, run_stream, session_to, present, session_to-present}
use zaza.TurnServer.Server.{
  Arrival, Link, udp, dtls, start_server, port_setting, runs, hangs, handle_arrival, send_out,
  serve,
}
use zaza.TurnServer.Kept.{Kept}
use zaza.TurnServer.History.{StopsAt, Fresh, serve-keeps}
use zaza.Allocation.Manager.{allocation_manager, set_client_send_callback, set_peer_send_callback}
use zaza.Config.Reader.{get}
use zaza.Dispatcher.Packet.{TurnDispatcher, turn_dispatcher, Outcome, on_packet}
use zaza.Message.Parser.{parse, decode_class}
use zaza.Message.Types.{find_attr}
use zaza.Auth.Nonce.{generate_random, generate}
use zaza.Auth.LongTermCred.{authenticate}
use zaza.Tests.Allocation.{one_cell, client}
use zaza.Tests.Server.{ones, server, moment}

-- A connection without secrets, whose handshake takes one datagram.
abbrev plain : OpenSslDtls
plain = record {
  Ssl = Bytes;
  ssl_new = [];
  bio_write = λ ssl datagram. datagram;
  do_handshake = λ ssl. ([], shaken);
  ssl_read = λ ssl. ([], ssl);
  ssl_write = λ ssl payload. payload;
  flush = λ ssl. ([], ssl ∷ []);
}

abbrev sent_by : Checked Outcome → List (Bytes × Endpoint)
sent_by (ret (d, sent)) = sent
sent_by bad_access = []
sent_by no_fuel = []

-- What the dispatcher of the TURN server sends.
abbrev dispatch : Bytes → Endpoint → List (Bytes × Endpoint)
dispatch packet from = sent_by (on_packet one_cell ones server moment packet from)

abbrev ready : DtlsSession plain
ready = record { ssl = []; peer_endpoint = client; handshake_done = true; locked = false }

abbrev texts : Bytes → Option Bytes
texts address = some address

-- An Allocate request with no attributes: magic cookie and transaction id only.
abbrev allocate_request : Bytes
allocate_request = 0 ∷ 3 ∷ 0 ∷ 0 ∷ 0x21 ∷ 0x12 ∷ 0xA4 ∷ 0x42 ∷ replicate 12 7

abbrev first_text : List (Bytes × Endpoint) → Bytes
first_text [] = []
first_text ((text, to) ∷ rest) = text

dispatch_run :
    dispatch allocate_request client ≡ (first_text (dispatch allocate_request client), client) ∷ []
unfolding on_packet parse word16 word32 decode_class authenticate find_attr generate
dispatch_run = refl

receive_dtls-hangs_example :
    receive_dtls plain texts dispatch ((endpoint_key client, ready) ∷ []) client allocate_request
    ≡ hangs
unfolding endpoint_key to_decimal
receive_dtls-hangs_example =
    receive_dtls-hangs plain texts dispatch ((endpoint_key client, ready) ∷ []) ready
      allocate_request (first_text (dispatch allocate_request client)) [] 0
      (3 ∷ 0 ∷ 0 ∷ 0x21 ∷ 0x12 ∷ 0xA4 ∷ 0x42 ∷ replicate 12 7) [] refl refl refl refl dispatch_run

abbrev other : Endpoint
other = record client { port = 5001 }

session_to-present_example :
    session_to (run_stream (comes client ∷ ends client ∷ comes other ∷ comes client ∷ [])) client
    ≡ present client (comes client ∷ ends client ∷ comes other ∷ comes client ∷ [])
session_to-present_example =
    session_to-present (comes client ∷ ends client ∷ comes other ∷ comes client ∷ []) client

abbrev arrivals : List Arrival
arrivals =
    record { via = udp; payload = allocate_request; from = client; moment = moment }
    ∷ record {
      via = dtls;
      payload = allocate_request;
      from = other;
      moment = record moment { nonce_draws = λ i. 9 ∷ [] };
    }
    ∷ []

arrivals-Fresh : Fresh one_cell ones (start_server []) arrivals
unfolding Fresh handle_arrival send_out endpoint_key to_decimal on_packet parse word16 word32
    decode_class authenticate find_attr generate start_server get port_setting turn_dispatcher
    allocation_manager set_client_send_callback set_peer_send_callback generate_random
arrivals-Fresh = ((0, refl, refl), ((0, refl, refl), tt))

serve-keeps_example :
    ((d : TurnDispatcher) × (out : List (Link × Bytes × Endpoint)) × (serve one_cell ones
          (start_server [])
          arrivals
        ≡ ret (runs d out))
      × Kept one_cell ones d.allocations
      × (¬ StopsAt one_cell ones (start_server []) arrivals))
    ⊎ (StopsAt one_cell ones (start_server []) arrivals
        × (out : List (Link × Bytes × Endpoint)) × (serve one_cell ones (start_server []) arrivals
            ≡ ret (hangs out)))
serve-keeps_example = serve-keeps one_cell ones [] arrivals arrivals-Fresh
