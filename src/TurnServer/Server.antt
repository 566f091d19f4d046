-- ===== src/TurnServer/Server.antt =====
-- turn_server/src/main.cpp: the settings, and the packets that the transports hand to the dispatcher, one after the other,
-- since one thread runs the program. What is sent goes out on the transport that the packet came from. The DTLS transport
-- hands a packet on while it holds the mutex of the sender's session, for which an answer to the sender waits.
use zaza.Common.{
  ℕ, ◌-◌, ◌%◌, ◌^◌, Bool, false, Bytes, bytes, List, [], ◌∷◌, ◌++◌, Map, same, bytes_eq,
  if◌then◌else◌,
}
use zaza.Common.Checked.{Checked, ret, ◌>>=◌}
use zaza.Common.Integers.{ℤ, pos, negsuc}
use zaza.Config.Reader.{get, get_int}
use zaza.Transport.Endpoint.{Endpoint, endpoint_key}
use zaza.Allocation.Denied.{AddressV4}
use zaza.Auth.Crypto.{OpenSsl}
use zaza.Dispatcher.Packet.{TurnDispatcher, Moment, Outcome, turn_dispatcher, on_packet}

-- The conversion of an `int` to `uint16_t`.
abbrev pub to_uint16 : ℤ → ℕ
to_uint16 (pos n) = n % 2 ^ 16
to_uint16 (negsuc n) = 2 ^ 16 - 1 - n % 2 ^ 16

unfoldable pub port_setting : Map Bytes Bytes → Bytes → ℕ → ℕ
unfolding get_int
port_setting data_ key default_val = to_uint16 (get_int data_ key (pos default_val))

-- The dispatcher that `main` makes, with 10 allocations for a user, the default of the allocation manager.
unfoldable pub start_server : Map Bytes Bytes → TurnDispatcher
unfolding get port_setting turn_dispatcher
start_server data_ =
    turn_dispatcher (get data_ (bytes "REALM") (bytes "chat.example.com"))
      (get data_ (bytes "SHARED_SECRET") (bytes "turn_shared_secret"))
      (get data_ (bytes "RELAY_ADDR") (bytes "127.0.0.1"))
      (port_setting data_ (bytes "PORT_MIN") 49152) (port_setting data_ (bytes "PORT_MAX") 65535) 10

pub data Link : Type 0 where
  udp tcp_t tls dtls : Link

-- A packet that a transport hands on, with the times and the draws of that moment.
pub record Arrival : Type 0 where
  pub via : Link
  pub payload : Bytes
  pub from : Endpoint
  pub moment : Moment

-- The server runs on, or its thread waits for a mutex that it holds, with what was sent so far.
pub data Served : Type 0 where
  runs : TurnDispatcher → List (Link × Bytes × Endpoint) → Served
  hangs : List (Link × Bytes × Endpoint) → Served

-- The mutexes that a transport holds while it hands on a packet: that of the sender's session, for DTLS.
abbrev pub is_held : Link → Endpoint → Endpoint → Bool
is_held udp from to = false
is_held tcp_t from to = false
is_held tls from to = false
is_held dtls from to = same (endpoint_key from) (endpoint_key to)

-- The calls of `send`, on the transport of the packet.
unfoldable pub send_out : Link → Endpoint → TurnDispatcher → List (Bytes × Endpoint) → Served
send_out via from d [] = runs d []
send_out via from d ((payload, to) ∷ sent) =
    let later = send_out via from d sent in
    if is_held via from to then hangs [] else elim later [
      | runs d' out ↦ runs d' ((via, payload, to) ∷ out)
      | hangs out ↦ hangs ((via, payload, to) ∷ out)
    ]

abbrev pub behind : List (Link × Bytes × Endpoint) → Served → Served
behind before (runs d out) = runs d (before ++ out)
behind before (hangs out) = hangs (before ++ out)

-- The packets behind one.
abbrev pub go_on : (TurnDispatcher → Checked Served) → Served → Checked Served
go_on rest (runs d out) = rest d >>= λ (later : Served). ret (behind out later)
go_on rest (hangs out) = ret (hangs out)

module _ (lib : AddressV4) (ssl : OpenSsl) where
  -- `make_handler`
  unfoldable pub handle_arrival : TurnDispatcher → Arrival → Checked Served
  unfolding on_packet send_out
  handle_arrival d p = on_packet lib ssl d p.moment p.payload p.from >>= λ (o : Outcome).
      ret (send_out p.via p.from o.0 o.1)

  unfoldable pub serve : TurnDispatcher → List Arrival → Checked Served
  unfolding handle_arrival
  serve d [] = ret (runs d [])
  serve d (p ∷ packets) =
      handle_arrival d p >>= λ (r : Served). go_on (λ (d' : TurnDispatcher). serve d' packets) r
