-- ===== src/Tests/Allocation.antt =====
-- A relay with one client, and the theorems about allocations at concrete inputs.
use zaza.Common.{nat_eq, bytes_eq, word16, word32, byte_at, none, some}
use zaza.Common.Decimal.{to_decimal}
use zaza.Message.Types.{find_attr}
use zaza.Message.Builder.{xor_address}
use zaza.Message.XorCodec.{xor_port, xor_addr_v4}
use zaza.Transport.Endpoint.{endpoint_key}
use zaza.Allocation.Types.{Allocation, has_permission}
use zaza.Allocation.Manager.{find_by_relay, peer_ip, peer_port}
use zaza.Allocation.Relay.{Sent, to_peer, handle_send}
use zaza.Allocation.Guard.{MaySend, handle_send_guarded}
use zaza.Common.{
  ◌≡◌, refl, true, Bytes, bytes, List, [], ◌∷◌, none, some, replicate, nat_eq, bytes_eq,
}
use zaza.Message.AttrType
use zaza.Message.Types.{Attribute, TurnMessage, allocate, request}
use zaza.Transport.Endpoint.{Endpoint}
use zaza.Allocation.Denied.{AddressV4}
use zaza.Allocation.Manager.{AllocationManager, allocation_manager}
use zaza.Allocation.Invariant.{Inv}
use zaza.Allocation.Consistency.{Reach-Inv}
use zaza.Allocation.Channels.{Sound, Reach-Sound}
use zaza.Allocation.Steps.{Reach, start, after, step, allocates}

-- An address library for the tests: the text of an address is the number itself.
abbrev pub one_cell : AddressV4
one_cell = record {
  to_string = λ ip. ip ∷ [];
  make_address_v4 = λ text. elim text [ [] ↦ none | ip ∷ rest ↦ some ip ];
}

abbrev pub client : Endpoint
client = record { address = 0xC0A80005 ∷ []; port = 5000 }

abbrev tid : Bytes
tid = replicate 12 7

abbrev message : List Attribute → TurnMessage
message attrs = record {
  msg_class = request;
  method = allocate;
  body_length = 0;
  transaction_id = tid;
  attributes = attrs;
}

abbrev allocate_request : TurnMessage
allocate_request =
    message (record { type = AttrType.requested_transport; value = 17 ∷ 0 ∷ 0 ∷ 0 ∷ [] } ∷ [])

abbrev fresh : AllocationManager
unfolding allocation_manager
fresh = allocation_manager (1 ∷ []) 49152 65535 10

abbrev served : AllocationManager
served =
    step one_cell fresh 100 allocate_request client
      (allocates (λ i. 5) (bytes "alice") (bytes "realm"))

one_step : Reach one_cell fresh served
one_step =
    after start 100 allocate_request client (allocates (λ i. 5) (bytes "alice") (bytes "realm"))

Reach-Inv_example : Inv served
unfolding allocation_manager
Reach-Inv_example = Reach-Inv one_cell (1 ∷ []) 49152 65535 10 one_step

Reach-Sound_example : Sound one_cell (served.heap 1)
unfolding allocation_manager
Reach-Sound_example = Reach-Sound one_cell (1 ∷ []) 49152 65535 10 one_step 1

abbrev refreshing : TurnMessage
refreshing = message (record { type = AttrType.lifetime; value = 0 ∷ 0 ∷ 0 ∷ 0 ∷ [] } ∷ [])

-- One allocation of alice, with a channel and a permission for a peer on the address 0x08080808.
abbrev pub peer : Endpoint
peer = record { address = 0x08080808 ∷ []; port = 9 }

abbrev pub alice : Allocation
alice = record {
  id = 1;
  client_addr = client;
  relayed_addr = record { address = 1 ∷ []; port = 50000 };
  username = bytes "alice";
  realm = bytes "realm";
  expires_at = 700;
  permissions = (0x08080808 ∷ [], record { address = 0x08080808 ∷ []; expires_at = 400 }) ∷ [];
  channels = (0x4001, record { channel_number = 0x4001; peer = peer; expires_at = 700 }) ∷ [];
}

abbrev pub relaying : AllocationManager
unfolding endpoint_key
relaying = record {
  relay_address = 1 ∷ [];
  relay_port_min = 49152;
  relay_port_max = 65535;
  max_alloc_per_user = 10;
  next_id = 2;
  heap = λ _. alice;
  by_client = (endpoint_key client, 1) ∷ [];
  by_relay = (endpoint_key alice.relayed_addr, 1) ∷ [];
  used_ports = (50000, true) ∷ [];
  client_send = true;
  peer_send = true;
}

abbrev peer_value : Bytes
unfolding xor_address
peer_value = xor_address 0x08080808 9

abbrev sending : TurnMessage
sending = message (
    record { type = AttrType.xor_peer_address; value = peer_value }
    ∷ record { type = AttrType.data_value; value = bytes "hi" }
    ∷ [])

sent_out : handle_send one_cell relaying 300 sending client ≡ to_peer (bytes "hi") peer ∷ []
unfolding handle_send endpoint_key to_decimal find_attr has_permission xor_address xor_port
    xor_addr_v4 byte_at find_by_relay peer_ip peer_port word16 word32
sent_out = refl

handle_send_guarded_example :
    MaySend one_cell relaying 300 sending client (to_peer (bytes "hi") peer)
    × (◌≡◌ {A = List Sent} [] [])
handle_send_guarded_example =
    handle_send_guarded one_cell relaying 300 sending client (to_peer (bytes "hi") peer) [] sent_out
