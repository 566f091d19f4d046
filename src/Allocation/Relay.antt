-- ===== src/Allocation/Relay.antt =====
-- allocation/allocation_manager.cpp: the relaying of data, `handleSend` and `handlePeerData`.
-- Both leave the state alone and return what they send.
use zaza.Common.{bytes_eq}
use zaza.Common.{
  ℕ, not, Bytes, List, [], ◌∷◌, none, some, ltb, if◌then◌else◌, length, replicate, lookup,
}
use zaza.Message.AttrType
use zaza.Message.Types.{TurnMessage, find_attr}
use zaza.Message.Builder.{make_data_indication, make_channel_data}
use zaza.Transport.Endpoint.{Endpoint, endpoint_key}
use zaza.Allocation.Types.{Allocation, has_permission, find_channel_by_peer}
use zaza.Allocation.Denied.{AddressV4}
use zaza.Allocation.Manager.{AllocationManager, find_by_relay}
use zaza.Allocation.Handlers.{uint_or_zero, peer_of}

-- A call of `client_send_` or of `peer_send_`.
pub data Sent : Type 0 where
  to_client : Bytes → Endpoint → Sent
  to_peer : Bytes → Endpoint → Sent

abbrev zero_tid : Bytes
zero_tid = replicate 12 0

-- A packet from `sender`, wrapped for the client of an allocation.
data_from : AddressV4 → Endpoint → Bytes → Bytes
data_from lib sender payload =
    make_data_indication zero_tid (uint_or_zero (lib.make_address_v4 sender.address)) sender.port
      payload

-- `handleSend` for a peer that the allocation may send to: to the client of the allocation whose
-- relay address the peer is, or out to the peer.
unfoldable pub send_to : AddressV4 → AllocationManager → ℕ → Endpoint → Bytes → List Sent
unfolding data_from
send_to lib m ref peer payload = elim (find_by_relay m peer) [
  | some peer_ref ↦
      if m.client_send
      then to_client (data_from lib (m.heap ref).relayed_addr payload) (m.heap peer_ref).client_addr
        ∷ []
      else []
  | none ↦ if m.peer_send then to_peer payload peer ∷ [] else []
]

-- `handleSend` with the value of the peer attribute.
unfoldable pub send_peer : AddressV4 → AllocationManager → ℕ → TurnMessage → ℕ → Bytes → List Sent
unfolding send_to peer_of
send_peer lib m now msg ref value =
    let peer = peer_of lib value in
    if ltb (length value) 8
    then []
    else if not (has_permission (m.heap ref) peer.address now)
    then []
    else elim (find_attr msg AttrType.data_value) [
      | none ↦ []
      | some data_attr ↦ send_to lib m ref peer data_attr.value
    ]

unfoldable pub handle_send : AddressV4 → AllocationManager → ℕ → TurnMessage → Endpoint → List Sent
unfolding send_peer
handle_send lib m now msg client = elim (lookup (endpoint_key client) m.by_client) [
  | none ↦ []
  | some ref ↦ elim (find_attr msg AttrType.xor_peer_address) [
    | none ↦ []
    | some peer_attr ↦ send_peer lib m now msg ref peer_attr.value
  ]
]

-- A packet that came to a relay address, in the form that its client expects.
unfoldable pub wrap_for : AddressV4 → Allocation → ℕ → Endpoint → Bytes → Bytes
unfolding data_from
wrap_for lib a now peer payload = elim (find_channel_by_peer a peer now) [
  | some ch ↦ make_channel_data ch.channel_number payload
  | none ↦ data_from lib peer payload
]

unfoldable pub handle_peer_data :
    AddressV4 → AllocationManager → ℕ → Bytes → Endpoint → Endpoint → List Sent
unfolding wrap_for
handle_peer_data lib m now payload peer relay_addr = elim (find_by_relay m relay_addr) [
  | none ↦ []
  | some ref ↦
      if not (has_permission (m.heap ref) peer.address now)
      then []
      else if not m.client_send
      then []
      else to_client (wrap_for lib (m.heap ref) now peer payload) (m.heap ref).client_addr ∷ []
]
