-- ===== src/Allocation/Guard.antt =====
-- What the relay lets through, and the ends of an allocation's life.
use zaza.Common.{
  ℕ, ◌≤◌, ◌≡◌, refl, inl, inr, arith, true, Bytes, List, [], ◌∷◌, none, some, ◌==◌, length,
  replicate, ◌⊎◌, same, lookup, lookup-erase-same, bytes_eq, nat_eq, bytes_beq_iff, bytes_beq_refl,
  Option-cases,
}
use zaza.Message.AttrType
use zaza.Message.Types.{Attribute, TurnMessage, find_attr}
use zaza.Message.Builder.{make_data_indication}
use zaza.Transport.Endpoint.{Endpoint, endpoint_key}
use zaza.Allocation.Types.{has_permission}
use zaza.Allocation.Denied.{AddressV4}
use zaza.Allocation.Manager.{AllocationManager, find_by_client, find_by_relay, requested_lifetime}
use zaza.Allocation.Handlers.{
  uint_or_zero, peer_of, delete_allocation, refresh_success, handle_refresh,
}
use zaza.Allocation.Relay.{
  Sent, to_client, to_peer, send_to, send_peer, handle_send, wrap_for, handle_peer_data,
}

-- The payload comes to the peer: as it is, or, where the peer is the relay address of an allocation,
-- in a Data indication from the sender's relay address, for the client of that allocation.
unfoldable pub IsForPeer :
    AddressV4
    → AllocationManager
    → (ref : ℕ) → (peer : Endpoint) → (payload : Bytes) → Sent
    → Type 0
IsForPeer lib m ref peer payload s =
    let relay_addr = (m.heap ref).relayed_addr in
    let relay_ip = uint_or_zero (lib.make_address_v4 relay_addr.address) in
    ((find_by_relay m peer ≡ none) × (s ≡ to_peer payload peer))
    ⊎ ((peer_ref : ℕ) × (find_by_relay m peer ≡ some peer_ref)
        × (s
            ≡ to_client (make_data_indication (replicate 12 0) relay_ip relay_addr.port payload)
                (m.heap peer_ref).client_addr))

-- What a packet of `handleSend` rests on, and what it is.
pub record MaySend (lib : AddressV4) (m : AllocationManager) (now : ℕ) (msg : TurnMessage)
    (client : Endpoint) (s : Sent) : Type 0 where
  pub ref : ℕ
  pub attr : Attribute
  pub data_attr : Attribute
  pub allocated : lookup (endpoint_key client) m.by_client ≡ some ref
  pub addressed : find_attr msg AttrType.xor_peer_address ≡ some attr
  pub long_enough : 8 ≤ length attr.value
  pub permitted : has_permission (m.heap ref) (peer_of lib attr.value).address now ≡ true
  pub has_data : find_attr msg AttrType.data_value ≡ some data_attr
  pub delivered : IsForPeer lib m ref (peer_of lib attr.value) data_attr.value s

send_to-IsForPeer :
    (lib : AddressV4) (m : AllocationManager) (ref : ℕ) (peer : Endpoint) (payload : Bytes)
    (s : Sent) (rest : List Sent)
    → send_to lib m ref peer payload ≡ s ∷ rest
    → IsForPeer lib m ref peer payload s × (rest ≡ [])
unfolding send_to IsForPeer
send_to-IsForPeer lib m ref peer payload s rest e = elim (Option-cases (find_by_relay m peer)) [
  | inl absent ↦ let sent = rw (absent, send_to) at e in (inl (absent, ground arith), ground arith)
  | inr (peer_ref, found) ↦
      let sent = rw (found, send_to) at e in (inr (peer_ref, found, ground arith), ground arith)
]

send_peer_guarded :
    (lib : AddressV4) (m : AllocationManager) (now : ℕ) (msg : TurnMessage) (ref : ℕ)
    (value : Bytes) (s : Sent) (rest : List Sent)
    → send_peer lib m now msg ref value ≡ s ∷ rest
    → (8 ≤ length value)
      × (has_permission (m.heap ref) (peer_of lib value).address now ≡ true)
      × (d : Attribute) × (find_attr msg AttrType.data_value ≡ some d)
      × IsForPeer lib m ref (peer_of lib value) d.value s
      × (rest ≡ [])
unfolding send_peer
send_peer_guarded lib m now msg ref value s rest sent =
    elim (Option-cases (find_attr msg AttrType.data_value)) [
      | inl no_data ↦ absurd (ground arith)
      | inr (d, e) ↦
          let (delivered, one) =
            send_to-IsForPeer lib m ref (peer_of lib value) d.value s rest (ground arith) in
          (ground arith, ground arith, d, e, delivered, one)
    ]

-- `handleSend` sends at most one packet, and only for a client with an allocation that has an
-- unexpired permission for the address of the peer that the message names. The packet is the data
-- of the message, and goes to that peer; where the peer is the relay address of an allocation, it
-- goes to the client of that allocation, in a Data indication from the sender's relay address.
pub handle_send_guarded :
    (lib : AddressV4) (m : AllocationManager) (now : ℕ) (msg : TurnMessage) (client : Endpoint)
    (s : Sent) (rest : List Sent)
    → handle_send lib m now msg client ≡ s ∷ rest
    → MaySend lib m now msg client s × (rest ≡ [])
unfolding handle_send
handle_send_guarded lib m now msg client s rest sent =
    elim (Option-cases (lookup (endpoint_key client) m.by_client)) [
      | inl absent ↦ absurd (cc (rw (absent, handle_send) at sent))
      | inr (ref, e) ↦ elim (Option-cases (find_attr msg AttrType.xor_peer_address)) [
        | inl no_peer ↦ absurd (cc (rw (e, no_peer, handle_send) at sent))
        | inr (attr, e1) ↦
            let (long, ok, d, has_data, delivered, one) =
              send_peer_guarded lib m now msg ref attr.value s rest
                (rw (e, e1, handle_send) at sent) in
            (
              record {
                ref = ref;
                attr = attr;
                data_attr = d;
                allocated = e;
                addressed = e1;
                long_enough = long;
                permitted = ok;
                has_data = has_data;
                delivered = delivered;
              },
              one,
            )
      ]
    ]

-- `handlePeerData` hands on at most one packet, to the client of the allocation whose relay
-- address it came to, and only with an unexpired permission for the sender's address.
pub handle_peer_data_guarded :
    (lib : AddressV4) (m : AllocationManager) (now : ℕ) (payload : Bytes)
    (peer relay_addr : Endpoint) (s : Sent) (rest : List Sent)
    → handle_peer_data lib m now payload peer relay_addr ≡ s ∷ rest
    → (ref : ℕ) × (find_by_relay m relay_addr ≡ some ref)
      × (has_permission (m.heap ref) peer.address now ≡ true)
      × (s ≡ to_client (wrap_for lib (m.heap ref) now peer payload) (m.heap ref).client_addr)
      × (rest ≡ [])
unfolding handle_peer_data
handle_peer_data_guarded lib m now payload peer relay_addr s rest sent =
    elim (Option-cases (find_by_relay m relay_addr)) [
      | inl absent ↦ absurd (cc (rw (absent, handle_peer_data) at sent))
      | inr (ref, e) ↦
          let sent' = rw (e, handle_peer_data) at sent in
          let ok : has_permission (m.heap ref) peer.address now ≡ true = ground arith in
          let out = rw ok at sent' in (ref, e, ok, ground arith, ground arith)
    ]

-- A Refresh with lifetime 0 from the user of an allocation deletes it: the response says
-- lifetime 0, neither map finds the allocation any more, and its port is free again.
pub handle_refresh_zero :
    (m : AllocationManager) (now : ℕ) (msg : TurnMessage) (client : Endpoint) (username : Bytes)
    (ref : ℕ)
    → find_by_client m client ≡ some ref
    → (m.heap ref).username ≡ username
    → requested_lifetime msg ≡ 0
    → let r = handle_refresh m now msg client username in
      (r.1 ≡ refresh_success msg 0)
      × (find_by_client r.0 client ≡ none)
      × (find_by_relay r.0 (m.heap ref).relayed_addr ≡ none)
      × (lookup (m.heap ref).relayed_addr.port r.0.used_ports ≡ none)
unfolding handle_refresh delete_allocation find_by_client find_by_relay
handle_refresh_zero m now msg client username ref e u z =
    let right : same (m.heap ref).username username ≡ true = (bytes_beq_iff _ _).1 u in
    let client_same : same (endpoint_key client) (endpoint_key client) ≡ true =
      bytes_beq_refl (endpoint_key client) in
    let relay_same : same (endpoint_key (m.heap ref).relayed_addr)
          (endpoint_key (m.heap ref).relayed_addr)
        ≡ true =
      bytes_beq_refl (endpoint_key (m.heap ref).relayed_addr) in
    let port_same : ((m.heap ref).relayed_addr.port == (m.heap ref).relayed_addr.port) ≡ true =
      ground arith in
    rw (e, right, z, handle_refresh)
      (
        refl,
        lookup-erase-same (endpoint_key client) _ m.by_client client_same,
        lookup-erase-same (endpoint_key (m.heap ref).relayed_addr) _ m.by_relay relay_same,
        lookup-erase-same (m.heap ref).relayed_addr.port _ m.used_ports port_same,
      )
