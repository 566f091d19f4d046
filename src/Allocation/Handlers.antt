-- ===== src/Allocation/Handlers.antt =====
-- allocation/allocation_manager.cpp: the handlers of requests. Each returns the new state and the
-- response. The lock makes each call atomic; the calls of the clock in one handler give one time.
use zaza.Common.{nat_eq, bytes_eq}
use zaza.Common.{
  ℕ, ◌+◌, Bool, true, false, not, ◌||◌, Bytes, bytes, List, [], ◌∷◌, Option, none, some, is_some,
  ltb, leb, ◌==◌, same, if◌then◌else◌, length, Map, lookup, insert, erase, word16,
}
use zaza.Message.AttrType
use zaza.Message.Types.{
  Attribute, TurnMessage, find_attr, allocate, refresh, create_permission, channel_bind,
  success_response,
}
use zaza.Message.Builder.{
  message_builder, add_lifetime, add_xor_mapped_address, add_xor_relayed_address, build, make_error,
}
use zaza.Transport.Endpoint.{Endpoint, endpoint_key, endpoint_beq}
use zaza.Allocation.Types.{
  ChannelBinding, Allocation, k_default_lifetime, k_permission_ttl, k_channel_ttl,
}
use zaza.Allocation.Denied.{AddressV4, is_denied_address}
use zaza.Allocation.Manager.{
  AllocationManager, update, allocate_port, release_port, at, requested_lifetime, peer_ip,
  peer_port, user_count,
}

abbrev pub Reply : Type 0
Reply = AllocationManager × Bytes

-- `ec ? 0 : addr.to_uint()`
abbrev pub uint_or_zero : Option ℕ → ℕ
uint_or_zero none = 0
uint_or_zero (some ip) = ip

-- The lifetime that `handleAllocate` grants.
unfoldable pub granted_lifetime : TurnMessage → ℕ
granted_lifetime msg =
    let lifetime = requested_lifetime msg in if lifetime == 0 then k_default_lifetime else lifetime

-- The object that `handleAllocate` makes.
unfoldable pub new_allocation :
    AllocationManager → ℕ → TurnMessage → Endpoint → Bytes → Bytes → ℕ → Allocation
new_allocation m now msg client username realm relay_port = record {
  id = m.next_id;
  client_addr = client;
  relayed_addr = record { address = m.relay_address; port = relay_port };
  username = username;
  realm = realm;
  expires_at = now + granted_lifetime msg;
  permissions = [];
  channels = [];
}

-- `handleAllocate` once it has a port: both maps get the new object.
unfoldable pub add_allocation : AllocationManager → Allocation → Map ℕ Bool → AllocationManager
add_allocation m a used = record m {
  next_id = m.next_id + 1;
  heap = update m.heap m.next_id a;
  by_client = insert (endpoint_key a.client_addr) m.next_id m.by_client;
  by_relay = insert (endpoint_key a.relayed_addr) m.next_id m.by_relay;
  used_ports = used;
}

unfoldable pub allocate_success : AddressV4 → AllocationManager → TurnMessage → Endpoint → ℕ → Bytes
allocate_success lib m msg client relay_port =
    let relay_ip = uint_or_zero (lib.make_address_v4 m.relay_address) in
    let client_ip = uint_or_zero (lib.make_address_v4 client.address) in
    build (
      add_lifetime
        (add_xor_mapped_address
          (add_xor_relayed_address (message_builder allocate success_response msg.transaction_id)
            relay_ip relay_port)
          client_ip client.port)
        (granted_lifetime msg))

-- `handleAllocate` behind the checks of the request.
unfoldable pub allocate_checked :
    AddressV4 → AllocationManager → (ℕ → ℕ) → ℕ → TurnMessage → Endpoint → Bytes → Bytes → Reply
unfolding new_allocation add_allocation allocate_success
allocate_checked lib m draws now msg client username realm =
    if leb m.max_alloc_per_user (user_count m.heap username m.by_client)
    then (m, make_error msg.transaction_id 486 (bytes "Allocation Quota Reached"))
    else elim (allocate_port m draws) [
      | none ↦ (m, make_error msg.transaction_id 508 (bytes "Insufficient Capacity"))
      | some (relay_port, used) ↦ (
        add_allocation m (new_allocation m now msg client username realm relay_port) used,
        allocate_success lib m msg client relay_port,
      )
    ]

-- The transport must be UDP, protocol 17.
unfoldable pub handle_allocate :
    AddressV4 → AllocationManager → (ℕ → ℕ) → ℕ → TurnMessage → Endpoint → Bytes → Bytes → Reply
unfolding allocate_checked
handle_allocate lib m draws now msg client username realm =
    if is_some (lookup (endpoint_key client) m.by_client)
    then (m, make_error msg.transaction_id 437 (bytes "Allocation Mismatch"))
    else elim (find_attr msg AttrType.requested_transport) [
      | none ↦ (m, make_error msg.transaction_id 400 (bytes "Bad Request"))
      | some rt ↦
          if ltb (length rt.value) 4 || not (at rt.value 0 == 17)
          then (m, make_error msg.transaction_id 442 (bytes "Unsupported Transport Protocol"))
          else allocate_checked lib m draws now msg client username realm
    ]

-- The `Refresh` response with a lifetime.
unfoldable pub refresh_success : TurnMessage → ℕ → Bytes
refresh_success msg lifetime =
    build (add_lifetime (message_builder refresh success_response msg.transaction_id) lifetime)

-- A lifetime of 0 deletes: the relay key, the port, and the client key.
unfoldable pub delete_allocation : AllocationManager → Endpoint → ℕ → AllocationManager
unfolding release_port
delete_allocation m client ref =
    let relayed = (m.heap ref).relayed_addr in
    let m1 = record m { by_relay = erase (endpoint_key relayed) m.by_relay } in
    let m2 = release_port m1 relayed.port in
    record m2 { by_client = erase (endpoint_key client) m2.by_client }

unfoldable pub set_expiry : AllocationManager → ℕ → ℕ → AllocationManager
set_expiry m ref expires = record m {
  heap = update m.heap ref (record (m.heap ref) { expires_at = expires });
}

unfoldable pub handle_refresh : AllocationManager → ℕ → TurnMessage → Endpoint → Bytes → Reply
unfolding delete_allocation set_expiry refresh_success
handle_refresh m now msg client username = elim (lookup (endpoint_key client) m.by_client) [
  | none ↦ (m, make_error msg.transaction_id 437 (bytes "Allocation Mismatch"))
  | some ref ↦
      if not (same (m.heap ref).username username)
      then (m, make_error msg.transaction_id 441 (bytes "Wrong Credentials"))
      else let lifetime = requested_lifetime msg in
        if lifetime == 0
        then (delete_allocation m client ref, refresh_success msg 0)
        else (set_expiry m ref (now + lifetime), refresh_success msg lifetime)
]

-- `alloc->permissions[address] = perm`
unfoldable pub permit : Allocation → Bytes → ℕ → Allocation
permit a address now = record a {
  permissions =
      insert address (record { address = address; expires_at = now + k_permission_ttl })
        a.permissions;
}

-- How the loop of `handleCreatePermission` leaves: at a denied address, or at its end.
pub data PermissionOutcome : Type 0 where
  denied : PermissionOutcome
  finished : Bool → PermissionOutcome

-- `found` is `found_peer`. A permission given before a denied address stays.
unfoldable pub permission_loop :
    AddressV4 → ℕ → List Attribute → Allocation → Bool → Allocation × PermissionOutcome
permission_loop lib now [] a found = (a, finished found)
permission_loop lib now (attr ∷ rest) a found =
    let skip = permission_loop lib now rest a found in
    let address = lib.to_string (peer_ip attr.value) in
    let next = permission_loop lib now rest (permit a address now) true in
    if not (attr.type == AttrType.xor_peer_address)
    then skip
    else if ltb (length attr.value) 8
    then skip
    else if is_denied_address lib address
    then (a, denied)
    else next

permission_response : TurnMessage → PermissionOutcome → Bytes
permission_response msg denied = make_error msg.transaction_id 403 (bytes "Forbidden")
permission_response msg (finished false) = make_error msg.transaction_id 400 (bytes "Bad Request")
permission_response msg (finished true) =
    build (message_builder create_permission success_response msg.transaction_id)

unfoldable pub handle_create_permission :
    AddressV4 → AllocationManager → ℕ → TurnMessage → Endpoint → Reply
unfolding permission_loop permission_response
handle_create_permission lib m now msg client = elim (lookup (endpoint_key client) m.by_client) [
  | none ↦ (m, make_error msg.transaction_id 437 (bytes "Allocation Mismatch"))
  | some ref ↦
      let (a, outcome) = permission_loop lib now msg.attributes (m.heap ref) false in
      (record m { heap = update m.heap ref a }, permission_response msg outcome)
]

-- The channel is bound to another peer already.
unfoldable pub bound_elsewhere : Map ℕ ChannelBinding → ℕ → Endpoint → Bool
bound_elsewhere channels channel peer = elim (lookup channel channels) [
  | none ↦ false
  | some ch ↦ not (endpoint_beq ch.peer peer)
]

-- The peer has another channel already.
unfoldable pub peer_bound : Map ℕ ChannelBinding → ℕ → Endpoint → Bool
peer_bound [] channel peer = false
peer_bound ((num, ch) ∷ rest) channel peer =
    if num == channel
    then peer_bound rest channel peer
    else if endpoint_beq ch.peer peer
    then true
    else peer_bound rest channel peer

-- `alloc->channels[channel_num] = binding`, and the permission for the peer.
unfoldable pub bind_channel : Allocation → ℕ → Endpoint → ℕ → Allocation
unfolding permit
bind_channel a channel peer now =
    permit
      (record a {
        channels =
            insert channel
              (record { channel_number = channel; peer = peer; expires_at = now + k_channel_ttl })
              a.channels;
      })
      peer.address now

-- `handleChannelBind` for a channel number and a peer read from the request.
unfoldable pub bind_checked :
    AddressV4 → AllocationManager → ℕ → TurnMessage → ℕ → ℕ → Endpoint → Reply
unfolding bound_elsewhere peer_bound bind_channel
bind_checked lib m now msg ref channel peer =
    let bad = make_error msg.transaction_id 400 (bytes "Bad Request") in
    if is_denied_address lib peer.address
    then (m, make_error msg.transaction_id 403 (bytes "Forbidden"))
    else if bound_elsewhere (m.heap ref).channels channel peer
    then (m, bad)
    else if peer_bound (m.heap ref).channels channel peer
    then (m, bad)
    else (
      record m { heap = update m.heap ref (bind_channel (m.heap ref) channel peer now) },
      build (message_builder channel_bind success_response msg.transaction_id),
    )

-- The peer in the value of an XOR-PEER-ADDRESS attribute.
unfoldable pub peer_of : AddressV4 → Bytes → Endpoint
peer_of lib value = record { address = lib.to_string (peer_ip value); port = peer_port value }

-- With both attributes present.
unfoldable pub bind_attributes :
    AddressV4 → AllocationManager → ℕ → TurnMessage → ℕ → Bytes → Bytes → Reply
unfolding bind_checked peer_of
bind_attributes lib m now msg ref ch_value peer_value =
    let bad = make_error msg.transaction_id 400 (bytes "Bad Request") in
    let channel = word16 (at ch_value 0) (at ch_value 1) in
    let peer = peer_of lib peer_value in
    if ltb (length ch_value) 2 || ltb (length peer_value) 8
    then (m, bad)
    else if ltb channel 0x4000 || ltb 0x4FFF channel
    then (m, bad)
    else bind_checked lib m now msg ref channel peer

unfoldable pub handle_channel_bind :
    AddressV4 → AllocationManager → ℕ → TurnMessage → Endpoint → Reply
unfolding bind_attributes
handle_channel_bind lib m now msg client = elim (lookup (endpoint_key client) m.by_client) [
  | none ↦ (m, make_error msg.transaction_id 437 (bytes "Allocation Mismatch"))
  | some ref ↦ elim (find_attr msg AttrType.channel_number) [
    | none ↦ (m, make_error msg.transaction_id 400 (bytes "Bad Request"))
    | some ch_attr ↦ elim (find_attr msg AttrType.xor_peer_address) [
      | none ↦ (m, make_error msg.transaction_id 400 (bytes "Bad Request"))
      | some peer_attr ↦ bind_attributes lib m now msg ref ch_attr.value peer_attr.value
    ]
  ]
]
