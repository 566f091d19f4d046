-- ===== src/Dispatcher/Packet.antt =====
-- turn_server/src/core/turn_dispatcher.cpp. What is sent is returned as a list of packets with
-- their receivers, in the order of the calls of `send`; both callbacks of the manager send on the
-- transport that the packet came from. The log lines are left out.
use zaza.Common.{
  ℕ, ◌+◌, ◌-◌, ◌%◌, ◌^◌, bit_and, Bool, true, false, not, Bytes, bytes, List, [], ◌∷◌, ◌++◌, Option,
  none, some, ltb, ◌==◌, same, bytes_eq, nat_eq, if◌then◌else◌, length, replicate, word16, map, Map,
  lookup,
}
use zaza.Common.Checked.{Checked, ret, ◌>>=◌, read}
use zaza.Message.AttrType
use zaza.Message.Types.{
  TurnMessage, Attribute, find_attr, error_response, request, indication, success_response, Method,
  allocate, refresh, send, data_method, create_permission, channel_bind, unknown, ParseResult,
  ChannelDataMessage, ChannelDataResult,
}
use zaza.Message.Parser.{parse, parse_channel_data, decode_class}
use zaza.Message.Builder.{
  message_builder, add_error_code, add_attr, build, make_error, make_channel_data,
  make_data_indication,
}
use zaza.Transport.Endpoint.{Endpoint, endpoint_eq}
use zaza.Allocation.Types.{Allocation, ChannelBinding, has_permission}
use zaza.Allocation.Denied.{AddressV4}
use zaza.Allocation.Manager.{
  AllocationManager, allocation_manager, set_client_send_callback, set_peer_send_callback,
  find_by_client, find_by_relay,
}
use zaza.Allocation.Handlers.{
  handle_allocate, handle_refresh, handle_create_permission, handle_channel_bind, Reply,
}
use zaza.Allocation.Relay.{Sent, to_client, to_peer, handle_send}
use zaza.Auth.Crypto.{OpenSsl, long_term_key_md5}
use zaza.Auth.Nonce.{NonceManager, generate}
use zaza.Auth.HmacValidator.{get_password}
use zaza.Auth.LongTermCred.{
  AuthResult, accepted, missing_credentials, stale_nonce, bad_integrity, wrong_credentials,
  credentials_expired, is_indication, is_allocate, with_length, authenticate,
}

pub record TurnDispatcher : Type 0 where
  pub realm : Bytes
  pub shared_secret : Bytes
  pub nonces : NonceManager
  pub allocations : AllocationManager

-- The constructor. The allocation manager takes its limit for a user by default.
unfoldable pub turn_dispatcher : Bytes → Bytes → Bytes → ℕ → ℕ → ℕ → TurnDispatcher
unfolding allocation_manager set_client_send_callback set_peer_send_callback
turn_dispatcher realm shared_secret relay_address relay_port_min relay_port_max max_alloc_per_user =
    record {
      realm = realm;
      shared_secret = shared_secret;
      nonces = record { ttl = 3600; store = [] };
      allocations = set_peer_send_callback (
          set_client_send_callback
            (allocation_manager relay_address relay_port_min relay_port_max max_alloc_per_user));
    }

-- When a packet comes, in seconds on the two clocks, and what the random generators give then.
pub record Moment : Type 0 where
  pub steady : ℕ
  pub system : ℕ
  pub nonce_fuel : ℕ
  pub nonce_draws : ℕ → Bytes
  pub port_draws : ℕ → ℕ

abbrev pub Outcome : Type 0
Outcome = TurnDispatcher × List (Bytes × Endpoint)

abbrev pub on_wire : Sent → Bytes × Endpoint
on_wire (to_client payload to) = (payload, to)
on_wire (to_peer payload to) = (payload, to)

-- The value of an attribute, or no bytes.
abbrev pub value_or_empty : Option Attribute → Bytes
value_or_empty none = []
value_or_empty (some a) = a.value

abbrev pub is_send : Method → Bool
is_send send = true
is_send allocate = false
is_send refresh = false
is_send data_method = false
is_send create_permission = false
is_send channel_bind = false
is_send unknown = false

module _ (lib : AddressV4) (ssl : OpenSsl) where
  unfoldable pub sign_response : TurnDispatcher → Bytes → Bytes → Bytes → Checked Bytes
  unfolding with_length long_term_key_md5
  sign_response d resp username password =
      if ltb (length resp) 20
      then ret resp
      else (read resp 0 >>= λ b0. read resp 1 >>= λ b1. elim (decode_class (word16 b0 b1)) [
        | request ↦ ret resp
        | indication ↦ ret resp
        | error_response ↦ ret resp
        | success_response ↦
            let adjusted_len = (length resp - 20 + 4 + 20) % 2 ^ 16 in
            let key = long_term_key_md5 ssl username d.realm password in
            let mi = ssl.hmac_sha1 key (with_length resp adjusted_len) in
            ret (with_length resp adjusted_len ++ ((0x00 ∷ 0x08 ∷ 0x00 ∷ 0x14 ∷ []) ++ mi))
      ])

  -- An error response with a new nonce.
  unfoldable pub challenge :
      TurnDispatcher → Moment → TurnMessage → Endpoint → ℕ → Bytes → Checked Outcome
  challenge d t msg client code reason =
      generate d.nonces t.nonce_fuel t.nonce_draws t.steady >>= λ (made : NonceManager × Bytes).
      let error =
        add_error_code (message_builder msg.method error_response msg.transaction_id) code reason in
      let resp = build (add_attr (add_attr error AttrType.realm d.realm) AttrType.nonce made.1) in
      ret (record d { nonces = made.0 }, (resp, client) ∷ [])

  -- The name of the user who has the client's allocation, but for Allocate requests.
  unfoldable pub allocated_username : TurnDispatcher → TurnMessage → Endpoint → Bytes
  allocated_username d msg client =
      if is_allocate msg.method then [] else elim (find_by_client d.allocations client) [
        | none ↦ []
        | some ref ↦ (d.allocations.heap ref).username
      ]

  -- The `switch` on the method of an accepted request.
  unfoldable pub handle_method :
      TurnDispatcher → Moment → TurnMessage → Endpoint → Bytes → Method → Reply
  handle_method d t msg client username allocate =
      handle_allocate lib d.allocations t.port_draws t.steady msg client username d.realm
  handle_method d t msg client username refresh =
      handle_refresh d.allocations t.steady msg client username
  handle_method d t msg client username create_permission =
      handle_create_permission lib d.allocations t.steady msg client
  handle_method d t msg client username channel_bind =
      handle_channel_bind lib d.allocations t.steady msg client
  handle_method d t msg client username send =
      (d.allocations, make_error msg.transaction_id 400 (bytes "Bad Request"))
  handle_method d t msg client username data_method =
      (d.allocations, make_error msg.transaction_id 400 (bytes "Bad Request"))
  handle_method d t msg client username unknown =
      (d.allocations, make_error msg.transaction_id 400 (bytes "Bad Request"))

  -- From the accepted authentication on.
  unfoldable pub handle_request : TurnDispatcher → Moment → TurnMessage → Endpoint → Checked Outcome
  unfolding sign_response handle_method
  handle_request d t msg client =
      let username = value_or_empty (find_attr msg AttrType.username) in
      let password = get_password ssl d.shared_secret username in
      let reply = handle_method d t msg client username msg.method in
      let d' : TurnDispatcher = record d { allocations = reply.0 } in
      if same reply.1 []
      then ret (d', [])
      else (sign_response d reply.1 username password >>= λ signed. ret (d', (signed, client) ∷ []))

  unfoldable pub answer :
      TurnDispatcher → Moment → TurnMessage → Endpoint → AuthResult → Checked Outcome
  unfolding challenge handle_request
  answer d t msg client missing_credentials = challenge d t msg client 401 (bytes "Unauthorized")
  answer d t msg client stale_nonce = challenge d t msg client 438 (bytes "Stale Nonce")
  answer d t msg client bad_integrity = challenge d t msg client 401 (bytes "Unauthorized")
  answer d t msg client credentials_expired = challenge d t msg client 401 (bytes "Unauthorized")
  answer d t msg client wrong_credentials =
      ret (d, (make_error msg.transaction_id 441 (bytes "Wrong Credentials"), client) ∷ [])
  answer d t msg client accepted = handle_request d t msg client

  unfoldable pub handle_stun :
      TurnDispatcher → Moment → TurnMessage → Bytes → Endpoint → Checked Outcome
  unfolding answer allocated_username
  handle_stun d t msg raw client =
      if is_indication msg.msg_class
      then ret (
        d,
        if is_send msg.method
            then map on_wire (handle_send lib d.allocations t.steady msg client)
            else [],
      )
      else (authenticate ssl d.realm d.shared_secret d.nonces t.steady t.system msg raw
            (allocated_username d msg client)
          >>= λ result. answer d t msg client result)

  -- The channel that another client has for an endpoint, or 0.
  unfoldable pub channel_to : Map ℕ ChannelBinding → Endpoint → ℕ
  channel_to [] relayed = 0
  channel_to ((num, bind) ∷ rest) relayed =
      if same bind.peer relayed then num else channel_to rest relayed

  -- The data as the client of the peer's allocation gets it: in its own channel, if it has one.
  unfoldable pub forward : Allocation → Allocation → Bytes → List (Bytes × Endpoint)
  unfolding channel_to
  forward a peer_alloc payload =
      let peer_channel = channel_to peer_alloc.channels a.relayed_addr in
      if not (peer_channel == 0)
      then (make_channel_data peer_channel payload, peer_alloc.client_addr) ∷ []
      else elim (lib.make_address_v4 a.relayed_addr.address) [
        | none ↦ []
        | some relay ↦
            (
              make_data_indication (replicate 12 0) relay a.relayed_addr.port payload,
              peer_alloc.client_addr,
            )
            ∷ []
      ]

  -- `handleChannelData` behind the parser.
  unfoldable pub relay_channel :
      TurnDispatcher → ℕ → ChannelDataMessage → Endpoint → List (Bytes × Endpoint)
  unfolding forward
  relay_channel d now ch client = elim (find_by_client d.allocations client) [
    | none ↦ []
    | some ref ↦ elim (lookup ch.channel_number (d.allocations.heap ref).channels) [
      | none ↦ []
      | some binding ↦
          if not (has_permission (d.allocations.heap ref) binding.peer.address now)
          then []
          else elim (find_by_relay d.allocations binding.peer) [
            | some peer_ref ↦
                forward (d.allocations.heap ref) (d.allocations.heap peer_ref) ch.payload
            | none ↦ (ch.payload, binding.peer) ∷ []
          ]
    ]
  ]

  unfoldable pub on_channel_parsed :
      TurnDispatcher → ℕ → Endpoint → ChannelDataResult → List (Bytes × Endpoint)
  unfolding relay_channel
  on_channel_parsed d now client (ChannelDataResult.ok ch) = relay_channel d now ch client
  on_channel_parsed d now client ChannelDataResult.too_short = []
  on_channel_parsed d now client ChannelDataResult.invalid_channel = []

  unfoldable pub handle_channel_data :
      TurnDispatcher → ℕ → Bytes → Endpoint → Checked (List (Bytes × Endpoint))
  unfolding on_channel_parsed
  handle_channel_data d now buf client =
      parse_channel_data buf >>= λ result. ret (on_channel_parsed d now client result)

  unfoldable pub on_parsed :
      TurnDispatcher → Moment → Bytes → Endpoint → ParseResult → Checked Outcome
  unfolding handle_stun
  on_parsed d t buf client (ParseResult.ok msg) = handle_stun d t msg buf client
  on_parsed d t buf client ParseResult.too_short = ret (d, [])
  on_parsed d t buf client ParseResult.bad_magic_cookie = ret (d, [])
  on_parsed d t buf client ParseResult.bad_length = ret (d, [])
  on_parsed d t buf client ParseResult.not_turn_message = ret (d, [])

  unfoldable pub on_packet : TurnDispatcher → Moment → Bytes → Endpoint → Checked Outcome
  unfolding on_parsed handle_channel_data
  on_packet d t buf client =
      if length buf == 0
      then ret (d, [])
      else (read buf 0 >>= λ b0.
          if bit_and b0 0xC0 == 0x40
          then (handle_channel_data d t.steady buf client >>= λ out. ret (d, out))
          else if bit_and b0 0xC0 == 0x00
          then (parse buf >>= λ result. on_parsed d t buf client result)
          else ret (d, []))
