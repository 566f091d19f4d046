-- ===== src/Tests/Server.antt =====
-- Runs of the authentication and of the dispatcher, and their theorems at concrete inputs.
use zaza.Common.{
  ℕ, suc, ◌≡◌, ◌≤◌, ◌↔◌, refl, arith, ◌⊎◌, inl, inr, true, Bytes, bytes, List, [], ◌∷◌, none, some,
  bytes_eq, bytes_beq, nat_eq, if◌then◌else◌, replicate, lookup, word16, byte_at,
}
use zaza.Common.Decimal.{to_decimal}
use zaza.Common.Checked.{ret}
use zaza.Message.AttrType
use zaza.Message.Types.{
  TurnMessage, Attribute, find_attr, refresh, request, ChannelDataMessage, ChannelDataResult,
}
use zaza.Message.Parser.{parse_channel_data, read_attr_header}
use zaza.Message.Builder.{message_builder, add_attr, build}
use zaza.Message.Encoding.{add_attrs}
use zaza.Transport.Endpoint.{endpoint_key}
use zaza.Allocation.Types.{ChannelBinding, has_permission}
use zaza.Allocation.Manager.{find_by_client, find_by_relay}
use zaza.Auth.Crypto.{OpenSsl, constant_time_compare, long_term_key_md5}
use zaza.Common.Integers.{pos, negsuc}
use zaza.Auth.Stoll.{stoll}
use zaza.Auth.Nonce.{NonceManager, generate_random, is_valid}
use zaza.Auth.HmacValidator.{before_colon, get_password}
use zaza.Auth.LongTermCred.{
  accepted, find_integrity, with_length, verify_at_md5, verify_message_integrity_md5, verify,
  check_password, check_nonce, authenticate,
}
use zaza.Auth.Access.{Proven, authenticate-accepted}
use zaza.Dispatcher.Packet.{
  TurnDispatcher, Moment, Outcome, relay_channel, on_channel_parsed, handle_channel_data, on_packet,
}
use zaza.Dispatcher.Guard.{Authorised, on_packet-Authorised, handle_channel_data_guarded}
use zaza.Dispatcher.Total.{on_packet-total}
use zaza.Accounts.Routes.{TurnConfig, turn_login}
use zaza.Accounts.TurnLogin.{turn_login-authenticate}
use zaza.Tests.Allocation.{one_cell, client, peer, relaying}

stoll_test :
    (stoll (bytes " +42x") ≡ some (pos 42))
    × (stoll (bytes "-7") ≡ some (negsuc 6))
    × (stoll (bytes "a") ≡ none)
    × (stoll (bytes "9223372036854775808") ≡ none)
unfolding stoll
stoll_test = (refl, refl, refl, refl)

-- Digests for the tests: every MAC is twenty ones, and two buffers are compared byte by byte.
abbrev pub ones : OpenSsl
ones = record {
  hmac_sha1 = λ key text. replicate 20 1;
  hmac_sha256 = λ key text. replicate 32 1;
  sha256 = λ text. text;
  md5 = λ text. text;
  base64_encode = λ text. text;
  memcmp = λ a b. if bytes_beq a b then 0 else 1;
}

abbrev nonces : NonceManager
nonces = record { ttl = 3600; store = (bytes "n", 500) ∷ [] }

abbrev tid : Bytes
tid = replicate 12 7

abbrev attributes : List Attribute
attributes =
    record { type = AttrType.username; value = bytes "900:alice" }
    ∷ record { type = AttrType.realm; value = bytes "realm" }
    ∷ record { type = AttrType.nonce; value = bytes "n" }
    ∷ record { type = AttrType.message_integrity; value = replicate 20 1 }
    ∷ []

-- A Refresh request of the user 900:alice.
abbrev refreshing : TurnMessage
refreshing = record {
  msg_class = request;
  method = refresh;
  body_length = 60;
  transaction_id = tid;
  attributes = attributes;
}

abbrev pub raw : Bytes
unfolding build add_attr message_builder
raw = build (add_attrs (message_builder refresh request tid) attributes)

accepted_run :
    authenticate ones (bytes "realm") (bytes "key") nonces 400 899 refreshing raw [] ≡ ret accepted
unfolding authenticate check_nonce check_password find_attr is_valid before_colon stoll get_password
    verify verify_message_integrity_md5 find_integrity verify_at_md5 with_length
    constant_time_compare long_term_key_md5 read_attr_header build add_attr message_builder
    add_attrs word16 byte_at
accepted_run = refl

authenticate-accepted_example :
    (username : Attribute) × (nonce : Attribute) × (find_attr refreshing AttrType.username
      ≡ some username)
    × (find_attr refreshing AttrType.nonce ≡ some nonce)
    × Proven ones
        (bytes "realm")
        (bytes "key")
        nonces
        400
        899
        refreshing
        raw
        username.value
        nonce.value
        []
authenticate-accepted_example =
    authenticate-accepted ones (bytes "realm") (bytes "key") nonces 400 899 refreshing raw [] refl
      accepted_run

-- The settings with which the backend makes the name 900:alice at the time 300.
abbrev settings : TurnConfig
settings = record {
  host = bytes "turn.example";
  port_plain = 3478;
  port_tls = 5349;
  shared_secret = bytes "key";
  ttl = 600;
}

turn_login-authenticate_example :
    (authenticate ones (bytes "realm") (bytes "key") nonces 400 899 refreshing raw []
      ≡ ret accepted)
    ↔ ((899 ≤ 900)
        × (verify ones
              (bytes "realm")
              refreshing
              raw
              (turn_login ones settings 300 (bytes "alice")).0
              (turn_login ones settings 300 (bytes "alice")).1
            ≡ ret true))
unfolding find_attr is_valid turn_login to_decimal
turn_login-authenticate_example =
    turn_login-authenticate ones settings 300 (bytes "alice") (bytes "realm") nonces 400 899
      refreshing raw [] (record { type = AttrType.username; value = bytes "900:alice" })
      (record { type = AttrType.realm; value = bytes "realm" })
      (record { type = AttrType.nonce; value = bytes "n" }) (omega arith) (ground arith) refl refl
      refl refl refl refl refl (inr (inl refl))

abbrev pub server : TurnDispatcher
server = record {
  realm = bytes "realm";
  shared_secret = bytes "key";
  nonces = nonces;
  allocations = relaying;
}

abbrev pub moment : Moment
moment = record {
  steady = 300;
  system = 899;
  nonce_fuel = suc 0;
  nonce_draws = λ i. i ∷ [];
  port_draws = λ i. 5;
}

on_packet-total_example : (o : Outcome) × (on_packet one_cell ones server moment raw client ≡ ret o)
unfolding generate_random
on_packet-total_example = on_packet-total one_cell ones server moment raw client 0 refl refl

abbrev handled : (o : Outcome) × (on_packet one_cell ones server moment raw client ≡ ret o)
unfolding generate_random
handled = on_packet-total one_cell ones server moment raw client 0 refl refl

on_packet-Authorised_example :
    (handled.0.0.allocations ≡ relaying)
    ⊎ Authorised one_cell ones server moment raw client handled.0.0.allocations
on_packet-Authorised_example =
    on_packet-Authorised one_cell ones server handled.0.0 moment raw client handled.0.1 handled.1

-- A message of two bytes on the channel 0x4001.
abbrev frame : Bytes
frame = 0x40 ∷ 0x01 ∷ 0 ∷ 2 ∷ bytes "hi"

channel_run :
    handle_channel_data one_cell ones server 300 frame client ≡ ret ((bytes "hi", peer) ∷ [])
unfolding handle_channel_data on_channel_parsed relay_channel parse_channel_data find_by_client
    find_by_relay has_permission endpoint_key to_decimal word16
channel_run = refl

handle_channel_data_guarded_example :
    (ch : ChannelDataMessage) × (parse_channel_data frame ≡ ret (ChannelDataResult.ok ch))
    × ((ref : ℕ) × (binding : ChannelBinding) × (find_by_client relaying client ≡ some ref)
        × (lookup ch.channel_number (relaying.heap ref).channels ≡ some binding)
        × (has_permission (relaying.heap ref) binding.peer.address 300 ≡ true))
handle_channel_data_guarded_example =
    handle_channel_data_guarded one_cell ones server 300 frame client ((bytes "hi", peer) ∷ [])
      channel_run (ground arith)
