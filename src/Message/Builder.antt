-- ===== src/Message/Builder.antt =====
-- message/builder.cpp. A byte vector is a list; the 16-bit lengths wrap as in the source.
use zaza.Common.{
  ℕ, ◌-◌, ◌*◌, ◌/◌, ◌%◌, ◌^◌, bit_and, bit_or, Bytes, [], ◌∷◌, ◌++◌, ◌==◌, if◌then◌else◌, length,
  take, replicate, byte_at, bytes,
}
use zaza.Message.AttrType.{AttrType}
use zaza.Message.AttrType
use zaza.Message.Types.{
  MessageClass, Method, allocate, data_method, indication, error_response, class_code, method_code,
}
use zaza.Message.XorCodec.{xor_port, xor_addr_v4}

unfoldable pub encode_type : Method → MessageClass → ℕ
encode_type method msg_class =
    let m = method_code method in
    let c = class_code msg_class in
    let m_high = bit_and m 0x0F80 * 2 ^ 2 % 2 ^ 16 in
    let m_mid = bit_and m 0x0070 * 2 ^ 1 % 2 ^ 16 in
    let m_low = bit_and m 0x000F in
    let c_high = bit_and c 0x02 * 2 ^ 7 % 2 ^ 16 in
    let c_low = bit_and c 0x01 * 2 ^ 4 % 2 ^ 16 in
    bit_or (bit_or (bit_or (bit_or m_high c_high) m_mid) c_low) m_low

pub record MessageBuilder : Type 0 where
  pub msg_type : ℕ
  pub transaction_id : Bytes
  pub attrs_buf : Bytes

-- The constructor.
unfoldable pub message_builder : Method → MessageClass → Bytes → MessageBuilder
message_builder method msg_class tid = record {
  msg_type = encode_type method msg_class;
  transaction_id = tid;
  attrs_buf = [];
}

-- The padding behind `len` bytes.
abbrev pub pad : ℕ → Bytes
pad len = if len % 4 == 0 then [] else replicate (4 - len % 4) 0x00

unfoldable pub append_attr_raw : MessageBuilder → ℕ → Bytes → ℕ → MessageBuilder
append_attr_raw b type value len = record b {
  attrs_buf =
      b.attrs_buf
      ++ ((byte_at type 8 ∷ byte_at type 0 ∷ byte_at len 8 ∷ byte_at len 0 ∷ [])
          ++ (take len value ++ pad len));
}

unfoldable pub add_attr : MessageBuilder → AttrType → Bytes → MessageBuilder
unfolding append_attr_raw
add_attr b type value = append_attr_raw b type value (length value % 2 ^ 16)

unfoldable pub add_error_code : MessageBuilder → ℕ → Bytes → MessageBuilder
unfolding add_attr
add_error_code b code reason =
    add_attr b AttrType.error_code
      (0x00 ∷ 0x00 ∷ bit_and (code / 100 % 2 ^ 8) 0x07 ∷ (code % 100) ∷ reason)

unfoldable pub add_lifetime : MessageBuilder → ℕ → MessageBuilder
unfolding add_attr
add_lifetime b seconds =
    add_attr b AttrType.lifetime
      (byte_at seconds 24 ∷ byte_at seconds 16 ∷ byte_at seconds 8 ∷ byte_at seconds 0 ∷ [])

-- The value that `appendXorAddress` makes.
unfoldable pub xor_address : ℕ → ℕ → Bytes
xor_address ipv4 port =
    let xport = xor_port port in
    let xaddr = xor_addr_v4 ipv4 in
    0x00
    ∷ 0x01
    ∷ byte_at xport 8
    ∷ byte_at xport 0
    ∷ byte_at xaddr 24
    ∷ byte_at xaddr 16
    ∷ byte_at xaddr 8
    ∷ byte_at xaddr 0
    ∷ []

unfoldable pub append_xor_address : MessageBuilder → AttrType → ℕ → ℕ → MessageBuilder
unfolding add_attr xor_address
append_xor_address b type ipv4 port = add_attr b type (xor_address ipv4 port)

unfoldable pub add_xor_mapped_address : MessageBuilder → ℕ → ℕ → MessageBuilder
unfolding append_xor_address
add_xor_mapped_address b = append_xor_address b AttrType.xor_mapped_address

unfoldable pub add_xor_relayed_address : MessageBuilder → ℕ → ℕ → MessageBuilder
unfolding append_xor_address
add_xor_relayed_address b = append_xor_address b AttrType.xor_relayed_address

unfoldable pub add_xor_peer_address : MessageBuilder → ℕ → ℕ → MessageBuilder
unfolding append_xor_address
add_xor_peer_address b = append_xor_address b AttrType.xor_peer_address

unfoldable pub build : MessageBuilder → Bytes
build b =
    let attrs_len = length b.attrs_buf % 2 ^ 16 in
    (byte_at b.msg_type 8
      ∷ byte_at b.msg_type 0
      ∷ byte_at attrs_len 8
      ∷ byte_at attrs_len 0
      ∷ 0x21
      ∷ 0x12
      ∷ 0xA4
      ∷ 0x42
      ∷ [])
    ++ (b.transaction_id ++ b.attrs_buf)

unfoldable pub make_error : Bytes → ℕ → Bytes → Bytes
unfolding message_builder add_error_code build
make_error tid code reason =
    build (add_error_code (message_builder allocate error_response tid) code reason)

unfoldable pub make400 : Bytes → Bytes
unfolding message_builder add_error_code build
make400 tid =
    build (add_error_code (message_builder allocate error_response tid) 400 (bytes "Bad Request"))

-- The error response with `code` that carries a challenge; `make401` and `make438` fix the code.
with_challenge : MessageBuilder → Bytes → Bytes → MessageBuilder
unfolding add_attr
with_challenge b realm nonce = add_attr (add_attr b AttrType.realm realm) AttrType.nonce nonce

unfoldable pub make401 : Bytes → Bytes → Bytes → Bytes
unfolding message_builder add_error_code with_challenge build
make401 tid realm nonce = build (
    with_challenge
      (add_error_code (message_builder allocate error_response tid) 401 (bytes "Unauthorized"))
      realm nonce)

unfoldable pub make438 : Bytes → Bytes → Bytes → Bytes
unfolding message_builder add_error_code with_challenge build
make438 tid realm nonce = build (
    with_challenge
      (add_error_code (message_builder allocate error_response tid) 438 (bytes "Stale Nonce")) realm
      nonce)

unfoldable pub make_data_indication : Bytes → ℕ → ℕ → Bytes → Bytes
unfolding message_builder add_xor_peer_address add_attr build
make_data_indication tid peer_ipv4 peer_port payload = build (
    add_attr (add_xor_peer_address (message_builder data_method indication tid) peer_ipv4 peer_port)
      AttrType.data_value payload)

unfoldable pub make_channel_data : ℕ → Bytes → Bytes
make_channel_data channel_number payload =
    let len = length payload % 2 ^ 16 in
    (byte_at channel_number 8 ∷ byte_at channel_number 0 ∷ byte_at len 8 ∷ byte_at len 0 ∷ [])
    ++ (payload ++ pad len)
