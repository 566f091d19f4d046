-- ===== src/Message/Parser.antt =====
-- message/parser.cpp. A buffer is the list of its bytes, and `size` is its length; every read
-- checks its index, so an access outside of the buffer shows as `bad_access`.
use zaza.Common.{
  ℕ, zero, suc, ◌+◌, ◌-◌, ◌/◌, ◌%◌, ◌^◌, bit_and, bit_or, Bool, true, false, Bytes, List, [], ◌∷◌,
  ◌++◌, ltb, leb, ◌==◌, not, ◌||◌, if◌then◌else◌, length, word16, word32,
}
use zaza.Common.Checked.{Checked, ret, no_fuel, ◌>>=◌, read, read_range}
use zaza.Message.Types.{
  MessageClass, request, indication, success_response, error_response, Method, allocate, refresh,
  send, data_method, create_permission, channel_bind, unknown, Attribute, ParseResult,
  ChannelDataResult,
}
use zaza.Message.XorCodec.{k_magic_cookie}

method_of : ℕ → Method
method_of m =
    if m == 0x003
    then allocate
    else if m == 0x004
    then refresh
    else if m == 0x006
    then send
    else if m == 0x007
    then data_method
    else if m == 0x008
    then create_permission
    else if m == 0x009
    then channel_bind
    else unknown

unfoldable pub decode_method : ℕ → Method
unfolding method_of
decode_method msg_type = method_of (
    bit_or (bit_or (bit_and msg_type 0x3E00 / 2 ^ 2) (bit_and msg_type 0x00E0 / 2 ^ 1))
      (bit_and msg_type 0x000F))

class_of : ℕ → MessageClass
class_of c =
    if c == 0
    then request
    else if c == 1
    then indication
    else if c == 2
    then success_response
    else if c == 3
    then error_response
    else request

unfoldable pub decode_class : ℕ → MessageClass
unfolding class_of
decode_class msg_type =
    class_of (bit_or (bit_and (msg_type / 2 ^ 7) 0x02) (bit_and (msg_type / 2 ^ 4) 0x01))

-- `if (len % 4 != 0) offset += 4 - (len % 4)`
abbrev pub padding : ℕ → ℕ
padding len = if len % 4 == 0 then 0 else 4 - len % 4

-- The header of the attribute at `offset`: its type and the length of its value.
unfoldable pub read_attr_header : Bytes → ℕ → Checked (ℕ × ℕ)
read_attr_header buf offset = do
  t1 ← read buf offset
  t0 ← read buf (offset + 1)
  l1 ← read buf (offset + 2)
  l0 ← read buf (offset + 3)
  ret (word16 t1 t0, word16 l1 l0)

-- The loop over the attributes; `limit` is `20u + out.length`.
unfoldable pub attr_loop : ℕ → Bytes → ℕ → ℕ → List Attribute → Checked (List Attribute)
attr_loop zero buf limit offset out = no_fuel
attr_loop (suc fuel) buf limit offset out = elim (leb (offset + 4) limit) [
  | false ↦ ret out
  | true ↦ read_attr_header buf offset >>= λ header.
      elim (ltb (length buf) (offset + 4 + header.1)) [
        | true ↦ ret out
        | false ↦ read_range buf (offset + 4) header.1 >>= λ value.
            attr_loop fuel buf limit (offset + 4 + header.1 + padding header.1)
              (out ++ (record { type = header.0; value = value } ∷ []))
      ]
]

-- `parse` from the copy of the transaction id on. Each round of the loop moves on by 4 bytes at
-- least, so the size of the buffer is fuel enough.
unfoldable pub parse_body : Bytes → ℕ → ℕ → Checked ParseResult
parse_body buf msg_type len = do
  tid ← read_range buf 8 12
  attributes ← attr_loop (suc (length buf)) buf (20 + len) 20 []
  ret (
      ParseResult.ok (record {
        msg_class = decode_class msg_type;
        method = decode_method msg_type;
        body_length = len;
        transaction_id = tid;
        attributes = attributes;
      }))

-- From the read of the cookie on.
unfoldable pub parse_cookie : Bytes → ℕ → ℕ → Checked ParseResult
parse_cookie buf msg_type len = do
  c3 ← read buf 4
  c2 ← read buf 5
  c1 ← read buf 6
  c0 ← read buf 7
  if not (word32 c3 c2 c1 c0 == k_magic_cookie)
      then ret ParseResult.bad_magic_cookie
      else parse_body buf msg_type len

-- From the read of the message type on.
unfoldable pub parse_type : Bytes → ℕ → Checked ParseResult
parse_type buf b0 = do
  b1 ← read buf 1
  b2 ← read buf 2
  b3 ← read buf 3
  let len = word16 b2 b3
  if ltb (length buf) (20 + len)
      then ret ParseResult.bad_length
      else parse_cookie buf (word16 b0 b1) len

-- The two first bits of the first byte.
unfoldable pub parse_first : Bytes → Checked ParseResult
parse_first buf = do
  b0 ← read buf 0
  if not (bit_and b0 0xC0 == 0x00) then ret ParseResult.not_turn_message else parse_type buf b0

unfoldable pub parse : Bytes → Checked ParseResult
unfolding parse_first parse_type parse_cookie parse_body attr_loop
parse buf = if ltb (length buf) 20 then ret ParseResult.too_short else parse_first buf

unfoldable pub is_channel_data : Bytes → Checked Bool
is_channel_data buf =
    if ltb (length buf) 1 then ret false else (read buf 0 >>= λ b0. ret (bit_and b0 0xC0 == 0x40))

-- `parse_channel_data` behind the test of the header's size.
unfoldable pub parse_channel_body : Bytes → Checked ChannelDataResult
parse_channel_body raw = do
  r0 ← read raw 0
  r1 ← read raw 1
  r2 ← read raw 2
  r3 ← read raw 3
  let ch = word16 r0 r1
  let len = word16 r2 r3
  let channel_message = λ (payload : Bytes).
      ret (ChannelDataResult.ok (record { channel_number = ch; payload = payload }))
  if ltb ch 0x4000 || ltb 0x4FFF ch
      then ret ChannelDataResult.invalid_channel
      else if ltb (length raw) (4 + len)
      then ret ChannelDataResult.too_short
      else (read_range raw 4 len >>= channel_message)

unfoldable pub parse_channel_data : Bytes → Checked ChannelDataResult
unfolding parse_channel_body
parse_channel_data raw =
    if ltb (length raw) 4 then ret ChannelDataResult.too_short else parse_channel_body raw
