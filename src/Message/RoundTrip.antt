-- ===== src/Message/RoundTrip.antt =====
-- What `MessageBuilder` writes, `parse` reads back.
use mathlib.Core.List.{append_assoc}
use zaza.Common.{
  ℕ, suc, ◌+◌, ◌%◌, ◌^◌, ◌≤◌, ◌<◌, ◌≡◌, refl, ◌∙◌, arith, false, Bytes, List, [], ◌∷◌, ◌++◌, ltb,
  length, length-append, All, byte_at, word16-byte_at,
}
use zaza.Common.Checked.{ret, read_range}
use zaza.Message.Types.{Method, MessageClass, Attribute, ParseResult}
use zaza.Message.Parser.{
  decode_method, decode_class, attr_loop, parse_body, parse_cookie, parse_type, parse_first, parse,
}
use zaza.Message.Builder.{message_builder, encode_type, build}
use zaza.Message.TypeCodec.{encode_type-lt, decode-encode_type}
use zaza.Message.XorCodec.{k_magic_cookie}
use zaza.Common.Masks.{top_two_stun}
use zaza.Common.{byte_at_lem, word32, word32_lem, bit_and}
use zaza.Message.Encoding.{
  FitsWire, encoding, add_attrs, add_attrs-attrs_buf, add_attrs_kept, length-encoding,
}
use zaza.Message.AttrLoop.{read_range-between, attr_loop-encoding}

-- A buffer that begins with a STUN header.
abbrev wire : ℕ → ℕ → Bytes → Bytes
wire type len body =
    byte_at type 8
    ∷ byte_at type 0
    ∷ byte_at len 8
    ∷ byte_at len 0
    ∷ 0x21
    ∷ 0x12
    ∷ 0xA4
    ∷ 0x42
    ∷ body

parse-wire :
    (type len : ℕ) (body : Bytes)
    → type < 2 ^ 14
    → len < 2 ^ 16
    → 12 + len ≤ length body
    → parse (wire type len body) ≡ parse_body (wire type len body) type len
unfolding parse_first parse_type parse_cookie
parse-wire type len body ht hl hb =
    let long : ltb (length (wire type len body)) 20 ≡ false = ground arith in
    let stun : bit_and (byte_at type 8) 0xC0 ≡ 0 =
      top_two_stun (byte_at type 8) (omega (arith, byte_at_lem type 8)) in
    let fits : ltb (length (wire type len body)) (20 + len) ≡ false = ground arith in
    let cookie : word32 0x21 0x12 0xA4 0x42 ≡ k_magic_cookie =
      word32_lem 0x21 0x12 0xA4 0x42 (omega arith) (omega arith) (omega arith) (omega arith) in
    unfold parse in
    rw (long, stun, word16-byte_at len hl, word16-byte_at type (omega arith), fits, cookie)

parse_body-wire :
    (type len : ℕ) (tid : Bytes) (attrs : List Attribute) (tail : Bytes)
    → length tid ≡ 12
    → All FitsWire attrs
    → len ≡ length (encoding attrs)
    → parse_body (wire type len (tid ++ (encoding attrs ++ tail))) type len
      ≡ ret (
          ParseResult.ok (record {
            msg_class = decode_class type;
            method = decode_method type;
            body_length = len;
            transaction_id = tid;
            attributes = attrs;
          }))
unfolding parse_body
parse_body-wire type len tid attrs tail ht w hl =
    let head : Bytes = wire type len [] in
    let buf : Bytes = wire type len (tid ++ (encoding attrs ++ tail)) in
    let copied : read_range buf 8 12 ≡ ret tid =
      rw ht at (read_range-between head tid (encoding attrs ++ tail) 8 refl) in
    let looped : attr_loop (suc (length buf)) buf (20 + len) 20 [] ≡ ret attrs =
      attr_loop-encoding attrs _ buf (head ++ tid) tail _ _ [] w
        (omega (
          arith,
          length-encoding attrs,
          length-append tid (encoding attrs ++ tail),
          length-append (encoding attrs) tail,
        ))
        (simp append_assoc) (omega arith) (omega arith) in
    rw (copied, looped)

build-wire :
    (method : Method) (msg_class : MessageClass) (tid : Bytes) (attrs : List Attribute)
    → All FitsWire attrs
    → length (encoding attrs) < 2 ^ 16
    → build (add_attrs (message_builder method msg_class tid) attrs)
      ≡ wire (encode_type method msg_class) (length (encoding attrs)) (tid ++ encoding attrs)
unfolding build message_builder
build-wire method msg_class tid attrs w hl =
    let b = message_builder method msg_class tid in
    let (t, i) = add_attrs_kept b attrs in
    let n : length (encoding attrs) % 2 ^ 16 ≡ length (encoding attrs) = omega arith in
    rw (add_attrs-attrs_buf b attrs w, t, i, n)

-- `parse` reads back every message that the builder makes of a method, a class, a transaction id
-- of 12 bytes and attributes whose types and value lengths fit 16 bits and whose encoding is
-- shorter than 2 ^ 16 bytes, whatever follows it in the buffer: the same method, class,
-- transaction id and attributes, in order.
pub parse-build :
    (method : Method) (msg_class : MessageClass) (tid : Bytes) (attrs : List Attribute)
    (tail : Bytes)
    → length tid ≡ 12
    → All FitsWire attrs
    → length (encoding attrs) < 2 ^ 16
    → parse (build (add_attrs (message_builder method msg_class tid) attrs) ++ tail)
      ≡ ret (
          ParseResult.ok (record {
            msg_class = msg_class;
            method = method;
            body_length = length (encoding attrs);
            transaction_id = tid;
            attributes = attrs;
          }))
parse-build method msg_class tid attrs tail ht w hl =
    let b = message_builder method msg_class tid in
    let e : encode_type method msg_class < 2 ^ 14 = encode_type-lt method msg_class in
    let (m, c) = decode-encode_type method msg_class in
    rw (build-wire method msg_class tid attrs w hl, append_assoc tid (encoding attrs) tail)
      (parse-wire (encode_type method msg_class) (length (encoding attrs)) _ e hl (
          omega (
            arith,
            length-append tid (encoding attrs ++ tail),
            length-append (encoding attrs) tail,
          ))
        ∙ parse_body-wire (encode_type method msg_class) _ tid attrs tail ht w refl
        ∙ rw (m, c))
