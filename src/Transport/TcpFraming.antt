-- ===== src/Transport/TcpFraming.antt =====
-- turn_server/src/transport/tcp_transport.cpp: how a session cuts the stream of bytes into
-- packets. The argument is the bytes that the peer sends before it closes the connection; the
-- result is what `on_receive_` gets and what is left of the stream, or `none` where the stream ends
-- and the session is removed.
use zaza.Common.{
  ℕ, suc, leb, true, false, ◌∙◌, ◌+◌, ◌/◌, ◌%◌, ◌^◌, ◌≡◌, ◌≤◌, ◌<◌, refl, arith, Bytes, [], ◌∷◌,
  ◌++◌, Option, none, some, bit_and, ltb, ◌==◌, if◌then◌else◌, length, take, drop, word16,
  length-append, take-append, drop-append,
}
use zaza.Common.Checked.{Checked, ret, bad_access, ◌>>=◌, read_range}
use zaza.Message.Parser.{padding}

abbrev pub Frame : Type 0
Frame = Option (Bytes × Bytes)

-- `read_channel_body`: the packet is a part of the buffer, which the padded data fills.
unfoldable pub read_channel_body : Bytes → ℕ → ℕ → Bytes → Checked Frame
read_channel_body header data_len padded_len stream =
    if ltb (length stream) padded_len
    then ret none
    else (read_range (header ++ take padded_len stream) 0 (4 + data_len) >>= λ packet.
        ret (some (packet, drop padded_len stream)))

-- `read_channel_header`; the sum is a `uint16_t`.
unfoldable pub read_channel_header : ℕ → Bytes → Checked Frame
unfolding read_channel_body
read_channel_header first (c ∷ l1 ∷ l0 ∷ stream) =
    let data_len = word16 l1 l0 in
    read_channel_body (first ∷ c ∷ l1 ∷ l0 ∷ []) data_len ((data_len + padding data_len) % 2 ^ 16)
      stream
read_channel_header first stream = ret none

-- `read_stun_header` and `read_stun_body`.
unfoldable pub read_stun_header : ℕ → Bytes → Checked Frame
read_stun_header first (c ∷ l1 ∷ l0 ∷ stream) =
    let attrs_len = word16 l1 l0 in
    if ltb (length stream) (16 + attrs_len)
    then ret none
    else ret
        (some (first ∷ c ∷ l1 ∷ l0 ∷ take (16 + attrs_len) stream, drop (16 + attrs_len) stream))
read_stun_header first stream = ret none

-- `read_first_byte`
unfoldable pub read_first_byte : Bytes → Checked Frame
unfolding read_channel_header read_stun_header
read_first_byte [] = ret none
read_first_byte (first ∷ stream) =
    if bit_and (first / 2 ^ 6) 0x03 == 0x01
    then read_channel_header first stream
    else read_stun_header first stream

read_first_byte-body :
    (first c l1 l0 padded_len : ℕ) (stream : Bytes)
    → bit_and (first / 2 ^ 6) 0x03 ≡ 0x01
    → (word16 l1 l0 + padding (word16 l1 l0)) % 2 ^ 16 ≡ padded_len
    → read_first_byte (first ∷ c ∷ l1 ∷ l0 ∷ stream)
      ≡ read_channel_body (first ∷ c ∷ l1 ∷ l0 ∷ []) (word16 l1 l0) padded_len stream
unfolding read_first_byte read_channel_header
read_first_byte-body first c l1 l0 padded_len stream top e = rw (← e) (ground (arith, top))

-- A body whose padded data is there.
read_channel_body-packet :
    (first c l1 l0 n : ℕ) (payload pad rest : Bytes)
    → length payload ≡ n
    → read_channel_body
        (first ∷ c ∷ l1 ∷ l0 ∷ [])
        n
        (length (payload ++ pad))
        ((payload ++ pad) ++ rest)
      ≡ ret (some (first ∷ c ∷ l1 ∷ l0 ∷ payload, rest))
unfolding read_channel_body
read_channel_body-packet first c l1 l0 n payload pad rest len =
    let enough : ltb (length ((payload ++ pad) ++ rest)) (length (payload ++ pad)) ≡ false =
      ground (arith, length-append (payload ++ pad) rest) in
    let size : 4 + n ≡ suc (suc (suc (suc (length payload)))) = omega (arith, len) in
    let inside : leb (0 + (4 + n)) (suc (suc (suc (suc (length (payload ++ pad)))))) ≡ true =
      ground (arith, length-append payload pad, len) in
    rw (enough, take-append (payload ++ pad) rest, drop-append (payload ++ pad) rest, inside, ◌>>=◌)
      (rw (size, take-append payload pad) refl)

-- A channel message of at most 65532 bytes of data is cut out of the stream with its header, the
-- padding behind it is skipped, and the rest of the stream is left for the next packet.
pub read_first_byte-channel :
    (first c l1 l0 : ℕ) (payload pad rest : Bytes)
    → bit_and (first / 2 ^ 6) 0x03 ≡ 0x01
    → word16 l1 l0 ≤ 65532
    → length payload ≡ word16 l1 l0
    → length pad ≡ padding (word16 l1 l0)
    → read_first_byte (first ∷ c ∷ l1 ∷ l0 ∷ ((payload ++ pad) ++ rest))
      ≡ ret (some (first ∷ c ∷ l1 ∷ l0 ∷ payload, rest))
read_first_byte-channel first c l1 l0 payload pad rest top small len fill =
    let n = word16 l1 l0 in
    let whole : (n + padding n) % 2 ^ 16 ≡ length (payload ++ pad) =
      ground (arith, length-append payload pad) in
    read_first_byte-body first c l1 l0 (length (payload ++ pad)) ((payload ++ pad) ++ rest) top
      whole
    ∙ read_channel_body-packet first c l1 l0 n payload pad rest len

read_channel_body-overrun :
    (first c l1 l0 n : ℕ) (stream : Bytes)
    → 0 < n
    → read_channel_body (first ∷ c ∷ l1 ∷ l0 ∷ []) n 0 stream ≡ bad_access
unfolding read_channel_body
read_channel_body-overrun first c l1 l0 n stream h = ground arith

-- A channel message of 65533 bytes of data or more makes the session hand on more bytes than its
-- buffer has, whatever follows the header.
pub read_first_byte-overrun :
    (first c l1 l0 : ℕ) (stream : Bytes)
    → bit_and (first / 2 ^ 6) 0x03 ≡ 0x01
    → 65533 ≤ word16 l1 l0
    → word16 l1 l0 < 2 ^ 16
    → read_first_byte (first ∷ c ∷ l1 ∷ l0 ∷ stream) ≡ bad_access
read_first_byte-overrun first c l1 l0 stream top large fits =
    let n = word16 l1 l0 in
    let wraps : (n + padding n) % 2 ^ 16 ≡ 0 = ground arith in
    read_first_byte-body first c l1 l0 0 stream top wraps
    ∙ read_channel_body-overrun first c l1 l0 n stream (omega arith)
