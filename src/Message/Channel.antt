-- ===== src/Message/Channel.antt =====
-- ChannelData frames: `make_channel_data` against `is_channel_data` and `parse_channel_data`.
use zaza.Common.{
  ℕ, ◌+◌, ◌%◌, ◌^◌, ◌≤◌, ◌<◌, ◌≡◌, refl, arith, true, false, Bytes, [], ◌∷◌, ◌++◌, ltb, length,
  length-append, byte_at, byte_at_lem, word16-byte_at, bit_and,
}
use mathlib.Core.List.{append_assoc}
use zaza.Common.Masks.{top_two_channel}
use zaza.Common.Checked.{ret, read_range}
use zaza.Message.Types.{ChannelDataResult}
use zaza.Message.Parser.{is_channel_data, parse_channel_body, parse_channel_data}
use zaza.Message.Builder.{make_channel_data, pad}
use zaza.Message.AttrLoop.{read_range-between}

-- A frame as bytes.
frame : ℕ → ℕ → Bytes → Bytes
frame channel len rest =
    byte_at channel 8 ∷ byte_at channel 0 ∷ byte_at len 8 ∷ byte_at len 0 ∷ rest

make_channel_data-frame :
    (channel : ℕ) (payload tail : Bytes)
    → length payload < 2 ^ 16
    → make_channel_data channel payload ++ tail
      ≡ frame channel (length payload) (payload ++ (pad (length payload) ++ tail))
unfolding make_channel_data frame
make_channel_data-frame channel payload tail h =
    let n : length payload % 2 ^ 16 ≡ length payload = omega arith in
    rw (n, append_assoc payload (pad (length payload)) tail)

is_channel_data-frame :
    (channel len : ℕ) (rest : Bytes)
    → 0x4000 ≤ channel
    → channel ≤ 0x4FFF
    → is_channel_data (frame channel len rest) ≡ ret true
unfolding is_channel_data frame
is_channel_data-frame channel len rest lo hi =
    let top : bit_and (byte_at channel 8) 0xC0 ≡ 0x40 =
      top_two_channel (byte_at channel 8) (omega (arith, byte_at_lem channel 8))
        (omega (arith, byte_at_lem channel 8)) in
    let some_byte : ltb (length (frame channel len rest)) 1 ≡ false = ground arith in
    rw (some_byte, top)

parse_channel_body-frame :
    (channel : ℕ) (payload rest : Bytes)
    → 0x4000 ≤ channel
    → channel ≤ 0x4FFF
    → length payload < 2 ^ 16
    → parse_channel_body (frame channel (length payload) (payload ++ rest))
      ≡ ret (ChannelDataResult.ok (record { channel_number = channel; payload = payload }))
unfolding parse_channel_body frame
parse_channel_body-frame channel payload rest lo hi hl =
    let low : ltb channel 0x4000 ≡ false = ground arith in
    let high : ltb 0x4FFF channel ≡ false = ground arith in
    let raw : Bytes = frame channel (length payload) (payload ++ rest) in
    let fits : ltb (length raw) (4 + length payload) ≡ false =
      ground (arith, length-append payload rest) in
    let copied : read_range raw 4 (length payload) ≡ ret payload =
      read_range-between (frame channel (length payload) []) payload rest 4 refl in
    rw (
      word16-byte_at channel (omega arith),
      word16-byte_at (length payload) hl,
      low,
      high,
      fits,
      copied,
    )

-- A frame for a channel number in 0x4000 to 0x4FFF with a payload shorter than 2 ^ 16 bytes is
-- told apart from a STUN message by its first byte, and `parse_channel_data` gives the number and
-- the payload back, without the padding and whatever follows.
pub parse-make_channel_data :
    (channel : ℕ) (payload tail : Bytes)
    → 0x4000 ≤ channel
    → channel ≤ 0x4FFF
    → length payload < 2 ^ 16
    → (is_channel_data (make_channel_data channel payload ++ tail) ≡ ret true)
      × (parse_channel_data (make_channel_data channel payload ++ tail)
          ≡ ret (ChannelDataResult.ok (record { channel_number = channel; payload = payload })))
parse-make_channel_data channel payload tail lo hi hl =
    let rest = pad (length payload) ++ tail in
    let raw = frame channel (length payload) (payload ++ rest) in
    let long : ltb (length raw) 4 ≡ false = unfold frame in ground arith in
    rw (make_channel_data-frame channel payload tail hl) (
      is_channel_data-frame channel (length payload) (payload ++ rest) lo hi,
      unfold parse_channel_data in rw long (parse_channel_body-frame channel payload rest lo hi hl),
    )
