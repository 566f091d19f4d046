-- ===== src/Transport/TcpStream.antt =====
-- turn_server/src/transport/tcp_transport.cpp: all packets of a session, where each one is handed on
-- before the next is read.
use zaza.Common.{
  ℕ, zero, suc, ◌+◌, ◌/◌, ◌^◌, ◌≡◌, ◌≤◌, ◌⊎◌, inl, inr, refl, ap, ◌∙◌, arith, false, Bytes, List,
  [], ◌∷◌, ◌++◌, map, All, none, some, bit_and, ltb, ◌==◌, length, word16, length-append,
  take-append, drop-append,
}
use mathlib.Core.List.{append-nil}
use zaza.Common.Checked.{Checked, ret, no_fuel, ◌>>=◌}
use zaza.Message.Parser.{padding}
use zaza.Transport.TcpFraming.{read_first_byte, read_stun_header, read_first_byte-channel}

-- The packets up to the end of the stream. The fuel is one more than the packets.
unfoldable pub read_packets : ℕ → Bytes → Checked (List Bytes)
unfolding read_first_byte
read_packets zero stream = no_fuel
read_packets (suc fuel) stream = read_first_byte stream >>= λ frame. elim frame [
  | none ↦ ret []
  | some (packet, rest) ↦ (read_packets fuel rest >>= λ packets. ret (packet ∷ packets))
]

-- A packet of a peer, with what it sends behind it to fill it up.
pub record Carried : Type 0 where
  pub first : ℕ
  pub second : ℕ
  pub high : ℕ
  pub low : ℕ
  pub body : Bytes
  pub fill : Bytes

abbrev pub packet_of : Carried → Bytes
packet_of s = s.first ∷ s.second ∷ s.high ∷ s.low ∷ s.body

abbrev pub on_stream : Carried → Bytes → Bytes
on_stream s rest = s.first ∷ s.second ∷ s.high ∷ s.low ∷ ((s.body ++ s.fill) ++ rest)

unfoldable pub stream_of : List Carried → Bytes
stream_of [] = []
stream_of (s ∷ sent) = on_stream s (stream_of sent)

-- A channel message of at most 65532 bytes with its padding.
pub record IsChannel (s : Carried) : Type 0 where
  pub top : bit_and (s.first / 2 ^ 6) 0x03 ≡ 0x01
  pub small : word16 s.high s.low ≤ 65532
  pub sized : length s.body ≡ word16 s.high s.low
  pub padded : length s.fill ≡ padding (word16 s.high s.low)

-- A STUN message: the rest of its header and its attributes.
pub record IsStun (s : Carried) : Type 0 where
  pub top : (bit_and (s.first / 2 ^ 6) 0x03 == 0x01) ≡ false
  pub sized : length s.body ≡ 16 + word16 s.high s.low
  pub bare : s.fill ≡ []

read_first_byte-stun :
    (first second high low : ℕ) (body rest : Bytes)
    → (bit_and (first / 2 ^ 6) 0x03 == 0x01) ≡ false
    → length body ≡ 16 + word16 high low
    → read_first_byte (first ∷ second ∷ high ∷ low ∷ (body ++ rest))
      ≡ ret (some (first ∷ second ∷ high ∷ low ∷ body, rest))
unfolding read_first_byte read_stun_header
read_first_byte-stun first second high low body rest top sized =
    let enough : ltb (length (body ++ rest)) (length body) ≡ false =
      ground (arith, length-append body rest) in
    rw
      (
        read_first_byte,
        top,
        read_stun_header,
        ← sized,
        enough,
        take-append body rest,
        drop-append body rest,
      )
      refl

read_first_byte-sent :
    (s : Carried) (rest : Bytes)
    → IsChannel s ⊎ IsStun s
    → read_first_byte (on_stream s rest) ≡ ret (some (packet_of s, rest))
read_first_byte-sent s rest (inl x) =
    read_first_byte-channel s.first s.second s.high s.low s.body s.fill rest x.top x.small x.sized
      x.padded
read_first_byte-sent s rest (inr x) =
    ap (λ fill. read_first_byte (s.first ∷ s.second ∷ s.high ∷ s.low ∷ ((s.body ++ fill) ++ rest)))
      x.bare
    ∙ ap (λ body. read_first_byte (s.first ∷ s.second ∷ s.high ∷ s.low ∷ (body ++ rest)))
        (append-nil s.body)
    ∙ read_first_byte-stun s.first s.second s.high s.low s.body rest x.top x.sized

-- A stream of STUN messages and of channel messages of at most 65532 bytes, each with its padding,
-- in any order, is cut into exactly these packets, in order and without the padding.
pub read_packets-stream :
    (sent : List Carried)
    → All (λ s. IsChannel s ⊎ IsStun s) sent
    → read_packets (suc (length sent)) (stream_of sent) ≡ ret (map packet_of sent)
unfolding read_packets stream_of read_first_byte
read_packets-stream [] h = refl
read_packets-stream (s ∷ sent) (x, xs) =
    rw
      (
        read_packets,
        stream_of,
        read_first_byte-sent s (stream_of sent) x,
        ◌>>=◌,
        read_packets-stream sent xs,
      )
      refl
