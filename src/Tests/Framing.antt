-- ===== src/Tests/Framing.antt =====
-- Runs of the framing of a TCP stream, and its theorems at concrete inputs.
use zaza.Common.{◌⊎◌, inl, inr, All, replicate, ◌≡◌, refl, arith, bytes, [], ◌∷◌, none, word16}
use zaza.Common.Checked.{ret, bad_access}
use zaza.Transport.TlsSession.{Stage, reading, settle, complete, on_byte, run}
use zaza.Transport.TlsFrames.{packets}
use zaza.Transport.TlsPackets.{run-read_packets}
use zaza.Transport.TcpFraming.{read_stun_header, read_first_byte, read_first_byte-overrun}
use zaza.Transport.TcpStream.{
  Carried, packet_of, stream_of, IsChannel, IsStun, read_packets, read_packets-stream,
}

-- Five bytes of data with three bytes of padding, a STUN header, and an empty channel message.
abbrev hello : Carried
hello = record {
  first = 0x40;
  second = 1;
  high = 0;
  low = 5;
  body = bytes "hello";
  fill = 0 ∷ 0 ∷ 0 ∷ [];
}

abbrev binding : Carried
binding = record { first = 0; second = 1; high = 0; low = 0; body = replicate 16 7; fill = [] }

abbrev nothing : Carried
nothing = record { first = 0x40; second = 2; high = 0; low = 0; body = []; fill = [] }

sent-All : All (λ s. IsChannel s ⊎ IsStun s) (hello ∷ binding ∷ nothing ∷ [])
unfolding word16
sent-All = (
  inl (record { top = refl; small = omega arith; sized = refl; padded = refl }),
  (
    inr (record { top = refl; sized = refl; bare = refl }),
    (inl (record { top = refl; small = omega arith; sized = refl; padded = refl }), tt),
  ),
)

read_packets-stream_example :
    read_packets 4 (stream_of (hello ∷ binding ∷ nothing ∷ []))
    ≡ ret (packet_of hello ∷ packet_of binding ∷ packet_of nothing ∷ [])
read_packets-stream_example = read_packets-stream (hello ∷ binding ∷ nothing ∷ []) sent-All

read_first_byte-overrun_example : read_first_byte (0x40 ∷ 1 ∷ 0xFF ∷ 0xFF ∷ []) ≡ bad_access
unfolding word16
read_first_byte-overrun_example =
    read_first_byte-overrun 0x40 1 0xFF 0xFF [] refl (omega arith) (omega arith)

run-read_packets_example :
    packets (run (reading Stage.first_byte []) (stream_of (hello ∷ binding ∷ [])))
    ≡ read_packets 40 (stream_of (hello ∷ binding ∷ []))
unfolding stream_of
run-read_packets_example = run-read_packets 40 (stream_of (hello ∷ binding ∷ [])) (omega arith)

-- The bytes of a channel message, of which the last is not there yet.
tls_test :
    (packets (run (reading Stage.first_byte []) (stream_of (hello ∷ [])))
      ≡ ret (packet_of hello ∷ []))
    × (packets (run (reading Stage.first_byte []) (0x40 ∷ 1 ∷ 0 ∷ 1 ∷ b'h' ∷ 0 ∷ 0 ∷ [])) ≡ ret [])
unfolding packets run on_byte complete settle stream_of word16
tls_test = (refl, refl)

-- A stream that ends inside of a packet.
short_test : read_first_byte (0 ∷ 1 ∷ 0 ∷ []) ≡ ret none
unfolding read_first_byte read_stun_header
short_test = refl
