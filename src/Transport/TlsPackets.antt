-- ===== src/Transport/TlsPackets.antt =====
-- The packets that the session of turn_server/src/transport/tls_transport.cpp hands on, against those of
-- turn_server/src/transport/tcp_transport.cpp.
use zaza.Common.{
  ℕ, zero, suc, ◌+◌, ◌/◌, ◌%◌, ◌^◌, ◌≡◌, ◌≤◌, ◌<◌, refl, ap, ◌∙◌, inl, inr, arith, Bytes, List, [],
  ◌∷◌, none, some, bit_and, ◌==◌, Bool-cases, length, word16, length-drop,
}
use zaza.Common.Checked.{Checked, ret, bad_access, no_fuel, ◌>>=◌}
use zaza.Message.Parser.{padding}
use zaza.Transport.TcpFraming.{
  Frame, read_first_byte, read_channel_header, read_channel_body, read_stun_header,
}
use zaza.Transport.TcpStream.{read_packets}
use zaza.Transport.TlsSession.{first_byte, reading, run}
use zaza.Transport.TlsFrames.{packets, from_start, framed, first_byte-framed}

Shorter : Bytes → Checked Frame → Type 0
Shorter stream frame =
    (packet rest : Bytes) → frame ≡ ret (some (packet, rest)) → length rest < length stream

read_channel_body-Shorter :
    (header : Bytes) (data_len padded_len : ℕ) (stream : Bytes) (packet rest : Bytes)
    → read_channel_body header data_len padded_len stream ≡ ret (some (packet, rest))
    → length rest ≤ length stream
unfolding read_channel_body
read_channel_body-Shorter header data_len padded_len stream packet rest h =
    ground (arith, h, length-drop padded_len stream)

read_channel_header-Shorter :
    (first : ℕ) (stream packet rest : Bytes)
    → read_channel_header first stream ≡ ret (some (packet, rest))
    → length rest ≤ length stream
unfolding read_channel_header
read_channel_header-Shorter first (c ∷ l1 ∷ l0 ∷ stream) packet rest h =
    let n = word16 l1 l0 in
    omega (
      arith,
      read_channel_body-Shorter (first ∷ c ∷ l1 ∷ l0 ∷ []) n ((n + padding n) % 2 ^ 16) stream
          packet rest h,
    )
read_channel_header-Shorter first [] packet rest h = absurd (cc)
read_channel_header-Shorter first (c ∷ []) packet rest h = absurd (cc)
read_channel_header-Shorter first (c ∷ l1 ∷ []) packet rest h = absurd (cc)

read_stun_header-Shorter :
    (first : ℕ) (stream packet rest : Bytes)
    → read_stun_header first stream ≡ ret (some (packet, rest))
    → length rest ≤ length stream
unfolding read_stun_header
read_stun_header-Shorter first (c ∷ l1 ∷ l0 ∷ stream) packet rest h =
    ground (arith, h, length-drop (16 + word16 l1 l0) stream)
read_stun_header-Shorter first [] packet rest h = absurd (cc)
read_stun_header-Shorter first (c ∷ []) packet rest h = absurd (cc)
read_stun_header-Shorter first (c ∷ l1 ∷ []) packet rest h = absurd (cc)

read_first_byte-Shorter : (stream : Bytes) → Shorter stream (read_first_byte stream)
unfolding Shorter read_first_byte
read_first_byte-Shorter [] packet rest h = absurd (cc)
read_first_byte-Shorter (b ∷ stream) packet rest h =
    elim (Bool-cases (bit_and (b / 2 ^ 6) 0x03 == 0x01)) [
      | inl y ↦
          omega (arith, read_channel_header-Shorter b stream packet rest (ground (arith, h, y)))
      | inr m ↦ omega (arith, read_stun_header-Shorter b stream packet rest (ground (arith, h, m)))
    ]

framed-same :
    (go go' : Bytes → Checked (List Bytes)) (frame : Checked Frame) (stream : Bytes) (fuel : ℕ)
    → Shorter stream frame
    → length stream < suc fuel
    → ((rest : Bytes) → length rest < fuel → go rest ≡ go' rest)
    → framed go frame ≡ framed go' frame
unfolding framed Shorter
framed-same go go' (ret none) stream fuel shorter bound same_rest = refl
framed-same go go' (ret (some (packet, rest))) stream fuel shorter bound same_rest =
    ap (λ r. r >>= λ ps. ret (packet ∷ ps))
      (same_rest rest (omega (arith, shorter packet rest refl, bound)))
framed-same go go' bad_access stream fuel shorter bound same_rest = refl
framed-same go go' no_fuel stream fuel shorter bound same_rest = refl

-- A TLS session, which collects each packet byte by byte, hands on the packets of a TCP session on the same
-- stream, in the same order, and reads outside of a buffer where the TCP session does.
pub run-read_packets :
    (fuel : ℕ) (stream : Bytes)
    → length stream < fuel
    → packets (run (reading first_byte []) stream) ≡ read_packets fuel stream
unfolding read_packets framed from_start
run-read_packets zero stream h = absurd (omega (arith, h))
run-read_packets (suc fuel) stream h =
    first_byte-framed stream
    ∙ framed-same from_start (read_packets fuel) (read_first_byte stream) stream fuel
        (read_first_byte-Shorter stream) h (run-read_packets fuel)
