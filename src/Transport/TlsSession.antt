-- ===== src/Transport/TlsSession.antt =====
-- turn_server/src/transport/tls_transport.cpp: `TlsSession` behind its handshake. Each read asks for
-- a number of bytes, and its callback runs when they are there. The decrypted bytes come one after
-- the other; a read of no bytes completes at once.
use zaza.Common.{
  ℕ, ◌+◌, ◌/◌, ◌%◌, ◌^◌, Bytes, List, [], ◌∷◌, ◌++◌, bit_and, ◌==◌, if◌then◌else◌, length, word16,
}
use zaza.Common.Checked.{Checked, ret, ◌>>=◌, read, read_range}
use zaza.Message.Parser.{padding}

-- The read that is under way.
pub data Stage : Type 0 where
  first_byte : Stage
  stun_header : ℕ → Stage
  stun_body : Bytes → ℕ → Stage
  channel_header : ℕ → Stage
  channel_body : Bytes → ℕ → ℕ → Stage

abbrev pub wanted : Stage → ℕ
wanted first_byte = 1
wanted (stun_header first) = 19
wanted (stun_body header attrs_len) = attrs_len
wanted (channel_header first) = 3
wanted (channel_body header data_len padded_len) = padded_len

-- The callback of a read: what is read next, and the packets for `on_receive_`.
unfoldable pub complete : Stage → Bytes → Checked (Stage × List Bytes)
complete first_byte buf = read buf 0 >>= λ first.
    ret
      (if bit_and (first / 2 ^ 6) 0x03 == 0x01 then channel_header first else stun_header first, [])
complete (stun_header first) buf =
    let header = first ∷ buf in
    read header 2 >>= λ high. read header 3 >>= λ low. ret (stun_body header (word16 high low), [])
complete (stun_body header attrs_len) buf = ret (first_byte, (header ++ buf) ∷ [])
complete (channel_header first) buf = read buf 0 >>= λ second. read buf 1 >>= λ high.
    read buf 2 >>= λ low.
    let data_len = word16 high low in
    ret (
      channel_body (first ∷ second ∷ high ∷ low ∷ []) data_len
          ((data_len + padding data_len) % 2 ^ 16),
      [],
    )
complete (channel_body header data_len padded_len) buf =
    read_range (header ++ buf) 0 (4 + data_len) >>= λ packet. ret (first_byte, packet ∷ [])

pub record Reading : Type 0 where
  pub stage : Stage
  pub got : Bytes

abbrev pub reading : Stage → Bytes → Reading
reading stage got = record { stage = stage; got = got }

-- The start of the next read.
unfoldable pub settle : Stage × List Bytes → Checked (Reading × List Bytes)
unfolding complete
settle (stage, out) =
    if wanted stage == 0
    then (complete stage [] >>= λ (next : Stage × List Bytes).
        ret (reading next.0 [], out ++ next.1))
    else ret (reading stage [], out)

unfoldable pub on_byte : Reading → ℕ → Checked (Reading × List Bytes)
unfolding complete settle
on_byte s b =
    let got = s.got ++ (b ∷ []) in
    if length got == wanted s.stage
    then (complete s.stage got >>= settle)
    else ret (reading s.stage got, [])

unfoldable pub run : Reading → Bytes → Checked (Reading × List Bytes)
unfolding on_byte
run s [] = ret (s, [])
run s (b ∷ bytes) = on_byte s b >>= λ (now : Reading × List Bytes).
    run now.0 bytes >>= λ (later : Reading × List Bytes). ret (later.0, now.1 ++ later.1)
