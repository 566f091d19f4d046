-- ===== src/Transport/TlsFrames.antt =====
-- What the session of turn_server/src/transport/tls_transport.cpp hands on, frame by frame of
-- turn_server/src/transport/tcp_transport.cpp.
use zaza.Common.{
  ℕ, zero, suc, ◌+◌, ◌/◌, ◌%◌, ◌^◌, ◌≡◌, refl, sym, ap, ◌∙◌, inl, inr, arith, true, false, Bytes,
  List, [], ◌∷◌, ◌++◌, none, some, bit_and, ltb, ◌==◌, if◌then◌else◌, Bool-cases, length, take,
  drop, word16, length-drop, take-add, drop-add,
}
use zaza.Common.Checked.{Checked, ret, bad_access, no_fuel, ◌>>=◌, read_range}
use zaza.Message.Parser.{padding}
use zaza.Transport.TcpFraming.{
  Frame, read_first_byte, read_channel_header, read_channel_body, read_stun_header,
}
use zaza.Transport.TlsSession.{
  Stage, first_byte, stun_header, stun_body, channel_header, channel_body, wanted, complete,
  Reading, reading, settle, on_byte, run,
}
use zaza.Transport.TlsStream.{onward, progress, onward-silent, run-progress}

-- What `on_receive_` gets.
unfoldable pub packets : Checked (Reading × List Bytes) → Checked (List Bytes)
packets r = r >>= λ (later : Reading × List Bytes). ret later.1

unfoldable pub from_start : Bytes → Checked (List Bytes)
unfolding packets run
from_start stream = packets (run (reading first_byte []) stream)

packets-after :
    (p : Bytes) (r : Checked (Reading × List Bytes))
    → packets (r >>= λ (later : Reading × List Bytes). ret (later.0, p ∷ later.1))
      ≡ (packets r >>= λ ps. ret (p ∷ ps))
unfolding packets
packets-after p (ret x) = refl
packets-after p bad_access = refl
packets-after p no_fuel = refl

settle-waits :
    (stage : Stage) (n : ℕ) (stream : Bytes)
    → wanted stage ≡ suc n
    → (settle (stage, []) >>= onward stream) ≡ progress stage [] (suc n) stream
unfolding settle
settle-waits stage n stream h =
    let waits : (wanted stage == 0) ≡ false = ground (arith, h) in
    rw waits
      (onward-silent (reading stage []) stream ∙ run-progress stage n [] stream (omega (arith, h)))

stun_body-packets :
    (header : Bytes) (n : ℕ) (stream : Bytes)
    → packets (settle (stun_body header n, []) >>= onward stream) ≡ (
        if ltb (length stream) n
        then ret []
        else (from_start (drop n stream) >>= λ ps. ret ((header ++ take n stream) ∷ ps)))
unfolding settle complete run packets from_start progress
stun_body-packets header zero stream =
    let enough : ltb (length stream) 0 ≡ false = ground arith in
    rw enough (packets-after (header ++ []) (run (reading first_byte []) stream))
stun_body-packets header (suc n) stream =
    ap packets (settle-waits (stun_body header (suc n)) n stream refl)
    ∙ (elim (Bool-cases (ltb (length stream) (suc n))) [
      | inl y ↦ rw (progress, y) refl
      | inr m ↦
          rw (progress, m)
            (packets-after (header ++ take (suc n) stream)
              (run (reading first_byte []) (drop (suc n) stream)))
    ])

sent-packets :
    (r : Checked Bytes) (stream : Bytes)
    → packets ((((r >>= λ packet. ret (first_byte, packet ∷ [])) >>= settle) >>= onward stream))
      ≡ (r >>= λ packet. from_start stream >>= λ ps. ret (packet ∷ ps))
unfolding settle packets from_start
sent-packets (ret packet) stream = packets-after packet (run (reading first_byte []) stream)
sent-packets bad_access stream = refl
sent-packets no_fuel stream = refl

sent_at_once-packets :
    (r : Checked Bytes) (stream : Bytes)
    → packets (
        ((r >>= λ packet. ret (first_byte, packet ∷ [])) >>= λ (next : Stage × List Bytes).
        ret (reading next.0 [], [] ++ next.1))
        >>= onward stream)
      ≡ (r >>= λ packet. from_start stream >>= λ ps. ret (packet ∷ ps))
unfolding packets from_start
sent_at_once-packets (ret packet) stream = packets-after packet (run (reading first_byte []) stream)
sent_at_once-packets bad_access stream = refl
sent_at_once-packets no_fuel stream = refl

channel_body-packets :
    (header : Bytes) (data_len padded_len : ℕ) (stream : Bytes)
    → packets (settle (channel_body header data_len padded_len, []) >>= onward stream) ≡ (
        if ltb (length stream) padded_len
        then ret []
        else (read_range (header ++ take padded_len stream) 0 (4 + data_len) >>= λ packet.
            from_start (drop padded_len stream) >>= λ ps. ret (packet ∷ ps)))
unfolding settle complete packets progress
channel_body-packets header data_len zero stream =
    let enough : ltb (length stream) 0 ≡ false = ground arith in
    rw enough (sent_at_once-packets (read_range (header ++ []) 0 (4 + data_len)) stream)
channel_body-packets header data_len (suc n) stream =
    ap packets (settle-waits (channel_body header data_len (suc n)) n stream refl)
    ∙ (elim (Bool-cases (ltb (length stream) (suc n))) [
      | inl y ↦ rw (progress, y) refl
      | inr m ↦
          rw (progress, m)
            (sent-packets (read_range (header ++ take (suc n) stream) 0 (4 + data_len))
              (drop (suc n) stream))
    ])

-- The rest of the work behind a frame.
unfoldable pub framed : (Bytes → Checked (List Bytes)) → Checked Frame → Checked (List Bytes)
framed go frame = frame >>= λ f. elim f [
  | none ↦ ret []
  | some (packet, rest) ↦ (go rest >>= λ ps. ret (packet ∷ ps))
]

read-framed :
    (go : Bytes → Checked (List Bytes)) (r : Checked Bytes) (stream : Bytes)
    → framed go (r >>= λ packet. ret (some (packet, stream)))
      ≡ (r >>= λ packet. go stream >>= λ ps. ret (packet ∷ ps))
unfolding framed
read-framed go (ret packet) stream = refl
read-framed go bad_access stream = refl
read-framed go no_fuel stream = refl

channel_body-framed :
    (header : Bytes) (data_len padded_len : ℕ) (stream : Bytes)
    → packets (settle (channel_body header data_len padded_len, []) >>= onward stream)
      ≡ framed from_start (read_channel_body header data_len padded_len stream)
unfolding framed read_channel_body
channel_body-framed header data_len padded_len stream =
    channel_body-packets header data_len padded_len stream
    ∙ elim (Bool-cases (ltb (length stream) padded_len)) [
      | inl y ↦ rw (read_channel_body, y) refl
      | inr m ↦
          rw (read_channel_body, m)
            (sym (
              read-framed from_start
                (read_range (header ++ take padded_len stream) 0 (4 + data_len))
                (drop padded_len stream)))
    ]

channel_header-framed :
    (first : ℕ) (stream : Bytes)
    → packets (run (reading (channel_header first) []) stream)
      ≡ framed from_start (read_channel_header first stream)
unfolding framed read_channel_header progress complete packets
channel_header-framed first (c ∷ l1 ∷ l0 ∷ stream) =
    let enough : ltb (length (c ∷ l1 ∷ l0 ∷ stream)) 3 ≡ false = ground arith in
    let n = word16 l1 l0 in
    ap packets (run-progress (channel_header first) 2 [] (c ∷ l1 ∷ l0 ∷ stream) (omega arith))
    ∙ rw enough (channel_body-framed (first ∷ c ∷ l1 ∷ l0 ∷ []) n ((n + padding n) % 2 ^ 16) stream)
channel_header-framed first [] =
    ap packets (run-progress (channel_header first) 2 [] [] (omega arith))
channel_header-framed first (c ∷ []) =
    ap packets (run-progress (channel_header first) 2 [] (c ∷ []) (omega arith))
channel_header-framed first (c ∷ l1 ∷ []) =
    ap packets (run-progress (channel_header first) 2 [] (c ∷ l1 ∷ []) (omega arith))

stun_message-framed :
    (first c l1 l0 : ℕ) (stream : Bytes)
    → packets (progress (stun_header first) [] 19 (c ∷ l1 ∷ l0 ∷ stream))
      ≡ framed from_start (read_stun_header first (c ∷ l1 ∷ l0 ∷ stream))
unfolding framed read_stun_header progress complete packets
stun_message-framed first c l1 l0 stream =
    let n = word16 l1 l0 in
    let header = first ∷ c ∷ l1 ∷ l0 ∷ take 16 stream in
    let head_test : ltb (suc (suc (suc (length stream)))) 19 ≡ ltb (length stream) 16 =
      ground arith in
    elim (Bool-cases (ltb (length stream) 16)) [
      | inl y ↦
          let short : ltb (length stream) (16 + n) ≡ true = ground (arith, y) in
          rw (head_test, y, short) refl
      | inr m ↦
          let body_test : ltb (length (drop 16 stream)) n ≡ ltb (length stream) (16 + n) =
            ground (arith, m, length-drop 16 stream) in
          rw (head_test, m)
            (stun_body-packets header n (drop 16 stream)
              ∙ rw (take-add 16 n stream, drop-add 16 n stream, body_test)
                  (elim (Bool-cases (ltb (length stream) (16 + n))) [
                    | inl y' ↦ rw y' refl
                    | inr m' ↦ rw m' refl
                  ]))
    ]

stun_header-framed :
    (first : ℕ) (stream : Bytes)
    → packets (run (reading (stun_header first) []) stream)
      ≡ framed from_start (read_stun_header first stream)
unfolding framed read_stun_header progress complete packets
stun_header-framed first (c ∷ l1 ∷ l0 ∷ stream) =
    ap packets (run-progress (stun_header first) 18 [] (c ∷ l1 ∷ l0 ∷ stream) (omega arith))
    ∙ stun_message-framed first c l1 l0 stream
stun_header-framed first [] = ap packets (run-progress (stun_header first) 18 [] [] (omega arith))
stun_header-framed first (c ∷ []) =
    ap packets (run-progress (stun_header first) 18 [] (c ∷ []) (omega arith))
stun_header-framed first (c ∷ l1 ∷ []) =
    ap packets (run-progress (stun_header first) 18 [] (c ∷ l1 ∷ []) (omega arith))

pub first_byte-framed :
    (stream : Bytes) → from_start stream ≡ framed from_start (read_first_byte stream)
unfolding framed from_start read_first_byte packets run on_byte complete settle
first_byte-framed [] = refl
first_byte-framed (b ∷ stream) = elim (Bool-cases (bit_and (b / 2 ^ 6) 0x03 == 0x01)) [
  | inl y ↦ rw y (
      ap packets (onward-silent (reading (channel_header b) []) stream)
      ∙ channel_header-framed b stream)
  | inr m ↦
      rw m (
        ap packets (onward-silent (reading (stun_header b) []) stream)
        ∙ stun_header-framed b stream)
]
