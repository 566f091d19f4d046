-- ===== src/Audio/Wav.antt =====
-- client_cli/src/audio/wav.cpp. A file is the list of its bytes, a sample the 16 bits that stand
-- for it. Opening and writing a file are taken to succeed.
use zaza.Common.{
  ℕ, zero, suc, ◌+◌, ◌-◌, ◌*◌, ◌/◌, ◌%◌, ◌^◌, Bool, true, false, not, ◌&&◌, Bytes, bytes, List, [],
  ◌∷◌, ◌++◌, ltb, ◌==◌, same, bytes_eq, if◌then◌else◌, length, take, drop, byte_at, word16, word32,
}

pub record WavHeader : Type 0 where
  pub sample_rate : ℕ
  pub num_channels : ℕ
  pub bits_per_sample : ℕ
  pub num_samples : ℕ

unfoldable pub write_u32_le : ℕ → Bytes → Bytes
write_u32_le val rest = byte_at val 0 ∷ byte_at val 8 ∷ byte_at val 16 ∷ byte_at val 24 ∷ rest

unfoldable pub write_u16_le : ℕ → Bytes → Bytes
write_u16_le val rest = byte_at val 0 ∷ byte_at val 8 ∷ rest

-- The memory of the samples.
unfoldable pub sample_bytes : List ℕ → Bytes
unfolding write_u16_le
sample_bytes [] = []
sample_bytes (s ∷ samples) = write_u16_le s (sample_bytes samples)

-- `static_cast<uint32_t>(samples.size() * sizeof(int16_t))`
abbrev pub data_size : List ℕ → ℕ
data_size samples = length samples * 2 % 2 ^ 32

-- What stands in front of the data, up to its size, and then the data.
unfoldable pub write_front : ℕ → ℕ → ℕ → ℕ → ℕ → Bytes → Bytes
unfolding write_u32_le write_u16_le
write_front riff_size sample_rate num_channels bits size payload =
    bytes "RIFF"
    ++ write_u32_le (riff_size % 2 ^ 32) (
        bytes "WAVE"
        ++ (bytes "fmt "
            ++ write_u32_le 16 (
                write_u16_le 1 (
                  write_u16_le num_channels (
                    write_u32_le sample_rate (
                      write_u32_le (sample_rate * num_channels * (bits / 8) % 2 ^ 32) (
                        write_u16_le (num_channels * (bits / 8) % 2 ^ 16)
                          (write_u16_le bits (bytes "data" ++ write_u32_le size payload)))))))))

unfoldable pub write_wav : List ℕ → ℕ → ℕ → ℕ → Bytes
unfolding write_front sample_bytes
write_wav samples sample_rate num_channels bits =
    let size = data_size samples in
    write_front (36 + size) sample_rate num_channels bits size (take size (sample_bytes samples))

-- What is left of a file, and whether no read has failed.
pub record Stream : Type 0 where
  pub rest : Bytes
  pub good : Bool

-- The samples, with the header; a `WavError`; a write behind the end of the buffer of samples.
pub data WavResult : Type 0 where
  wav_samples : WavHeader → List ℕ → WavResult
  wav_error : Bytes → WavResult
  overrun no_fuel : WavResult

-- The samples that `resize` makes and `read` fills from some bytes.
unfoldable pub fill_samples : ℕ → Bytes → List ℕ
unfolding word16
fill_samples zero got = []
fill_samples (suc n) [] = 0 ∷ fill_samples n []
fill_samples (suc n) (a ∷ []) = a ∷ fill_samples n []
fill_samples (suc n) (a ∷ b ∷ got) = word16 b a ∷ fill_samples n got

-- `stale` stands for what the memory of a buffer holds where a read came short.
module _ (stale : ℕ → ℕ) where
  -- A buffer of some bytes from the front of a file: the buffer, what is left, and whether the
  -- file had them.
  unfoldable pub fill : ℕ → Bytes → Bytes × Bytes × Bool
  fill zero file = ([], file, true)
  fill (suc n) [] = let (buf, _, _) = fill n [] in (stale n ∷ buf, [], false)
  fill (suc n) (c ∷ file) = let (buf, rest, whole) = fill n file in (c ∷ buf, rest, whole)

  unfoldable pub read_bytes : ℕ → Stream → Bytes × Stream
  unfolding fill
  read_bytes n in_ =
      if in_.good
      then (let (buf, rest, whole) = fill n in_.rest in (buf, record { rest = rest; good = whole }))
      else ((fill n []).0, in_)

  -- The value of a little-endian buffer.
  unfoldable pub value32 : Bytes → ℕ
  unfolding word32
  value32 (a ∷ b ∷ c ∷ d ∷ buf) = word32 d c b a
  value32 buf = 0

  unfoldable pub value16 : Bytes → ℕ
  unfolding word16
  value16 (a ∷ b ∷ buf) = word16 b a
  value16 buf = 0

  unfoldable pub read_u32_le : Stream → ℕ × Stream
  unfolding read_bytes value32
  read_u32_le in_ = let (buf, in') = read_bytes 4 in_ in (value32 buf, in')

  unfoldable pub read_u16_le : Stream → ℕ × Stream
  unfolding read_bytes value16
  read_u16_le in_ = let (buf, in') = read_bytes 2 in_ in (value16 buf, in')

  -- `in.seekg(count, std::ios::cur)`
  abbrev pub seek : ℕ → Stream → Stream
  seek count in_ = if in_.good then record in_ { rest = drop count in_.rest } else in_

  -- `std::strncmp(buf, word, 4) == 0`
  abbrev pub is_word : Bytes → Bytes → Bool
  is_word buf word = same buf word

  -- The chunk `fmt `: the header, and the file behind the chunk.
  pub data FmtRead : Type 0 where
    fmt_read : WavHeader → Stream → FmtRead
    fmt_error : Bytes → FmtRead

  unfoldable pub read_format : Bytes → ℕ → WavHeader → Stream → FmtRead
  unfolding read_u16_le read_u32_le
  read_format filename chunk_size header in_ =
      let (num_channels, in2) = read_u16_le in_ in
      let (sample_rate, in3) = read_u32_le in2 in
      let (byte_rate, in4) = read_u32_le in3 in
      let (block_align, in5) = read_u16_le in4 in
      let (bits, in6) = read_u16_le in5 in
      if not (bits == 16)
      then fmt_error (bytes "only 16-bit WAV supported: " ++ filename)
      else fmt_read
          (record header {
            num_channels = num_channels;
            sample_rate = sample_rate;
            bits_per_sample = bits;
          })
          (if ltb 16 chunk_size then seek (chunk_size - 16) in6 else in6)

  unfoldable pub read_fmt : Bytes → ℕ → WavHeader → Stream → FmtRead
  unfolding read_u16_le read_format
  read_fmt filename chunk_size header in_ =
      let (format, in1) = read_u16_le in_ in
      if not (format == 1)
      then fmt_error (bytes "only PCM WAV supported: " ++ filename)
      else read_format filename chunk_size header in1

  -- The chunk `data`: the buffer has two bytes for each sample, and `read` writes what the file
  -- has of the chunk.
  unfoldable pub read_data : ℕ → WavHeader → Stream → WavResult
  unfolding fill_samples
  read_data chunk_size header in_ =
      let count = chunk_size / 2 in
      let got = if in_.good then take chunk_size in_.rest else [] in
      if ltb (2 * count) (length got)
      then overrun
      else wav_samples (record header { num_samples = count }) (fill_samples count got)

  -- The loop over the chunks; the fuel is one more than the bytes of the file.
  unfoldable pub read_loop : Bytes → ℕ → Bool → WavHeader → Stream → WavResult
  unfolding read_bytes read_u32_le read_fmt read_data
  read_loop filename zero found_fmt header in_ = no_fuel
  read_loop filename (suc fuel) found_fmt header in_ =
      let (id, in1) = read_bytes 4 in_ in
      let (chunk_size, in2) = read_u32_le in1 in
      elim (in_.good && in1.good) [
        | false ↦ wav_error (bytes "no data chunk: " ++ filename)
        | true ↦ elim (is_word id (bytes "fmt ")) [
          | true ↦ elim (read_fmt filename chunk_size header in2) [
            | fmt_error text ↦ wav_error text
            | fmt_read header' in' ↦ read_loop filename fuel true header' in'
          ]
          | false ↦ elim (is_word id (bytes "data")) [
            | true ↦
                if not found_fmt
                then wav_error (bytes "data chunk before fmt: " ++ filename)
                else read_data chunk_size header in2
            | false ↦ read_loop filename fuel found_fmt header (seek chunk_size in2)
          ]
        ]
      ]

  unfoldable pub read_wav : Bytes → WavHeader → Bytes → WavResult
  unfolding read_bytes read_u32_le read_loop
  read_wav filename header file =
      let (riff, in1) = read_bytes 4 (record { rest = file; good = true }) in
      let (size, in2) = read_u32_le in1 in
      let (wave, in3) = read_bytes 4 in2 in
      if not (is_word riff (bytes "RIFF"))
      then wav_error (bytes "not a RIFF file: " ++ filename)
      else if not (is_word wave (bytes "WAVE"))
      then wav_error (bytes "not a WAVE file: " ++ filename)
      else read_loop filename (suc (length file)) false header in3
