-- ===== src/Audio/WavFile.antt =====
-- What the reader of client_cli/src/audio/wav.cpp makes of a file.
use zaza.Common.{
  ℕ, zero, suc, ◌+◌, ◌*◌, ◌/◌, ◌^◌, ◌<◌, ◌≤◌, ◌≡◌, refl, ap, ◌∙◌, arith, true, false, Bytes, List,
  [], ◌∷◌, All, ltb, bytes_eq, length, length-take, take, word16-byte_at, word32-byte_at,
}
use zaza.Audio.Wav.{
  WavHeader, write_u32_le, write_u16_le, sample_bytes, data_size, write_front, write_wav,
  wav_samples, overrun, fill_samples, fill, read_bytes, value32, value16, read_u32_le, read_u16_le,
  read_format, read_fmt, read_data, read_loop, read_wav,
}

module _ (stale : ℕ → ℕ) where
  -- The reader comes to the data behind the front that `write_wav` writes.
  pub read_wav-front :
      (filename : Bytes) (header : WavHeader) (riff_size rate channels size : ℕ) (payload : Bytes)
      → channels < 2 ^ 16
      → rate < 2 ^ 32
      → size < 2 ^ 32
      → read_wav stale filename header (write_front riff_size rate channels 16 size payload)
        ≡ read_data stale size
            (record header { num_channels = channels; sample_rate = rate; bits_per_sample = 16 })
            (record { rest = payload; good = true })
  unfolding read_wav read_loop write_front read_bytes fill read_fmt read_format read_u16_le
      read_u32_le write_u16_le write_u32_le value16 value32
  read_wav-front filename header riff_size rate channels size payload a b c =
      rw
        (
          read_wav,
          read_loop,
          read_fmt,
          read_format,
          word32-byte_at 16 (omega arith),
          word16-byte_at 1 (omega arith),
          word16-byte_at 16 (omega arith),
          word16-byte_at channels a,
          word32-byte_at rate b,
          word32-byte_at size c,
        )
        refl

  -- The samples that are written are read back.
  fill-sample_bytes :
      (samples : List ℕ)
      → All (λ s. s < 2 ^ 16) samples
      → fill_samples (length samples) (sample_bytes samples) ≡ samples
  unfolding fill_samples sample_bytes write_u16_le
  fill-sample_bytes [] h = refl
  fill-sample_bytes (s ∷ samples) (h, hs) =
      ap (λ x. x ∷ fill_samples (length samples) (sample_bytes samples)) (word16-byte_at s h)
      ∙ ap (λ xs. s ∷ xs) (fill-sample_bytes samples hs)

  length-sample_bytes : (samples : List ℕ) → length (sample_bytes samples) ≡ length samples * 2
  unfolding sample_bytes write_u16_le
  length-sample_bytes [] = refl
  length-sample_bytes (s ∷ samples) = omega (arith, length-sample_bytes samples)

  take-all : (n : ℕ) (xs : Bytes) → length xs ≤ n → take n xs ≡ xs
  take-all zero [] h = refl
  take-all zero (x ∷ xs) h = absurd (omega (arith, h))
  take-all (suc n) [] h = refl
  take-all (suc n) (x ∷ xs) h = ap (λ ys. x ∷ ys) (take-all n xs (omega (arith, h)))

  -- A recording of 16-bit samples that `writeWav` writes is read back by `readWav`, with its rate
  -- and its channels, where it is short enough for the 32-bit sizes of the format; whatever the
  -- memory of the buffers holds, and whatever stood in the header.
  pub read-write_wav :
      (filename : Bytes) (header : WavHeader) (samples : List ℕ) (rate channels : ℕ)
      → All (λ s. s < 2 ^ 16) samples
      → channels < 2 ^ 16
      → rate < 2 ^ 32
      → length samples * 2 < 2 ^ 32
      → read_wav stale filename header (write_wav samples rate channels 16)
        ≡ wav_samples
            (record {
              sample_rate = rate;
              num_channels = channels;
              bits_per_sample = 16;
              num_samples = length samples;
            })
            samples
  unfolding write_wav read_data
  read-write_wav filename header samples rate channels h a b c =
      let size : data_size samples ≡ length samples * 2 = omega (arith, c) in
      let whole =
        take-all (length samples * 2) (sample_bytes samples)
          (omega (arith, length-sample_bytes samples)) in
      let half : length samples * 2 / 2 ≡ length samples = omega arith in
      let fits : ltb (2 * length samples) (length (sample_bytes samples)) ≡ false =
        ground (arith, length-sample_bytes samples) in
      rw
        (
          write_wav,
          size,
          whole,
          read_wav-front filename header (36 + length samples * 2) rate channels
              (length samples * 2) (sample_bytes samples) a b c,
          read_data,
          whole,
          half,
          fits,
          fill-sample_bytes samples h,
        )
        refl

  -- A file in the format of `writeWav` whose data chunk has an odd size, and is there in full:
  -- `readWav` writes one byte behind the end of its buffer of samples.
  pub read_wav-overrun :
      (filename : Bytes) (header : WavHeader) (riff_size rate channels half : ℕ) (payload : Bytes)
      → channels < 2 ^ 16
      → rate < 2 ^ 32
      → 2 * half + 1 < 2 ^ 32
      → 2 * half + 1 ≤ length payload
      → read_wav stale filename header
          (write_front riff_size rate channels 16 (2 * half + 1) payload)
        ≡ overrun
  unfolding read_data
  read_wav-overrun filename header riff_size rate channels half payload a b c d =
      let behind : ltb (2 * ((2 * half + 1) / 2)) (length (take (2 * half + 1) payload)) ≡ true =
        ground (arith, length-take (2 * half + 1) payload) in
      rw
        (
          read_wav-front filename header riff_size rate channels (2 * half + 1) payload a b c,
          read_data,
          behind,
        )
        refl
