-- ===== src/Tests/Audio.antt =====
-- Runs of the jitter buffer, and its theorems at concrete inputs.
use zaza.Common.{◌-◌, ◌≡◌, refl, arith, [], ◌∷◌, ◌++◌, take}
use zaza.Common.Checked.{ret}
use zaza.Audio.JitterBuffer.{JitterBuffer, jitter_buffer, store, write, read_samples}
use zaza.Audio.Wav.{WavHeader, wav_samples, overrun, write_front, write_wav, read_wav}
use zaza.Audio.WavFile.{read-write_wav, read_wav-overrun}
use zaza.Audio.Ring.{Ring, contents}
use zaza.Audio.Queue.{write-contents, jitter_buffer-Ring}

-- Three samples of room.
abbrev small : JitterBuffer
unfolding jitter_buffer
small = jitter_buffer 1 3000

small-Ring : Ring small
unfolding jitter_buffer
small-Ring = jitter_buffer-Ring 1 3000 (omega arith)

abbrev held : JitterBuffer
held = record {
  sample_rate = 3000;
  capacity = 3;
  buffer = 7 ∷ 8 ∷ 9 ∷ [];
  write_pos = 0;
  read_pos = 0;
  available = 3;
}

write_run : write small (7 ∷ 8 ∷ 9 ∷ 10 ∷ []) ≡ ret held
unfolding write store jitter_buffer
write_run = refl

read_run : read_samples held 2 ≡ ret (record held { read_pos = 2; available = 1 }, 7 ∷ 8 ∷ [])
unfolding read_samples
read_run = refl

abbrev any_header : WavHeader
any_header = record { sample_rate = 1; num_channels = 2; bits_per_sample = 3; num_samples = 4 }

read-write_wav_example :
    read_wav (λ i. 7) [] any_header (write_wav (1 ∷ 65535 ∷ []) 48000 1 16)
    ≡ wav_samples
        (record { sample_rate = 48000; num_channels = 1; bits_per_sample = 16; num_samples = 2 })
        (1 ∷ 65535 ∷ [])
read-write_wav_example =
    read-write_wav (λ i. 7) [] any_header (1 ∷ 65535 ∷ []) 48000 1 (omega arith, (omega arith, tt))
      (omega arith) (omega arith) (omega arith)

read_wav-overrun_example :
    read_wav (λ i. 7) [] any_header (write_front 39 48000 1 16 3 (1 ∷ 2 ∷ 3 ∷ [])) ≡ overrun
read_wav-overrun_example =
    read_wav-overrun (λ i. 7) [] any_header 39 48000 1 1 (1 ∷ 2 ∷ 3 ∷ []) (omega arith)
      (omega arith) (omega arith) (omega arith)

write-contents_example :
    (b : JitterBuffer) × (write small (7 ∷ 8 ∷ []) ≡ ret b)
    × Ring b
    × (b.capacity ≡ small.capacity)
    × (contents b ≡ contents small ++ take (small.capacity - small.available) (7 ∷ 8 ∷ []))
write-contents_example = write-contents small (7 ∷ 8 ∷ []) small-Ring
