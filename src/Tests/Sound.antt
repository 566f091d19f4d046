-- ===== src/Tests/Sound.antt =====
-- Runs of the microphone and the loudspeaker, and their theorems at concrete inputs.
use zaza.Common.{
  ◌*◌, ◌^◌, ◌<◌, ◌≡◌, refl, arith, true, false, Bytes, bytes, List, [], ◌∷◌, some, All, length,
  take,
}
use zaza.Common.Checked.{ret}
use zaza.Audio.Capture.{
  Capture, capture, start_capture, set_muted, start_recording, stop_recording, samples_of, hear,
  read_device, turn, Event, reads, mutes, on_event, run_capture,
}
use zaza.Audio.Recording.{heard, Silent, muted-recorded}
use zaza.Audio.Wav.{WavHeader, wav_samples, write_wav, read_wav, fill_samples}
use zaza.Audio.Playback.{Playback, playback, start_playback, play_file, play_turns}
use zaza.Audio.Listening.{padded, play_file-cut}
use zaza.Client.Sound.{start_sound, init_audio, on_capture, hears}
use zaza.Client.Recordings.{recorded_file, recording_lost}

abbrev quiet : Capture
unfolding capture start_capture set_muted
quiet = set_muted (start_capture (capture 48000 20) true) true

-- Two reads, of two samples and of one sample and a half.
abbrev noise : List Event
noise = reads (1 ∷ 0 ∷ 2 ∷ 1 ∷ []) ∷ mutes true ∷ reads (7 ∷ 0 ∷ 9 ∷ []) ∷ []

noise_test :
    (heard noise ≡ 1 ∷ 258 ∷ 7 ∷ [])
    × ((run_capture (start_recording quiet) noise).1 ≡ (0 ∷ 0 ∷ []) ∷ (0 ∷ []) ∷ [])
unfolding heard samples_of fill_samples run_capture on_event turn read_device hear start_recording
    capture start_capture set_muted
noise_test = (refl, refl)

muted-recorded_example :
    All Silent (run_capture (start_recording quiet) noise).1
    × ((stop_recording (run_capture (start_recording quiet) noise).0).1 ≡ heard noise)
unfolding capture start_capture set_muted
muted-recorded_example =
    muted-recorded quiet noise record { runs = refl; loops = refl; device = refl } refl
      (tt, (tt, (tt, tt))) (tt, (refl, (tt, tt)))

abbrev header : WavHeader
header = record { sample_rate = 0; num_channels = 0; bits_per_sample = 0; num_samples = 0 }

noise-All : All (λ x. x < 2 ^ 16) (heard noise)
unfolding heard samples_of fill_samples
noise-All = (omega arith, (omega arith, (omega arith, tt)))

noise-length : length (heard noise) * 2 < 2 ^ 32
unfolding heard samples_of fill_samples
noise-length = omega arith

recorded_file_example :
    (file : Bytes) × ((on_capture
        (hears (on_capture (init_audio start_sound true) true).0 noise)
        false).1
      ≡ some file)
    × (read_wav (λ i. i) (bytes "a.wav") header file
        ≡ wav_samples
            (record {
              sample_rate = 48000;
              num_channels = 1;
              bits_per_sample = 16;
              num_samples = length (heard noise);
            })
            (heard noise))
recorded_file_example =
    recorded_file (λ i. i) start_sound (bytes "a.wav") header noise (tt, (tt, (tt, tt))) noise-All
      noise-length

recording_lost_example :
    (on_capture
      (hears
        (init_audio (hears (on_capture (init_audio start_sound true) true).0 noise) true)
        noise)
      false).1
    ≡ some (write_wav [] 48000 1 16)
recording_lost_example = recording_lost (init_audio start_sound true) true noise noise

play_file-cut_example :
    (p' : Playback) × (p'' : Playback) × (play_file
        (start_playback (playback 100 20) true)
        (1 ∷ 2 ∷ 3 ∷ 4 ∷ 5 ∷ 6 ∷ [])
      ≡ ret p')
    × (play_turns p' 4
        ≡ ret (
          p'',
          padded
              (4 * (start_playback (playback 100 20) true).frame_size)
              (take 5 (1 ∷ 2 ∷ 3 ∷ 4 ∷ 5 ∷ 6 ∷ [])),
        ))
play_file-cut_example = play_file-cut 100 20 4 (1 ∷ 2 ∷ 3 ∷ 4 ∷ 5 ∷ 6 ∷ []) (omega arith)
