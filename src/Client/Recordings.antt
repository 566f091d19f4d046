-- ===== src/Client/Recordings.antt =====
-- client_cli/src/main.cpp: what is in the file of a recording.
use zaza.Common.{
  ℕ, ◌*◌, ◌^◌, ◌<◌, ◌≡◌, refl, ap, arith, Bool, true, false, Bytes, List, [], some, All, length,
}
use zaza.Audio.Capture.{
  Capture, capture, start_capture, start_recording, stop_recording, Event, run_capture,
}
use zaza.Audio.Recording.{heard, Succeeds, run_capture-record_buf, run_capture-idle}
use zaza.Audio.Wav.{WavHeader, wav_samples, write_wav, read_wav}
use zaza.Audio.WavFile.{read-write_wav}
use zaza.Client.Sound.{Sound, init_audio, on_capture, hears}

-- A recording of a call is saved: the file that the command `stop` writes is read back as exactly the samples
-- that the microphone gave since the command `record`, muted or not, where the device could be read and the recording is short
-- enough for the format.
pub recorded_file :
    (stale : ℕ → ℕ) (sound : Sound) (filename : Bytes) (header : WavHeader) (events : List Event)
    → All Succeeds events
    → All (λ x. x < 2 ^ 16) (heard events)
    → length (heard events) * 2 < 2 ^ 32
    → let s = hears (on_capture (init_audio sound true) true).0 events in
      (file : Bytes) × ((on_capture s false).1 ≡ some file)
      × (read_wav stale filename header file
          ≡ wav_samples
              (record {
                sample_rate = 48000;
                num_channels = 1;
                bits_per_sample = 16;
                num_samples = length (heard events);
              })
              (heard events))
unfolding hears on_capture init_audio start_capture capture start_recording stop_recording
recorded_file stale sound filename header events h small short =
    let c : Capture = start_recording (start_capture (capture 48000 20) true) in
    let kept : (run_capture c events).0.record_buf ≡ heard events =
      run_capture-record_buf c events record { runs = refl; loops = refl; device = refl } refl h in
    (
      write_wav (heard events) 48000 1 16,
      ap (λ samples. some (write_wav samples 48000 1 16)) kept,
      read-write_wav stale filename header (heard events) 48000 1 small (omega arith) (omega arith)
          short,
    )

-- A recording that goes on when the next call begins is lost: the file that `stop` writes is that of no samples, whatever was
-- heard in the two calls.
pub recording_lost :
    (s : Sound) (opens : Bool) (before after : List Event)
    → let first = hears (on_capture s true).0 before in
      (on_capture (hears (init_audio first opens) after) false).1 ≡ some (write_wav [] 48000 1 16)
unfolding hears on_capture init_audio start_capture capture stop_recording
recording_lost s opens before after =
    ap (λ samples. some (write_wav samples 48000 1 16))
      (run_capture-idle (start_capture (capture 48000 20) opens) after refl)
