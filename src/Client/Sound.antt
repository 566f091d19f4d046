-- ===== src/Client/Sound.antt =====
-- client_cli/src/main.cpp: the microphone and the loudspeaker in the callbacks of `main`. The content of a file that is
-- written is returned.
use zaza.Common.{ℕ, Bool, true, false, Bytes, List, Option, none, some}
use zaza.Common.Checked.{Checked, ret, ◌>>=◌}
use zaza.Audio.Capture.{
  Capture, capture, start_capture, stop_capture, start_recording, stop_recording, samples_of, Event,
  run_capture,
}
use zaza.Audio.Playback.{
  Playback, playback, start_playback, stop_playback, write_playback, play_file,
}
use zaza.Audio.Wav.{WavHeader, wav_samples, wav_error, overrun, no_fuel, write_wav, read_wav}

pub record Sound : Type 0 where
  pub capture : Option Capture
  pub playback : Option Playback

unfoldable pub start_sound : Sound
start_sound = record { capture = none; playback = none }

-- `stopAudio`
unfoldable pub stop_audio : Sound → Sound
unfolding stop_capture stop_playback
stop_audio s = record {
  capture = elim s.capture [ none ↦ none | some c ↦ some (stop_capture c) ];
  playback = elim s.playback [ none ↦ none | some p ↦ some (stop_playback p) ];
}

-- The end of `initRtc`: the objects of an earlier call are destroyed.
unfoldable pub init_audio : Sound → Bool → Sound
unfolding capture start_capture playback
init_audio s opens = record s {
  capture = some (start_capture (capture 48000 20) opens);
  playback = some (playback 48000 20);
}

-- `pc->onTrack` and `track->onMessage`; without an object the pointer is null.
unfoldable pub on_track : Sound → Bool → Option Sound
unfolding start_playback
on_track s opens = elim s.playback [
  | none ↦ none
  | some p ↦ some (record s { playback = some (start_playback p opens) })
]

unfoldable pub on_audio : Sound → Bytes → Option (Checked Sound)
unfolding samples_of write_playback
on_audio s binary = elim s.playback [
  | none ↦ none
  | some p ↦
      some (write_playback p (samples_of binary) >>= λ q. ret (record s { playback = some q }))
]

-- `setCaptureCallback`: with the command `stop`, the file that `writeWav` writes.
unfoldable pub on_capture : Sound → Bool → Sound × Option Bytes
unfolding start_recording stop_recording write_wav
on_capture s start = elim s.capture [
  | none ↦ (s, none)
  | some c ↦ elim start [
    | true ↦ (record s { capture = some (start_recording c) }, none)
    | false ↦
        let (c', samples) = stop_recording c in
        (record s { capture = some c' }, some (write_wav samples 48000 1 16))
  ]
]

-- `setSendfileCallback`
unfoldable pub play_samples : Sound → List ℕ → Checked Sound
unfolding play_file
play_samples s samples = elim s.playback [
  | none ↦ ret s
  | some p ↦ (play_file p samples >>= λ q. ret (record s { playback = some q }))
]

unfoldable pub on_sendfile : (ℕ → ℕ) → Sound → Bytes → WavHeader → Bytes → Checked Sound
unfolding read_wav play_samples
on_sendfile stale s filename header file = elim (read_wav stale filename header file) [
  | wav_samples header' samples ↦ play_samples s samples
  | wav_error text ↦ ret s
  | overrun ↦ Checked.bad_access
  | no_fuel ↦ Checked.no_fuel
]

-- What the microphone hears.
unfoldable pub hears : Sound → List Event → Sound
unfolding run_capture
hears s events = elim s.capture [
  | none ↦ s
  | some c ↦ record s { capture = some (run_capture c events).0 }
]
