-- ===== src/Audio/Capture.antt =====
-- client_cli/src/audio/capture.cpp: the microphone. The device gives the bytes of each read, none where the read fails;
-- samples are their 16-bit values. A turn is one round of the loop of the thread, which returns the calls of the
-- callback.
use zaza.Common.{
  ℕ, ◌*◌, ◌/◌, ◌%◌, ◌^◌, Bool, true, false, not, ◌&&◌, Bytes, List, [], ◌∷◌, ◌++◌, if◌then◌else◌,
  length, replicate,
}
use zaza.Audio.Wav.{fill_samples}

-- `callback` tells whether `callback_` is set, `looping` whether the thread is in its loop, and `has_device` whether
-- it has opened the device.
pub record Capture : Type 0 where
  pub frame_size : ℕ
  pub callback : Bool
  pub running : Bool
  pub looping : Bool
  pub has_device : Bool
  pub muted : Bool
  pub recording : Bool
  pub record_buf : List ℕ

-- The constructor; the product of the two 32-bit numbers wraps.
unfoldable pub capture : ℕ → ℕ → Capture
capture sample_rate frame_ms = record {
  frame_size = sample_rate * frame_ms % 2 ^ 32 / 1000;
  callback = false;
  running = false;
  looping = false;
  has_device = false;
  muted = false;
  recording = false;
  record_buf = [];
}

-- The flag tells whether `openDevice` succeeds.
unfoldable pub start_capture : Capture → Bool → Capture
start_capture c opens =
    if c.running
    then c
    else record c { callback = true; running = true; looping = true; has_device = opens }

unfoldable pub stop_capture : Capture → Capture
stop_capture c = record c { running = false; looping = false; has_device = false }

unfoldable pub set_muted : Capture → Bool → Capture
set_muted c muted = record c { muted = muted }

unfoldable pub start_recording : Capture → Capture
start_recording c = record c { record_buf = []; recording = true }

-- The samples are moved out.
unfoldable pub stop_recording : Capture → Capture × List ℕ
stop_recording c = (record c { recording = false; record_buf = [] }, c.record_buf)

-- `bytes / sizeof(int16_t)` samples of the frame.
unfoldable pub samples_of : Bytes → List ℕ
unfolding fill_samples
samples_of got = fill_samples (length got / 2) got

unfoldable pub hear : Capture → Bytes → Capture × List (List ℕ)
unfolding samples_of
hear c got =
    let samples = samples_of got in
    (
      if c.recording then record c { record_buf = c.record_buf ++ samples } else c,
      if not c.muted && c.callback
          then samples ∷ []
          else if c.callback
          then replicate (length got / 2) 0 ∷ []
          else [],
    )

unfoldable pub read_device : Capture → Bytes → Capture × List (List ℕ)
unfolding hear
read_device c [] = (record c { looping = false; has_device = false }, [])
read_device c (b ∷ got) = hear c (b ∷ got)

unfoldable pub turn : Capture → Bytes → Capture × List (List ℕ)
unfolding read_device
turn c got =
    if c.running && c.looping
    then (if c.has_device
        then read_device c got
        else (c, if c.callback then replicate c.frame_size 0 ∷ [] else []))
    else (c, [])

-- What happens to a capture during a call.
pub data Event : Type 0 where
  reads : Bytes → Event
  mutes : Bool → Event

unfoldable pub on_event : Capture → Event → Capture × List (List ℕ)
unfolding turn set_muted
on_event c (reads got) = turn c got
on_event c (mutes muted) = (set_muted c muted, [])

unfoldable pub run_capture : Capture → List Event → Capture × List (List ℕ)
unfolding on_event
run_capture c [] = (c, [])
run_capture c (e ∷ events) =
    let (c', given) = on_event c e in
    let (c'', later) = run_capture c' events in (c'', given ++ later)
