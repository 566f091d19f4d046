-- ===== src/Audio/Playback.antt =====
-- client_cli/src/audio/playback.cpp: the loudspeaker behind the jitter buffer. A turn is one round of the loop of the
-- thread; it returns the frame that is written to the device.
use zaza.Common.{
  ℕ, zero, suc, ◌*◌, ◌/◌, ◌%◌, ◌^◌, Bool, true, false, ◌&&◌, List, [], ◌++◌, if◌then◌else◌,
}
use zaza.Common.Checked.{Checked, ret, ◌>>=◌}
use zaza.Audio.JitterBuffer.{JitterBuffer, jitter_buffer, write, read_samples, clear}

-- `looping` tells whether the thread is in its loop, `has_device` whether it has opened the device.
pub record Playback : Type 0 where
  pub frame_size : ℕ
  pub running : Bool
  pub looping : Bool
  pub has_device : Bool
  pub jitter : JitterBuffer

-- The constructor; the product of the two 32-bit numbers wraps.
unfoldable pub playback : ℕ → ℕ → Playback
unfolding jitter_buffer
playback sample_rate frame_ms = record {
  frame_size = sample_rate * frame_ms % 2 ^ 32 / 1000;
  running = false;
  looping = false;
  has_device = false;
  jitter = jitter_buffer 50 sample_rate;
}

-- The flag tells whether `openDevice` succeeds.
unfoldable pub start_playback : Playback → Bool → Playback
start_playback p opens =
    if p.running then p else record p { running = true; looping = true; has_device = opens }

unfoldable pub stop_playback : Playback → Playback
unfolding clear
stop_playback p = record p {
  running = false;
  looping = false;
  has_device = false;
  jitter = clear p.jitter;
}

unfoldable pub write_playback : Playback → List ℕ → Checked Playback
unfolding write
write_playback p samples = write p.jitter samples >>= λ b. ret (record p { jitter = b })

unfoldable pub play_file : Playback → List ℕ → Checked Playback
unfolding write
play_file p samples = write p.jitter samples >>= λ b. ret (record p { jitter = b })

-- The flag tells whether the device takes the frame.
unfoldable pub play_frame : Playback → Bool → Checked (Playback × List ℕ)
unfolding read_samples
play_frame p takes = read_samples p.jitter p.frame_size >>= λ (r : JitterBuffer × List ℕ).
    let q : Playback = record p { jitter = r.0 } in
    ret (
      if p.has_device
      then (if takes then (q, r.1) else (record q { looping = false; has_device = false }, []))
      else (q, []))

unfoldable pub play_turn : Playback → Bool → Checked (Playback × List ℕ)
unfolding play_frame
play_turn p takes = if p.running && p.looping then play_frame p takes else ret (p, [])

-- Some turns in which the device takes every frame.
unfoldable pub play_turns : Playback → ℕ → Checked (Playback × List ℕ)
unfolding play_turn
play_turns p zero = ret (p, [])
play_turns p (suc n) = play_turn p true >>= λ (r : Playback × List ℕ).
    play_turns r.0 n >>= λ (later : Playback × List ℕ). ret (later.0, r.1 ++ later.1)
