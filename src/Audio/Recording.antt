-- ===== src/Audio/Recording.antt =====
-- client_cli/src/audio/capture.cpp: what a recording holds, and what a muted microphone gives.
use mathlib.Core.List.{append_assoc, append-nil}
use zaza.Common.{
  ℕ, zero, suc, ◌/◌, ◌≡◌, refl, sym, ap, ◌∙◌, arith, true, false, ◌&&◌, Bytes, List, [], ◌∷◌, ◌++◌,
  length, replicate, All, All-append, if_both, if_true,
}
use zaza.Audio.Capture.{
  Capture, start_recording, stop_recording, samples_of, hear, read_device, turn, Event, reads,
  mutes, set_muted, on_event, run_capture,
}

-- The samples of all reads.
unfoldable pub heard : List Event → List ℕ
heard [] = []
heard (reads got ∷ events) = samples_of got ++ heard events
heard (mutes muted ∷ events) = heard events

-- A read that does not fail.
abbrev pub Succeeds : Event → Type 0
Succeeds (reads []) = ⊥
Succeeds (reads (b ∷ got)) = Unit {0}
Succeeds (mutes muted) = Unit {0}

abbrev pub KeepsMuted : Event → Type 0
KeepsMuted (reads got) = Unit {0}
KeepsMuted (mutes muted) = muted ≡ true

-- The thread is in its loop and has the device.
pub record Listening (c : Capture) : Type 0 where
  pub runs : c.running ≡ true
  pub loops : c.looping ≡ true
  pub device : c.has_device ≡ true

turn-hear : (c : Capture) (b : ℕ) (got : Bytes) → Listening c → turn c (b ∷ got) ≡ hear c (b ∷ got)
unfolding turn read_device
turn-hear c b got l =
    let a = l.runs in let e = l.loops in let d = l.device in ground (arith, a, e, d)

appends : Capture → List ℕ → Capture
appends c samples = record c { record_buf = c.record_buf ++ samples }

turn-recorded :
    (c : Capture) (b : ℕ) (got : Bytes)
    → Listening c
    → c.recording ≡ true
    → (turn c (b ∷ got)).0 ≡ appends c (samples_of (b ∷ got))
unfolding hear appends
turn-recorded c b got l on =
    ap (λ (r : Capture × List (List ℕ)). r.0) (turn-hear c b got l)
    ∙ if_true (appends c (samples_of (b ∷ got))) c c.recording on

pub run_capture-record_buf :
    (c : Capture) (events : List Event)
    → Listening c
    → c.recording ≡ true
    → All Succeeds events
    → (run_capture c events).0.record_buf ≡ c.record_buf ++ heard events
unfolding run_capture on_event heard set_muted appends
run_capture-record_buf c [] l on h = sym (append-nil c.record_buf)
run_capture-record_buf c (mutes muted ∷ events) l on (h, hs) =
    run_capture-record_buf (record c { muted = muted }) events
      record { runs = l.runs; loops = l.loops; device = l.device } on hs
run_capture-record_buf c (reads [] ∷ events) l on (h, hs) = absurd h
run_capture-record_buf c (reads (b ∷ got) ∷ events) l on (h, hs) =
    let samples = samples_of (b ∷ got) in
    ap (λ (d : Capture). (run_capture d events).0.record_buf) (turn-recorded c b got l on)
    ∙ run_capture-record_buf (appends c samples) events
        record { runs = l.runs; loops = l.loops; device = l.device } on hs
    ∙ append_assoc c.record_buf samples (heard events)

-- Silence.
abbrev pub Silent : List ℕ → Type 0
Silent samples = All (λ x. x ≡ 0) samples

replicate-Silent : (n : ℕ) → Silent (replicate n 0)
replicate-Silent zero = tt
replicate-Silent (suc n) = (refl, replicate-Silent n)

hear-Silent : (c : Capture) (got : Bytes) → c.muted ≡ true → All Silent (hear c got).1
unfolding hear
hear-Silent c got quiet =
    let n = length got / 2 in
    rw quiet (
      if_both (All Silent) c.callback {x = replicate n 0 ∷ []} {y = []} (replicate-Silent n, tt) tt)

read_device-Silent : (c : Capture) (got : Bytes) → c.muted ≡ true → All Silent (read_device c got).1
unfolding read_device
read_device-Silent c [] quiet = tt
read_device-Silent c (b ∷ got) quiet = hear-Silent c (b ∷ got) quiet

turn-Silent : (c : Capture) (got : Bytes) → c.muted ≡ true → All Silent (turn c got).1
unfolding turn
turn-Silent c got quiet =
    let P : Capture × List (List ℕ) → Type 0 = λ r. All Silent r.1 in
    if_both P (c.running && c.looping)
      (if_both P c.has_device (read_device-Silent c got quiet) (
        if_both (All Silent) c.callback {x = replicate c.frame_size 0 ∷ []} {y = []}
          (replicate-Silent c.frame_size, tt) tt))
      tt

read_device-muted : (c : Capture) (got : Bytes) → (read_device c got).0.muted ≡ c.muted
unfolding read_device hear
read_device-muted c [] = refl
read_device-muted c (b ∷ got) = if_both (λ (d : Capture). d.muted ≡ c.muted) c.recording refl refl

turn-muted : (c : Capture) (got : Bytes) → (turn c got).0.muted ≡ c.muted
unfolding turn
turn-muted c got =
    let P : Capture × List (List ℕ) → Type 0 = λ r. r.0.muted ≡ c.muted in
    if_both P (c.running && c.looping) (if_both P c.has_device (read_device-muted c got) refl) refl

run_capture-Silent :
    (c : Capture) (events : List Event)
    → c.muted ≡ true
    → All KeepsMuted events
    → All Silent (run_capture c events).1
unfolding run_capture on_event set_muted
run_capture-Silent c [] quiet h = tt
run_capture-Silent c (reads got ∷ events) quiet (h, hs) =
    All-append Silent (turn c got).1 (run_capture (turn c got).0 events).1 (turn-Silent c got quiet)
      (run_capture-Silent (turn c got).0 events (turn-muted c got ∙ quiet) hs)
run_capture-Silent c (mutes muted ∷ events) quiet (h, hs) =
    run_capture-Silent (record c { muted = muted }) events h hs

-- While the microphone is muted, its callback gets only silence, and a recording holds all that is read all the same, in
-- order, as long as the device can be read.
pub muted-recorded :
    (c : Capture) (events : List Event)
    → Listening c
    → c.muted ≡ true
    → All Succeeds events
    → All KeepsMuted events
    → let (c', given) = run_capture (start_recording c) events in
      All Silent given × ((stop_recording c').1 ≡ heard events)
unfolding start_recording stop_recording
muted-recorded c events l quiet h k =
    let c0 : Capture = record c { record_buf = []; recording = true } in
    (
      run_capture-Silent c0 events quiet k,
      run_capture-record_buf c0 events record { runs = l.runs; loops = l.loops; device = l.device }
          refl h,
    )

hear-idle : (c : Capture) (got : Bytes) → c.recording ≡ false → (hear c got).0 ≡ c
unfolding hear
hear-idle c got e = ground (arith, e)

-- The state of the recording stays as it is.
Idle : Capture → Capture × List (List ℕ) → Type 0
Idle c r = (r.0.recording ≡ false) × (r.0.record_buf ≡ c.record_buf)

read_device-Idle : (c : Capture) (got : Bytes) → c.recording ≡ false → Idle c (read_device c got)
unfolding read_device Idle
read_device-Idle c [] e = (e, refl)
read_device-Idle c (b ∷ got) e = (
  ap (λ (d : Capture). d.recording) (hear-idle c (b ∷ got) e) ∙ e,
  ap (λ (d : Capture). d.record_buf) (hear-idle c (b ∷ got) e),
)

turn-Idle : (c : Capture) (got : Bytes) → c.recording ≡ false → Idle c (turn c got)
unfolding turn Idle
turn-Idle c got e =
    if_both (Idle c) (c.running && c.looping)
      (if_both (Idle c) c.has_device (read_device-Idle c got e) (e, refl)) (e, refl)

-- Without a recording nothing is stored.
pub run_capture-idle :
    (c : Capture) (events : List Event)
    → c.recording ≡ false
    → (run_capture c events).0.record_buf ≡ c.record_buf
unfolding run_capture on_event set_muted Idle
run_capture-idle c [] e = refl
run_capture-idle c (mutes muted ∷ events) e = run_capture-idle (record c { muted = muted }) events e
run_capture-idle c (reads got ∷ events) e =
    let (off, kept) = turn-Idle c got e in run_capture-idle (turn c got).0 events off ∙ kept
