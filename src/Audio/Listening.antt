-- ===== src/Audio/Listening.antt =====
-- client_cli/src/audio/playback.cpp: what is heard of the samples that are written.
use zaza.Common.{
  ℕ, zero, suc, ◌+◌, ◌-◌, ◌*◌, ◌/◌, ◌%◌, ◌^◌, ◌<◌, ◌≡◌, refl, sym, ap, ◌∙◌, arith, true, ◌&&◌, List,
  [], ◌∷◌, ◌++◌, if◌then◌else◌, length, if_true, drop-nil, take, drop, replicate,
}
use zaza.Common.Checked.{Checked, ret, ◌>>=◌}
use zaza.Audio.JitterBuffer.{JitterBuffer, jitter_buffer}
use zaza.Audio.Ring.{Ring, contents, window}
use zaza.Audio.Queue.{write-contents, read_samples-contents, jitter_buffer-Ring}
use zaza.Audio.Playback.{
  Playback, playback, start_playback, play_file, play_frame, play_turn, play_turns,
}

-- That many of the samples, with silence behind them.
unfoldable pub padded : ℕ → List ℕ → List ℕ
padded zero samples = []
padded (suc n) [] = 0 ∷ padded n []
padded (suc n) (x ∷ samples) = x ∷ padded n samples

padded-none : (n : ℕ) → padded n [] ≡ replicate n 0
unfolding padded
padded-none zero = refl
padded-none (suc n) = ap (λ xs. 0 ∷ xs) (padded-none n)

take-replicate-padded :
    (n : ℕ) (samples : List ℕ)
    → take n samples ++ replicate (n - length samples) 0 ≡ padded n samples
unfolding padded
take-replicate-padded zero samples = let e : 0 - length samples ≡ 0 = omega arith in rw e refl
take-replicate-padded (suc n) [] =
    let e : suc n - 0 ≡ suc n = omega arith in rw e (sym (padded-none (suc n)))
take-replicate-padded (suc n) (x ∷ samples) =
    let e : suc n - suc (length samples) ≡ n - length samples = omega arith in
    rw e (ap (λ xs. x ∷ xs) (take-replicate-padded n samples))

padded-add :
    (m n : ℕ) (samples : List ℕ)
    → padded (m + n) samples ≡ padded m samples ++ padded n (drop m samples)
unfolding padded
padded-add zero n samples = let e : 0 + n ≡ n = omega arith in ap (λ k. padded k samples) e
padded-add (suc m) n [] =
    let e : suc m + n ≡ suc (m + n) = omega arith in
    ap (λ k. padded k []) e
    ∙ ap (λ xs. 0 ∷ xs)
        (padded-add m n [] ∙ ap (λ xs. padded m [] ++ padded n xs) (sym (drop-nil m)))
padded-add (suc m) n (x ∷ samples) =
    let e : suc m + n ≡ suc (m + n) = omega arith in
    ap (λ k. padded k (x ∷ samples)) e ∙ ap (λ xs. x ∷ xs) (padded-add m n samples)

length-window : (buf : List ℕ) (capacity pos n : ℕ) → length (window buf capacity pos n) ≡ n
unfolding window
length-window buf capacity pos zero = refl
length-window buf capacity pos (suc n) =
    ap suc (length-window buf capacity ((pos + 1) % capacity) n)

-- The thread is in its loop and has the device.
pub record Playing (p : Playback) : Type 0 where
  pub runs : p.running ≡ true
  pub loops : p.looping ≡ true
  pub device : p.has_device ≡ true
  pub ring : Ring p.jitter

after_read : Playback → JitterBuffer × List ℕ → Checked (Playback × List ℕ)
after_read p r =
    let q : Playback = record p { jitter = r.0 } in ret (if p.has_device then (q, r.1) else (q, []))

play_turn-padded :
    (p : Playback)
    → Playing p
    → (p' : Playback) × (play_turn p true ≡ ret (p', padded p.frame_size (contents p.jitter)))
      × Playing p'
      × (p'.frame_size ≡ p.frame_size)
      × (contents p'.jitter ≡ drop p.frame_size (contents p.jitter))
unfolding play_turn play_frame contents after_read
play_turn-padded p l =
    let (b, out, runs, ring, left, given) = read_samples-contents p.jitter p.frame_size l.ring in
    let size =
      length-window p.jitter.buffer p.jitter.capacity p.jitter.read_pos p.jitter.available in
    let p' : Playback = record p { jitter = b } in
    let on : (p.running && p.looping) ≡ true =
      let r = l.runs in let o = l.loops in ground (arith, r, o) in
    let heard : out ≡ padded p.frame_size (contents p.jitter) =
      given
      ∙ ap (λ a. take p.frame_size (contents p.jitter) ++ replicate (p.frame_size - a) 0) (sym size)
      ∙ take-replicate-padded p.frame_size (contents p.jitter) in
    (
      p',
      if_true (play_frame p true) (ret (p, [])) (p.running && p.looping) on
          ∙ ap (λ r. r >>= after_read p) runs
          ∙ ap ret (if_true (p', out) (p', []) p.has_device l.device)
          ∙ ap (λ o. ret (p', o)) heard,
      record { runs = l.runs; loops = l.loops; device = l.device; ring = ring },
      refl,
      left,
    )

-- Turns give what is held, in order, and then silence.
pub play_turns-padded :
    (p : Playback) (n : ℕ)
    → Playing p
    → (p' : Playback) × (play_turns p n ≡ ret (p', padded (n * p.frame_size) (contents p.jitter)))
unfolding play_turns padded
play_turns-padded p zero l = let e : 0 * p.frame_size ≡ 0 = omega arith in (p, rw e refl)
play_turns-padded p (suc n) l =
    let (p1, first, l1, same_size, left) = play_turn-padded p l in
    let (p2, later) = play_turns-padded p1 n l1 in
    let e : suc n * p.frame_size ≡ p.frame_size + n * p.frame_size = omega arith in
    let c = contents p.jitter in
    let f = p.frame_size in
    let joined : padded f c ++ padded (n * p1.frame_size) (contents p1.jitter)
        ≡ padded (suc n * f) c =
      ap (λ k. padded f c ++ padded (n * k) (contents p1.jitter)) same_size
      ∙ ap (λ xs. padded f c ++ padded (n * f) xs) left
      ∙ sym (padded-add f (n * f) c)
      ∙ sym (ap (λ k. padded k c) e) in
    (p2, rw (first, ◌>>=◌) (rw (later, ◌>>=◌) (ap (λ o. ret (p2, o)) joined)))

-- Of a file that is played while nothing is held, the first samples are heard, as many as the jitter buffer has room for,
-- which is 50 milliseconds of them; whatever the rest of the file is, it is dropped, and silence follows.
pub play_file-cut :
    (sample_rate frame_ms n : ℕ) (samples : List ℕ)
    → 0 < 50 * sample_rate % 2 ^ 32 / 1000
    → let p = start_playback (playback sample_rate frame_ms) true in
      (p' : Playback) × (p'' : Playback) × (play_file p samples ≡ ret p')
      × (play_turns p' n
          ≡ ret (p'', padded (n * p.frame_size) (take (50 * sample_rate % 2 ^ 32 / 1000) samples)))
unfolding start_playback playback play_file contents jitter_buffer window
play_file-cut sample_rate frame_ms n samples h =
    let p = start_playback (playback sample_rate frame_ms) true in
    let room = 50 * sample_rate % 2 ^ 32 / 1000 in
    let (b, runs, ring, same_capacity, held) =
      write-contents p.jitter samples (jitter_buffer-Ring 50 sample_rate h) in
    let p' : Playback = record p { jitter = b } in
    let (p'', turns) =
      play_turns-padded p' n record { runs = refl; loops = refl; device = refl; ring = ring } in
    let all_free : room - 0 ≡ room = omega arith in
    (
      p',
      p'',
      ap (λ r. r >>= λ c. ret (record p { jitter = c })) runs,
      turns
          ∙ ap (λ c. ret (p'', padded (n * p.frame_size) c))
              (held ∙ ap (λ k. take k samples) all_free),
    )
