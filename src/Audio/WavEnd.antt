-- ===== src/Audio/WavEnd.antt =====
-- The loop of `readWav` in client_cli/src/audio/wav.cpp comes to its end on every file.
use zaza.Common.{
  ℕ, zero, suc, ◌+◌, ◌-◌, ◌*◌, ◌/◌, take, ◌≤◌, ◌<◌, ◌≡◌, ◌≢◌, refl, sym, subst, inl, inr, ◌⊎◌,
  arith, Bool, true, false, not, ◌&&◌, Bytes, bytes, [], ◌∷◌, ltb, ◌==◌, if◌then◌else◌, Bool-cases,
  if_both, length, length-drop,
}
use zaza.Audio.Wav.{
  WavHeader, Stream, WavResult, no_fuel, fill, read_bytes, read_u32_le, read_u16_le, seek, is_word,
  FmtRead, fmt_read, fmt_error, read_format, read_fmt, read_data, read_loop, read_wav,
}

if_true {ℓ} : {A : Type ℓ} (b : Bool) {x : A} (y : A) → b ≡ true → (if b then x else y) ≡ x
if_true true y e = refl
if_true false y e = absurd (cc)

module _ (stale : ℕ → ℕ) where
  -- A read leaves no more of the file, and a whole one leaves as many bytes less.
  fill-length : (n : ℕ) (file : Bytes) → length (fill stale n file).1 ≤ length file
  unfolding fill
  fill-length zero file = omega arith
  fill-length (suc n) [] = omega arith
  fill-length (suc n) (c ∷ file) = omega (arith, fill-length n file)

  fill-whole :
      (n : ℕ) (file : Bytes)
      → (fill stale n file).2 ≡ true
      → length (fill stale n file).1 + n ≡ length file
  unfolding fill
  fill-whole zero file e = omega arith
  fill-whole (suc n) [] e = absurd (cc)
  fill-whole (suc n) (c ∷ file) e = omega (arith, fill-whole n file e)

  left : Stream → ℕ
  left in_ = length in_.rest

  read_bytes-left : (n : ℕ) (in_ : Stream) → left (read_bytes stale n in_).1 ≤ left in_
  unfolding left read_bytes
  read_bytes-left n in_ =
      if_both (λ (r : Bytes × Stream). length r.1.rest ≤ length in_.rest) in_.good
        (fill-length n in_.rest) (omega arith)

  read_bytes-whole :
      (n : ℕ) (in_ : Stream)
      → in_.good ≡ true
      → (read_bytes stale n in_).1.good ≡ true
      → left (read_bytes stale n in_).1 + n ≡ left in_
  unfolding left read_bytes
  read_bytes-whole n in_ y e =
      subst (λ (r : Bytes × Stream). r.1.good ≡ true → length r.1.rest + n ≡ length in_.rest)
        (sym (if_true in_.good _ y)) (fill-whole n in_.rest) e

  read_u16-left : (in_ : Stream) → left (read_u16_le stale in_).1 ≤ left in_
  unfolding read_u16_le
  read_u16-left in_ = read_bytes-left 2 in_

  read_u32-left : (in_ : Stream) → left (read_u32_le stale in_).1 ≤ left in_
  unfolding read_u32_le
  read_u32-left in_ = read_bytes-left 4 in_

  seek-left : (n : ℕ) (in_ : Stream) → left (seek stale n in_) ≤ left in_
  unfolding left
  seek-left n in_ =
      if_both (λ (s : Stream). length s.rest ≤ length in_.rest) in_.good
        (omega (arith, length-drop n in_.rest)) (omega arith)

  -- The chunk `fmt ` ends in an error or leaves no more of the file.
  Leaves : Stream → FmtRead stale → Type 0
  Leaves in_ r =
      ((text : Bytes) × (r ≡ fmt_error text))
      ⊎ ((h : WavHeader) × (s : Stream) × (r ≡ fmt_read h s) × (left s ≤ left in_))

  read_format-Leaves :
      (filename : Bytes) (size : ℕ) (header : WavHeader) (in_ : Stream)
      → Leaves in_ (read_format stale filename size header in_)
  unfolding Leaves read_format
  read_format-Leaves filename size header in_ =
      let in2 = (read_u16_le stale in_).1 in
      let in3 = (read_u32_le stale in2).1 in
      let in4 = (read_u32_le stale in3).1 in
      let in5 = (read_u16_le stale in4).1 in
      let in6 = (read_u16_le stale in5).1 in
      let passed : left in6 ≤ left in_ = omega (
        arith,
        read_u16-left in_,
        read_u32-left in2,
        read_u32-left in3,
        read_u16-left in4,
        read_u16-left in5,
      ) in
      if_both (Leaves in_) (not ((read_u16_le stale in5).0 == 16)) (inl (_, refl)) (
        inr (
          _,
          _,
          refl,
          if_both (λ (s : Stream). left s ≤ left in_) (ltb 16 size)
              (omega (arith, passed, seek-left (size - 16) in6)) passed,
        ))

  wider :
      (in_ in1 : Stream) → left in1 ≤ left in_ → (r : FmtRead stale) → Leaves in1 r → Leaves in_ r
  unfolding Leaves
  wider in_ in1 h r (inl x) = inl x
  wider in_ in1 h r (inr (header, s, e, k)) = inr (header, s, e, omega (arith, h, k))

  read_fmt-Leaves :
      (filename : Bytes) (size : ℕ) (header : WavHeader) (in_ : Stream)
      → Leaves in_ (read_fmt stale filename size header in_)
  unfolding Leaves read_fmt
  read_fmt-Leaves filename size header in_ =
      if_both (Leaves in_) (not ((read_u16_le stale in_).0 == 1)) (inl (_, refl)) (
        wider in_ (read_u16_le stale in_).1 (read_u16-left in_) _
          (read_format-Leaves filename size header (read_u16_le stale in_).1))

  read_data-ends :
      (size : ℕ) (header : WavHeader) (in_ : Stream) → read_data stale size header in_ ≢ no_fuel
  unfolding read_data
  read_data-ends size header in_ =
      if_both (λ (r : WavResult). r ≢ no_fuel)
        (ltb (2 * (size / 2)) (length (if in_.good then take size in_.rest else [])))
        (λ e. absurd (cc)) (λ e. absurd (cc))

  -- Each round of the loop reads four bytes at least.
  read_loop-ends :
      (filename : Bytes) (fuel : ℕ) (found_fmt : Bool) (header : WavHeader) (in_ : Stream)
      → left in_ < fuel
      → read_loop stale filename fuel found_fmt header in_ ≢ no_fuel
  unfolding read_loop Leaves read_data
  read_loop-ends filename zero found_fmt header in_ h = absurd (omega (arith, h))
  read_loop-ends filename (suc fuel) found_fmt header in_ h =
      let id = (read_bytes stale 4 in_).0 in
      let in1 = (read_bytes stale 4 in_).1 in
      let size = (read_u32_le stale in1).0 in
      let in2 = (read_u32_le stale in1).1 in
      elim (Bool-cases (in_.good && in1.good)) [
        | inr n ↦ rw (read_loop, n) (λ e. absurd (cc))
        | inl y ↦
            let shorter : left in2 < fuel = omega (
              arith,
              h,
              read_u32-left in1,
              read_bytes-whole 4 in_ (ground (arith, y)) (ground (arith, y)),
            ) in
            elim (Bool-cases (is_word stale id (bytes "fmt "))) [
              | inl f ↦ elim (read_fmt-Leaves filename size header in2) [
                | inl (text, e) ↦ rw (read_loop, y, f, e) (λ e. absurd (cc))
                | inr (header', s, e, k) ↦
                    rw (read_loop, y, f, e)
                      (read_loop-ends filename fuel true header' s (omega (arith, k, shorter)))
              ]
              | inr f ↦ elim (Bool-cases (is_word stale id (bytes "data"))) [
                | inl d ↦
                    rw (read_loop, y, f, d)
                      (if_both (λ (r : WavResult). r ≢ no_fuel) (not found_fmt) (λ e. absurd (cc))
                        (read_data-ends size header in2))
                | inr d ↦
                    rw (read_loop, y, f, d)
                      (read_loop-ends filename fuel found_fmt header (seek stale size in2)
                        (omega (arith, shorter, seek-left size in2)))
              ]
            ]
      ]

  -- `readWav` comes to its end on every file: its loop reads the chunks of the file, and has fuel
  -- for one round more than the file has bytes, which no file uses up.
  pub read_wav-ends :
      (filename : Bytes) (header : WavHeader) (file : Bytes)
      → read_wav stale filename header file ≢ no_fuel
  unfolding read_wav left
  read_wav-ends filename header file =
      let in1 = (read_bytes stale 4 (record { rest = file; good = true })).1 in
      let in2 = (read_u32_le stale in1).1 in
      let in3 = (read_bytes stale 4 in2).1 in
      if_both (λ (r : WavResult). r ≢ no_fuel)
        (not (
          is_word stale (read_bytes stale 4 (record { rest = file; good = true })).0
            (bytes "RIFF")))
        (λ e. absurd (cc))
        (if_both (λ (r : WavResult). r ≢ no_fuel)
          (not (is_word stale (read_bytes stale 4 in2).0 (bytes "WAVE"))) (λ e. absurd (cc))
          (read_loop-ends filename (suc (length file)) false header in3 (
            omega (
              arith,
              read_bytes-left 4 (record { rest = file; good = true }),
              read_u32-left in1,
              read_bytes-left 4 in2,
            ))))
