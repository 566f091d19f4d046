-- ===== src/Audio/Queue.antt =====
-- The ring buffer is a queue of samples with a bound.
use zaza.Common.{
  ℕ, zero, suc, ◌+◌, ◌-◌, ◌%◌, ◌<◌, ◌≡◌, refl, sym, ap, ◌∙◌, inl, inr, arith, true, List, [], ◌∷◌,
  ◌++◌, ltb, length, set, replicate, take, drop, length-set, length-replicate, Bool-cases,
}
use zaza.Common.Checked.{ret, ◌>>=◌, read}
use zaza.Audio.JitterBuffer.{JitterBuffer, jitter_buffer, store, write, read_samples, clear}
use zaza.Audio.Ring.{sample_at, window, contents, Ring, next_pos, window-set, read-sample_at}

-- One sample is written.
pushed : JitterBuffer → ℕ → JitterBuffer
pushed b x = record b {
  buffer = set b.buffer b.write_pos x;
  write_pos = (b.write_pos + 1) % b.capacity;
  available = b.available + 1;
}

pushed-Ring : (b : JitterBuffer) (x : ℕ) → Ring b → b.available < b.capacity → Ring (pushed b x)
unfolding pushed
pushed-Ring b x r h = elim (next_pos b.capacity b.write_pos r.writes) [
  | inl (lt, e) ↦ record {
    full_size = length-set b.buffer b.write_pos x ∙ r.full_size;
    bounded = omega arith;
    positive = r.positive;
    reads = r.reads;
    writes = omega (arith, e);
    behind = let q = r.behind in omega (arith, e, q);
  }
  | inr (lt, e) ↦ record {
    full_size = length-set b.buffer b.write_pos x ∙ r.full_size;
    bounded = omega arith;
    positive = r.positive;
    reads = r.reads;
    writes = let q = r.positive in omega (arith, e, q);
    behind = let q = r.behind in let q' = r.reads in omega (arith, e, q, q');
  }
]

pushed-contents :
    (b : JitterBuffer) (x : ℕ)
    → Ring b
    → b.available < b.capacity
    → contents (pushed b x) ≡ contents b ++ (x ∷ [])
unfolding pushed contents
pushed-contents b x r h =
    let e : b.available + 1 ≡ suc b.available = omega arith in
    rw e (
      window-set b.buffer b.capacity b.read_pos b.available b.write_pos x r.full_size h r.reads
        r.writes r.behind)

take-none : (n : ℕ) → take {A = ℕ} n [] ≡ []
take-none zero = refl
take-none (suc n) = refl

append_none : (xs : List ℕ) → xs ++ [] ≡ xs
append_none [] = refl
append_none (x ∷ xs) = ap (◌∷◌ x) (append_none xs)

append_one : (xs : List ℕ) (x : ℕ) (ys : List ℕ) → (xs ++ (x ∷ [])) ++ ys ≡ xs ++ (x ∷ ys)
append_one [] x ys = refl
append_one (z ∷ xs) x ys = ap (◌∷◌ z) (append_one xs x ys)

stored : (buf : List ℕ) (i x : ℕ) → i < length buf → store buf i x ≡ ret (set buf i x)
unfolding store
stored buf i x h = ground arith

written :
    (b : JitterBuffer) (x : ℕ) (samples : List ℕ)
    → ltb b.available b.capacity ≡ true
    → store b.buffer b.write_pos x ≡ ret (set b.buffer b.write_pos x)
    → write b (x ∷ samples) ≡ write (pushed b x) samples
unfolding pushed write
written b x samples room fits = rw (room, write) (rw (fits, ◌>>=◌) refl)

-- Writing samples never goes out of the buffer, and adds them behind the held ones, in order, as
-- long as there is room; the samples that do not fit are dropped.
pub write-contents :
    (b : JitterBuffer) (samples : List ℕ)
    → Ring b
    → (b' : JitterBuffer) × (write b samples ≡ ret b')
      × Ring b'
      × (b'.capacity ≡ b.capacity)
      × (contents b' ≡ contents b ++ take (b.capacity - b.available) samples)
unfolding write pushed
write-contents b [] r = (
  b,
  refl,
  r,
  refl,
  sym (ap (λ t. contents b ++ t) (take-none (b.capacity - b.available)) ∙ append_none (contents b)),
)
write-contents b (x ∷ samples) r = elim (Bool-cases (ltb b.available b.capacity)) [
  | inr full ↦
      let e : b.capacity - b.available ≡ 0 = ground arith in
      (b, rw (full, write) refl, r, refl, rw e (sym (append_none (contents b))))
  | inl room ↦
      let h : b.available < b.capacity = ground arith in
      let e : b.capacity - b.available ≡ suc (b.capacity - (b.available + 1)) = omega arith in
      let fits : store b.buffer b.write_pos x ≡ ret (set b.buffer b.write_pos x) =
        stored b.buffer b.write_pos x
          (let q = r.full_size in let q' = r.writes in omega (arith, q, q')) in
      let (b', runs, r', same_capacity, held) =
        write-contents (pushed b x) samples (pushed-Ring b x r h) in
      (
        b',
        written b x samples room fits ∙ runs,
        r',
        same_capacity,
        held
            ∙ (ap (λ c. c ++ take (b.capacity - (b.available + 1)) samples)
                  (pushed-contents b x r h)
                ∙ (append_one (contents b) x (take (b.capacity - (b.available + 1)) samples)
                    ∙ rw e refl)),
      )
]

-- One sample is read.
popped : JitterBuffer → JitterBuffer
popped b = record b { read_pos = (b.read_pos + 1) % b.capacity; available = b.available - 1 }

popped-Ring : (b : JitterBuffer) → Ring b → 0 < b.available → Ring (popped b)
unfolding popped
popped-Ring b r h = elim (next_pos b.capacity b.read_pos r.reads) [
  | inl (lt, e) ↦ record {
    full_size = r.full_size;
    bounded = let q = r.bounded in omega (arith, q);
    positive = r.positive;
    reads = omega (arith, e);
    writes = r.writes;
    behind = let q = r.behind in omega (arith, e, q);
  }
  | inr (lt, e) ↦ record {
    full_size = r.full_size;
    bounded = let q = r.bounded in omega (arith, q);
    positive = r.positive;
    reads = let q = r.positive in omega (arith, e, q);
    writes = r.writes;
    behind =
        let q = r.behind in let q' = r.bounded in let q2 = r.writes in omega (arith, e, q, q', q2);
  }
]

popped-contents :
    (b : JitterBuffer)
    → 0 < b.available
    → contents b ≡ sample_at b.buffer b.read_pos ∷ contents (popped b)
unfolding popped contents window
popped-contents b h =
    let e : b.available ≡ suc (b.available - 1) = omega arith in
    ap (window b.buffer b.capacity b.read_pos) e

contents-none : (b : JitterBuffer) → b.available ≡ 0 → contents b ≡ []
unfolding contents window
contents-none b e = rw e refl

taken :
    (b : JitterBuffer) (count : ℕ) (b' : JitterBuffer) (out : List ℕ)
    → ltb 0 b.available ≡ true
    → read b.buffer b.read_pos ≡ ret (sample_at b.buffer b.read_pos)
    → read_samples (popped b) count ≡ ret (b', out)
    → read_samples b (suc count) ≡ ret (b', sample_at b.buffer b.read_pos ∷ out)
unfolding popped read_samples
taken b count b' out held fits runs =
    rw (held, read_samples) (rw (fits, ◌>>=◌) (rw (runs, ◌>>=◌) refl))

-- Reading samples never goes out of the buffer, takes the oldest held samples away, in order, and
-- gives them, with silence for the samples that are missing.
pub read_samples-contents :
    (b : JitterBuffer) (count : ℕ)
    → Ring b
    → (b' : JitterBuffer) × (out : List ℕ) × (read_samples b count ≡ ret (b', out))
      × Ring b'
      × (contents b' ≡ drop count (contents b))
      × (out ≡ take count (contents b) ++ replicate (count - b.available) 0)
unfolding read_samples popped
read_samples-contents b zero r =
    let e : 0 - b.available ≡ 0 = omega arith in (b, [], refl, r, refl, rw e refl)
read_samples-contents b (suc count) r = elim (Bool-cases (ltb 0 b.available)) [
  | inr empty ↦
      let e : b.available ≡ 0 = ground arith in
      let c = contents-none b e in
      let m : suc count - b.available ≡ suc count = omega arith in
      (b, replicate (suc count) 0, rw (empty, read_samples) refl, r, rw c refl, rw (c, m) refl)
  | inl held ↦
      let h : 0 < b.available = ground arith in
      let fits =
        read-sample_at b.buffer b.read_pos
          (let q = r.full_size in let q' = r.reads in omega (arith, q, q')) in
      let c = popped-contents b h in
      let m : suc count - b.available ≡ count - (b.available - 1) = omega arith in
      let (b', out, runs, r', left, given) =
        read_samples-contents (popped b) count (popped-Ring b r h) in
      (
        b',
        sample_at b.buffer b.read_pos ∷ out,
        taken b count b' out held fits runs,
        r',
        rw c left,
        rw (c, m) (ap (λ t. sample_at b.buffer b.read_pos ∷ t) given),
      )
]

-- A buffer that is new or was cleared is an empty ring.
pub jitter_buffer-Ring :
    (capacity_ms sample_rate : ℕ)
    → 0 < (jitter_buffer capacity_ms sample_rate).capacity
    → Ring (jitter_buffer capacity_ms sample_rate)
unfolding jitter_buffer
jitter_buffer-Ring capacity_ms sample_rate h = record {
  full_size = length-replicate _ 0;
  bounded = omega arith;
  positive = h;
  reads = h;
  writes = h;
  behind = inl (omega arith);
}

pub clear-Ring : (b : JitterBuffer) → Ring b → Ring (clear b)
unfolding clear
clear-Ring b r =
    let h = r.positive in
    record {
      full_size = length-replicate (length b.buffer) 0 ∙ r.full_size;
      bounded = omega arith;
      positive = h;
      reads = h;
      writes = h;
      behind = inl (omega arith);
    }
