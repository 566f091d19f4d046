-- ===== src/Audio/Ring.antt =====
-- The samples of a ring buffer, oldest first.
use zaza.Common.{
  ℕ, zero, suc, ◌+◌, ◌%◌, ◌≤◌, ◌<◌, ◌≡◌, ◌≢◌, refl, ap, subst, inl, inr, arith, ◌⊎◌, List, [], ◌∷◌,
  ◌++◌, ltb, length, set, Bool-cases,
}
use zaza.Common.Checked.{ret, read}
use native.Mathlib.Nat.{mod-eq_of_lt, mod_self}
use zaza.Audio.JitterBuffer.{JitterBuffer}

-- The samples of a window of the buffer.
abbrev pub sample_at : List ℕ → ℕ → ℕ
sample_at [] i = 0
sample_at (x ∷ xs) zero = x
sample_at (x ∷ xs) (suc i) = sample_at xs i

unfoldable pub window : List ℕ → ℕ → ℕ → ℕ → List ℕ
window buf capacity pos zero = []
window buf capacity pos (suc n) = sample_at buf pos ∷ window buf capacity ((pos + 1) % capacity) n

-- The samples that are held, the oldest first.
unfoldable pub contents : JitterBuffer → List ℕ
unfolding window
contents b = window b.buffer b.capacity b.read_pos b.available

-- `w` is `d` places behind `r` on the ring.
abbrev pub Behind : ℕ → ℕ → ℕ → ℕ → Type 0
Behind capacity r d w = (w ≡ r + d) ⊎ (w + capacity ≡ r + d)

pub record Ring (b : JitterBuffer) : Type 0 where
  pub full_size : length b.buffer ≡ b.capacity
  pub bounded : b.available ≤ b.capacity
  pub positive : 0 < b.capacity
  pub reads : b.read_pos < b.capacity
  pub writes : b.write_pos < b.capacity
  pub behind : Behind b.capacity b.read_pos b.available b.write_pos

pub next_pos :
    (capacity p : ℕ)
    → p < capacity
    → ((p + 1 < capacity) × ((p + 1) % capacity ≡ p + 1))
      ⊎ ((p + 1 ≡ capacity) × ((p + 1) % capacity ≡ 0))
next_pos capacity p h = elim (Bool-cases (ltb (p + 1) capacity)) [
  | inl t ↦ let l : p + 1 < capacity = ground arith in inl (l, mod-eq_of_lt l)
  | inr t ↦ let e : p + 1 ≡ capacity = ground arith in inr (e, rw e (mod_self capacity))
]

sample_at-set : (buf : List ℕ) (i : ℕ) (x : ℕ) → i < length buf → sample_at (set buf i x) i ≡ x
sample_at-set [] i x h = absurd (omega arith)
sample_at-set (y ∷ buf) zero x h = refl
sample_at-set (y ∷ buf) (suc i) x h = sample_at-set buf i x (omega arith)

sample_at-set_diff :
    (buf : List ℕ) (i j : ℕ) (x : ℕ) → i ≢ j → sample_at (set buf i x) j ≡ sample_at buf j
sample_at-set_diff [] i j x h = refl
sample_at-set_diff (y ∷ buf) zero zero x h = absurd (h refl)
sample_at-set_diff (y ∷ buf) zero (suc j) x h = refl
sample_at-set_diff (y ∷ buf) (suc i) zero x h = refl
sample_at-set_diff (y ∷ buf) (suc i) (suc j) x h = sample_at-set_diff buf i j x (λ e. h (ap suc e))

pub window-set :
    (buf : List ℕ) (capacity r n w x : ℕ)
    → length buf ≡ capacity
    → n < capacity
    → r < capacity
    → w < capacity
    → Behind capacity r n w
    → window (set buf w x) capacity r (suc n) ≡ window buf capacity r n ++ (x ∷ [])
unfolding window
window-set buf capacity r zero w x l hn hr hw b =
    let e : w ≡ r = omega arith in
    let s : sample_at (set buf w x) r ≡ x =
      subst (λ p. sample_at (set buf w x) p ≡ x) e (sample_at-set buf w x (omega arith)) in
    rw s refl
window-set buf capacity r (suc n) w x l hn hr hw b =
    let d : w ≢ r = omega arith in
    let s = sample_at-set_diff buf w r x d in
    let ih : window (set buf w x) capacity ((r + 1) % capacity) (suc n)
        ≡ window buf capacity ((r + 1) % capacity) n ++ (x ∷ []) =
      elim (next_pos capacity r hr) [
        | inl (lt, e) ↦
            window-set buf capacity ((r + 1) % capacity) n w x l (omega arith) (omega (arith, e)) hw
              (omega (arith, e))
        | inr (lt, e) ↦
            window-set buf capacity ((r + 1) % capacity) n w x l (omega arith) (omega (arith, e)) hw
              (omega (arith, e))
      ] in
    rw (s, ih) refl

pub read-sample_at : (buf : List ℕ) (i : ℕ) → i < length buf → read buf i ≡ ret (sample_at buf i)
read-sample_at [] i h = absurd (omega arith)
read-sample_at (x ∷ buf) zero h = refl
read-sample_at (x ∷ buf) (suc i) h = read-sample_at buf i (omega arith)
