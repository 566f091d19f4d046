-- ===== src/Common/Bits.antt =====
-- The bit operations at variables: each by one equation for the lowest digit, then the few laws
-- that the codecs need.
use Prim.Native.Nat.{
  ℕ, zero, suc, ◌+◌, ◌*◌, ◌/◌, ◌%◌, ◌^◌, ◌-◌, ◌≤◌, ◌<◌, min, max, bit_and, bit_or, bit_xor,
}
use Prim.Native.Nat.{digits, differ, bit_and-bitwise, bit_or-bitwise, bit_xor-bitwise}
use mathlib.Core.Path.{◌≡◌, refl, ap}
use native.Mathlib.Omega.{arith}
use native.Mathlib.Nat.{pow-suc, one-le-pow, div-add-mod, mod-lt}

-- Any fuel that covers the first number gives the same digits.
module _ (z : ℕ → ℕ) (f : ℕ → ℕ → ℕ) where
  digits-fuel : (n m a b : ℕ) → a ≤ n → a ≤ m → digits z f n a b ≡ digits z f m a b
  digits-fuel zero zero a b p q = refl
  digits-fuel (suc n) zero zero b p q = refl
  digits-fuel zero (suc m) zero b p q = refl
  digits-fuel (suc n) (suc m) zero b p q = refl
  digits-fuel (suc n) zero (suc a) b p q = elim q [ ]
  digits-fuel zero (suc m) (suc a) b p q = elim p [ ]
  digits-fuel (suc n) (suc m) (suc a) b p q =
      ap (λ (t : ℕ). t * 2 + f (suc a % 2) (b % 2))
        (digits-fuel n m (suc a / 2) (b / 2) (omega arith) (omega arith))

bit_and_digit : (a b : ℕ) → bit_and a b ≡ bit_and (a / 2) (b / 2) * 2 + min (a % 2) (b % 2)
bit_and_digit zero b = simp bit_and-bitwise (omega arith)
bit_and_digit (suc a) b = simp bit_and-bitwise (
    ap (λ (t : ℕ). t * 2 + min (suc a % 2) (b % 2))
      (digits-fuel (λ y. 0) min a (suc a / 2) (suc a / 2) (b / 2) (omega arith) (omega arith)))

bit_or_digit : (a b : ℕ) → bit_or a b ≡ bit_or (a / 2) (b / 2) * 2 + max (a % 2) (b % 2)
bit_or_digit zero b = simp bit_or-bitwise (omega arith)
bit_or_digit (suc a) b = simp bit_or-bitwise (
    ap (λ (t : ℕ). t * 2 + max (suc a % 2) (b % 2))
      (digits-fuel (λ y. y) max a (suc a / 2) (suc a / 2) (b / 2) (omega arith) (omega arith)))

bit_xor_digit : (a b : ℕ) → bit_xor a b ≡ bit_xor (a / 2) (b / 2) * 2 + differ (a % 2) (b % 2)
bit_xor_digit zero b = simp bit_xor-bitwise (omega arith)
bit_xor_digit (suc a) b = simp bit_xor-bitwise (
    ap (λ (t : ℕ). t * 2 + differ (suc a % 2) (b % 2))
      (digits-fuel (λ y. y) differ a (suc a / 2) (suc a / 2) (b / 2) (omega arith) (omega arith)))

-- By width: a number below 2 ^ k has k digits.
bit_or_nothing : (k a : ℕ) → a ≤ k → bit_or a 0 ≡ a
bit_or_nothing k zero h = refl
bit_or_nothing zero (suc a) h = elim h [ ]
bit_or_nothing (suc k) (suc a) h =
    omega (arith, bit_or_digit (suc a) 0, bit_or_nothing k (suc a / 2) (omega arith))

bit_and_nothing : (k a : ℕ) → a ≤ k → bit_and a 0 ≡ 0
bit_and_nothing k zero h = refl
bit_and_nothing zero (suc a) h = elim h [ ]
bit_and_nothing (suc k) (suc a) h =
    omega (arith, bit_and_digit (suc a) 0, bit_and_nothing k (suc a / 2) (omega arith))

half_shift : (q k : ℕ) → q * 2 ^ suc k ≡ 2 * (q * 2 ^ k)
half_shift q k = omega (arith, ap (λ (t : ℕ). q * t) (pow-suc 2 k))

-- `(q << k) | r` is a sum where `r` fits the `k` bits.
pub bit_or_disjoint : (k q r : ℕ) → r < 2 ^ k → bit_or (q * 2 ^ k) r ≡ q * 2 ^ k + r
bit_or_disjoint zero q r h =
    let e : r ≡ 0 = omega arith in
    rw e (omega (arith, bit_or_nothing (q * 1) (q * 1) (omega arith)))
bit_or_disjoint (suc k) q r h = ground (
  arith,
  bit_or_digit (q * 2 ^ suc k) r,
  half_shift q k,
  bit_or_disjoint k q (r / 2) (omega (arith, pow-suc 2 k)),
)

mod_double : (a m : ℕ) → 0 < m → a % (m * 2) ≡ a / 2 % m * 2 + a % 2
mod_double a m h = grind (arith, div-add-mod (a / 2) m, mod-lt (a / 2) h)

-- A mask of `k` ones takes the remainder by `2 ^ k`.
pub bit_and_low : (k a : ℕ) → bit_and a (2 ^ k - 1) ≡ a % 2 ^ k
bit_and_low zero a = omega (arith, bit_and_nothing a a (omega arith))
bit_and_low (suc k) a = ground (
  arith,
  bit_and_digit a (2 ^ suc k - 1),
  pow-suc 2 k,
  one-le-pow k 2,
  bit_and_low k (a / 2),
  mod_double a (2 ^ k),
)

differ_bits : (u v : ℕ) → u < 2 → v < 2 → (differ u v < 2) × (differ (differ u v) v ≡ u)
differ_bits zero zero h k = (omega arith, refl)
differ_bits zero (suc zero) h k = (omega arith, refl)
differ_bits (suc zero) zero h k = (omega arith, refl)
differ_bits (suc zero) (suc zero) h k = (omega arith, refl)
differ_bits (suc (suc u)) v h k = absurd (omega arith)
differ_bits zero (suc (suc v)) h k = absurd (omega arith)
differ_bits (suc zero) (suc (suc v)) h k = absurd (omega arith)

-- `^` with one key twice is nothing.
pub bit_xor_cancel : (k a b : ℕ) → a < 2 ^ k → b < 2 ^ k → bit_xor (bit_xor a b) b ≡ a
bit_xor_cancel zero a b p q =
    let e : a ≡ 0 = omega arith in let e' : b ≡ 0 = omega arith in rw (e, e')
bit_xor_cancel (suc k) a b p q = ground (
  arith,
  pow-suc 2 k,
  bit_xor_digit a b,
  bit_xor_digit (bit_xor a b) b,
  differ_bits (a % 2) (b % 2),
  bit_xor_cancel k (a / 2) (b / 2),
)

pub bit_xor-lt : (k a b : ℕ) → a < 2 ^ k → b < 2 ^ k → bit_xor a b < 2 ^ k
bit_xor-lt zero a b p q =
    let e : a ≡ 0 = omega arith in let e' : b ≡ 0 = omega arith in rw (e, e') (omega arith)
bit_xor-lt (suc k) a b p q = ground (
  arith,
  pow-suc 2 k,
  bit_xor_digit a b,
  differ_bits (a % 2) (b % 2),
  bit_xor-lt k (a / 2) (b / 2),
)
