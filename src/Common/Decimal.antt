-- ===== src/Common/Decimal.antt =====
-- `std::to_string` on an unsigned number, and the value that its digits have.
use Prim.Native.Nat.{ℕ, zero, suc, ◌+◌, ◌*◌, ◌/◌, ◌%◌, ◌-◌, ◌≤◌, ◌<◌}
use mathlib.Core.Path.{◌≡◌, refl, sym, ap, ◌∙◌}
use mathlib.Core.Bool.{true, false}
use mathlib.Core.Logic.{inl, inr}
use mathlib.Core.List.{[], ◌∷◌, ◌++◌}
use native.Mathlib.Omega.{arith}
use zaza.Common.Tests.{ltb, Bool-cases}
use zaza.Common.Equality.{Bytes}
use zaza.Common.Lists.{All, All-append}

-- The digits, highest first; a number has fewer digits than its value plus one.
decimal_loop : ℕ → ℕ → Bytes
decimal_loop zero n = []
decimal_loop (suc fuel) n = elim (ltb n 10) [
  | true ↦ (n + b'0') ∷ []
  | false ↦ decimal_loop fuel (n / 10) ++ ((n % 10 + b'0') ∷ [])
]

unfoldable pub to_decimal : ℕ → Bytes
unfolding decimal_loop
to_decimal n = decimal_loop (suc n) n

abbrev pub IsDigit : ℕ → Type 0
IsDigit c = (b'0' ≤ c) × (c ≤ b'9')

-- Reading digits from the left.
abbrev pub digits_value : ℕ → Bytes → ℕ
digits_value acc [] = acc
digits_value acc (c ∷ cs) = digits_value (acc * 10 + (c - b'0')) cs

digits_value-append :
    (acc : ℕ) (xs ys : Bytes) → digits_value acc (xs ++ ys) ≡ digits_value (digits_value acc xs) ys
digits_value-append acc [] ys = refl
digits_value-append acc (x ∷ xs) ys = digits_value-append (acc * 10 + (x - b'0')) xs ys

decimal_loop-digits : (fuel n : ℕ) → All IsDigit (decimal_loop fuel n)
unfolding decimal_loop
decimal_loop-digits zero n = tt
decimal_loop-digits (suc fuel) n = elim (Bool-cases (ltb n 10)) [
  | inl small ↦ rw (small, decimal_loop) (ground arith)
  | inr big ↦
      rw (big, decimal_loop)
        (All-append IsDigit (decimal_loop fuel (n / 10)) _ (decimal_loop-digits fuel (n / 10))
          (ground arith))
]

decimal_loop-value : (fuel n : ℕ) → n < fuel → digits_value 0 (decimal_loop fuel n) ≡ n
unfolding decimal_loop
decimal_loop-value zero n h = elim h [ ]
decimal_loop-value (suc fuel) n h = elim (Bool-cases (ltb n 10)) [
  | inl small ↦ rw (small, decimal_loop) (omega arith)
  | inr big ↦
      rw (big, decimal_loop, digits_value-append 0 (decimal_loop fuel (n / 10)) _)
        (omega (arith, decimal_loop-value fuel (n / 10) (ground arith)))
]

pub to_decimal-digits : (n : ℕ) → All IsDigit (to_decimal n)
unfolding to_decimal
to_decimal-digits n = decimal_loop-digits (suc n) n

pub to_decimal-value : (n : ℕ) → digits_value 0 (to_decimal n) ≡ n
unfolding to_decimal
to_decimal-value n = decimal_loop-value (suc n) n (omega arith)

pub to_decimal-injective : (m n : ℕ) → to_decimal m ≡ to_decimal n → m ≡ n
to_decimal-injective m n e = sym (to_decimal-value m) ∙ ap (digits_value 0) e ∙ to_decimal-value n

decimal_loop-front : (fuel n : ℕ) → (c : ℕ) × (s : Bytes) × (decimal_loop (suc fuel) n ≡ c ∷ s)
unfolding decimal_loop
decimal_loop-front fuel n = elim (Bool-cases (ltb n 10)) [
  | inl small ↦ (n + b'0', [], rw (small, decimal_loop) refl)
  | inr big ↦
      rw (big, decimal_loop)
        (elim (decimal_loop fuel (n / 10))
          as (λ front. (c : ℕ) × (s : Bytes) × (front ++ ((n % 10 + b'0') ∷ []) ≡ c ∷ s)) [
            | [] ↦ (n % 10 + b'0', [], refl)
            | c ∷ s ↦ (c, s ++ ((n % 10 + b'0') ∷ []), refl)
          ])
]

pub to_decimal-front : (n : ℕ) → (c : ℕ) × (s : Bytes) × (to_decimal n ≡ c ∷ s)
unfolding to_decimal
to_decimal-front n = decimal_loop-front n n
