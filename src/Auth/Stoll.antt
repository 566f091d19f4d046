-- ===== src/Auth/Stoll.antt =====
-- `std::stoll` in base 10, as the server calls it on the part of a user name before the colon.
use zaza.Common.{
  ℕ, ◌+◌, ◌-◌, ◌*◌, ◌^◌, Bool, true, false, ◌&&◌, ◌||◌, Bytes, [], ◌∷◌, Option, none, some, ltb,
  leb, ◌==◌, if◌then◌else◌, ◌≡◌, ◌<◌, ◌∙◌, refl, sym, ap, subst, All, arith,
}
use zaza.Common.Decimal.{
  IsDigit, digits_value, to_decimal, to_decimal-digits, to_decimal-value, to_decimal-front,
}
use zaza.Common.Integers.{ℤ, pos, negsuc}

-- `now > expiry`, of a time after 1970.
abbrev pub is_past : ℤ → ℕ → Bool
is_past (pos expiry) now = ltb expiry now
is_past (negsuc n) now = true

abbrev is_space : ℕ → Bool
is_space c = (leb 9 c && leb c 13) || c == 32

abbrev is_digit : ℕ → Bool
is_digit c = leb b'0' c && leb c b'9'

skip_space : Bytes → Bytes
skip_space [] = []
skip_space (c ∷ s) = if is_space c then skip_space s else c ∷ s

-- The number that the digits in front write, behind what is read.
read_digits : Bytes → ℕ → ℕ
read_digits [] n = n
read_digits (c ∷ s) n = elim (is_digit c) [ true ↦ read_digits s (10 * n + (c - b'0')) | false ↦ n ]

-- An exception, for no digits or a number out of range, is `none`.
unsigned : Bytes → Option ℕ
unfolding read_digits
unsigned [] = none
unsigned (c ∷ s) = if is_digit c then some (read_digits (c ∷ s) 0) else none

positive : Bytes → Option ℤ
unfolding unsigned
positive s = elim (unsigned s) [
  | none ↦ none
  | some n ↦ if ltb n (2 ^ 63) then some (pos n) else none
]

negative : Bytes → Option ℤ
unfolding unsigned
negative s = elim (unsigned s) [
  | none ↦ none
  | some n ↦ if ltb (2 ^ 63) n then none else if n == 0 then some (pos 0) else some (negsuc (n - 1))
]

signed : Bytes → Option ℤ
unfolding positive negative
signed [] = none
signed (c ∷ s) =
    if c == b'-' then negative s else if c == b'+' then positive s else positive (c ∷ s)

unfoldable pub stoll : Bytes → Option ℤ
unfolding signed skip_space
stoll s = signed (skip_space s)

is_digit-true : (c : ℕ) → IsDigit c → is_digit c ≡ true
is_digit-true c h = ground arith

-- A digit is no space and no sign.
digit-front :
    (c : ℕ) → IsDigit c → (is_space c ≡ false) × ((c == b'-') ≡ false) × ((c == b'+') ≡ false)
digit-front c h = (ground arith, ground arith, ground arith)

read_digits-value : (s : Bytes) (acc : ℕ) → All IsDigit s → read_digits s acc ≡ digits_value acc s
unfolding read_digits
read_digits-value [] acc h = refl
read_digits-value (c ∷ s) acc h =
    let digit : is_digit c ≡ true = is_digit-true c h.0 in
    let next : 10 * acc + (c - b'0') ≡ acc * 10 + (c - b'0') = omega arith in
    rw (read_digits, digit, next) (read_digits-value s (acc * 10 + (c - b'0')) h.1)

stoll-digits :
    (c : ℕ) (s : Bytes)
    → All IsDigit (c ∷ s)
    → digits_value 0 (c ∷ s) < 2 ^ 63
    → stoll (c ∷ s) ≡ some (pos (digits_value 0 (c ∷ s)))
unfolding stoll signed skip_space positive unsigned
stoll-digits c s h small =
    let (space, minus, plus) = digit-front c h.0 in
    let value = read_digits-value (c ∷ s) 0 h in
    let in_range : ltb (digits_value 0 (c ∷ s)) (2 ^ 63) ≡ true = ground arith in
    rw
      (
        stoll,
        skip_space,
        space,
        signed,
        minus,
        plus,
        positive,
        unsigned,
        is_digit-true c h.0,
        value,
        in_range,
      )
      refl

-- A number in range is read back from its digits.
pub stoll-to_decimal : (n : ℕ) → n < 2 ^ 63 → stoll (to_decimal n) ≡ some (pos n)
stoll-to_decimal n small =
    let (c, s, front) = to_decimal-front n in
    let value : digits_value 0 (c ∷ s) ≡ n =
      subst (λ t. digits_value 0 t ≡ n) front (to_decimal-value n) in
    let digits : All IsDigit (c ∷ s) = subst (All IsDigit) front (to_decimal-digits n) in
    ap stoll front
    ∙ stoll-digits c s digits (subst (λ k. k < 2 ^ 63) (sym value) small)
    ∙ ap (λ k. some (pos k)) value
