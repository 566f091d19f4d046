-- ===== src/Common/Words.antt =====
-- Big-endian words as the source writes them, by shifts and masks, and their arithmetic.
use Prim.Native.Nat.{ℕ, ◌+◌, ◌*◌, ◌/◌, ◌%◌, ◌^◌, ◌<◌, bit_and, bit_or}
use mathlib.Core.Path.{◌≡◌}
use native.Mathlib.Omega.{arith}
use zaza.Common.Bits.{bit_or_disjoint, bit_and_low}

abbrev pub IsByte : ℕ → Type 0
IsByte b = b < 256

-- `(static_cast<uint16_t>(hi) << 8) | lo`
unfoldable pub word16 : ℕ → ℕ → ℕ
word16 hi lo = bit_or (hi * 2 ^ 8) lo % 2 ^ 16

-- `(a << 24) | (b << 16) | (c << 8) | d` on `uint32_t`
unfoldable pub word32 : ℕ → ℕ → ℕ → ℕ → ℕ
word32 a b c d =
    bit_or (bit_or (bit_or (a * 2 ^ 24 % 2 ^ 32) (b * 2 ^ 16 % 2 ^ 32)) (c * 2 ^ 8 % 2 ^ 32)) d

-- `(x >> shift) & 0xFF`
unfoldable pub byte_at : ℕ → ℕ → ℕ
byte_at x shift = bit_and (x / 2 ^ shift) 0xff

pub word16_lem : (hi lo : ℕ) → hi < 256 → lo < 256 → word16 hi lo ≡ hi * 256 + lo
unfolding word16
word16_lem hi lo p q = omega (arith, bit_or_disjoint 8 hi lo q)

pub byte_at_lem : (x shift : ℕ) → byte_at x shift ≡ x / 2 ^ shift % 256
unfolding byte_at
byte_at_lem x shift = bit_and_low 8 (x / 2 ^ shift)

pub word32_lem :
    (a b c d : ℕ)
    → a < 256
    → b < 256
    → c < 256
    → d < 256
    → word32 a b c d ≡ a * 2 ^ 24 + b * 2 ^ 16 + c * 2 ^ 8 + d
unfolding word32
word32_lem a b c d ha hb hc hd = ground (
  arith,
  bit_or_disjoint 24 a (b * 2 ^ 16),
  bit_or_disjoint 16 (a * 2 ^ 8 + b) (c * 2 ^ 8),
  bit_or_disjoint 8 (a * 2 ^ 16 + b * 2 ^ 8 + c) d,
)

pub word16-lt : (hi lo : ℕ) → word16 hi lo < 2 ^ 16
unfolding word16
word16-lt hi lo = omega arith

-- The bytes of a 16-bit word give it back.
pub word16-byte_at : (x : ℕ) → x < 2 ^ 16 → word16 (byte_at x 8) (byte_at x 0) ≡ x
word16-byte_at x h =
    omega (arith, byte_at_lem x 8, byte_at_lem x 0, word16_lem (byte_at x 8) (byte_at x 0))

pub word32-byte_at :
    (x : ℕ) → x < 2 ^ 32 → word32 (byte_at x 24) (byte_at x 16) (byte_at x 8) (byte_at x 0) ≡ x
word32-byte_at x h = omega (
  arith,
  byte_at_lem x 24,
  byte_at_lem x 16,
  byte_at_lem x 8,
  byte_at_lem x 0,
  word32_lem (byte_at x 24) (byte_at x 16) (byte_at x 8) (byte_at x 0),
)

pub byte_at-IsByte : (x shift : ℕ) → IsByte (byte_at x shift)
byte_at-IsByte x shift = omega (arith, byte_at_lem x shift)
