-- ===== src/Common/Masks.antt =====
-- Masks on one byte, by a table of its values.
use Prim.Native.Nat.{ℕ, zero, suc, ◌≤◌, ◌<◌, bit_and}
use mathlib.Core.Path.{◌≡◌, refl}
use mathlib.Core.Bool.{Bool, true, ◌&&◌}
use native.Mathlib.Omega.{arith}
use zaza.Common.Tests.{◌==◌, ltb, if◌then◌else◌}

holds_below : ℕ → (ℕ → Bool) → Bool
holds_below zero p = true
holds_below (suc n) p = p n && holds_below n p

holds_below_sound : (n : ℕ) (p : ℕ → Bool) (x : ℕ) → holds_below n p ≡ true → x < n → p x ≡ true
unfolding holds_below
holds_below_sound zero p x h lt = absurd (omega arith)
holds_below_sound (suc n) p x h lt = ground (arith, holds_below_sound n p x)

-- `b & 0xC0`, for a byte by its two top bits.
top_two : (b : ℕ) → b < 128 → (bit_and b 0xC0 == (if ltb b 64 then 0 else 0x40)) ≡ true
unfolding holds_below
top_two b h = holds_below_sound 128 (λ x. bit_and x 0xC0 == (if ltb x 64 then 0 else 0x40)) b refl h

pub top_two_stun : (b : ℕ) → b < 64 → bit_and b 0xC0 ≡ 0
top_two_stun b h = ground (arith, top_two b)

pub top_two_channel : (b : ℕ) → 64 ≤ b → b < 128 → bit_and b 0xC0 ≡ 0x40
top_two_channel b h k = ground (arith, top_two b)
