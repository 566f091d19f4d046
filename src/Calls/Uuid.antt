-- ===== src/Calls/Uuid.antt =====
-- backend/calls/call_manager.cpp, `generateUuid`, for the two draws of the random generator.
use zaza.Common.{
  ℕ, zero, suc, ◌+◌, ◌-◌, ◌/◌, ◌%◌, ◌^◌, ◌≡◌, arith, Bytes, [], ◌∷◌, ◌++◌, ltb, if◌then◌else◌,
  bit_and, bit_or, length, length-append,
}

hex_digit : ℕ → ℕ
hex_digit d = if ltb d 10 then d + b'0' else d - 10 + b'a'

-- `std::hex << std::setfill('0') << std::setw(width) << n`, for an `n` of `width` digits at most.
hex_fixed : ℕ → ℕ → Bytes
unfolding hex_digit
hex_fixed zero n = []
hex_fixed (suc width) n = hex_fixed width (n / 16) ++ (hex_digit (n % 16) ∷ [])

unfoldable pub generate_uuid : ℕ → ℕ → Bytes
unfolding hex_fixed
generate_uuid draw_a draw_b =
    let a = bit_or (bit_and draw_a 0xFFFFFFFFFFFF0FFF) 0x0000000000004000 in
    let b = bit_or (bit_and draw_b 0x3FFFFFFFFFFFFFFF) 0x8000000000000000 in
    hex_fixed 8 (bit_and (a / 2 ^ 32) 0xFFFFFFFF)
    ++ (b'-'
        ∷ (hex_fixed 4 (bit_and (a / 2 ^ 16) 0xFFFF)
            ++ (b'-'
                ∷ (hex_fixed 4 (bit_and a 0xFFFF)
                    ++ (b'-'
                        ∷ (hex_fixed 4 (bit_and (b / 2 ^ 48) 0xFFFF)
                            ++ (b'-' ∷ hex_fixed 12 (bit_and b 0xFFFFFFFFFFFF))))))))

length-hex_fixed : (width n : ℕ) → length (hex_fixed width n) ≡ width
unfolding hex_fixed
length-hex_fixed zero n = omega arith
length-hex_fixed (suc width) n = omega (
  arith,
  length-append (hex_fixed width (n / 16)) (hex_digit (n % 16) ∷ []),
  length-hex_fixed width (n / 16),
)
