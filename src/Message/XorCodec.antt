-- ===== src/Message/XorCodec.antt =====
-- message/xor_codec.hpp.
use zaza.Common.{ℕ, ◌/◌, ◌%◌, ◌^◌, ◌<◌, bit_xor, ◌≡◌, arith}
use zaza.Common.Bits.{bit_xor_cancel}

abbrev pub k_magic_cookie : ℕ
k_magic_cookie = 0x2112A442

unfoldable pub xor_port : ℕ → ℕ
xor_port port = bit_xor port (k_magic_cookie / 2 ^ 16 % 2 ^ 16)

unfoldable pub xor_addr_v4 : ℕ → ℕ
xor_addr_v4 addr = bit_xor addr k_magic_cookie

-- Masking a 16-bit port twice gives it back.
pub xor_port_twice : (port : ℕ) → port < 2 ^ 16 → xor_port (xor_port port) ≡ port
unfolding xor_port
xor_port_twice port h = bit_xor_cancel 16 port 0x2112 h (omega arith)

-- Masking a 32-bit address twice gives it back.
pub xor_addr_v4_twice : (addr : ℕ) → addr < 2 ^ 32 → xor_addr_v4 (xor_addr_v4 addr) ≡ addr
unfolding xor_addr_v4
xor_addr_v4_twice addr h = bit_xor_cancel 32 addr k_magic_cookie h (omega arith)
