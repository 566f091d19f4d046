-- ===== src/Allocation/Denied.antt =====
-- allocation/permission_table.hpp and .cpp: the addresses that no permission is given for.
-- Boost's `make_address_v4` and `address_v4::to_string` are parameters.
use zaza.Common.{
  ℕ, Bool, true, false, ◌&&◌, Bytes, List, [], ◌∷◌, Option, none, some, leb, if◌then◌else◌,
}

-- `make_address_v4(text, ec)` is `none` where `ec` is set.
pub record AddressV4 : Type 0 where
  pub to_string : ℕ → Bytes
  pub make_address_v4 : Bytes → Option ℕ

-- 10.0.0.0/8 and 172.16.0.0/12; the source has 192.168.0.0/16 and 127.0.0.0/8 commented out.
abbrev pub k_denied_ranges : List (ℕ × ℕ)
k_denied_ranges = (0x0A000000, 0x0AFFFFFF) ∷ (0xAC100000, 0xAC1FFFFF) ∷ []

unfoldable pub in_ranges : ℕ → List (ℕ × ℕ) → Bool
in_ranges ip [] = false
in_ranges ip ((lo, hi) ∷ rest) = if leb lo ip && leb ip hi then true else in_ranges ip rest

unfoldable pub is_denied_address : AddressV4 → Bytes → Bool
unfolding in_ranges
is_denied_address lib address = elim (lib.make_address_v4 address) [
  | none ↦ false
  | some ip ↦ in_ranges ip k_denied_ranges
]
