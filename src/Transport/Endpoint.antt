-- ===== src/Transport/Endpoint.antt =====
-- transport/transport.hpp, `struct Endpoint`, and the keys that the maps of the server use for it:
-- `address + ":" + std::to_string(port)`.
use zaza.Common.{
  ℕ, ◌≡◌, refl, arith, Bool, true, ◌&&◌, ◌==◌, Bytes, bytes_beq, Eq, bytes_beq_iff, [], ◌∷◌, ◌++◌,
  All, ◌↔◌, ◌≢◌,
}
use zaza.Common.Decimal.{to_decimal, IsDigit, to_decimal-digits, to_decimal-injective}

pub record Endpoint : Type 0 where
  pub address : Bytes
  pub port : ℕ

-- `operator==`
abbrev pub endpoint_beq : Endpoint → Endpoint → Bool
endpoint_beq a b = bytes_beq a.address b.address && (a.port == b.port)

pub endpoint_beq_iff : (a b : Endpoint) → (endpoint_beq a b ≡ true) ↔ (a ≡ b)
endpoint_beq_iff a b = (
  λ h. ground (arith, bytes_beq_iff a.address b.address),
  λ h. ground (arith, bytes_beq_iff a.address b.address),
)

instance abbrev pub endpoint_eq : Eq Endpoint
endpoint_eq = record { beq = endpoint_beq; beq_iff = endpoint_beq_iff }

unfoldable pub endpoint_key : Endpoint → Bytes
endpoint_key ep = ep.address ++ (b':' ∷ to_decimal ep.port)

-- Digits hold no colon.
no_colon : (ys ds es : Bytes) → All IsDigit ds → ds ≢ ys ++ (b':' ∷ es)
no_colon [] [] es h e = cc
no_colon [] (d ∷ ds) es h e = ground arith
no_colon (y ∷ ys) [] es h e = cc
no_colon (y ∷ ys) (d ∷ ds) es h e = no_colon ys ds es h.1 (cc)

-- So what follows the last colon is found again.
split_colon :
    (xs ys ds es : Bytes)
    → All IsDigit ds
    → All IsDigit es
    → xs ++ (b':' ∷ ds) ≡ ys ++ (b':' ∷ es)
    → (xs ≡ ys) × (ds ≡ es)
split_colon [] [] ds es hd he e = (refl, cc)
split_colon [] (y ∷ ys) ds es hd he e = absurd (no_colon ys ds es hd (cc))
split_colon (x ∷ xs) [] ds es hd he e = absurd (no_colon xs es ds he (cc))
split_colon (x ∷ xs) (y ∷ ys) ds es hd he e =
    let (p, q) = split_colon xs ys ds es hd he (cc) in (cc, q)

-- Two endpoints have one key only if they are equal, whatever text the address is.
pub endpoint_key-injective : (a b : Endpoint) → endpoint_key a ≡ endpoint_key b → a ≡ b
unfolding endpoint_key
endpoint_key-injective a b e =
    let (p, q) =
      split_colon a.address b.address _ _ (to_decimal-digits a.port) (to_decimal-digits b.port) e in
    let n : a.port ≡ b.port = to_decimal-injective a.port b.port q in ground arith
