-- ===== src/Auth/Credentials.antt =====
-- A time-limited user name with its password, as the backend makes them, before the server that
-- checks them.
use zaza.Common.{
  ℕ, ◌<◌, ◌^◌, ◌≡◌, refl, arith, Bool, true, false, not, Bytes, bytes, [], ◌∷◌, ◌++◌, some, ltb,
  ◌==◌, if◌then◌else◌, All,
}
use zaza.Common.Decimal.{IsDigit, to_decimal, to_decimal-digits}
use zaza.Common.Integers.{pos}
use zaza.Auth.Crypto.{OpenSsl, constant_time_compare}
use zaza.Auth.HmacValidator.{before_colon, parse_expiry, compute_hmac, validate}
use zaza.Auth.Stoll.{stoll-to_decimal}

not_colon : (c : ℕ) → IsDigit c → (c == b':') ≡ false
not_colon c h = ground arith

negated : (b : Bool) → (if b then false else true) ≡ not b
negated b = ground arith

pub before_colon-digits :
    (digits rest : Bytes)
    → All IsDigit digits
    → before_colon (digits ++ (bytes ":" ++ rest)) ≡ some digits
unfolding before_colon
before_colon-digits [] rest h = refl
before_colon-digits (c ∷ digits) rest h =
    let other : (c == b':') ≡ false = not_colon c h.0 in
    rw (before_colon, other, before_colon-digits digits rest h.1) refl

parse_expiry-fresh :
    (expiry : ℕ) (user : Bytes)
    → expiry < 2 ^ 63
    → parse_expiry (to_decimal expiry ++ (bytes ":" ++ user)) ≡ some (pos expiry)
unfolding parse_expiry
parse_expiry-fresh expiry user small =
    rw (parse_expiry, before_colon-digits (to_decimal expiry) user (to_decimal-digits expiry))
      (stoll-to_decimal expiry small)

compare_self :
    (ssl : OpenSsl) (a : Bytes) → ssl.memcmp a a ≡ 0 → constant_time_compare ssl a a ≡ true
unfolding constant_time_compare
compare_self ssl a e = ground arith

-- The password of a time-limited name is accepted until the time in the name, and not after it.
pub validate-fresh :
    (ssl : OpenSsl) (secret user : Bytes) (expiry now : ℕ)
    → expiry < 2 ^ 63
    → let username = to_decimal expiry ++ (bytes ":" ++ user) in
      ssl.memcmp (compute_hmac ssl secret username) (compute_hmac ssl secret username) ≡ 0
      → validate ssl secret now username (compute_hmac ssl secret username) ≡ not (ltb expiry now)
unfolding validate
validate-fresh ssl secret user expiry now small e =
    let username = to_decimal expiry ++ (bytes ":" ++ user) in
    rw
      (
        validate,
        parse_expiry-fresh expiry user small,
        compare_self ssl (compute_hmac ssl secret username) e,
      )
      (negated (ltb expiry now))
