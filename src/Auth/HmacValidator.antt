-- ===== src/Auth/HmacValidator.antt =====
-- turn_server/src/auth/hmac_validator.cpp. A time is in seconds on the system clock.
use zaza.Common.{
  ℕ, ◌+◌, Bool, false, Bytes, bytes, [], ◌∷◌, ◌++◌, Option, none, some, ◌==◌, if◌then◌else◌,
}
use zaza.Common.Decimal.{to_decimal}
use zaza.Auth.Crypto.{OpenSsl, constant_time_compare}
use zaza.Common.Integers.{ℤ}
use zaza.Auth.Stoll.{is_past, stoll}

-- `username.substr(0, username.find(':'))`, or `none` where there is no colon.
unfoldable pub before_colon : Bytes → Option Bytes
before_colon [] = none
before_colon (c ∷ s) =
    let rest = before_colon s in
    if c == b':' then some [] else elim rest [ none ↦ none | some front ↦ some (c ∷ front) ]

unfoldable pub parse_expiry : Bytes → Option ℤ
unfolding before_colon
parse_expiry username = elim (before_colon username) [ none ↦ none | some front ↦ stoll front ]

unfoldable pub compute_hmac : OpenSsl → Bytes → Bytes → Bytes
compute_hmac ssl shared_secret username = ssl.base64_encode (ssl.hmac_sha1 shared_secret username)

unfoldable pub get_password : OpenSsl → Bytes → Bytes → Bytes
unfolding before_colon compute_hmac
get_password ssl shared_secret username = elim (before_colon username) [
  | none ↦ []
  | some _ ↦ compute_hmac ssl shared_secret username
]

unfoldable pub validate : OpenSsl → Bytes → ℕ → Bytes → Bytes → Bool
unfolding parse_expiry compute_hmac constant_time_compare
validate ssl shared_secret now username password = elim (parse_expiry username) [
  | none ↦ false
  | some expiry ↦
      if is_past expiry now
      then false
      else constant_time_compare ssl (compute_hmac ssl shared_secret username) password
]

pub record HmacCredentials : Type 0 where
  pub username : Bytes
  pub password : Bytes

-- For a lifetime that is not negative.
unfoldable pub generate_credentials : OpenSsl → Bytes → ℕ → Bytes → ℕ → HmacCredentials
unfolding compute_hmac to_decimal
generate_credentials ssl shared_secret now user_id ttl_seconds =
    let username = to_decimal (now + ttl_seconds) ++ (bytes ":" ++ user_id) in
    record { username = username; password = compute_hmac ssl shared_secret username }
