-- ===== src/Auth/Crypto.antt =====
-- shared/crypto, as far as the server uses it. What OpenSSL computes is a parameter.
use zaza.Common.{ℕ, Bool, false, Bytes, bytes, ◌++◌, ◌==◌, not, if◌then◌else◌, length}

-- The calls of OpenSSL, where they do not fail.
pub record OpenSsl : Type 0 where
  -- `HMAC` with `EVP_sha1()` and with `EVP_sha256()`, of a key and a text.
  pub hmac_sha1 : Bytes → Bytes → Bytes
  pub hmac_sha256 : Bytes → Bytes → Bytes
  -- The digests with `EVP_sha256()` and `EVP_md5()`.
  pub sha256 : Bytes → Bytes
  pub md5 : Bytes → Bytes
  -- A write into a base64 filter with no line breaks.
  pub base64_encode : Bytes → Bytes
  -- `CRYPTO_memcmp`, of buffers of one length.
  pub memcmp : Bytes → Bytes → ℕ

unfoldable pub constant_time_compare : OpenSsl → Bytes → Bytes → Bool
constant_time_compare ssl a b = if not (length a == length b) then false else ssl.memcmp a b == 0

unfoldable pub long_term_key : OpenSsl → Bytes → Bytes → Bytes → Bytes
long_term_key ssl username realm password =
    ssl.sha256 (username ++ (bytes ":" ++ (realm ++ (bytes ":" ++ password))))

unfoldable pub long_term_key_md5 : OpenSsl → Bytes → Bytes → Bytes → Bytes
long_term_key_md5 ssl username realm password =
    ssl.md5 (username ++ (bytes ":" ++ (realm ++ (bytes ":" ++ password))))
