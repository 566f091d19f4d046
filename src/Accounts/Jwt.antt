-- ===== src/Accounts/Jwt.antt =====
-- backend/auth/jwt.cpp. jwt-cpp, which signs and checks the tokens, is not part of the repository.
use zaza.Common.{ℕ, ◌+◌, Bytes, bytes, if◌then◌else◌}
use zaza.Common.Search.{find_part, has_part}

-- What the check of a token comes to: its user and its expiry, a failed verification with its
-- text, or another exception.
pub data Checked : Type 0 where
  passes : Bytes → ℕ → Checked
  unverified : Bytes → Checked
  fails : Bytes → Checked

-- `sign` takes the secret, the times of issue and of expiry, and the user; `check` the secret, the
-- time and the token.
pub record JwtLibrary : Type 0 where
  pub sign : Bytes → ℕ → ℕ → Bytes → Bytes
  pub check : Bytes → ℕ → Bytes → Checked

-- The payload, `JwtExpired` or `JwtInvalid`.
pub data JwtResult : Type 0 where
  payload : Bytes → ℕ → JwtResult
  jwt_expired : Bytes → JwtResult
  jwt_invalid : Bytes → JwtResult

module _ (lib : JwtLibrary) where
  unfoldable pub sign : Bytes → ℕ → Bytes → ℕ → Bytes
  sign secret now user_id ttl_seconds = lib.sign secret now (now + ttl_seconds) user_id

  unfoldable pub verify : Bytes → ℕ → Bytes → JwtResult
  unfolding find_part
  verify secret now token = elim (lib.check secret now token) [
    | passes user_id exp ↦ payload user_id exp
    | unverified text ↦
        if has_part text (bytes "expired") then jwt_expired text else jwt_invalid text
    | fails text ↦ jwt_invalid text
  ]
