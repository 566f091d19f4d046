-- ===== src/Accounts/AuthService.antt =====
-- backend/auth/auth_service.cpp.
use zaza.Common.{ℕ, Bool, true, false, Bytes}
use zaza.Auth.Crypto.{OpenSsl}
use zaza.Accounts.Sqlite.{Sqlite}
use zaza.Accounts.UserStore.{Tried, gives, raises, add_user, check_password}
use zaza.Accounts.Jwt.{JwtLibrary, JwtResult, sign, verify}

pub record AuthService (sql : Sqlite) : Type 0 where
  pub jwt_secret : Bytes
  pub store : sql.Db
  pub ttl : ℕ

-- A user and a token, a `LoginError`, or an exception of the store.
pub data LoginResult : Type 0 where
  logged_in : Bytes → Bytes → LoginResult
  login_error : LoginResult
  store_error : Bytes → LoginResult

module _ (ssl : OpenSsl) (sql : Sqlite) (jwt : JwtLibrary) where
  -- `login` and `registerUser` behind the call of the store.
  unfoldable pub after_check : AuthService sql → ℕ → Bytes → Tried Bool → LoginResult
  unfolding sign
  after_check auth now user_id (raises text) = store_error text
  after_check auth now user_id (gives false) = login_error
  after_check auth now user_id (gives true) =
      logged_in user_id (sign jwt auth.jwt_secret now user_id auth.ttl)

  unfoldable pub after_add : AuthService sql → Tried sql.Db → Tried (AuthService sql)
  after_add auth (raises text) = raises text
  after_add auth (gives db) = gives (record auth { store = db })

  unfoldable pub login : AuthService sql → ℕ → Bytes → Bytes → LoginResult
  unfolding check_password after_check
  login auth now user_id password =
      after_check auth now user_id (check_password ssl sql auth.store user_id password)

  unfoldable pub verify_token : AuthService sql → ℕ → Bytes → JwtResult
  unfolding verify
  verify_token auth now token = verify jwt auth.jwt_secret now token

  unfoldable pub register_user : AuthService sql → Bytes → Bytes → Tried (AuthService sql)
  unfolding add_user after_add
  register_user auth user_id password =
      after_add auth (add_user ssl sql auth.store user_id password)
