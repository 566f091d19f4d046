-- ===== src/Accounts/Access.antt =====
-- Who can log in to the backend, and with which token: a registration, a login and the check of a
-- token, one after the other.
use zaza.Common.{
  ℕ, ◌≡◌, refl, sym, ap, ◌∙◌, inl, inr, arith, Bool, true, false, Bytes, [], ◌∷◌, Option, none,
  some, same, bytes_eq, bytes_beq_iff, if◌then◌else◌, Bool-cases, ◌==◌, ◌/◌, ◌%◌,
}
use zaza.Common.Search.{up_to}
use zaza.Auth.Crypto.{OpenSsl}
use zaza.Accounts.Sqlite.{Inserted, Sqlite, TableLaws, unprepared, undone, inserted}
use zaza.Accounts.UserStore.{
  Tried, gives, raises, User, c_str, hex_digit, to_hex, hash_password, find_user, after_insert,
  add_absent, add_user, check_password,
}
use zaza.Accounts.Jwt.{JwtLibrary, sign}
use zaza.Accounts.AuthService.{
  AuthService, after_check, after_add, logged_in, login_error, login, register_user,
}

hex_digit-positive : (d : ℕ) → (hex_digit d == 0) ≡ false
unfolding hex_digit
hex_digit-positive d = ground arith

-- No byte of a text in hexadecimal is zero.
up_to-to_hex : (hash : Bytes) → up_to 0 (to_hex hash) ≡ to_hex hash
unfolding up_to to_hex
up_to-to_hex [] = refl
up_to-to_hex (b ∷ hash) =
    rw (to_hex, up_to, hex_digit-positive (b / 16), hex_digit-positive (b % 16), up_to-to_hex hash)
      refl

module _ (ssl : OpenSsl) (sql : Sqlite) (laws : TableLaws sql) where
  after_insert-inserted :
      (db : sql.Db) (r : Inserted sql.Db) → after_insert ssl sql r ≡ gives db → r ≡ inserted db
  unfolding after_insert
  after_insert-inserted db unprepared e = absurd (cc)
  after_insert-inserted db (undone text) e = absurd (cc)
  after_insert-inserted db (inserted d) e = cc

  absent-inserted :
      (db db' : sql.Db) (user password : Bytes) (found : Tried (Option User))
      → add_absent ssl sql db user password found ≡ gives db'
      → sql.insert db (c_str user) (c_str (hash_password ssl password)) ≡ inserted db'
  unfolding add_absent
  absent-inserted db db' user password (raises text) e = absurd (cc)
  absent-inserted db db' user password (gives (some u)) e = absurd (cc)
  absent-inserted db db' user password (gives none) e = after_insert-inserted db' _ e

  -- What the two statements of a registration did.
  add_user-inserted :
      (db db' : sql.Db) (user password : Bytes)
      → add_user ssl sql db user password ≡ gives db'
      → sql.insert db (c_str user) (c_str (hash_password ssl password)) ≡ inserted db'
  unfolding add_user
  add_user-inserted db db' user password e =
      absent-inserted db db' user password (find_user ssl sql db user) e

  find_user-added :
      (db db' : sql.Db) (user password other : Bytes)
      → add_user ssl sql db user password ≡ gives db'
      → c_str other ≡ c_str user
      → find_user ssl sql db' other
        ≡ gives (
            some
              (record { user_id = c_str (c_str user); password_hash = hash_password ssl password }))
  unfolding find_user hash_password
  find_user-added db db' user password other e same_name =
      rw
        (
          find_user,
          same_name,
          laws.select-insert db db' (c_str user) (c_str (hash_password ssl password))
              (add_user-inserted db db' user password e),
        )
        (ap (λ h. gives (some (record { user_id = c_str (c_str user); password_hash = h })))
          (ap (up_to 0) (up_to-to_hex (ssl.sha256 password)) ∙ up_to-to_hex (ssl.sha256 password)))

  find_user-kept :
      (db db' : sql.Db) (user password other : Bytes)
      → add_user ssl sql db user password ≡ gives db'
      → same (c_str user) (c_str other) ≡ false
      → find_user ssl sql db' other ≡ find_user ssl sql db other
  unfolding find_user
  find_user-kept db db' user password other e differ =
      rw
        (
          find_user,
          laws.select-insert_other db db' (c_str user) (c_str (hash_password ssl password))
              (c_str other) (add_user-inserted db db' user password e) differ,
        )
        refl

  module _ (jwt : JwtLibrary) where
    after_add-store :
        (auth auth' : AuthService sql) (r : Tried sql.Db)
        → after_add ssl sql jwt auth r ≡ gives auth'
        → (db : sql.Db) × (r ≡ gives db) × (auth' ≡ record auth { store = db })
    unfolding after_add
    after_add-store auth auth' (raises text) e = absurd (cc)
    after_add-store auth auth' (gives db) e = (db, refl, ground arith)

    check_password-added :
        (db db' : sql.Db) (user password other guess : Bytes)
        → add_user ssl sql db user password ≡ gives db'
        → check_password ssl sql db' other guess ≡ (
            if same (c_str user) (c_str other)
            then gives (same (hash_password ssl password) (hash_password ssl guess))
            else check_password ssl sql db other guess)
    unfolding check_password
    check_password-added db db' user password other guess e =
        elim (Bool-cases (same (c_str user) (c_str other))) [
          | inl y ↦
              rw
                (
                  check_password,
                  y,
                  find_user-added db db' user password other e
                      (sym ((bytes_beq_iff (c_str user) (c_str other)).0 y)),
                )
                refl
          | inr n ↦ rw (check_password, n, find_user-kept db db' user password other e n) refl
        ]

    after_check-store :
        (auth : AuthService sql) (db : sql.Db) (now : ℕ) (user : Bytes) (r : Tried Bool)
        → after_check ssl sql jwt (record auth { store = db }) now user r
          ≡ after_check ssl sql jwt auth now user r
    unfolding after_check
    after_check-store auth db now user (raises text) = refl
    after_check-store auth db now user (gives false) = refl
    after_check-store auth db now user (gives true) = refl

    -- After a registration, a login with the new user's name gets a token for the name that was
    -- given exactly where the digest of the password is the registered one; logins of every other
    -- name come to what they came to before. SQLite reads a name up to its first zero byte: names
    -- that agree up to there are one user.
    pub register-login :
        (auth auth' : AuthService sql) (now : ℕ) (user password other guess : Bytes)
        → register_user ssl sql jwt auth user password ≡ gives auth'
        → login ssl sql jwt auth' now other guess ≡ (
            if same (c_str user) (c_str other)
            then (if same (hash_password ssl password) (hash_password ssl guess)
                then logged_in other (sign jwt auth.jwt_secret now other auth.ttl)
                else login_error)
            else login ssl sql jwt auth now other guess)
    unfolding login register_user after_check
    register-login auth auth' now user password other guess e =
        let (db, added, stored) =
          after_add-store auth auth' (add_user ssl sql auth.store user password) e in
        rw
          (
            stored,
            login,
            check_password-added auth.store db user password other guess added,
            after_check-store auth db now other (
                if same (c_str user) (c_str other)
                then gives (same (hash_password ssl password) (hash_password ssl guess))
                else check_password ssl sql auth.store other guess),
          )
          (elim (Bool-cases (same (c_str user) (c_str other))) [
            | inl y ↦
                rw y
                  (elim (Bool-cases (same (hash_password ssl password) (hash_password ssl guess))) [
                    | inl z ↦ rw (z, after_check) refl
                    | inr z ↦ rw (z, after_check) refl
                  ])
            | inr n ↦ rw n refl
          ])
