-- ===== src/Accounts/UserStore.antt =====
-- backend/auth/user_store.cpp. The schema is set up by then.
use zaza.Common.{
  ℕ, ◌+◌, ◌-◌, ◌/◌, ◌%◌, Bool, false, Bytes, bytes, [], ◌∷◌, ◌++◌, Option, none, some, ltb, same,
  bytes_eq, if◌then◌else◌,
}
use zaza.Common.Search.{up_to}
use zaza.Auth.Crypto.{OpenSsl}
use zaza.Accounts.Sqlite.{Inserted, Sqlite, inserted, undone, unprepared, no_statement, no_row, row}

-- What a method comes to: a value, or an exception with its text.
pub data Tried {ℓ} (A : Type ℓ) : Type ℓ where
  gives : A → Tried A
  raises : Bytes → Tried A

pub record User : Type 0 where
  pub user_id : Bytes
  pub password_hash : Bytes

-- A text as a C string: SQLite reads it up to its first zero.
abbrev pub c_str : Bytes → Bytes
c_str text = up_to 0 text

unfoldable pub hex_digit : ℕ → ℕ
hex_digit d = if ltb d 10 then d + b'0' else d - 10 + b'a'

unfoldable pub to_hex : Bytes → Bytes
unfolding hex_digit
to_hex [] = []
to_hex (b ∷ hash) = hex_digit (b / 16) ∷ hex_digit (b % 16) ∷ to_hex hash

unfoldable pub hash_password : OpenSsl → Bytes → Bytes
unfolding to_hex
hash_password ssl password = to_hex (ssl.sha256 password)

module _ (ssl : OpenSsl) (sql : Sqlite) where
  unfoldable pub find_user : sql.Db → Bytes → Tried (Option User)
  unfolding up_to
  find_user db user_id = elim (sql.select db (c_str user_id)) [
    | no_statement ↦ raises (bytes "findUser prepare failed")
    | no_row ↦ gives none
    | row user hash ↦ gives (some (record { user_id = c_str user; password_hash = c_str hash }))
  ]

  -- The outcome of the second statement.
  unfoldable pub after_insert : Inserted sql.Db → Tried sql.Db
  after_insert unprepared = raises (bytes "addUser prepare failed")
  after_insert (undone text) = raises (bytes "addUser failed: " ++ text)
  after_insert (inserted db) = gives db

  -- `addUser` behind the look for the user.
  unfoldable pub add_absent : sql.Db → Bytes → Bytes → Tried (Option User) → Tried sql.Db
  unfolding hash_password up_to after_insert
  add_absent db user_id password (raises text) = raises text
  add_absent db user_id password (gives (some user)) =
      raises (bytes "user already exists: " ++ user_id)
  add_absent db user_id password (gives none) =
      after_insert (sql.insert db (c_str user_id) (c_str (hash_password ssl password)))

  unfoldable pub add_user : sql.Db → Bytes → Bytes → Tried sql.Db
  unfolding find_user add_absent
  add_user db user_id password = add_absent db user_id password (find_user db user_id)

  unfoldable pub check_password : sql.Db → Bytes → Bytes → Tried Bool
  unfolding find_user hash_password
  check_password db user_id password = elim (find_user db user_id) [
    | raises text ↦ raises text
    | gives none ↦ gives false
    | gives (some user) ↦ gives (same user.password_hash (hash_password ssl password))
  ]
