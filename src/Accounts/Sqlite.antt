-- ===== src/Accounts/Sqlite.antt =====
-- What backend/auth/user_store.cpp asks of SQLite, which is not part of the repository.
use zaza.Common.{◌≡◌, false, Bytes, same, bytes_eq}

-- A statement that adds a row: `sqlite3_prepare_v2` fails, `sqlite3_step` fails with a text, or the
-- row is there.
pub data Inserted (Db : Type 0) : Type 0 where
  unprepared : Inserted Db
  undone : Bytes → Inserted Db
  inserted : Db → Inserted Db

-- A statement that looks for a row.
pub data Selected : Type 0 where
  no_statement no_row : Selected
  row : Bytes → Bytes → Selected

-- The table `users`, with the values that are bound to the two statements.
pub record Sqlite : Type 1 where
  pub Db : Type 0
  pub insert : Db → Bytes → Bytes → Inserted Db
  pub select : Db → Bytes → Selected

-- What SQL says of a row that was added.
pub record TableLaws (sql : Sqlite) : Type 0 where
  pub select-insert :
      (db db' : sql.Db) (user hash : Bytes)
      → sql.insert db user hash ≡ inserted db'
      → sql.select db' user ≡ row user hash
  pub select-insert_other :
      (db db' : sql.Db) (user hash other : Bytes)
      → sql.insert db user hash ≡ inserted db'
      → same user other ≡ false
      → sql.select db' other ≡ sql.select db other
