-- ===== src/Db/Rdb/Open.antt =====
-- OpenDB, MigrateDB and CloseDB of db/rdb.go, without the log of the statements. A connection that
-- fails comes with an error of the package of the dialect, of which the code reads one number, by
-- way of JSON.
use goval_dictionary_v.Prelude.{ℕ, Bool, ◌||◌, Option, none, some, ◌==◌, if◌then◌else◌}
use goval_dictionary_v.Text.{Text, codes, text_eq}
use goval_dictionary_v.Outcome.{
  Outcome, ok, err, ◌>>=◌, locked_database, failed_open, failed_migrate, failed_close,
  unsupported_dialect,
}

abbrev pub dialect_sqlite3 : Text
dialect_sqlite3 = codes "sqlite3"

abbrev pub dialect_mysql : Text
dialect_mysql = codes "mysql"

abbrev pub dialect_postgresql : Text
dialect_postgresql = codes "postgres"

-- The result of a call into gorm: a value, or an error of its own.
pub data Called (E A : Type 0) : Type 0 where
  returned : A → Called E A
  raised : E → Called E A

-- A connection pool: gorm.Open by dialect and path, the PRAGMA, AutoMigrate, and closing.
pub record Pool : Type 1 where
  pub Conn : Type 0
  pub Raised : Type 0
  pub connect : Text → Text → Called Raised Conn
  pub enable_foreign_keys : Conn → Conn
  pub auto_migrate : Conn → Called Raised Conn
  pub get_db : Conn → Option Conn
  pub close : Conn → Option {0} (Unit {0})
  -- the Code of an error, after json.Marshal and json.Unmarshal, either of which may fail
  pub code : Raised → Outcome ℕ

-- errBusy and errLocked
unfoldable pub is_locked : ℕ → Bool
is_locked code = code == 5 || code == 6

module _ (pool : Pool) where
  unfoldable pub sqlite_open_error : pool.Raised → Outcome pool.Conn
  sqlite_open_error e = do
    n ← pool.code e
    (if is_locked n then err locked_database else err failed_open)

  unfoldable pub open_sqlite : Called pool.Raised pool.Conn → Outcome pool.Conn
  open_sqlite (returned conn) = ok (pool.enable_foreign_keys conn)
  open_sqlite (raised e) = sqlite_open_error e

  unfoldable pub open_server : Called pool.Raised pool.Conn → Outcome pool.Conn
  open_server (returned conn) = ok conn
  open_server (raised e) = err failed_open

  unfoldable pub rdb_open_db : Text → Text → Outcome pool.Conn
  rdb_open_db name path =
      if text_eq name dialect_sqlite3
      then open_sqlite (pool.connect dialect_sqlite3 path)
      else if text_eq name dialect_mysql
      then open_server (pool.connect dialect_mysql path)
      else if text_eq name dialect_postgresql
      then open_server (pool.connect dialect_postgresql path)
      else err unsupported_dialect

  unfoldable pub sqlite_migrate_error : pool.Raised → Outcome pool.Conn
  sqlite_migrate_error e = do
    n ← pool.code e
    (if is_locked n then err locked_database else err failed_migrate)

  unfoldable pub migrate_error : Text → pool.Raised → Outcome pool.Conn
  migrate_error name e =
      if text_eq name dialect_sqlite3
      then sqlite_migrate_error e
      else if text_eq name dialect_mysql || text_eq name dialect_postgresql
      then err failed_migrate
      else err unsupported_dialect

  unfoldable pub rdb_migrate_db : Text → pool.Conn → Outcome pool.Conn
  rdb_migrate_db name conn = elim (pool.auto_migrate conn) [
    | returned c ↦ ok c
    | raised e ↦ migrate_error name e
  ]

  -- on the field `conn`, which is nil before OpenDB
  unfoldable pub rdb_close_db : Option pool.Conn → Outcome {0} Unit
  rdb_close_db none = ok tt
  rdb_close_db (some conn) = elim (pool.get_db conn) [
    | none ↦ err failed_close
    | some db ↦ elim (pool.close db) [ none ↦ err failed_close | some done ↦ ok tt ]
  ]
