-- ===== src/Db/New.antt =====
-- NewDB and newDB of db/db.go, on the interface DB.
use goval_dictionary_v.Prelude.{Bool, ◌||◌, if◌then◌else◌}
use goval_dictionary_v.Text.{Text, codes, text_eq}
use goval_dictionary_v.Outcome.{Outcome, ok, err, ◌>>=◌, unsupported_dialect, incompatible_schema}
use goval_dictionary_v.Db.Rdb.Open.{dialect_sqlite3, dialect_mysql, dialect_postgresql}

abbrev pub dialect_redis : Text
dialect_redis = codes "redis"

-- The operations of the interface DB that NewDB calls, on what they leave of the driver and of the
-- database behind it.
pub record Driver : Type 1 where
  pub State : Type 0
  pub open_db : Text → Text → State → Outcome State
  pub has_model_v1 : State → Outcome Bool
  pub migrate_db : State → Outcome State

-- What a driver is made as: &RDBDriver{name: dbType} or &RedisDriver{name: dbType}.
pub data DriverKind : Type 0 where
  rdb_driver redis_driver : DriverKind

-- newDB
unfoldable pub new_driver : Text → Outcome DriverKind
new_driver db_type =
    if text_eq db_type dialect_sqlite3
      || text_eq db_type dialect_mysql
      || text_eq db_type dialect_postgresql
    then ok rdb_driver
    else if text_eq db_type dialect_redis
    then ok redis_driver
    else err unsupported_dialect

unfoldable pub refuse_v1 : Bool → Outcome {0} Unit
refuse_v1 is_v1 = if is_v1 then err incompatible_schema else ok tt

module _ (driver : DriverKind → Driver) (fresh : (k : DriverKind) → (driver k).State) where
  -- the calls on the new driver, in their order
  unfoldable pub set_up : (k : DriverKind) → Text → Text → Outcome (driver k).State
  set_up k db_type db_path = do
    opened ← (driver k).open_db db_type db_path (fresh k)
    is_v1 ← (driver k).has_model_v1 opened
    accepted ← refuse_v1 is_v1
    (driver k).migrate_db opened

  unfoldable pub new_db : Text → Text → Outcome ((k : DriverKind) × (driver k).State)
  new_db db_type db_path = do k ← new_driver db_type; s ← set_up k db_type db_path; ok (k, s)
