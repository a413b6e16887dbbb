-- ===== src/Db/Rdb/Meta/Inserted.antt =====
-- The count and the date of the definitions that InsertOval of db/rdb.go has stored.
use goval_dictionary_v.Db.Rdb.Gorm.{Gorm}
