-- ===== src/Db/Rdb.antt =====
-- db/rdb.go: the driver for SQLite, MySQL and PostgreSQL.
pub mod Gorm
pub mod Query
pub mod Insert
pub mod Meta
pub mod Open
