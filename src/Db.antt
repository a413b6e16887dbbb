-- ===== src/Db.antt =====
-- db/: what the drivers share, and the drivers.
pub mod Version
pub mod Chunks
pub mod Filters
pub mod Redis
pub mod Rdb
pub mod New
