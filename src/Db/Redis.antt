-- ===== src/Db/Redis.antt =====
-- db/redis.go: the driver for Redis.
pub mod Server
pub mod Keys
pub mod Deps
pub mod Insert
pub mod Query
pub mod Meta
