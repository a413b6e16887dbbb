-- ===== src/Tests.antt =====
-- A server and encodings in memory, sample data, and the theorems applied to them.
mod Memory
mod Encoding
mod Samples
mod Redis
mod Feeds
mod Redhat
mod Ubuntu
mod Meta
mod Scan
mod Suse
mod Rdb
mod Fetch
