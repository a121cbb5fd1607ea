-- ===== src/Store.antt =====
-- The store package: store/redis.go, store/lease.go and the scripts that they embed.
pub mod Lex
pub mod Blob
pub mod Event
pub mod Script
pub mod Keyspace
pub mod Mvcc
pub mod Refine
pub mod Client
pub mod Lease
pub mod Stream
pub mod Open
