-- ===== src/Server.antt =====
-- The server package: the key-value service, the watch dispatcher and the watches.
pub mod Match
pub mod Messages
pub mod Shown
pub mod Kv
pub mod Lease
pub mod Dispatcher
pub mod Watch
pub mod Context
pub mod Session
pub mod Delivery
pub mod Inflight
