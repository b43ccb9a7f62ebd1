-- ===== src/Sink.antt =====
-- rustapps/crypto-batcher/src/sink.rs.
pub mod Stats
pub mod Pruning
pub mod Lake
pub mod State
pub mod Commit
pub mod Dedup
pub mod Write
pub mod Open
pub mod Connect
