-- ===== src/Batcher.antt =====
-- rustapps/crypto-batcher/src/batcher.rs: the micro-batching core. `Accumulator` has the buffer and
-- the flush policy, `Flush` the commit-then-ack step, `Run` the loop; the proofs stand below them.
pub mod Accumulator
pub mod Flush
pub mod Run
