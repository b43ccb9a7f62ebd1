-- ===== src/Source.antt =====
-- rustapps/crypto-batcher/src/source.rs: the acknowledgements, the pull loop, the consumer.
pub mod Ack
pub mod Spawn
pub mod Pull
pub mod Consumer
