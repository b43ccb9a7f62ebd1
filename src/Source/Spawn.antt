-- ===== src/Source/Spawn.antt =====
-- The start of `spawn_nats_source` in rustapps/crypto-batcher/src/source.rs: the loop that it spawns is in
-- Source.Pull. The client library's connection and its look-up of the stream are parameters.
use crypto_lakehouse.Prelude.{String, max, ℕ}
use crypto_lakehouse.Result.{Result}
use crypto_lakehouse.Action.{Action, ◌>>=◌, ◌>>◌, pure, with_context}
use crypto_lakehouse.Batcher.Accumulator.{BatchConfig}
use crypto_lakehouse.Source.Consumer.{NatsConfig, Server, ensure_consumer}

pub record Client (V : Server) : Type 0 where
  pub connect : String → V.State → Result (Unit {0}) × V.State
  pub get_stream : String → V.State → Result (Unit {0}) × V.State

-- What the spawned loop pulls with, and the capacity of its channel.
pub record Spawned (V : Server) : Type 0 where
  pub consumer : V.Consumer
  pub capacity : ℕ
  pub fetch_batch : ℕ
  pub fetch_expires : ℕ

module _ (V : Server) (client : Client V) where
  unfoldable pub spawn_nats_source : NatsConfig → BatchConfig → Action V.State (Spawned V)
  unfolding ensure_consumer
  spawn_nats_source cfg batch = do
    with_context "failed to connect to NATS" (client.connect cfg.url)
    with_context "JetStream stream not found" (client.get_stream cfg.stream)
    consumer ← ensure_consumer V cfg batch
    pure (record {
      consumer = consumer;
      capacity = max batch.max_records 1;
      fetch_batch = max cfg.fetch_batch 1;
      fetch_expires = cfg.fetch_expires;
    })
