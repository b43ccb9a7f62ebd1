-- ===== src/Start.antt =====
-- `main` of rustapps/crypto-batcher/src/main.rs: the environment, the sink, the source, and the batch loop.
-- What the spawned tasks deliver to the loop, the signals included, is its schedule.
pub mod Ends
use crypto_lakehouse.Prelude.{Bool, List, Option, String, if◌then◌else◌}
use crypto_lakehouse.Result.{Result, ok}
use crypto_lakehouse.Action.{Action, ◌>>=◌, ◌>>◌, pure, lift, with_context, under, resume}
use crypto_lakehouse.Config.Text.{Float}
use crypto_lakehouse.Config.Settings.{Config, iceberg_from_env, from_env}
use crypto_lakehouse.Source.Ack.{Message, Acks}
use crypto_lakehouse.Source.Consumer.{Server}
use crypto_lakehouse.Source.Spawn.{Client, Spawned, spawn_nats_source}
use crypto_lakehouse.Sink.Lake.{Lake}
use crypto_lakehouse.Sink.Open.{TableIdent}
use crypto_lakehouse.Sink.State.{Sink}
use crypto_lakehouse.Sink.Connect.{Connector, ident_of, connect}
use crypto_lakehouse.Sink.Write.{write_batch}
use crypto_lakehouse.Batcher.Accumulator.{BatchConfig}
use crypto_lakehouse.Batcher.Flush.{Batcher, Stats}
use crypto_lakehouse.Batcher.Run.{Round, run}

-- What lies outside the process: the lake, JetStream, and the server behind the acks.
pub record World (W : Type 0) (V : Server) (N : Type 0) : Type 0 where
  pub lake : W
  pub nats : V.State
  pub acks : Acks N

-- How the process is when its schedule is over: it has printed that the table is ready, it has stopped with its
-- counters, or the loop is still running.
pub data Outcome {W : Type 0} (X : Connector W) : Type 0 where
  ready : (i : TableIdent) → (X.lake i).Table → Outcome X
  stopped : Stats → Outcome X
  running : Outcome X

module _ {N : Type 0} (f : Float) (env : String → Option String) {W : Type 0} (X : Connector W)
    (V : Server) (client : Client V) (nats_ack : N → Message → Bool × N) where
  -- A call of one of them.
  abbrev pub on_lake : {A : Type 0} → Action W A → Action (World W V N) A
  on_lake m w = let (r, lake) = m w.lake in (r, record w { lake = lake })

  abbrev pub on_nats : {A : Type 0} → Action V.State A → Action (World W V N) A
  on_nats m w = let (r, nats) = m w.nats in (r, record w { nats = nats })

  -- The batch loop with the sink.
  abbrev pub loop :
      (L : Lake W) → BatchConfig → Sink L → List Round → World W V N → Bool × Batcher (Sink L) N
  loop L policy sink rounds w =
      run (λ s rows. write_batch L rows s) nats_ack policy (record sink { world = w.lake }) w.acks
        rounds

  unfoldable pub run_batches :
      (L : Lake W) → BatchConfig → Sink L → List Round → Action (World W V N) (Outcome X)
  run_batches L policy sink rounds w =
      let (ended, b) = loop L policy sink rounds w in
      (
        ok (if ended then stopped b.stats else running),
        record w { lake = b.sink.world; acks = b.acks },
      )

  unfoldable pub ensure_only : Action (World W V N) (Outcome X)
  unfolding iceberg_from_env connect
  ensure_only = do
    iceberg ← lift (under "invalid iceberg configuration" (iceberg_from_env f env))
    sink ← on_lake (connect X iceberg)
    pure (ready (ident_of iceberg) sink.table)

  unfoldable pub start : List Round → Action (World W V N) (Outcome X)
  unfolding from_env connect spawn_nats_source run_batches
  start rounds = do
    cfg ← lift (under "invalid configuration" (from_env f env))
    sink ← on_lake (connect X cfg.iceberg)
    with_context "failed to start nats source"
        (on_nats (spawn_nats_source V client cfg.nats cfg.batch))
    run_batches (X.lake (ident_of cfg.iceberg)) cfg.batch sink rounds

  unfoldable pub main : Bool → List Round → Action (World W V N) (Outcome X)
  unfolding ensure_only start
  main only rounds = if only then ensure_only else start rounds
