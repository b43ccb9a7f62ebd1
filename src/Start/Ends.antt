-- ===== src/Start/Ends.antt =====
-- What the batcher's process leaves behind, from its start on.
use crypto_lakehouse.Prelude.{
  All, Among, Bool, List, Option, String, ap, false, if_cases, map, refl, true, ◌++◌, ◌∙◌, ◌≡◌,
}
use crypto_lakehouse.Result.{Result, ok, err}
use crypto_lakehouse.Action.{under, with_context}
use crypto_lakehouse.Action.Ends.{Ends, Ends-step, Ends-resume, under-ok}
use crypto_lakehouse.Config.Text.{Float}
use crypto_lakehouse.Config.Settings.{IcebergConfig, iceberg_from_env, from_env, Config}
use crypto_lakehouse.Config.Required.{Startable, from_env_iff}
use crypto_lakehouse.Source.Ack.{Message, Acks, Envelope}
use crypto_lakehouse.Source.Consumer.{Server}
use crypto_lakehouse.Source.Spawn.{Client, spawn_nats_source}
use crypto_lakehouse.Sink.Open.{TableIdent}
use crypto_lakehouse.Sink.Lake.{Laws}
use crypto_lakehouse.Sink.State.{Sink}
use crypto_lakehouse.Sink.Connect.{Connector, ident_of, connect}
use crypto_lakehouse.Sink.Connect.Ready.{ConnectorLaws, Opened, Same, connect-Ready}
use crypto_lakehouse.Batcher.Run.{Round}
use crypto_lakehouse.Batcher.Run.Groups.{received}
use crypto_lakehouse.Batcher.Accumulator.Buffer.{envelope_key}
use crypto_lakehouse.Pipeline.{run-Acked}
use crypto_lakehouse.Pipeline.Writes.{has}
use crypto_lakehouse.Start.{
  loop, World, Outcome, ready, stopped, running, on_lake, on_nats, run_batches, ensure_only, start,
  main,
}

module _ {N : Type 0} (f : Float) (env : String → Option String) {W : Type 0} (X : Connector W)
    (laws : (i : TableIdent) → Laws (X.lake i)) (more : ConnectorLaws X laws) (V : Server)
    (client : Client V) (nats_ack : N → Message → Bool × N) where
  -- No row is committed to any table, and no message acknowledged.
  abbrev pub Untouched : World W V N → World W V N → Type 0
  Untouched w w' = Same X laws more w.lake w'.lake × (w'.acks ≡ w.acks)

  -- The acks sent are those of received envelopes whose trades are in the table.
  abbrev pub Settled : TableIdent → List Round → World W V N → World W V N → Type 0
  Settled i rounds w w' =
      (acked : List Envelope) × (w'.acks.log ≡ w.acks.log ++ map (λ e. e.ack) acked)
      × All (λ e. has ((laws i).committed w'.lake) (envelope_key e) ≡ true) acked
      × All (λ e. Among e (received rounds)) acked

  -- The loop has run with the configuration of the environment, into its table.
  abbrev pub Ran : Bool → List Round → World W V N → World W V N → Type 0
  Ran only rounds w w' =
      (only ≡ false)
      × Startable f env
      × ((cfg : Config) × (from_env f env ≡ ok cfg) × Settled (ident_of cfg.iceberg) rounds w w')

  abbrev pub Left : Bool → List Round → World W V N → Outcome X → World W V N → Type 0
  Left only rounds w (ready i t) w' =
      (only ≡ true)
      × ((cfg : IcebergConfig) × (iceberg_from_env f env ≡ ok cfg) × (i ≡ ident_of cfg))
      × (w'.nats ≡ w.nats)
      × Untouched w w'
  Left only rounds w (stopped stats) w' = Ran only rounds w w'
  Left only rounds w running w' = Ran only rounds w w'

  on_lake-Untouched :
      {A : Type 0} (P : A → W → Type 0) (w : World W V N) (r : Result A × W)
      → Ends P (Same X laws more w.lake) r
      → ((a : A) (lake : W) → P a lake → Same X laws more w.lake lake)
      → Ends
          (λ _ w'. (w'.nats ≡ w.nats) × Untouched w w')
          (Untouched w)
          (r.0, record w { lake = r.1 })
  on_lake-Untouched P w (ok a, lake) h k = (refl, (k a lake h, refl))
  on_lake-Untouched P w (err e, lake) h k = (h, refl)

  connect-Untouched :
      (cfg : IcebergConfig) (w : World W V N)
      → Ends
          (λ _ w'. (w'.nats ≡ w.nats) × Untouched w w')
          (Untouched w)
          (on_lake f env X V client nats_ack (connect X cfg) w)
  connect-Untouched cfg w =
      on_lake-Untouched (Opened X laws more cfg w.lake) w (connect X cfg w.lake)
        (connect-Ready X laws more cfg w.lake) (λ sink lake h. h.1)

  spawn-Untouched :
      {A : Type 0} (c : String) (w w1 : World W V N) (r : Result A × V.State)
      → Untouched w w1
      → Ends (λ _ w2. Untouched w w2) (Untouched w) (under c r.0, record w1 { nats = r.1 })
  spawn-Untouched c w w1 (ok a, nats) h = h
  spawn-Untouched c w w1 (err e, nats) h = h

  run_batches-Left :
      (cfg : Config) (sink : Sink (X.lake (ident_of cfg.iceberg))) (rounds : List Round)
      (w w1 : World W V N)
      → from_env f env ≡ ok cfg
      → Untouched w w1
      → Ends (Left false rounds w) (Untouched w) (
          run_batches f env X V client nats_ack
            (X.lake (ident_of cfg.iceberg))
            cfg.batch
            sink
            rounds
            w1)
  unfolding run_batches
  run_batches-Left cfg sink rounds w w1 read (same, acks) =
      let after =
        loop f env X V client nats_ack (X.lake (ident_of cfg.iceberg)) cfg.batch sink rounds w1 in
      if_cases
        (λ (o : Outcome X).
          Left false rounds w o (record w1 { lake = after.1.sink.world; acks = after.1.acks }))
        after.0 _ _ (λ _. ran) (λ _. ran)
    where
      settled :
          let b =
            (loop f env X V client nats_ack
              (X.lake (ident_of cfg.iceberg))
              cfg.batch
              sink
              rounds
              w1).1 in
          Settled (ident_of cfg.iceberg) rounds w (record w1 { lake = b.sink.world; acks = b.acks })
      settled =
          let (acked, log, stored, from) =
            run-Acked (X.lake (ident_of cfg.iceberg)) (laws (ident_of cfg.iceberg)) nats_ack
              cfg.batch (record sink { world = w1.lake }) w1.acks rounds in
          (acked, log ∙ ap (λ (a : Acks N). a.log ++ map (λ e. e.ack) acked) acks, stored, from)

      ran :
          let b =
            (loop f env X V client nats_ack
              (X.lake (ident_of cfg.iceberg))
              cfg.batch
              sink
              rounds
              w1).1 in
          Ran false rounds w (record w1 { lake = b.sink.world; acks = b.acks })
      ran = (refl, (from_env_iff f env).0 (rw read refl), (cfg, read, settled))

  ensure_only-Left :
      (rounds : List Round) (w : World W V N)
      → Ends (Left true rounds w) (Untouched w) (ensure_only f env X V client nats_ack w)
  unfolding ensure_only
  ensure_only-Left rounds w =
      Ends-step (Left true rounds w) (Untouched w) (under _ (iceberg_from_env f env)) w _
        (λ _. ((λ _. refl), refl))
        (λ iceberg read.
          Ends-resume (Left true rounds w) (Untouched w)
            (λ _ w'. (w'.nats ≡ w.nats) × Untouched w w')
            (on_lake f env X V client nats_ack (connect X iceberg) w) _
            (connect-Untouched iceberg w)
            (λ sink w1 h.
              (refl, (iceberg, under-ok _ (iceberg_from_env f env) read, refl), h.0, h.1)))

  start-Left :
      (rounds : List Round) (w : World W V N)
      → Ends (Left false rounds w) (Untouched w) (start f env X V client nats_ack rounds w)
  unfolding start
  start-Left rounds w =
      Ends-step (Left false rounds w) (Untouched w) (under _ (from_env f env)) w _
        (λ _. ((λ _. refl), refl))
        (λ cfg read.
          Ends-resume (Left false rounds w) (Untouched w)
            (λ _ w'. (w'.nats ≡ w.nats) × Untouched w w')
            (on_lake f env X V client nats_ack (connect X cfg.iceberg) w) _
            (connect-Untouched cfg.iceberg w)
            (λ sink w1 h.
              Ends-resume (Left false rounds w) (Untouched w) (λ _ w2. Untouched w w2)
                (with_context "failed to start nats source"
                  (on_nats f env X V client nats_ack
                    (spawn_nats_source V client cfg.nats cfg.batch))
                  w1)
                _
                (spawn-Untouched _ w w1 (spawn_nats_source V client cfg.nats cfg.batch w1.nats) h.1)
                (λ _ w2 h2.
                  run_batches-Left cfg sink rounds w w2 (under-ok _ (from_env f env) read) h2)))

  -- A process that fails has committed no row to any table and sent no ack, whatever it failed at. With
  -- `--ensure-only` one that does not has read the settings of the sink, reports the table that they name, and
  -- has touched neither the server nor the rows. Without it the environment had what the batcher cannot
  -- run without, and at any time every ack that was sent belongs to an envelope that the loop received and
  -- whose trade is in the table of the configuration, for every schedule.
  pub main-Left :
      (only : Bool) (rounds : List Round) (w : World W V N)
      → Ends (Left only rounds w) (Untouched w) (main f env X V client nats_ack only rounds w)
  unfolding main
  main-Left true rounds w = ensure_only-Left rounds w
  main-Left false rounds w = start-Left rounds w
