-- ===== src/Tests/Starts.antt =====
-- The batcher's process on the lake in memory.
use crypto_lakehouse.Prelude.{add_u64, as_i64, false, length, none, refl, true, ℕ, ◌≡◌}
use crypto_lakehouse.Result.{ok, is_ok}
use crypto_lakehouse.Action.Ends.{Ends}
use crypto_lakehouse.Source.Spawn.{Client}
use crypto_lakehouse.Batcher.Run.{run, turn}
use crypto_lakehouse.Batcher.Flush.{flush}
use crypto_lakehouse.Trade.{key_of}
use crypto_lakehouse.Sink.Write.{write_batch}
use crypto_lakehouse.Sink.Pruning.{build_pruning_expr}
use crypto_lakehouse.Schema.{to_record_batch}
use crypto_lakehouse.Sink.Commit.{commit}
use crypto_lakehouse.Source.Ack.{ack_all}
use crypto_lakehouse.Start.{World, ready, main}
use crypto_lakehouse.Start.Ends.{Left, Untouched, main-Left}
use crypto_lakehouse.Tests.{no_acks, counting}
use crypto_lakehouse.Tests.Lakes.{Storage}
use crypto_lakehouse.Tests.Lakes.Loop.{schedule}
use crypto_lakehouse.Tests.Streams.{one_consumer, stale}
use crypto_lakehouse.Tests.Tools.{laws, trades, numbers, env, connector, connector_laws, empty}

abbrev client : Client one_consumer
client = record { connect = λ url s. (ok tt, s); get_stream = λ name s. (ok tt, s) }

abbrev world : World Storage one_consumer ℕ
world = record { lake = empty; nats = stale; acks = no_acks }

-- The envelopes of three trades, one of them twice.
main_commits :
    let r = main numbers env connector one_consumer client counting false schedule world in
    (is_ok r.0 ≡ true) × (length r.1.lake.rows ≡ 3) × (length r.1.acks.log ≡ 4)
unfolding main numbers run turn flush add_u64 key_of as_i64 write_batch build_pruning_expr
    to_record_batch commit ack_all
main_commits = (refl, refl, refl)

main_ensures :
    main numbers env connector one_consumer client counting true schedule world
    ≡ (ok (ready trades 0), world)
unfolding main
main_ensures = refl

-- Without the environment nothing starts.
main_refuses :
    is_ok (main numbers (λ key. none) connector one_consumer client counting false schedule world).0
    ≡ false
unfolding main
main_refuses = refl

main-Left_example :
    Ends
      (Left numbers env connector laws connector_laws one_consumer client counting false schedule
        world)
      (Untouched numbers env connector laws connector_laws one_consumer client counting world)
      (main numbers env connector one_consumer client counting false schedule world)
main-Left_example =
    main-Left numbers env connector laws connector_laws one_consumer client counting false schedule
      world
