-- ===== src/Tests/Lakes/Loop.antt =====
-- The batch loop on the lake in memory.
use crypto_lakehouse.Prelude.{
  List, [], add_u64, arith, as_i64, false, length, map, none, refl, some, true, ◌++◌, ◌∷◌, ◌≡◌,
}
use crypto_lakehouse.Sink.State.{Sink}
use crypto_lakehouse.Batcher.Accumulator.{BatchConfig}
use crypto_lakehouse.Batcher.Run.{Round, Step, row, stop, run, turn}
use crypto_lakehouse.Batcher.Run.Delivery.{run-acks_all}
use crypto_lakehouse.Source.Ack.{ack, ack_all}
use crypto_lakehouse.Batcher.Run.Groups.{received}
use crypto_lakehouse.Batcher.Flush.{count_written, flush}
use crypto_lakehouse.Trade.{key_of}
use crypto_lakehouse.Sink.Write.{write_batch}
use crypto_lakehouse.Sink.Pruning.{build_pruning_expr}
use crypto_lakehouse.Schema.{to_record_batch}
use crypto_lakehouse.Sink.Commit.{commit}
use crypto_lakehouse.Pipeline.{write, Acked, run-Acked}
use crypto_lakehouse.Tests.{no_acks, counting, envelope}
use crypto_lakehouse.Tests.Lakes.{held_laws, memory, memory_laws}

abbrev pub policy : BatchConfig
policy = record { max_records = 2; max_bytes = 100; flush_interval = 30; dedup = true }

abbrev round : Step → Round
round step = record {
  outcome = step;
  waits_at = 100;
  seen_at = 101;
  due_at = 102;
  trigger_at = 103;
}

abbrev pub schedule : List Round
schedule =
    round (row (some (envelope 1)))
    ∷ round (row (some (envelope 1)))
    ∷ round (row (some (envelope 2)))
    ∷ round (row (some (envelope 3)))
    ∷ round stop
    ∷ []

abbrev empty_sink : Sink memory
empty_sink = record {
  ctx = none;
  world = record { rows = []; broken = false };
  table = 0;
  commit_retries = 5;
}

run_commits :
    length
      (run
        (write memory memory_laws counting)
        counting
        policy
        empty_sink
        no_acks
        schedule).1.sink.world.rows
    ≡ 3
unfolding run turn flush add_u64 key_of as_i64 write_batch build_pruning_expr to_record_batch commit
    held_laws
run_commits = refl

run-Acked_example :
    Acked memory memory_laws counting
      (received schedule)
      no_acks
      (run (write memory memory_laws counting) counting policy empty_sink no_acks schedule).1.sink
      (run (write memory memory_laws counting) counting policy empty_sink no_acks schedule).1.acks
run-Acked_example = run-Acked memory memory_laws counting policy empty_sink no_acks schedule

run-acks_all_example :
    (run (write memory memory_laws counting) counting policy empty_sink no_acks schedule).1.acks.log
    ≡ no_acks.log ++ map (λ e. e.ack) (received schedule)
unfolding run turn flush add_u64 key_of as_i64 write_batch build_pruning_expr to_record_batch commit
    held_laws ack ack_all count_written
run-acks_all_example =
    run-acks_all (write memory memory_laws counting) counting policy empty_sink no_acks schedule
      (omega arith) refl refl
