-- ===== src/Tests/Pipeline.antt =====
-- Tests of the batcher: the schema, the buffer and the loop.
use crypto_lakehouse.Prelude.{
  All, List, [], add_u64, arith, as_i64, if◌then◌else◌, length, map, nat_beq, pos, refl, some, true,
  ℕ, ◌*◌, ◌+◌, ◌-◌, ◌/◌, ◌↔◌, ◌∷◌, ◌≡◌, ◌≤◌,
}
use crypto_lakehouse.Result.{Result, ok, err, message}
use crypto_lakehouse.Trade.{TradeEvent, key_of}
use crypto_lakehouse.Source.Ack.{Ack}
use crypto_lakehouse.Sink.Stats.{WriteStats, no_write}
use crypto_lakehouse.Schema.{table_schema, to_record_batch, to_row}
use crypto_lakehouse.Schema.{unbound_partition_spec}
use crypto_lakehouse.Schema.Partitions.{partition, partition-to_row}
use crypto_lakehouse.Schema.Fields.{
  utf8, int64, Fits, columns, identifier, key_values, to_record_batch-Fits,
}
use crypto_lakehouse.Schema.Times.{last_milli, trade_ts_iff}
use crypto_lakehouse.Batcher.Accumulator.{
  BatchConfig, Accumulator, count, interval, new, due, time_to_flush, take,
}
use crypto_lakehouse.Batcher.Accumulator.Buffer.{
  Buffers, Delivery, pushes, delivered, pushes-Buffers, take-redelivered,
}
use crypto_lakehouse.Batcher.Accumulator.Triggers.{due-time_to_flush}
use crypto_lakehouse.Batcher.Run.{Round, Step, row, stop, run, turn}
use crypto_lakehouse.Batcher.Run.Groups.{received}
use crypto_lakehouse.Batcher.Run.Refinement.{Holds, run-refines}
use crypto_lakehouse.Batcher.Run.Bounds.{WithinLimits, run-WithinLimits}
use crypto_lakehouse.Batcher.Flush.{flush}
use crypto_lakehouse.Tests.{trade, no_acks, counting, envelope}

abbrev policy : BatchConfig
policy = record { max_records = 2; max_bytes = 100; flush_interval = 30; dedup = true }

abbrev round : Step → Round
round step = record {
  outcome = step;
  waits_at = 100;
  seen_at = 101;
  due_at = 102;
  trigger_at = 103;
}

-- A row, its duplicate, another row, and the shutdown.
abbrev schedule : List Round
schedule =
    round (row (some (envelope 1)))
    ∷ round (row (some (envelope 1)))
    ∷ round (row (some (envelope 2)))
    ∷ round (row (some (envelope 3)))
    ∷ round stop
    ∷ []

-- A sink that counts its rows, one that fails, and one that fails the first time.
abbrev accepting : ℕ → List TradeEvent → Result WriteStats × ℕ
accepting n rows = (ok (record no_write { rows = length rows }), n + length rows)

abbrev failing : ℕ → List TradeEvent → Result WriteStats × ℕ
failing n rows = (err (message "iceberg commit failed"), n)

abbrev flaky : ℕ → List TradeEvent → Result WriteStats × ℕ
flaky n rows = if nat_beq n 0 then failing 1 rows else accepting n rows

deliveries : List Delivery
deliveries = (envelope 1, 10, 11) ∷ (envelope 2, 12, 13) ∷ []

run_accepts : (run accepting counting policy 0 no_acks schedule).1.sink ≡ 3
unfolding run turn flush add_u64 key_of as_i64
run_accepts = refl

run-refines_example :
    Holds flaky counting policy
      (record { sink = 0; acks = no_acks; written = 0; failed = 0 })
      (received schedule)
      (run flaky counting policy 0 no_acks schedule)
run-refines_example = run-refines flaky counting policy 0 no_acks schedule

run-WithinLimits_example : WithinLimits (run flaky counting policy 0 no_acks schedule).1.acc
run-WithinLimits_example = run-WithinLimits flaky counting policy 0 no_acks schedule

pushes-Buffers_example : Buffers (pushes (new policy) deliveries) (delivered deliveries)
pushes-Buffers_example = pushes-Buffers policy deliveries

take-redelivered_example :
    (take (pushes (take (pushes (new policy) deliveries) count).1 deliveries) interval).0.rows
    ≡ (take (pushes (new policy) deliveries) count).0.rows
take-redelivered_example = take-redelivered policy deliveries deliveries count interval refl

abbrev waiting : Accumulator
waiting = record {
  policy = policy;
  rows = trade 1 5 ∷ [];
  acks = Ack.none ∷ [];
  seen_keys = [];
  bytes = 10;
  duplicates = 0;
  first_seen = some 40;
}

due-time_to_flush_example :
    (left : ℕ) × (time_to_flush waiting 50 ≡ some left)
    × (left ≡ 30 - (50 - 40))
    × ((due waiting 75 ≡ true) ↔ (50 + left ≤ 75))
due-time_to_flush_example =
    due-time_to_flush waiting 50 40 75 refl refl (omega arith) (omega arith) (omega arith)
      (omega arith)

trade_ts_iff_example :
    ((to_row (trade 1 1700000000000)).trade_ts ≡ some (pos (1700000000000 * 1000)))
    ↔ (1700000000000 ≤ last_milli)
trade_ts_iff_example = trade_ts_iff (trade 1 1700000000000)

partition-to_row_example :
    partition unbound_partition_spec (to_row (trade 1 1700000000000))
    ≡ some (utf8 "BINANCE") ∷ some (int64 (pos (1700000000000 / 86400000))) ∷ []
partition-to_row_example = partition-to_row (trade 1 1700000000000) (omega arith)

to_record_batch-Fits_example :
    All (λ r. Fits table_schema.fields (columns r)) (to_record_batch (trade 1 5 ∷ trade 2 9 ∷ []))
    × (map identifier (to_record_batch (trade 1 5 ∷ trade 2 9 ∷ []))
        ≡ map (λ e. key_values (key_of e)) (trade 1 5 ∷ trade 2 9 ∷ []))
to_record_batch-Fits_example = to_record_batch-Fits (trade 1 5 ∷ trade 2 9 ∷ [])
