-- ===== src/Batcher/Flush.antt =====
-- `flush` and `Stats` of batcher.rs. The sink is a parameter, a state with a `write_batch` that may
-- fail (the Sink modules have the program's own), and so is the NATS server behind the acks.
use crypto_lakehouse.Prelude.{Bool, List, Option, add_u64, if◌then◌else◌, is_nil, none, some, ℕ}
use crypto_lakehouse.Result.{Result, ok, err}
use crypto_lakehouse.Trade.{TradeEvent}
use crypto_lakehouse.Source.Ack.{Message, Acks, ack_all}
use crypto_lakehouse.Sink.Stats.{WriteStats}
use crypto_lakehouse.Batcher.Accumulator.{Accumulator, MicroBatch, FlushTrigger, take}

-- Cumulative process counters, all `u64`.
pub record Stats : Type 0 where
  pub batches : ℕ
  pub rows : ℕ
  pub files : ℕ
  pub bytes : ℕ
  pub duplicates_dropped : ℕ
  pub failed_commits : ℕ
  pub ack_failures : ℕ
  pub probe_files_opened : ℕ
  pub table_files_seen : ℕ

abbrev pub no_stats : Stats
no_stats = record {
  batches = 0;
  rows = 0;
  files = 0;
  bytes = 0;
  duplicates_dropped = 0;
  failed_commits = 0;
  ack_failures = 0;
  probe_files_opened = 0;
  table_files_seen = 0;
}

-- The counters of a batch that was committed.
unfoldable pub count_written : Stats → WriteStats → ℕ → Stats
count_written stats written ack_failures = record stats {
  batches = add_u64 stats.batches 1;
  rows = add_u64 stats.rows written.rows;
  files = add_u64 stats.files written.files;
  bytes = add_u64 stats.bytes written.bytes;
  ack_failures = add_u64 stats.ack_failures ack_failures;
  probe_files_opened = add_u64 stats.probe_files_opened written.probe.files_opened;
  table_files_seen = add_u64 stats.table_files_seen written.probe.data_files;
}

-- All that the loop changes: the buffer, the sink, the counters and the acks.
pub record Batcher (S N : Type 0) : Type 0 where
  pub acc : Accumulator
  pub sink : S
  pub stats : Stats
  pub acks : Acks N

module _ {S N : Type 0} (write_batch : S → List TradeEvent → Result WriteStats × S)
    (nats_ack : N → Message → Bool × N) where
  -- What `flush` does with the answer of the sink.
  unfoldable pub settle :
      MicroBatch → Result WriteStats × S → Batcher S N → Option WriteStats × Batcher S N
  settle batch (err e, sink) b = (
    none,
    record b {
      sink = sink;
      stats = record b.stats { failed_commits = add_u64 b.stats.failed_commits 1 };
    },
  )
  settle batch (ok written, sink) b =
      let (ack_failures, acks) = ack_all nats_ack batch.acks b.acks in
      (
        some written,
        record b { sink = sink; stats = count_written b.stats written ack_failures; acks = acks },
      )

  unfoldable pub flush : FlushTrigger → Batcher S N → Option WriteStats × Batcher S N
  unfolding take settle
  flush trigger b =
      let (batch, acc) = take b.acc trigger in
      if is_nil batch.rows
      then (none, record b { acc = acc })
      else settle batch (write_batch b.sink batch.rows) (record b {
        acc = acc;
        stats = record b.stats {
          duplicates_dropped = add_u64 b.stats.duplicates_dropped batch.duplicates_dropped;
        };
      })
