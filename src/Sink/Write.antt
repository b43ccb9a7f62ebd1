-- ===== src/Sink/Write.antt =====
-- The writes of `IcebergSink` in rustapps/crypto-batcher/src/sink.rs: `write_records`, `write_files`,
-- `write_batch`, `append_records`.
pub mod Records
pub mod Batch
pub mod Redelivery
pub mod Stuck
use crypto_lakehouse.Prelude.{
  List, [], count_distinct, length, map, sum_of, u64_mod, ℕ, ◌%◌, ◌-◌, ◌∷◌,
}
use crypto_lakehouse.Result.{Result, ok, err}
use crypto_lakehouse.Action.{Action, ◌>>=◌, ◌>>◌, pure, lift, gets, with_context, under}
use crypto_lakehouse.Trade.{TradeEvent}
use crypto_lakehouse.Table.{Row}
use crypto_lakehouse.Schema.{to_record_batch}
use crypto_lakehouse.Sink.Stats.{ProbeStats, WriteStats, AppendStats, no_write, no_append}
use crypto_lakehouse.Sink.Lake.{Lake}
use crypto_lakehouse.Sink.State.{Sink, outside, reads}
use crypto_lakehouse.Sink.Dedup.{deduped_batch}
use crypto_lakehouse.Sink.Commit.{commit}

module _ {W : Type 0} (L : Lake W) where
  unfoldable pub arrow_schema : Action (Sink L) L.Schema
  arrow_schema = do
    table ← gets (λ s. s.table)
    with_context "failed to convert iceberg schema to arrow" (lift (L.schema_to_arrow_schema table))

  -- Every partition's rows to the writer.
  unfoldable pub write_parts :
      List (L.PartitionKey × List Row) → L.Writer → Action (Sink L) L.Writer
  write_parts [] writer = pure writer
  write_parts ((partition_key, part) ∷ rest) writer = do
    writer' ←
        with_context "failed to write partition rows"
          (outside L (L.write partition_key part writer))
    write_parts rest writer'

  unfoldable pub write_records : List Row → Action (Sink L) (List L.DataFile)
  unfolding write_parts
  write_records batch = do
    table ← gets (λ s. s.table)
    splitter ← with_context "failed to build partition splitter" (lift (L.try_new_splitter table))
    partitions ← with_context "failed to split rows by partition" (lift (L.split splitter batch))
    location ←
        with_context "failed to derive data location from table metadata"
          (lift (L.location_generator table))
    writer ← write_parts partitions (L.new_writer table location)
    with_context "failed to close parquet writer" (outside L (L.close writer))

  unfoldable pub write_files : List TradeEvent → Action (Sink L) (List L.DataFile × ProbeStats)
  unfolding arrow_schema deduped_batch write_records
  write_files rows = do
    schema ← arrow_schema
    batch ←
        with_context "failed to build arrow record batch"
          (lift (L.try_new schema (to_record_batch rows)))
    found ← deduped_batch L batch schema
    deduped ← lift (L.concat_batches schema found.0)
    data_files ← write_records deduped
    pure (data_files, found.1)

  abbrev partitions_of : List L.DataFile → ℕ
  partitions_of files = count_distinct L.same_partition (map L.partition files)

  abbrev bytes_of : List L.DataFile → ℕ
  bytes_of files = sum_of L.file_size_in_bytes files % u64_mod

  unfoldable pub write_batch : List TradeEvent → Action (Sink L) WriteStats
  unfolding write_files
  write_batch [] = pure no_write
  write_batch (row ∷ rest) = do
    write_start ← reads L L.now
    written ← write_files (row ∷ rest)
    write_end ← reads L L.now
    commit_start ← reads L L.now
    commit L written.0
    commit_end ← reads L L.now
    pure (record {
      rows = length (row ∷ rest);
      files = length written.0;
      partitions = partitions_of written.0;
      bytes = bytes_of written.0;
      write_elapsed = write_end - write_start;
      commit_elapsed = commit_end - commit_start;
      probe = written.1;
    })

  unfoldable pub append_records : List Row → Action (Sink L) AppendStats
  unfolding arrow_schema write_records
  append_records [] = pure no_append
  append_records (row ∷ rest) = do
    schema ← arrow_schema
    batch ←
        with_context "input batch does not match the destination schema"
          (lift (L.try_new schema (row ∷ rest)))
    write_start ← reads L L.now
    data_files ← write_records batch
    write_end ← reads L L.now
    commit_start ← reads L L.now
    commit L data_files
    commit_end ← reads L L.now
    pure (record {
      rows = length (row ∷ rest);
      files = length data_files;
      partitions = partitions_of data_files;
      bytes = bytes_of data_files;
      write_elapsed = write_end - write_start;
      commit_elapsed = commit_end - commit_start;
    })
