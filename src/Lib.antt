-- ===== src/Lib.antt =====
-- The crypto lakehouse: trades from an exchange into an Iceberg table.
--
-- The collector publishes trades to a NATS JetStream stream. The batcher (rustapps/crypto-batcher)
-- pulls them, buffers them into micro-batches, drops the duplicates of a batch, writes each batch
-- as one snapshot of an Iceberg table without the rows that are committed already, and acknowledges
-- the messages once their batch is settled. The query tools (rustapps/crypto-iceberg-query) append
-- the rows of a query to the same table through the batcher's sink.
--
-- Files and what they model; source.rs, schema.rs, batcher.rs, sink.rs and config.rs are those of
-- rustapps/crypto-batcher/src, append.rs and lib.rs those of rustapps/crypto-iceberg-query/src:
--   Prelude, Result, Action: shared helpers: lists, equality, machine integers;
--       `anyhow::Result`; async methods over `&mut self` as state passing, where an error keeps
--       what was changed; Action.Ends has the rules for what holds when a method ends.
--   Trade, Table, Schema: rustapps/crypto-data/proto/trade_event.proto and schema.rs of the
--       batcher: the event, a row of the table, `table_schema`, `to_record_batch`. Schema.Times:
--       times. Schema.Fields: the arrays of a batch against the schema. Schema.Partitions: partitions.
--   Source: source.rs: Ack (`Ack`, `Envelope`), Pull (`process_message`, `drain_batch`, the loop
--       of `spawn_nats_source`), Consumer (`effective_ack_wait`, `ensure_consumer`),
--       Spawn (what `spawn_nats_source` does before its loop).
--   Batcher: batcher.rs: Accumulator (`Accumulator`), Flush (`Stats`, `flush`), Run (`run`, over
--       a schedule of what `tokio::select!` delivers).
--   Sink: sink.rs: Open (`ensure_table`), Connect (`connect`, `with_catalog`,
--       `probe_view_provider`), Pruning (`build_pruning_expr`), Dedup (`probe_stats`,
--       `dedup_probe`, `deduped_batch`), Commit (`commit`, `commit_once`, `reload`), Write
--       (`write_records`, `write_files`, `write_batch`, `append_records`).
--   Append: append.rs of the query tools: `flush`, `stream_into`, Open (`open`), Through (a query's
--       rows through an opened sink).
--   Query: lib.rs of the query tools: `checked_qualified_name`, `count_from`, Session
--       (`EngineOptions`, `iceberg_session`, `peak_rss_mib`), Visible and Answers
--       (`ensure_visible` of append.rs), Engine (what runs the queries).
--   Ranking: the window function that dedup.rs and backfill.rs of
--       rustapps/crypto-iceberg-query/src/bin both select by.
--   Deduplication: dedup.rs: `ranked_cte`, `audit_sql`, `rewrite_sql`, `main`.
--   Backfill: backfill.rs: `candidate_ctes` (`src_ranked`, `target_keys`, `missing`),
--       `CANDIDATE_PROJECTION` (`project`), `audit_sql`, `candidate_sql`, and in Main `main`, `run`.
--   Collector: mod.rs and binance_web_socket.rs of rustapps/crypto-data/src/data (the events,
--       `handle_message`, `the_big_loop`), and the reconnect loop of
--       rustapps/crypto-collector/src/main.rs.
--   Config: config.rs of the batcher: the accessors of the environment for text and integers, Text
--       (durations, sizes, flags), Settings (both `from_env`; `catalog_props` and `parse_codec` of
--       sink.rs).
--   Pipeline: the batch loop with the program's own sink.
--   Start: main.rs of the batcher: `main`, with and without `--ensure-only`.
--   Tests: concrete runs.
--
-- The code that the program calls and does not contain is a parameter: `Lake` for one table (catalog,
-- DataFusion session, arrow, writers, clock) with `Laws` for its documented behaviour, `Server` and
-- `Client` for JetStream, `Catalog` for the creation of the table, `Evaluator` for DataFusion's
-- expressions, the decoder of the payloads, the channel, the server behind the acks, the JSON parser,
-- the encoder and the publisher; `Connector`, which has the lake of each table in one world, for
-- opening a sink, `Libraries` for the tools' session, `Engine` with
-- `EngineLaws` for running a query, `Float` for `f64`, `ZstdLevels` for the codec. Rows are counted
-- under every predicate, since neither a join nor a writer keeps an order. Tests.Lakes has a lake
-- in memory for which the laws hold, and Tests.Tools an engine on it.
--
-- What is taken from outside and may fail to hold: an append that the catalog answers with an error has added
-- nothing (`fast_append_err`); while a tool runs, and in the theorems on the commits, no other process commits;
-- the `trade_ts` column is a timestamp, for any other type `build_pruning_expr` panics.
--
-- Times and durations are numbers of nanoseconds; `u64` and `usize` sums and the casts to `i64`
-- wrap. The commit loop has fuel, the largest number of attempts, which its own test never exceeds.
-- The other loops run over the list of what the environment delivers.
--
-- A query of the tools is the function from the rows of its tables to its result that its SQL text
-- denotes: a table is a list in the order of the scan, which may be any; NULL is equal to NULL in
-- `PARTITION BY` and `DISTINCT`, joins nothing, is in no range and sorts last; rows that tie are
-- numbered in the order of the scan. The bounds of a range and the margin are integers, without the
-- limits of DataFusion's timestamps. The messages of errors stand without their arguments.
--
-- Not modelled: command lines, tracing, `writer_properties`, the sockets of the exchange, the row counts
-- for each day of the query binary; the pause of a second after a failed write. The `f64` fields are only
-- copied, so they are kept as bit patterns.
pub mod Prelude
pub mod Result
pub mod Trade
pub mod Source
pub mod Start
pub mod Batcher
pub mod Sink
pub mod Table
pub mod Schema
pub mod Action
pub mod Append
pub mod Ranking
pub mod Deduplication
pub mod Backfill
pub mod Query
pub mod Collector
pub mod Config
pub mod Pipeline
pub mod Tests
