-- ===== src/Schema/Partitions.antt =====
-- The partition of a row: rustapps/crypto-batcher/src/schema.rs, `unbound_partition_spec`, on the rows of
-- `to_record_batch`.
use crypto_lakehouse.Prelude.{
  List, Option, [], ap, arith, div_euclid, map, none, pos, some, ℕ, ℤ, ◌*◌, ◌++◌, ◌/◌, ◌∙◌, ◌∷◌,
  ◌≡◌, ◌≤◌,
}
use crypto_lakehouse.Trade.{TradeEvent}
use crypto_lakehouse.Table.{Row}
use crypto_lakehouse.Schema.{
  PartitionField, Transform, identity, day, table_schema, to_row, unbound_partition_spec,
}
use crypto_lakehouse.Schema.Fields.{Value, columns, int64, timestamp_micros, under_id, utf8}
use crypto_lakehouse.Schema.Times.{last_milli, micros_per_day, trade_ts_iff}

-- Iceberg's transforms: the value itself, and the number of days since the epoch.
abbrev pub transformed : Transform → Option Value → Option Value
transformed identity v = v
transformed day (some (timestamp_micros t)) = some (int64 (div_euclid t micros_per_day))
transformed day _ = none

-- What the fields of a partition spec make of a row.
unfoldable pub partition : List PartitionField → Row → List (Option Value)
unfolding columns
partition [] r = []
partition (f ∷ fs) r =
    map (transformed f.transform) (under_id f.source_id table_schema.fields (columns r))
    ++ partition fs r

-- A trade whose microseconds are an `i64` is filed under its exchange and the day of the trade, the milliseconds
-- of the event divided by those of a day: by the day of the trade and not of the event, and milliseconds
-- are never taken for microseconds.
pub partition-to_row :
    (e : TradeEvent)
    → e.trade_time ≤ last_milli
    → partition unbound_partition_spec (to_row e)
      ≡ some (utf8 e.exchange) ∷ some (int64 (pos (e.trade_time / 86400000))) ∷ []
unfolding partition to_row
partition-to_row e h =
    let days : e.trade_time * 1000 / micros_per_day ≡ e.trade_time / 86400000 = omega arith in
    let at : (to_row e).trade_ts ≡ some (pos (e.trade_time * 1000)) = (trade_ts_iff e).1 h in
    ap
      (λ (t : Option ℤ).
        some (utf8 e.exchange)
        ∷ transformed day (elim t [ none ↦ none | some n ↦ some (timestamp_micros n) ])
        ∷ [])
      at
    ∙ ap (λ (d : ℕ). some (utf8 e.exchange) ∷ some (int64 (pos d)) ∷ []) days
