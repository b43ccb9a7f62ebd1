-- ===== src/Schema.antt =====
-- rustapps/crypto-batcher/src/schema.rs: the Iceberg schema of the trades table, its partition spec,
-- and the projection of a micro-batch to rows. A record batch is the list of its rows.
pub mod Times
pub mod Fields
pub mod Partitions
use crypto_lakehouse.Prelude.{List, String, [], as_i64, map, scale_ℤ, some, wrap_i64, ℕ, ℤ, ◌∷◌}
use crypto_lakehouse.Trade.{TradeEvent}
use crypto_lakehouse.Table.{Row}

pub data PrimitiveType : Type 0 where
  long string double boolean timestamptz : PrimitiveType

pub record NestedField : Type 0 where
  pub id : ℕ
  pub name : String
  pub field_type : PrimitiveType

-- `NestedField::required`.
abbrev required_field : ℕ → String → PrimitiveType → NestedField
required_field id name t = record { id = id; name = name; field_type = t }

abbrev pub id_event_time : ℕ
id_event_time = 1

abbrev pub id_symbol : ℕ
id_symbol = 2

abbrev pub id_exchange : ℕ
id_exchange = 3

abbrev pub id_trade_id : ℕ
id_trade_id = 4

abbrev pub id_price : ℕ
id_price = 5

abbrev pub id_quantity : ℕ
id_quantity = 6

abbrev pub id_trade_time : ℕ
id_trade_time = 7

abbrev pub id_is_buyer_maker : ℕ
id_is_buyer_maker = 8

abbrev pub id_is_best_price_match : ℕ
id_is_best_price_match = 9

abbrev pub id_trade_ts : ℕ
id_trade_ts = 10

abbrev pub id_event_ts : ℕ
id_event_ts = 11

pub record IcebergSchema : Type 0 where
  pub schema_id : ℕ
  pub identifier_field_ids : List ℕ
  pub fields : List NestedField

abbrev pub table_schema : IcebergSchema
table_schema = record {
  schema_id = 1;
  identifier_field_ids = id_exchange ∷ id_symbol ∷ id_trade_id ∷ [];
  fields =
      required_field id_event_time "event_time" long
      ∷ required_field id_symbol "symbol" string
      ∷ required_field id_exchange "exchange" string
      ∷ required_field id_trade_id "trade_id" long
      ∷ required_field id_price "price" double
      ∷ required_field id_quantity "quantity" double
      ∷ required_field id_trade_time "trade_time" long
      ∷ required_field id_is_buyer_maker "is_buyer_maker" boolean
      ∷ required_field id_is_best_price_match "is_best_price_match" boolean
      ∷ required_field id_trade_ts "trade_ts" timestamptz
      ∷ required_field id_event_ts "event_ts" timestamptz
      ∷ [];
}

pub data Transform : Type 0 where
  identity day : Transform

pub record PartitionField : Type 0 where
  pub source_id : ℕ
  pub name : String
  pub transform : Transform

abbrev pub unbound_partition_spec : List PartitionField
unbound_partition_spec =
    record { source_id = id_exchange; name = "exchange"; transform = identity }
    ∷ record { source_id = id_trade_ts; name = "trade_ts_day"; transform = day }
    ∷ []

-- Epoch milliseconds to epoch microseconds.
abbrev pub micros_per_milli : ℕ
micros_per_milli = 1000

-- A product of two `i64`; the release build wraps.
abbrev pub micros_of : ℤ → ℤ
micros_of ms = wrap_i64 (scale_ℤ micros_per_milli ms)

unfoldable pub to_row : TradeEvent → Row
unfolding wrap_i64
to_row row =
    let trade_time_ms = as_i64 row.trade_time in
    let event_time_ms = as_i64 row.event_time in
    record {
      event_time = some event_time_ms;
      symbol = some row.symbol;
      exchange = some row.exchange;
      trade_id = some (as_i64 row.trade_id);
      price = some row.price;
      quantity = some row.quantity;
      trade_time = some trade_time_ms;
      is_buyer_maker = some row.is_buyer_maker;
      is_best_price_match = some row.is_best_price_match;
      trade_ts = some (micros_of trade_time_ms);
      event_ts = some (micros_of event_time_ms);
    }

unfoldable pub to_record_batch : List TradeEvent → List Row
unfolding to_row
to_record_batch rows = map to_row rows
