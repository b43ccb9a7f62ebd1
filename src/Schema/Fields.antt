-- ===== src/Schema/Fields.antt =====
-- rustapps/crypto-batcher/src/schema.rs: the arrays of a record batch, against the table's schema.
use crypto_lakehouse.Prelude.{
  All, Bool, List, Option, String, [], if◌then◌else◌, map, nat_beq, none, refl, some, ℕ, ℤ, ◌++◌,
  ◌∷◌, ◌≡◌,
}
use crypto_lakehouse.Trade.{TradeEvent, Key, key_of}
use crypto_lakehouse.Table.{Row}
use crypto_lakehouse.Schema.{
  NestedField, PrimitiveType, boolean, double, long, string, table_schema, timestamptz, to_row,
  to_record_batch,
}

-- A value of one of the builders, an `f64` by its bit pattern and a timestamp in microseconds.
pub data Value : Type 0 where
  int64 : ℤ → Value
  utf8 : String → Value
  float64 : ℕ → Value
  boolean_value : Bool → Value
  timestamp_micros : ℤ → Value

abbrev pub type_of : Value → PrimitiveType
type_of (int64 n) = long
type_of (utf8 s) = string
type_of (float64 bits) = double
type_of (boolean_value b) = boolean
type_of (timestamp_micros t) = timestamptz

abbrev pub cell : {A : Type 0} → (A → Value) → Option A → Option Value
cell f none = none
cell f (some a) = some (f a)

-- What a row has in each array of `columns`.
unfoldable pub columns : Row → List (Option Value)
columns r =
    cell int64 r.event_time
    ∷ cell utf8 r.symbol
    ∷ cell utf8 r.exchange
    ∷ cell int64 r.trade_id
    ∷ cell float64 r.price
    ∷ cell float64 r.quantity
    ∷ cell int64 r.trade_time
    ∷ cell boolean_value r.is_buyer_maker
    ∷ cell boolean_value r.is_best_price_match
    ∷ cell timestamp_micros r.trade_ts
    ∷ cell timestamp_micros r.event_ts
    ∷ []

abbrev type_within : Option Value → Option PrimitiveType
type_within none = none
type_within (some v) = some (type_of v)

-- One value for each field, of the field's type and not NULL.
abbrev pub Fits : List NestedField → List (Option Value) → Type 0
Fits fields values = map type_within values ≡ map (λ (f : NestedField). some f.field_type) fields

-- The values under the fields with an id; one field has it.
abbrev pub under_id : ℕ → List NestedField → List (Option Value) → List (Option Value)
under_id id (f ∷ fs) (v ∷ vs) = if nat_beq f.id id then v ∷ under_id id fs vs else under_id id fs vs
under_id id _ _ = []

abbrev under_ids : List ℕ → List NestedField → List (Option Value) → List (Option Value)
under_ids [] fs vs = []
under_ids (id ∷ ids) fs vs = under_id id fs vs ++ under_ids ids fs vs

-- What the table's schema says identifies a row.
unfoldable pub identifier : Row → List (Option Value)
unfolding columns
identifier r = under_ids table_schema.identifier_field_ids table_schema.fields (columns r)

abbrev pub key_values : Key → List (Option Value)
key_values k = some (utf8 k.exchange) ∷ some (utf8 k.symbol) ∷ some (int64 k.trade_id) ∷ []

row-Fits : (e : TradeEvent) → Fits table_schema.fields (columns (to_row e))
unfolding columns to_row
row-Fits e = refl

row-identifier : (e : TradeEvent) → identifier (to_row e) ≡ key_values (key_of e)
unfolding identifier to_row key_of
row-identifier e = refl

-- Every row of the batcher's record batch has for each field of the table's schema, in order, a value of the
-- field's type that is not NULL, and what the schema's identifier fields hold are the keys by which the
-- batcher compares the trades, in the order of the trades.
pub to_record_batch-Fits :
    (rows : List TradeEvent)
    → All (λ r. Fits table_schema.fields (columns r)) (to_record_batch rows)
      × (map identifier (to_record_batch rows) ≡ map (λ e. key_values (key_of e)) rows)
unfolding to_record_batch
to_record_batch-Fits [] = (tt, refl)
to_record_batch-Fits (e ∷ rows) =
    let (fit, same) = to_record_batch-Fits rows in
    ((row-Fits e, fit), λ i. row-identifier e i ∷ same i)
