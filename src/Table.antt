-- ===== src/Table.antt =====
-- The rows of a `trades` table: the eleven columns of rustapps/crypto-batcher/src/schema.rs, in table
-- order, each of which may be NULL (the target's are required, a source table's are not). Timestamps
-- are microseconds since the epoch.
use crypto_lakehouse.Prelude.{
  Bool, List, Option, String, [], false, int_eq, nat_eq, none, some, string_eq, sym, ℕ, ℤ, ◌==◌,
  ◌||◌, ◌∷◌,
}
use crypto_lakehouse.Trade.{Key, key_eq}

pub record Row : Type 0 where
  pub event_time : Option ℤ
  pub symbol : Option String
  pub exchange : Option String
  pub trade_id : Option ℤ
  pub price : Option ℕ
  pub quantity : Option ℕ
  pub trade_time : Option ℤ
  pub is_buyer_maker : Option Bool
  pub is_best_price_match : Option Bool
  pub trade_ts : Option ℤ
  pub event_ts : Option ℤ

-- The key by which SQL joins two rows on `(exchange, symbol, trade_id)`. A row with a NULL in it joins
-- with none.
abbrev pub key_of_columns : Option String → Option String → Option ℤ → Option Key
key_of_columns (some ex) (some sym) (some id) =
    some (record { exchange = ex; symbol = sym; trade_id = id })
key_of_columns _ _ _ = none

abbrev pub sql_key : Row → Option Key
sql_key r = key_of_columns r.exchange r.symbol r.trade_id

-- Some row of the list has the key.
abbrev pub has_key : List Row → Key → Bool
has_key [] k = false
has_key (r ∷ rs) k = elim (sql_key r) [ none ↦ false | some j ↦ j == k ] || has_key rs k
